-- ===== src/Gateway/World/Probing.antt =====
-- The invariant while the probe request of a half-open circuit is out.
use inuself.Base.{
  ℕ, ◌+◌, ◌-◌, String, ◌≡◌, ◌≢◌, refl, sym, ap, ◌∙◌, inl, inr, Bool, true, false, ◌&&◌, ◌||◌, some,
  List, [], ◌∷◌, if◌then◌else◌, ◌==◌, String_eq, ==_iff, ==_refl, lookup, lookup-insert, Result, ok,
  err, get_elem?, set, count, count-set, count-append, arith, All, Option-cases, Bool-cases,
}
use inuself.Gateway.Specs.{ProviderSpec}
use inuself.Gateway.Pool.{
  ProviderState, ProviderPool, ProviderLease, PoolError, Attempt, leased, raised, waits_for,
  attempt, with_state, circuit_available, occupy, release, record_success, record_failure, probe,
}
use inuself.Gateway.Pool.Admission.{attempt-leased}
use inuself.Gateway.World.{
  World, Call, acquires, acquires_explicit, releases, succeeds, fails, probes, turn, granted,
  changed, holds, release_lease, step, run,
}
use inuself.Gateway.World.Places.{get_elem?-append, get_elem?-first, get_elem?-set, get_elem?-other}
use inuself.Gateway.World.Marked.{Out, changed-leases, with_state-Out}

-- The calls that neither end the request with the lease `i` nor record an outcome of a request to
-- the provider.
abbrev pub Quiet : String → ℕ → Call → Type 0
Quiet name i (releases j) = j ≢ i
Quiet name i (succeeds n) = n ≢ name
Quiet name i (fails now n) = n ≢ name
Quiet name i c = Unit

abbrev pub is_on : String → ProviderLease → Bool
is_on name l = l.spec.name == name

module _ (l : ProviderLease) (i open_until on_it : ℕ) (half : l.half_open ≡ true)
    (unreleased : l.released ≡ false) (opened : open_until ≢ 0) where
  -- The lease `i` is the probe of its provider, no other is, and `on_it` leases were granted there.
  pub record Probing (w : World) : Type 0 where
    pub marked : Out l.spec.name open_until w.pool
    pub mine : get_elem? w.leases i ≡ some l
    pub sole :
        (j : ℕ) (k : ProviderLease)
        → get_elem? w.leases j ≡ some k
        → (holds l.spec.name k && k.half_open) ≡ true
        → j ≡ i
    pub counted : count (is_on l.spec.name) w.leases ≡ on_it

  -- A change of a state that keeps the probe of the provider.
  with_state-Probing :
      (n : String) (w : World) (f : ProviderState → ProviderState)
      → ((st : ProviderState)
          → n ≡ l.spec.name
          → st.half_open_probe ≡ true
          → ((f st).circuit_open_until ≡ st.circuit_open_until) × ((f st).half_open_probe ≡ true))
      → Probing w
      → Probing (changed w (with_state n f w.pool))
  with_state-Probing n w f same h =
      let leases = changed-leases w (with_state n f w.pool) in
      record {
        marked = with_state-Out l.spec.name n open_until w f same h.marked;
        mine = rw leases h.mine;
        sole = λ j k at held. h.sole j k (rw leases at at) held;
        counted = rw leases h.counted;
      }

  -- Nobody else gets through while the probe is out.
  granted-other :
      (w : World) (p' : ProviderPool) (now time deadline : ℕ) (specs : List ProviderSpec)
      (preferred : String) (k : ProviderLease)
      → Probing w
      → attempt w.pool now time deadline specs preferred ≡ leased p' k
      → (k.spec.name == l.spec.name) ≡ false
  unfolding circuit_available
  granted-other w p' now time deadline specs preferred k h grant =
      let (made, fresh, (st, at, circuit)) =
        attempt-leased w.pool p' now time deadline specs preferred k grant in
      let (st', at', until, probing) = h.marked in
      elim (Bool-cases (k.spec.name == l.spec.name)) [
        | inr other ↦ other
        | inl hit ↦
            let own : k.spec.name ≡ l.spec.name = (==_iff k.spec.name l.spec.name).0 hit in
            let one : st ≡ st' = cc (rw own at at, at') in
            absurd (opened (ground (arith, rw one at circuit, until, probing)))
      ]

  occupy-other :
      (s : ProviderSpec) (h : Bool) (p : ProviderPool)
      → (s.name == l.spec.name) ≡ false
      → lookup l.spec.name (occupy s h p).states ≡ lookup l.spec.name p.states
  unfolding occupy
  occupy-other s h p other = elim (Option-cases (lookup s.name p.states)) [
    | inl miss ↦ rw (miss, occupy) refl
    | inr (st, at) ↦
        rw (at, occupy)
          (rw
            (
              lookup-insert s.name l.spec.name
                  (record st {
                    inflight = st.inflight + 1;
                    half_open_probe = h || st.half_open_probe;
                  })
                  p.states,
              other,
            )
            refl)
  ]

  granted-Probing :
      (w : World) (now time deadline : ℕ) (specs : List ProviderSpec) (preferred : String)
      (a : Attempt)
      → attempt w.pool now time deadline specs preferred ≡ a
      → Probing w
      → Probing (granted w a)
  granted-Probing w now time deadline specs preferred (raised x) e h = h
  granted-Probing w now time deadline specs preferred (waits_for wait remaining) e h = h
  granted-Probing w now time deadline specs preferred (leased p' k) e h =
      let (made, fresh, (st, at, circuit)) =
        attempt-leased w.pool p' now time deadline specs preferred k e in
      let other = granted-other w p' now time deadline specs preferred k h e in
      let (st', at', until, probing) = h.marked in
      record {
        marked = (
          st',
          ap (λ p. lookup l.spec.name p.states) made
              ∙ (occupy-other k.spec k.half_open w.pool other ∙ at'),
          until,
          probing,
        );
        mine = get_elem?-first w.leases k l i h.mine;
        sole = λ j x there held. elim (get_elem?-append w.leases k x j there) [
          | inl (last, same) ↦
              let here : is_on l.spec.name x ≡ true = ground (arith, held) in
              absurd (cc (other, ap (is_on l.spec.name) same, here))
          | inr before ↦ h.sole j x before held
        ];
        counted =
            ground (arith, count-append (is_on l.spec.name) w.leases (k ∷ []), other, h.counted);
      }

  turn-Probing :
      (w : World) (now time deadline : ℕ) (preferred : String)
      (r : Result PoolError (List ProviderSpec))
      → Probing w
      → Probing (turn w now time deadline preferred r)
  unfolding turn
  turn-Probing w now time deadline preferred (err e) h = h
  turn-Probing w now time deadline preferred (ok specs) h =
      granted-Probing w now time deadline specs preferred _ refl h

  -- The release of another lease.
  marked_released :
      (w : World) (j : ℕ) (k : ProviderLease)
      → j ≢ i
      → get_elem? w.leases j ≡ some k
      → Probing w
      → Probing (record w { leases = set w.leases j (record k { released = true }) })
  marked_released w j k apart there h = record {
    marked = h.marked;
    mine = get_elem?-other w.leases j (record k { released = true }) i apart ∙ h.mine;
    sole = λ m x at held. elim (get_elem?-set w.leases j (record k { released = true }) x m at) [
      | inl same ↦
          let gone : x.released ≡ true = ap (λ y. y.released) (sym same) in
          absurd (ground (arith, held, gone))
      | inr before ↦ h.sole m x before held
    ];
    counted = ground (
      arith,
      count-set (is_on l.spec.name) w.leases j k (record k { released = true }) there,
      h.counted,
    );
  }

  release-Probing : (w : World) (j : ℕ) → j ≢ i → Probing w → Probing (release_lease j w)
  unfolding release_lease release
  release-Probing w j apart h = elim (Option-cases (get_elem? w.leases j)) [
    | inl e ↦ rw (e, release_lease) h
    | inr (k, there) ↦ elim (Bool-cases k.released) [
      | inl gone ↦ rw (there, gone, release_lease) h
      | inr out ↦
          rw (there, out, release_lease)
            (with_state-Probing k.spec.name
              (record w { leases = set w.leases j (record k { released = true }) })
              (λ st. record st {
                inflight = st.inflight - 1;
                half_open_probe = if k.half_open then false else st.half_open_probe;
              })
              (λ st own probing. (
                refl,
                elim (Bool-cases k.half_open) [
                  | inr plain ↦ rw plain probing
                  | inl probe ↦ absurd (
                      apart (
                        h.sole j k there
                          (ground (arith, out, probe, (==_iff k.spec.name l.spec.name).1 own))))
                ],
              ))
              (marked_released w j k apart there h))
    ]
  ]

  step-Probing : (w : World) (c : Call) → Quiet l.spec.name i c → Probing w → Probing (step w c)
  unfolding step record_success record_failure probe
  step-Probing w (acquires now time deadline workload reasoning scope exclude) q h =
      turn-Probing w now time deadline "preferred" _ h
  step-Probing w (acquires_explicit now time deadline name) q h =
      turn-Probing w now time deadline "explicit-codex" _ h
  step-Probing w (releases j) q h = release-Probing w j q h
  step-Probing w (succeeds name) q h = elim (Option-cases (lookup name w.pool.specs)) [
    | inl miss ↦ rw miss h
    | inr (spec, found) ↦ rw found (with_state-Probing name w _ (λ st own. absurd (q own)) h)
  ]
  step-Probing w (fails now name) q h = with_state-Probing name w _ (λ st own. absurd (q own)) h
  step-Probing w (probes name response) q h = elim (Option-cases (lookup name w.pool.specs)) [
    | inl miss ↦ rw (miss, step) h
    | inr (spec, found) ↦
        rw (found, step)
          (with_state-Probing spec.name w _ (λ st own half. (ground arith, ground (arith, half))) h)
  ]

  pub run-Probing :
      (w : World) (cs : List Call) → All (Quiet l.spec.name i) cs → Probing w → Probing (run w cs)
  unfolding run
  run-Probing w [] qs h = h
  run-Probing w (c ∷ cs) (q, qs) h = run-Probing (step w c) cs qs (step-Probing w c q h)

  -- The release of the probe's own lease lets the next one through when it is due.
  pub Probing-released :
      (w : World)
      → Probing w
      → (st : ProviderState) × (lookup l.spec.name (release_lease i w).pool.states ≡ some st)
        × (st.circuit_open_until ≡ open_until)
        × (st.half_open_probe ≡ false)
  unfolding release_lease release
  Probing-released w h =
      let (st, at, until, probing) = h.marked in
      let free = record st {
        inflight = st.inflight - 1;
        half_open_probe = if l.half_open then false else st.half_open_probe;
      } in
      (
        free,
        rw (h.mine, unreleased, at, release_lease)
            (rw (lookup-insert l.spec.name l.spec.name free w.pool.states, ==_refl l.spec.name)
              refl),
        until,
        rw half refl,
      )
