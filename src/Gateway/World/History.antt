-- ===== src/Gateway/World/History.antt =====
-- The invariant of World.Capacity over every history of calls, and the release of a lease.
use inuself.Base.{
  ℕ, zero, suc, ◌+◌, ◌-◌, String, ◌≡◌, refl, inl, inr, true, false, none, some, List, [], ◌∷◌,
  if◌then◌else◌, ◌==◌, String_eq, ==_refl, Dict, lookup, lookup-insert, Result, ok, err, get_elem?,
  set, count-set, one_if, arith, Option-cases, All,
}
use inuself.Gateway.Specs.{ProviderSpec, PoolSettings}
use inuself.Gateway.Pool.{
  ProviderState, ProviderLease, PoolError, release, record_success, record_failure, probe,
  init_states, initial_state,
}
use inuself.Gateway.World.Capacity.{Sound, changes}
use inuself.Gateway.World.Calls.{
  Registered, grant-Sound, release_lease-Sound, unchanged_load, acquire-Registered,
  explicit-Registered,
}
use inuself.Gateway.World.{
  turn, acquires, acquires_explicit, releases, succeeds, fails, probes, World, Call, step, run,
  start, holds, outstanding, release_lease,
}

turn-Sound :
    (w : World) (now time deadline : ℕ) (preferred : String)
    (r : Result PoolError (List ProviderSpec))
    → ((specs : List ProviderSpec) → r ≡ ok specs → All (Registered w) specs)
    → Sound w
    → Sound (turn w now time deadline preferred r)
unfolding turn
turn-Sound w now time deadline preferred (err e) reg h = h
turn-Sound w now time deadline preferred (ok specs) reg h =
    grant-Sound w now time deadline specs preferred (reg specs refl) h

step-Sound : (w : World) (c : Call) → Sound w → Sound (step w c)
unfolding step record_success record_failure probe
step-Sound w (acquires now time deadline workload reasoning scope exclude) h =
    turn-Sound w now time deadline "preferred" _
      (λ specs e. acquire-Registered w workload reasoning scope exclude specs h e) h
step-Sound w (acquires_explicit now time deadline name) h =
    turn-Sound w now time deadline "explicit-codex" _
      (λ specs e. explicit-Registered w name specs h e) h
step-Sound w (releases i) h = release_lease-Sound i w h
step-Sound w (succeeds name) h = elim (Option-cases (lookup name w.pool.specs)) [
  | inl miss ↦ rw miss h
  | inr (spec, found) ↦ rw found (unchanged_load w name _ (λ st. refl) h)
]
step-Sound w (fails now name) h = unchanged_load w name _ (λ st. ground arith) h
step-Sound w (probes name response) h = elim (Option-cases (lookup name w.pool.specs)) [
  | inl miss ↦ rw (miss, step) h
  | inr (spec, found) ↦ rw (found, step) (unchanged_load w spec.name _ (λ st. ground arith) h)
]

run-Sound : (w : World) (cs : List Call) → Sound w → Sound (run w cs)
unfolding run
run-Sound w [] h = h
run-Sound w (c ∷ cs) h = run-Sound (step w c) cs (step-Sound w c h)

lookup-initial :
    (n : String) (specs : Dict String ProviderSpec)
    → lookup n (init_states specs)
      ≡ (elim (lookup n specs) [ none ↦ none | some s ↦ some (initial_state s) ])
unfolding init_states
lookup-initial n [] = refl
lookup-initial n ((m, s) ∷ specs) = ground (arith, lookup-initial n specs)

-- At the start every provider of the policy has a state, and no load.
start-Sound :
    (settings : PoolSettings) (specs : Dict String ProviderSpec)
    (routes : Dict String (List String))
    → ((n : String) (s : ProviderSpec) → lookup n specs ≡ some s → s.name ≡ n)
    → Sound (start settings specs routes)
unfolding start initial_state
start-Sound settings specs routes named = record {
  named = named;
  known = λ n s e. (initial_state s, rw (lookup-initial n specs, e));
  counted = λ n st e. ground (arith, lookup-initial n specs, e);
  within = λ n s st found e. ground (arith, lookup-initial n specs, found, e);
}

-- After any history of acquisitions, releases, outcomes and probes, from the start of a pool whose
-- providers are stored under their names: every provider of the policy still has its state, its
-- load is the number of its leases that are not released, and the load is within its limit.
pub run-start-Sound :
    (settings : PoolSettings) (specs : Dict String ProviderSpec)
    (routes : Dict String (List String)) (cs : List Call)
    → ((n : String) (s : ProviderSpec) → lookup n specs ≡ some s → s.name ≡ n)
    → Sound (run (start settings specs routes) cs)
run-start-Sound settings specs routes cs named =
    run-Sound (start settings specs routes) cs (start-Sound settings specs routes named)

get_elem?-set {ℓ} :
    {A : Type ℓ} (xs : List A) (i : ℕ) (x y : A)
    → get_elem? xs i ≡ some x
    → get_elem? (set xs i y) i ≡ some y
get_elem?-set [] i x y e = cc
get_elem?-set (z ∷ xs) zero x y e = refl
get_elem?-set (z ∷ xs) (suc i) x y e = get_elem?-set xs i x y e

-- The world after the first release of the lease `l` at place `i`.
abbrev given_back : World → ℕ → ProviderLease → ProviderState → World
given_back w i l st =
    changes w l.spec.name
      (record st {
        inflight = st.inflight - 1;
        half_open_probe = if l.half_open then false else st.half_open_probe;
      })
      (set w.leases i (record l { released = true }))

release_first :
    (w : World) (i : ℕ) (l : ProviderLease) (st : ProviderState)
    → get_elem? w.leases i ≡ some l
    → l.released ≡ false
    → lookup l.spec.name w.pool.states ≡ some st
    → release_lease i w ≡ given_back w i l st
unfolding release_lease release
release_first w i l st e out at = rw (e, out, at, release_lease)

release_again :
    (w : World) (i : ℕ) (l : ProviderLease)
    → get_elem? w.leases i ≡ some l
    → l.released ≡ true
    → release_lease i w ≡ w
unfolding release_lease
release_again w i l e gone = rw (e, gone, release_lease)

-- The release of a lease that is out, on a provider that the pool knows, takes exactly one lease
-- off that provider's load and none off another's; a second release of it changes nothing at all.
pub release_once :
    (w : World) (i : ℕ) (l : ProviderLease) (st : ProviderState)
    → Sound w
    → get_elem? w.leases i ≡ some l
    → l.released ≡ false
    → lookup l.spec.name w.pool.states ≡ some st
    → ((m : String)
        → outstanding m (release_lease i w) + one_if (l.spec.name == m) ≡ outstanding m w)
      × ((st' : ProviderState) × (lookup l.spec.name (release_lease i w).pool.states ≡ some st')
          × (st'.inflight + 1 ≡ st.inflight))
      × (release_lease i (release_lease i w) ≡ release_lease i w)
release_once w i l st h e out at =
    let l' = record l { released = true } in
    let n = l.spec.name in
    let st' = record st {
      inflight = st.inflight - 1;
      half_open_probe = if l.half_open then false else st.half_open_probe;
    } in
    rw (release_first w i l st e out at) (
      λ m. ground (arith, out, count-set (holds m) w.leases i l l' e),
      (
        st',
        rw (lookup-insert n n st' w.pool.states, ==_refl n),
        ground (arith, out, ==_refl n, count-set (holds n) w.leases i l l' e, h.counted n st at),
      ),
      release_again (given_back w i l st) i l' (get_elem?-set w.leases i l l' e) refl,
    )
