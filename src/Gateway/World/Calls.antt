-- ===== src/Gateway/World/Calls.antt =====
-- Each call on the gateway's world keeps the invariant of World.Capacity.
use inuself.Base.{
  ℕ, ◌+◌, ◌-◌, ◌<◌, String, ◌≡◌, inl, inr, Bool, true, false, ◌||◌, none, some, List, [], ◌∷◌, ◌++◌,
  if◌then◌else◌, ◌==◌, String_eq, ==_iff, ==_refl, lookup, Result, ok, get_elem?, set, count,
  count-append, count-set, one_if, All-middle, arith, Option-cases, Bool-cases, Result-cases, elem,
  All,
}
use inuself.Gateway.Specs.{reasoning_level, ProviderSpec}
use inuself.Gateway.Pool.{
  ProviderState, ProviderLease, PoolError, Attempt, leased, attempt, acquire_specs, explicit_specs,
  release, select_specs, eligible_specs, serves, occupy, with_state,
}
use inuself.Gateway.Pool.Admission.{
  Known, Admits, grants, nobody_healthy, times_out, delays, admits,
}
use inuself.Gateway.World.Capacity.{Sound, changes, changes-Sound}
use inuself.Gateway.World.{World, holds, release_lease, granted, changed}

-- A provider as the pool stores it.
abbrev pub Registered : World → ProviderSpec → Type 0
Registered w x = lookup x.name w.pool.specs ≡ some x

pub grant-Sound :
    (w : World) (now time deadline : ℕ) (specs : List ProviderSpec) (preferred : String)
    → All (Registered w) specs
    → Sound w
    → Sound (granted w (attempt w.pool now time deadline specs preferred))
unfolding occupy
grant-Sound w now time deadline specs preferred reg h =
    outcome (admits w.pool now time deadline specs preferred (known specs reg))
  where
    known : (xs : List ProviderSpec) → All (Registered w) xs → Known w.pool xs
    known [] a = tt
    known (x ∷ xs) a = (h.known x.name x a.0, known xs a.1)

    taken :
        (l : ProviderLease) (st : ProviderState)
        → Registered w l.spec
        → lookup l.spec.name w.pool.states ≡ some st
        → st.inflight < l.spec.max_inflight
        → l.released ≡ false
        → Sound (granted w (leased (occupy l.spec l.half_open w.pool) l))
    taken l st found at free out =
        rw (at, occupy)
          (changes-Sound w l.spec.name st
            (record st {
              inflight = st.inflight + 1;
              half_open_probe = l.half_open || st.half_open_probe;
            })
            (w.leases ++ (l ∷ [])) at
            (λ m. ground (arith, count-append (holds m) w.leases (l ∷ []), out))
            (λ s e. ground (arith, found, e, free)) h)

    outcome :
        {a : Attempt} → Admits w.pool now time deadline specs preferred a → Sound (granted w a)
    outcome (grants l st sel at alive free circuit out) =
        taken l st (All-middle (Registered w) sel.before sel.after (rw sel.place at reg)) at free
          out
    outcome (nobody_healthy a) = h
    outcome (times_out a b c) = h
    outcome (delays wait a b c d e) = h

pub release_lease-Sound : (i : ℕ) (w : World) → Sound w → Sound (release_lease i w)
unfolding release_lease release
release_lease-Sound i w h = elim (Option-cases (get_elem? w.leases i)) [
  | inl e ↦ rw (e, release_lease) h
  | inr (l, e) ↦ elim (Bool-cases l.released) [
    | inl gone ↦ rw (e, gone, release_lease) h
    | inr out ↦ elim (Option-cases (lookup l.spec.name w.pool.states)) [
      | inl miss ↦ rw (e, out, miss, release_lease) (unknown l e out miss)
      | inr (st, at) ↦ rw (e, out, at, release_lease) (given l st e out at)
    ]
  ]
]
  where
    marked : ProviderLease → List ProviderLease
    marked l = set w.leases i (record l { released = true })

    falls :
        (l : ProviderLease) (m : String)
        → get_elem? w.leases i ≡ some l
        → l.released ≡ false
        → count (holds m) (marked l) + one_if (l.spec.name == m) ≡ count (holds m) w.leases
    falls l m e out =
        ground (arith, out, count-set (holds m) w.leases i l (record l { released = true }) e)

    unknown :
        (l : ProviderLease)
        → get_elem? w.leases i ≡ some l
        → l.released ≡ false
        → lookup l.spec.name w.pool.states ≡ none
        → Sound (record w { leases = marked l })
    unknown l e out miss = record {
      named = h.named;
      known = h.known;
      counted = λ m st at. elim (Bool-cases (l.spec.name == m)) [
        | inl hit ↦ absurd (cc (rw ((==_iff l.spec.name m).0 hit) at miss))
        | inr other ↦ ground (arith, other, falls l m e out, h.counted m st at)
      ];
      within = h.within;
    }

    given :
        (l : ProviderLease) (st : ProviderState)
        → get_elem? w.leases i ≡ some l
        → l.released ≡ false
        → lookup l.spec.name w.pool.states ≡ some st
        → Sound (
            changes w l.spec.name
              (record st {
                inflight = st.inflight - 1;
                half_open_probe = if l.half_open then false else st.half_open_probe;
              })
              (marked l))
    given l st e out at =
        changes-Sound w l.spec.name st
          (record st {
            inflight = st.inflight - 1;
            half_open_probe = if l.half_open then false else st.half_open_probe;
          })
          (marked l) at
          (λ m. ground (
            arith,
            falls l m e out,
            falls l l.spec.name e out,
            ==_refl l.spec.name,
            h.counted l.spec.name st at,
          ))
          (λ s found. omega (arith, h.within l.spec.name s st found at)) h

pub unchanged_load :
    (w : World) (n : String) (f : ProviderState → ProviderState)
    → ((st : ProviderState) → (f st).inflight ≡ st.inflight)
    → Sound w
    → Sound (changed w (with_state n f w.pool))
unchanged_load w n f same h = elim (Option-cases (lookup n w.pool.states)) [
  | inl e ↦ rw e h
  | inr (st, e) ↦ rw e (
      changes-Sound w n st (f st) w.leases e (λ m. rw (same st))
        (λ s found. rw (same st) (h.within n s st found e)) h)
]

-- The providers that a request may use are stored ones.
select-Registered :
    (w : World) (workload : String) (level : ℕ) (execution_scope : String)
    (exclude names : List String) (specs : List ProviderSpec)
    → Sound w
    → select_specs w.pool workload level execution_scope exclude names ≡ ok specs
    → All (Registered w) specs
unfolding select_specs
select-Registered w workload level execution_scope exclude [] specs h e =
    let none_left : specs ≡ [] = ground arith in rw none_left tt
select-Registered w workload level execution_scope exclude (name ∷ names) specs h e =
    go (select-Registered w workload level execution_scope exclude names)
  where
    rest : Result PoolError (List ProviderSpec)
    rest = select_specs w.pool workload level execution_scope exclude names

    pick :
        (spec : ProviderSpec) (others : List ProviderSpec) (good : Bool)
        → lookup name w.pool.specs ≡ some spec
        → All (Registered w) others
        → specs ≡ (if good then spec ∷ others else others)
        → All (Registered w) specs
    pick spec others true found reg made = rw made (simp (h.named name spec found) found, reg)
    pick spec others false found reg made = rw made reg

    go :
        ((others : List ProviderSpec) → Sound w → rest ≡ ok others → All (Registered w) others)
        → All (Registered w) specs
    go ih = elim (Bool-cases (elem name exclude)) [
      | inl out ↦ ih specs h (ground arith)
      | inr in_play ↦ elim (Option-cases (lookup name w.pool.specs)) [
        | inl miss ↦ absurd (ground arith)
        | inr (spec, found) ↦ elim (Result-cases (serves workload level execution_scope spec)) [
          | inl (x, bad) ↦ absurd (ground arith)
          | inr (good, fine) ↦ elim (Result-cases rest) [
            | inl (x, bad) ↦ absurd (ground arith)
            | inr (others, fine') ↦ pick spec others good found (ih others h fine') (ground arith)
          ]
        ]
      ]
    ]

pub acquire-Registered :
    (w : World) (workload reasoning execution_scope : String) (exclude : List String)
    (specs : List ProviderSpec)
    → Sound w
    → acquire_specs w.pool workload reasoning execution_scope exclude ≡ ok specs
    → All (Registered w) specs
unfolding acquire_specs eligible_specs
acquire-Registered w workload reasoning execution_scope exclude specs h e =
    elim (Option-cases (lookup workload w.pool.routes)) [
      | inl miss ↦ absurd (ground arith)
      | inr (names, at) ↦ elim (Option-cases (reasoning_level reasoning)) [
        | inl miss ↦ absurd (ground arith)
        | inr (level, low) ↦
            select-Registered w workload level execution_scope exclude names specs h (ground arith)
      ]
    ]

pub explicit-Registered :
    (w : World) (name : String) (specs : List ProviderSpec)
    → Sound w
    → explicit_specs w.pool name ≡ ok specs
    → All (Registered w) specs
unfolding explicit_specs
explicit-Registered w name specs h e = elim (Option-cases (lookup name w.pool.specs)) [
  | inl miss ↦ absurd (ground arith)
  | inr (spec, found) ↦
      let only : specs ≡ spec ∷ [] = ground arith in
      rw only (simp (h.named name spec found) found, tt)
]
