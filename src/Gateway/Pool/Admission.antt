-- ===== src/Gateway/Pool/Admission.antt =====
-- The admission loop of the provider pool: the outcomes of one turn, and the end of the loop.

use inuself.Base.{
  ap, ◌∙◌, ℕ, ◌-◌, ◌+◌, ◌≤◌, ◌<◌, String, ◌≡◌, refl, sym, ◌≢◌, inl, inr, Bool, true, false, none,
  some, List, [], ◌∷◌, leb, arith, String_eq, lookup, Result, ok, err, any, All, Bool-cases,
  Option-cases,
}
use inuself.Gateway.Specs.{ProviderSpec}
use inuself.Gateway.Pool.{
  ProviderState, ProviderPool, ProviderLease, PoolError, no_healthy_provider, admission_timeout,
  healthy, circuit_available, Round, selected, none_free, take, verdict, scan, Attempt, leased,
  raised, waits_for, attempt, Turn, acquire_from, min_of, occupy,
}
use inuself.Gateway.Pool.Scan.{
  verdict_of, is_skip, is_busy_skip, is_unhealthy_skip, Selects, scan-Selects, scan-Nobody,
  scan-total,
}
use inuself.Gateway.Pool.Waiting.{
  verdict-take, EndsWithCircuits, min_of-le, min_of-pos, reopening-pos, reopening-EndsWithCircuits,
}

abbrev pub Known : ProviderPool → List ProviderSpec → Type 0
Known p = All λ x. (st : ProviderState) × (lookup x.name p.states ≡ some st)

-- The outcomes of a turn, and what each says of the providers that were tried.
module _ (p : ProviderPool) (now time deadline : ℕ) (specs : List ProviderSpec)
    (preferred : String) where
  pub data Admits : Attempt → Type 0 where
    grants :
        (l : ProviderLease) (st : ProviderState)
        → Selects p.states now preferred specs false false l.spec l.reason l.half_open
        → lookup l.spec.name p.states ≡ some st
        → st.health ≡ healthy
        → st.inflight < l.spec.max_inflight
        → circuit_available st now ≡ (true, l.half_open)
        → l.released ≡ false
        → Admits (leased (occupy l.spec l.half_open p) l)
    nobody_healthy :
        All (λ x. is_unhealthy_skip (verdict_of p.states now x) ≡ true) specs
        → Admits (raised no_healthy_provider)
    times_out :
        All (λ x. is_skip (verdict_of p.states now x) ≡ true) specs
        → any (λ x. is_busy_skip (verdict_of p.states now x)) specs ≡ true
        → deadline ≤ time
        → Admits (raised admission_timeout)
    delays :
        (wait : ℕ)
        → All (λ x. is_skip (verdict_of p.states now x) ≡ true) specs
        → any (λ x. is_busy_skip (verdict_of p.states now x)) specs ≡ true
        → 0 < wait
        → time + wait ≤ deadline
        → EndsWithCircuits p.states now wait specs
        → Admits (waits_for wait (deadline - time))

All-unhealthy :
    (p : ProviderPool) (now : ℕ) (specs : List ProviderSpec)
    → All (λ x. is_skip (verdict_of p.states now x) ≡ true) specs
    → any (λ x. is_busy_skip (verdict_of p.states now x)) specs ≡ false
    → All (λ x. is_unhealthy_skip (verdict_of p.states now x) ≡ true) specs
All-unhealthy p now [] a n = tt
All-unhealthy p now (x ∷ specs) a n =
    (ground (arith, a.0), All-unhealthy p now specs a.1 (ground arith))

leb-false : (a b : ℕ) → leb a b ≡ false → b < a
leb-false a b h = ground arith

taken_state :
    (p : ProviderPool) (now : ℕ) (s : ProviderSpec) (h : Bool)
    → verdict_of p.states now s ≡ some (take h)
    → (st : ProviderState) × (lookup s.name p.states ≡ some st) × (verdict s st now ≡ take h)
taken_state p now s h e = elim (Option-cases (lookup s.name p.states)) [
  | inl miss ↦ absurd (ground arith)
  | inr (st, at) ↦ (st, at, ground arith)
]

-- The outcome of one turn over providers that the pool knows, by the code's own verdicts.
pub admits :
    (p : ProviderPool) (now time deadline : ℕ) (specs : List ProviderSpec) (preferred : String)
    → Known p specs
    → Admits p now time deadline specs preferred (attempt p now time deadline specs preferred)
unfolding attempt
admits p now time deadline specs preferred known =
    outcome (scan p.states now preferred specs false false false []) refl
  where
    scanned : Result PoolError Round → Type 0
    scanned r = scan p.states now preferred specs false false false [] ≡ r

    granted :
        (s : ProviderSpec) (r : String) (h : Bool)
        → scanned (ok (selected s r h))
        → Admits p now time deadline specs preferred (attempt p now time deadline specs preferred)
    granted s r h e =
        let sel = scan-Selects p.states now preferred specs false false false [] s r h e in
        let (st, at, v) = taken_state p now s h sel.taken in
        let (alive, free, circuit) = verdict-take s st now h v in
        rw (e, attempt)
          (grants (record { spec = s; reason = r; half_open = h; released = false }) st sel at alive
            free circuit refl)

    waiting :
        (waits : List ℕ)
        → scanned (ok (none_free true waits))
        → Admits p now time deadline specs preferred (attempt p now time deadline specs preferred)
    waiting waits e =
        let no_one = scan-Nobody p.states now preferred specs false false false [] true waits e in
        let left = deadline - time in
        let all = no_one.collected in
        elim (Bool-cases (leb deadline time)) [
          | inl over ↦
              rw (e, over, attempt)
                (times_out no_one.passed (sym no_one.healthy_seen) (ground arith))
          | inr before ↦
              rw (e, before, attempt)
                (delays (min_of (deadline - time) waits) no_one.passed (sym no_one.healthy_seen)
                  (rw all (min_of-pos left _ (ground arith) (reopening-pos p.states now specs)))
                  (omega (arith, min_of-le left waits, leb-false deadline time before))
                  (reopening-EndsWithCircuits p.states now (min_of left waits) left specs
                    (rw all (omega arith))))
        ]

    outcome :
        (r : Result PoolError Round)
        → scanned r
        → Admits p now time deadline specs preferred (attempt p now time deadline specs preferred)
    outcome (err x) e =
        absurd (scan-total p.states now preferred specs false false false [] x known e)
    outcome (ok (selected s r h)) e = granted s r h e
    outcome (ok (none_free false waits)) e =
        let no_one = scan-Nobody p.states now preferred specs false false false [] false waits e in
        rw (e, attempt)
          (nobody_healthy (All-unhealthy p now specs no_one.passed (sym no_one.healthy_seen)))
    outcome (ok (none_free true waits)) e = waiting waits e

-- A turn that grants a lease does so on a provider whose circuit lets it through, and takes it.
pub attempt-leased :
    (p p' : ProviderPool) (now time deadline : ℕ) (specs : List ProviderSpec) (preferred : String)
    (l : ProviderLease)
    → attempt p now time deadline specs preferred ≡ leased p' l
    → (p' ≡ occupy l.spec l.half_open p)
      × (l.released ≡ false)
      × ((st : ProviderState) × (lookup l.spec.name p.states ≡ some st)
          × (circuit_available st now ≡ (true, l.half_open)))
unfolding attempt
attempt-leased p p' now time deadline specs preferred l granted =
    go (scan p.states now preferred specs false false false []) refl
  where
    go :
        (r : Result PoolError Round)
        → scan p.states now preferred specs false false false [] ≡ r
        → (p' ≡ occupy l.spec l.half_open p)
          × (l.released ≡ false)
          × ((st : ProviderState) × (lookup l.spec.name p.states ≡ some st)
              × (circuit_available st now ≡ (true, l.half_open)))
    go (err x) e = absurd (ground (arith, e, granted))
    go (ok (none_free false waits)) e = absurd (ground (arith, e, granted))
    go (ok (none_free true waits)) e = absurd (ground (arith, e, granted))
    go (ok (selected s r h)) e =
        let sel = scan-Selects p.states now preferred specs false false false [] s r h e in
        let (st, at, v) = taken_state p now s h sel.taken in
        let (alive, free, circuit) = verdict-take s st now h v in
        let made : leased (occupy s h p)
              (record { spec = s; reason = r; half_open = h; released = false })
            ≡ leased p' l =
          rw (e, attempt) at granted in
        let pool : occupy s h p ≡ p' = cc made in
        let lease : ◌≡◌ {A = ProviderLease}
            (record { spec = s; reason = r; half_open = h; released = false }) l =
          cc made in
        (
          sym pool ∙ ap (λ k. occupy k.spec k.half_open p) lease,
          ap (λ k. k.released) (sym lease),
          (
            st,
            ap (λ k. lookup k.spec.name p.states) (sym lease) ∙ at,
            circuit ∙ ap (λ k. (true, k.half_open)) lease,
          ),
        )

attempt_late :
    (p : ProviderPool) (now time deadline : ℕ) (specs : List ProviderSpec) (preferred : String)
    (wait remaining : ℕ)
    → deadline ≤ time
    → attempt p now time deadline specs preferred ≢ waits_for wait remaining
unfolding attempt
attempt_late p now time deadline specs preferred wait remaining h = ground arith

-- The loop ends by its deadline: over any turns of which one is at the deadline or later, whatever
-- the pool is at each of them, it has granted a lease or raised.
pub acquire_from_ends :
    (deadline : ℕ) (specs : List ProviderSpec) (preferred : String) (turns : List Turn)
    → any (λ t. leb deadline t.time) turns ≡ true
    → acquire_from deadline specs preferred turns ≢ none
unfolding acquire_from
acquire_from_ends deadline specs preferred [] h e = cc
acquire_from_ends deadline specs preferred (t ∷ ts) h e =
    loop (acquire_from_ends deadline specs preferred ts)
      (attempt t.pool t.now t.time deadline specs preferred) refl
  where
    loop :
        (any (λ t. leb deadline t.time) ts ≡ true → acquire_from deadline specs preferred ts ≢ none)
        → (a : Attempt) → attempt t.pool t.now t.time deadline specs preferred ≡ a
        → ⊥
    loop again (leased p l) at = ground arith
    loop again (raised x) at = ground arith
    loop again (waits_for wait remaining) at =
        ground
          (arith, attempt_late t.pool t.now t.time deadline specs preferred wait remaining, again)
