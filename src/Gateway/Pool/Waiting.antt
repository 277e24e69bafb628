-- ===== src/Gateway/Pool/Waiting.antt =====
-- How long a turn of the admission loop waits: the least of the time left and of the open circuits.
use inuself.Base.{
  ℕ, ◌-◌, ◌+◌, ◌≤◌, ◌<◌, String, ◌≡◌, refl, ap, inl, inr, Bool, true, some, List, [], ◌∷◌, ◌++◌,
  min, arith, String_eq, Dict, lookup, All, All-append, Option-cases,
}
use inuself.Gateway.Specs.{ProviderSpec}
use inuself.Gateway.Pool.{
  ProviderState, healthy, circuit_available, Verdict, skip_unhealthy, skip_busy, take, verdict,
  min_of,
}
use inuself.Gateway.Pool.Scan.{verdict_of, own_waits, reopening}

-- What a verdict says of the provider's state.
pub verdict-take :
    (spec : ProviderSpec) (st : ProviderState) (now : ℕ) (h : Bool)
    → verdict spec st now ≡ take h
    → (st.health ≡ healthy)
      × (st.inflight < spec.max_inflight)
      × (circuit_available st now ≡ (true, h))
unfolding verdict
verdict-take spec st now h e = ground arith

verdict-waits :
    (spec : ProviderSpec) (st : ProviderState) (now : ℕ) (more : List ℕ)
    → verdict spec st now ≡ skip_unhealthy more
    → All (λ w. 0 < w) more
unfolding verdict
verdict-waits spec st now more e = ground arith

-- The provider's own waiting time, where it is healthy and its circuit is open.
verdict-reopens :
    (spec : ProviderSpec) (st : ProviderState) (now : ℕ)
    → st.health ≡ healthy
    → now < st.circuit_open_until
    → verdict spec st now ≡ skip_unhealthy ((st.circuit_open_until - now) ∷ [])
unfolding verdict
verdict-reopens spec st now e l = ground arith

pub min_of-le : (m : ℕ) (ns : List ℕ) → min_of m ns ≤ m
min_of-le m [] = omega arith
min_of-le m (n ∷ ns) = omega (arith, min_of-le (min m n) ns)

pub min_of-pos : (m : ℕ) (ns : List ℕ) → 0 < m → All (λ n. 0 < n) ns → 0 < min_of m ns
min_of-pos m [] h a = h
min_of-pos m (n ∷ ns) h a = min_of-pos (min m n) ns (omega (arith, a.0)) a.1

min_of-append-le : (m : ℕ) (xs ys : List ℕ) → min_of m (xs ++ ys) ≤ min_of m ys
min_of-append-le m [] ys = omega arith
min_of-append-le m (x ∷ xs) ys =
    omega (arith, min_of-append-le (min m x) xs ys, min_of-mono (min m x) m ys (omega arith))
  where
    min_of-mono : (a b : ℕ) (ns : List ℕ) → a ≤ b → min_of a ns ≤ min_of b ns
    min_of-mono a b [] h = h
    min_of-mono a b (n ∷ ns) h = min_of-mono (min a n) (min b n) ns (omega arith)

own_waits-pos :
    (states : Dict String ProviderState) (now : ℕ) (x : ProviderSpec)
    → All (λ w. 0 < w) (own_waits (verdict_of states now x))
own_waits-pos states now x = elim (Option-cases (lookup x.name states)) [
  | inl e ↦ rw (e, verdict_of, own_waits) tt
  | inr (st, e) ↦ rw (e, verdict_of) (own st (verdict x st now) refl)
]
  where
    own :
        (st : ProviderState) (v : Verdict)
        → verdict x st now ≡ v
        → All (λ w. 0 < w) (own_waits (some v))
    own st (skip_unhealthy more) e = verdict-waits x st now more e
    own st skip_busy e = tt
    own st (take h) e = tt

pub reopening-pos :
    (states : Dict String ProviderState) (now : ℕ) (specs : List ProviderSpec)
    → All (λ w. 0 < w) (reopening states now specs)
unfolding reopening
reopening-pos states now [] = tt
reopening-pos states now (x ∷ specs) =
    All-append (λ w. 0 < w) (own_waits (verdict_of states now x)) (reopening states now specs)
      (own_waits-pos states now x) (reopening-pos states now specs)

-- A wait of `m` is over when the circuit of any healthy provider is due to be tried again.
abbrev pub EndsWithCircuits : Dict String ProviderState → ℕ → ℕ → List ProviderSpec → Type 0
EndsWithCircuits states now m = All λ x.
    (st : ProviderState)
    → lookup x.name states ≡ some st
    → st.health ≡ healthy
    → now < st.circuit_open_until
    → now + m ≤ st.circuit_open_until

own_waits-reopens :
    (states : Dict String ProviderState) (now : ℕ) (x : ProviderSpec) (st : ProviderState)
    → lookup x.name states ≡ some st
    → st.health ≡ healthy
    → now < st.circuit_open_until
    → own_waits (verdict_of states now x) ≡ (st.circuit_open_until - now) ∷ []
own_waits-reopens states now x st at alive opened =
    rw (at, verdict_of) (ap (λ v. own_waits (some v)) (verdict-reopens x st now alive opened))

pub reopening-EndsWithCircuits :
    (states : Dict String ProviderState) (now m k : ℕ) (specs : List ProviderSpec)
    → m ≤ min_of k (reopening states now specs)
    → EndsWithCircuits states now m specs
unfolding reopening
reopening-EndsWithCircuits states now m k [] h = tt
reopening-EndsWithCircuits states now m k (x ∷ specs) h = (
  λ st at alive opened. first st at alive opened,
  reopening-EndsWithCircuits states now m k specs (
      omega (
        arith,
        min_of-append-le k (own_waits (verdict_of states now x)) (reopening states now specs),
      )),
)
  where
    first :
        (st : ProviderState)
        → lookup x.name states ≡ some st
        → st.health ≡ healthy
        → now < st.circuit_open_until
        → now + m ≤ st.circuit_open_until
    first st at alive opened =
        let left = st.circuit_open_until - now in
        let h' : m ≤ min_of (min k left) (reopening states now specs) =
          rw (own_waits-reopens states now x st at alive opened) at h in
        omega (arith, min_of-le (min k left) (reopening states now specs))
