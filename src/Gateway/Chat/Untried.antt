-- ===== src/Gateway/Chat/Untried.antt =====
-- Which providers an acquisition may lease, and how many a list of names has left.
use inuself.Base.{
  ℕ, ◌≤◌, ◌<◌, String, ◌≡◌, refl, sym, true, false, not, some, List, [], ◌∷◌, ◌==◌, String_eq,
  ==_refl, ==_iff, elem, Result, ok, err, Bool-cases, inl, inr, All, All-middle, arith, count,
}
use inuself.Gateway.Specs.{ProviderSpec}
use inuself.Gateway.Pool.{
  ProviderPool, ProviderLease, PoolError, Attempt, leased, raised, waits_for, attempt, scan,
  selected, none_free, Round, Turn, acquire_from,
}
use inuself.Gateway.Pool.Scan.{scan-Selects}

-- What holds of the providers that an acquisition is given holds of the one that it leases.
pub attempt-All :
    (P : ProviderSpec → Type 0) (p p' : ProviderPool) (now time deadline : ℕ)
    (specs : List ProviderSpec) (preferred : String) (l : ProviderLease)
    → All P specs
    → attempt p now time deadline specs preferred ≡ leased p' l
    → P l.spec
unfolding attempt
attempt-All P p p' now time deadline specs preferred l a e =
    go (scan p.states now preferred specs false false false []) refl
  where
    go :
        (r : Result PoolError Round)
        → scan p.states now preferred specs false false false [] ≡ r
        → P l.spec
    go (err x) at = absurd (ground (arith, at))
    go (ok (none_free false ws)) at = absurd (ground (arith, at))
    go (ok (none_free true ws)) at = absurd (ground (arith, at))
    go (ok (selected s r h)) at =
        let sel = scan-Selects p.states now preferred specs false false false [] s r h at in
        let same : s ≡ l.spec = ground (arith, at) in
        rw (sym same) (All-middle P sel.before sel.after (rw sel.place at a))

pub acquire_from-All :
    (P : ProviderSpec → Type 0) (deadline : ℕ) (specs : List ProviderSpec) (preferred : String)
    (turns : List Turn) (p : ProviderPool) (l : ProviderLease)
    → All P specs
    → acquire_from deadline specs preferred turns ≡ some (ok (p, l))
    → P l.spec
unfolding acquire_from
acquire_from-All P deadline specs preferred [] p l a e = cc
acquire_from-All P deadline specs preferred (t ∷ ts) p l a e =
    go (attempt t.pool t.now t.time deadline specs preferred) refl
      (acquire_from-All P deadline specs preferred ts p l a)
  where
    go :
        (r : Attempt)
        → attempt t.pool t.now t.time deadline specs preferred ≡ r
        → (acquire_from deadline specs preferred ts ≡ some (ok (p, l)) → P l.spec)
        → P l.spec
    go (leased p' l') at ih =
        let same : l' ≡ l = ground (arith, at) in
        attempt-All P t.pool p' t.now t.time deadline specs preferred l a (rw (sym same) at)
    go (raised x) at ih = absurd (ground (arith, at))
    go (waits_for wait remaining) at ih = ih (ground (arith, at))

-- A name of the list that is tried leaves fewer untried.
pub fewer :
    (names tried : List String) (x : String)
    → count (λ n. not (elem n (x ∷ tried))) names ≤ count (λ n. not (elem n tried)) names
fewer [] tried x = omega arith
fewer (n ∷ names) tried x = ground (arith, fewer names tried x)

pub fewer_than :
    (names tried : List String) (x : String)
    → elem x names ≡ true
    → elem x tried ≡ false
    → count (λ n. not (elem n (x ∷ tried))) names < count (λ n. not (elem n tried)) names
fewer_than [] tried x here new = cc
fewer_than (n ∷ names) tried x here new = elim (Bool-cases (n == x)) [
  | inl same ↦
      (let is_x : n ≡ x = (==_iff n x).0 same in
        ground (arith, fewer names tried x, same, is_x, ==_refl x, new))
  | inr other ↦ ground (arith, fewer_than names tried x, here, new, other)
]
