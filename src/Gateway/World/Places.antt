-- ===== src/Gateway/World/Places.antt =====
-- The places of a list after an append and after a write.
use inuself.Base.{
  ℕ, zero, suc, ◌≡◌, ◌≢◌, refl, ap, ◌⊎◌, inl, inr, some, List, [], ◌∷◌, ◌++◌, get_elem?, set,
  length,
}

pub get_elem?-append {ℓ} :
    {A : Type ℓ} (xs : List A) (y x : A) (k : ℕ)
    → get_elem? (xs ++ (y ∷ [])) k ≡ some x
    → ((k ≡ length xs) × (y ≡ x)) ⊎ (get_elem? xs k ≡ some x)
get_elem?-append [] y x zero e = inl (refl, cc)
get_elem?-append [] y x (suc k) e = absurd (cc)
get_elem?-append (z ∷ xs) y x zero e = inr e
get_elem?-append (z ∷ xs) y x (suc k) e = elim (get_elem?-append xs y x k e) [
  | inl (at, same) ↦ inl (ap suc at, same)
  | inr there ↦ inr there
]

pub get_elem?-first {ℓ} :
    {A : Type ℓ} (xs : List A) (y x : A) (k : ℕ)
    → get_elem? xs k ≡ some x
    → get_elem? (xs ++ (y ∷ [])) k ≡ some x
get_elem?-first [] y x k e = absurd (cc)
get_elem?-first (z ∷ xs) y x zero e = e
get_elem?-first (z ∷ xs) y x (suc k) e = get_elem?-first xs y x k e

pub get_elem?-last {ℓ} :
    {A : Type ℓ} (xs : List A) (y : A) → get_elem? (xs ++ (y ∷ [])) (length xs) ≡ some y
get_elem?-last [] y = refl
get_elem?-last (z ∷ xs) y = get_elem?-last xs y

pub get_elem?-set {ℓ} :
    {A : Type ℓ} (xs : List A) (j : ℕ) (y x : A) (k : ℕ)
    → get_elem? (set xs j y) k ≡ some x
    → (y ≡ x) ⊎ (get_elem? xs k ≡ some x)
get_elem?-set [] j y x k e = absurd (cc)
get_elem?-set (z ∷ xs) zero y x zero e = inl cc
get_elem?-set (z ∷ xs) zero y x (suc k) e = inr e
get_elem?-set (z ∷ xs) (suc j) y x zero e = inr e
get_elem?-set (z ∷ xs) (suc j) y x (suc k) e = get_elem?-set xs j y x k e

pub get_elem?-other {ℓ} :
    {A : Type ℓ} (xs : List A) (j : ℕ) (y : A) (k : ℕ)
    → j ≢ k
    → get_elem? (set xs j y) k ≡ get_elem? xs k
get_elem?-other [] j y k apart = refl
get_elem?-other (z ∷ xs) zero y zero apart = absurd (apart refl)
get_elem?-other (z ∷ xs) zero y (suc k) apart = refl
get_elem?-other (z ∷ xs) (suc j) y zero apart = refl
get_elem?-other (z ∷ xs) (suc j) y (suc k) apart = get_elem?-other xs j y k (λ e. apart (ap suc e))
