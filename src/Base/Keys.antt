-- ===== src/Base/Keys.antt =====
-- Equality of keys: one interface, with instances for names (texts) and identifiers (numbers).
use Prim.Native.Nat.{ℕ}
use Prim.Native.String.{String}
use mathlib.Core.Path.{◌≡◌, refl}
use mathlib.Core.Logic.{◌↔◌}
use mathlib.Core.Bool.{Bool, true, ◌||◌, false}
use mathlib.Core.List.{List, [], ◌∷◌}
use native.Mathlib.Omega.{arith}
use text.Mathlib.Text.{◌==◌ as text_eq}
use text.Mathlib.TextEquality.{eq_iff}
use inuself.Base.Tests.{nat_eq, nat_eq_iff}

-- A key type, with the test that the source writes `==`.
pub record Eq {ℓ} (K : Type ℓ) : Type ℓ where
  pub same : K → K → Bool
  pub same_iff : (j k : K) → (same j k ≡ true) ↔ (j ≡ k)

instance abbrev pub ℕ_eq : Eq ℕ
ℕ_eq = record { same = nat_eq; same_iff = nat_eq_iff }

-- The test of a decision procedure, for enumerations.
abbrev pub dec_test {ℓ} : {K : Type ℓ} → Discrete K → K → K → Bool
dec_test d j k = elim (d j k) [ yes p ↦ true | no p ↦ false ]

pub dec_test_iff {ℓ} : {K : Type ℓ} (d : Discrete K) (j k : K) → (dec_test d j k ≡ true) ↔ (j ≡ k)
dec_test_iff d j k = ground arith

abbrev pub eq_of_discrete {ℓ} : {K : Type ℓ} → Discrete K → Eq K
eq_of_discrete d = record { same = dec_test d; same_iff = dec_test_iff d }

instance abbrev pub String_eq : Eq String
String_eq = record { same = text_eq; same_iff = eq_iff }

module _ {ℓ} {K : Type ℓ} ⦃e : Eq K⦄ where
  infix 50 ◌==◌
  abbrev pub ◌==◌ : K → K → Bool
  j == k = e.same j k

  pub ==_iff : (j k : K) → ((j == k) ≡ true) ↔ (j ≡ k)
  ==_iff j k = e.same_iff j k

  pub ==_refl : (k : K) → (k == k) ≡ true
  ==_refl k = (e.same_iff k k).1 refl

  -- `k in ks`.
  abbrev pub elem : K → List K → Bool
  elem k [] = false
  elem k (j ∷ ks) = j == k || elem k ks
