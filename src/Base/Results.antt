-- ===== src/Base/Results.antt =====
-- Error results as values, with `do`: `err` carries the exception that a call raises.
use mathlib.Core.Path.{◌≡◌, refl}
use mathlib.Core.Logic.{◌⊎◌, inl, inr}
use mathlib.Core.Bool.{Bool, true, false}
use mathlib.Core.Option.{Option, none, some}

pub data Result {ℓ κ} (E : Type ℓ) (A : Type κ) : Type (ℓ ⊔ κ) where
  err : E → Result E A
  ok : A → Result E A

module _ {ℓ} {E : Type ℓ} where
  infixl 5 ◌>>=◌ ◌>>◌
  -- `raise x` unless the option has a value.
  abbrev pub or_fail {κ} : {A : Type κ} → Option A → E → Result E A
  or_fail (some a) x = ok a
  or_fail none x = err x

  -- `if not test: raise x`.
  abbrev pub guard : Bool → E → Result E (Unit {0})
  guard false x = err x
  guard true x = ok tt

  abbrev pub ◌>>=◌ {κ μ} : {A : Type κ} {B : Type μ} → Result E A → (A → Result E B) → Result E B
  err x >>= next = err x
  ok a >>= next = next a

  abbrev pub ◌>>◌ {κ} : {B : Type κ} → Result E (Unit {0}) → Result E B → Result E B
  err x >> next = err x
  ok u >> next = next

  -- What a successful chain says of its first step.
  pub bind_ok {κ μ} :
      {A : Type κ} {B : Type μ} (first : Result E A) (next : A → Result E B) {b : B}
      → (first >>= next) ≡ ok b
      → (a : A) × (first ≡ ok a) × (next a ≡ ok b)
  bind_ok (err x) next h = cc
  bind_ok (ok a) next h = (a, refl, h)

  pub guard_ok : (test : Bool) (x : E) {u : Unit {0}} → guard test x ≡ ok u → test ≡ true
  guard_ok false x h = cc
  guard_ok true x h = refl

  pub Result-cases {κ} :
      {A : Type κ} (r : Result E A) → ((x : E) × (r ≡ err x)) ⊎ ((a : A) × (r ≡ ok a))
  Result-cases (err x) = inl (x, refl)
  Result-cases (ok a) = inr (a, refl)

  -- What a failed chain says of its first step.
  pub bind_err {κ μ} :
      {A : Type κ} {B : Type μ} (first : Result E A) (next : A → Result E B) {x : E}
      → (first >>= next) ≡ err x
      → (first ≡ err x) ⊎ ((a : A) × (first ≡ ok a) × (next a ≡ err x))
  bind_err (err x) next h = inl (cc)
  bind_err (ok a) next h = inr (a, refl, h)

  pub or_fail_err {κ} :
      {A : Type κ} (o : Option A) (x : E) {y : E} → or_fail o x ≡ err y → (o ≡ none) × (x ≡ y)
  or_fail_err none x h = (refl, cc)
  or_fail_err (some a) x h = cc

  pub or_fail_ok {κ} : {A : Type κ} (o : Option A) (x : E) {a : A} → or_fail o x ≡ ok a → o ≡ some a
  or_fail_ok none x h = cc
  or_fail_ok (some a) x h = cc

  -- A test before a value that is not refused.
  pub guard-then_err {κ} :
      {B : Type κ} (test : Bool) (x : E) (b : B) {y : E} → (guard test x >> ok b) ≡ err y → x ≡ y
  guard-then_err true x b h = cc
  guard-then_err false x b h = cc

  pub guard-then_ok {κ} :
      {B : Type κ} (test : Bool) (x : E) (next : Result E B) {b : B}
      → (guard test x >> next) ≡ ok b
      → (test ≡ true) × (next ≡ ok b)
  guard-then_ok true x next h = (refl, h)
  guard-then_ok false x next h = cc

  pub ok_injective {κ} : {A : Type κ} {a b : A} → ◌≡◌ {A = Result E A} (ok a) (ok b) → a ≡ b
  ok_injective e = cc
