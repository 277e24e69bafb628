-- ===== src/Content/Generator/Rounds.antt =====
-- What holds after the rounds of `generate`: a condition that may grow by a round each.
use mathlib.Core.Path.{subst}
use inuself.Base.{
  ℕ, zero, suc, ◌+◌, ◌≡◌, ◌⊎◌, Bool, true, false, not, ◌||◌, ok, ok_injective, arith, inl, inr,
  Bool-cases, Result-cases, if◌then◌else◌,
}
use inuself.Content.Blocks.{BlockTemplate, SectionsState}
use inuself.Content.Generator.{Round, run_round, generate_from, all_required_success}

module _ (template : BlockTemplate) (P : ℕ → SectionsState → Type 0)
    (numbered : (n round : ℕ) (s : SectionsState) → P n s → P n (record s { round = round }))
    (weaker : (n : ℕ) (s : SectionsState) → P n s → P (suc n) s)
    (stepped : (n : ℕ) (r : Round) (s : SectionsState) (after : SectionsState × Bool)
      → run_round template r s ≡ ok after
      → P n s
      → P (suc n) after.0) where
  weaker_by : (m n : ℕ) (s : SectionsState) → P n s → P (n + m) s
  weaker_by zero n s p = subst (λ k. P k s) (omega arith) p
  weaker_by (suc m) n s p = subst (λ k. P k s) (omega arith) (weaker_by m (suc n) s (weaker n s p))

  pub generate_from_grows :
      (left n round : ℕ) (script : ℕ → Round) (s s' : SectionsState)
      → generate_from left round template script s ≡ ok s'
      → P n s
      → P (n + left) s'
  unfolding generate_from run_round
  generate_from_grows zero n round script s s' e p =
      subst (λ u. P (n + 0) u) (ok_injective e) (weaker_by 0 n s p)
  generate_from_grows (suc left) n round script s s' e p = elim (Bool-cases (script round).late) [
    | inl late ↦
        subst (λ u. P (n + suc left) u) (ok_injective (rw (late, generate_from) at e))
          (weaker_by (suc left) n (record s { round = round }) (numbered n round s p))
    | inr early ↦
        elim (Result-cases (run_round template (script round) (record s { round = round }))) [
          | inl (x, broke) ↦ absurd (cc (rw (early, generate_from, broke) at e))
          | inr (after, ran) ↦
              ends after
                (stepped n (script round) (record s { round = round }) after ran
                  (numbered n round s p))
                (λ more q. generate_from_grows left (suc n) (round + 1) script after.0 s' more q)
                (Bool-cases (not after.1 || all_required_success template after.0))
                (rw (early, generate_from, ran) at e)
        ]
  ]
    where
      ends :
          (after : SectionsState × Bool)
          → P (suc n) after.0
          → (generate_from left (round + 1) template script after.0 ≡ ok s'
              → P (suc n) after.0
              → P (suc n + left) s')
          → ((not after.1 || all_required_success template after.0) ≡ true)
            ⊎ ((not after.1 || all_required_success template after.0) ≡ false)
          → (if not after.1 || all_required_success template after.0
              then ok after.0
              else generate_from left (round + 1) template script after.0)
            ≡ ok s'
          → P (n + suc left) s'
      ends after q later (inl over) e' =
          subst (λ k. P k s') (omega arith)
            (subst (λ u. P (suc n + left) u) (ok_injective (rw over at e'))
              (weaker_by left (suc n) after.0 q))
      ends after q later (inr going) e' =
          subst (λ k. P k s') (omega arith) (later (rw going at e') q)
