-- ===== src/Gateway/Pool/Eligible.antt =====
-- Which providers an acquisition may use.
use inuself.Base.{
  ◌≢◌, ℕ, ◌≤◌, String, ◌≡◌, Bool, true, false, ◌||◌, some, List, [], ◌∷◌, if◌then◌else◌, ◌==◌,
  String_eq, ==_refl, elem, lookup, Result, ok, Bool-cases, Option-cases, Result-cases, inl, inr,
  All, arith,
}
use inuself.Gateway.Specs.{ProviderSpec, enabled, reasoning_level}
use inuself.Gateway.Pool.{
  ProviderPool, PoolError, serves, select_specs, eligible_specs, acquire_specs,
}

-- A provider for a request: not excluded, with an address, for the workload, with the
-- reasoning level within its bounds, and local unless remote ones are allowed.
pub record Eligible (p : ProviderPool) (workload : String) (level : ℕ) (execution_scope : String)
    (exclude : List String) (s : ProviderSpec) : Type 0 where
  pub untried : elem s.name exclude ≡ false
  pub stored : lookup s.name p.specs ≡ some s
  pub on : enabled s ≡ true
  pub suited : elem workload s.workloads ≡ true
  pub low : ℕ
  pub high : ℕ
  pub low_is : reasoning_level s.reasoning_min ≡ some low
  pub high_is : reasoning_level s.reasoning_max ≡ some high
  pub from_low : low ≤ level
  pub to_high : level ≤ high
  pub in_scope : (s.scope == "local" || execution_scope == "remote_allowed") ≡ true

serves-Eligible :
    (p : ProviderPool) (workload : String) (level : ℕ) (execution_scope : String)
    (exclude : List String) (s : ProviderSpec)
    → elem s.name exclude ≡ false
    → lookup s.name p.specs ≡ some s
    → serves workload level execution_scope s ≡ ok true
    → Eligible p workload level execution_scope exclude s
unfolding serves
serves-Eligible p workload level execution_scope exclude s out at e =
    elim (Option-cases (reasoning_level s.reasoning_min)) [
      | inl none_low ↦ absurd (ground (arith, none_low))
      | inr (low, low_is) ↦ elim (Option-cases (reasoning_level s.reasoning_max)) [
        | inl none_high ↦ absurd (ground (arith, low_is, none_high))
        | inr (high, high_is) ↦ record {
          untried = out;
          stored = at;
          on = ground arith;
          suited = ground arith;
          low = low;
          high = high;
          low_is = low_is;
          high_is = high_is;
          from_low = ground (arith, low_is, high_is);
          to_high = ground (arith, low_is, high_is);
          in_scope = ground (arith, low_is, high_is);
        }
      ]
    ]

module _ (p : ProviderPool) (workload : String) (level : ℕ) (execution_scope : String)
    (exclude : List String)
    (named : (n : String) (s : ProviderSpec) → lookup n p.specs ≡ some s → s.name ≡ n) where
  Chosen : List String → ProviderSpec → Type 0
  Chosen names s = (elem s.name names ≡ true) × Eligible p workload level execution_scope exclude s

  longer :
      (name : String) (names : List String) (xs : List ProviderSpec)
      → All (Chosen names) xs
      → All (Chosen (name ∷ names)) xs
  unfolding Chosen
  longer name names [] a = tt
  longer name names (x ∷ xs) ((here, good), there) =
      ((ground (arith, here), good), longer name names xs there)

  pick :
      (name : String) (names : List String) (specs others : List ProviderSpec) (s : ProviderSpec)
      (good : Bool)
      → lookup name p.specs ≡ some s
      → elem name exclude ≡ false
      → serves workload level execution_scope s ≡ ok good
      → All (Chosen names) others
      → specs ≡ (if good then s ∷ others else others)
      → All (Chosen (name ∷ names)) specs
  unfolding Chosen
  pick name names specs others s true at out fine all made =
      let same = named name s at in
      rw made (
        (
          simp (same, ==_refl name),
          serves-Eligible p workload level execution_scope exclude s (simp same out) (simp same at)
              fine,
        ),
        longer name names others all,
      )
  pick name names specs others s false at out fine all made = rw made (longer name names others all)

  select_specs-Eligible :
      (names : List String) (specs : List ProviderSpec)
      → select_specs p workload level execution_scope exclude names ≡ ok specs
      → All (Chosen names) specs
  unfolding select_specs
  select_specs-Eligible [] specs e = let none_left : specs ≡ [] = ground arith in rw none_left tt
  select_specs-Eligible (name ∷ names) specs e = go (select_specs-Eligible names)
    where
      rest : Result PoolError (List ProviderSpec)
      rest = select_specs p workload level execution_scope exclude names

      go :
          ((others : List ProviderSpec) → rest ≡ ok others → All (Chosen names) others)
          → All (Chosen (name ∷ names)) specs
      go ih = elim (Bool-cases (elem name exclude)) [
        | inl out ↦ longer name names specs (ih specs (ground arith))
        | inr in_play ↦ elim (Option-cases (lookup name p.specs)) [
          | inl miss ↦ absurd (ground arith)
          | inr (spec, found) ↦ elim (Result-cases (serves workload level execution_scope spec)) [
            | inl (x, bad) ↦ absurd (ground arith)
            | inr (good, fine) ↦ elim (Result-cases rest) [
              | inl (x, bad) ↦ absurd (ground arith)
              | inr (others, fine') ↦
                  pick name names specs others spec good found in_play fine (ih others fine')
                    (ground arith)
            ]
          ]
        ]
      ]

-- The providers of a request with routing are never none, and each of them is eligible: on the
-- workload's list, not excluded, with an address, for the workload, with the reasoning level within
-- its bounds, and local unless remote ones are allowed; in a pool whose providers are stored under
-- their names.
pub acquire_specs-Eligible :
    (p : ProviderPool) (workload reasoning execution_scope : String) (exclude : List String)
    (specs : List ProviderSpec)
    → ((n : String) (s : ProviderSpec) → lookup n p.specs ≡ some s → s.name ≡ n)
    → acquire_specs p workload reasoning execution_scope exclude ≡ ok specs
    → (specs ≢ [])
      × ((names : List String) × (level : ℕ) × (lookup workload p.routes ≡ some names)
          × (reasoning_level reasoning ≡ some level)
          × (All
              (λ s.
                (elem s.name names ≡ true) × Eligible p workload level execution_scope exclude s)
              specs))
unfolding acquire_specs eligible_specs Chosen
acquire_specs-Eligible p workload reasoning execution_scope exclude specs named e =
    elim (Option-cases (lookup workload p.routes)) [
      | inl miss ↦ absurd (ground (arith, miss))
      | inr (names, listed) ↦ elim (Option-cases (reasoning_level reasoning)) [
        | inl bad ↦ absurd (ground (arith, listed, bad))
        | inr (level, is_level) ↦
            elim (Result-cases (select_specs p workload level execution_scope exclude names)) [
              | inl (x, bad) ↦ absurd (ground (arith, listed, is_level, bad))
              | inr (chosen, fine) ↦
                  let same : specs ≡ chosen = ground (arith, listed, is_level, fine) in
                  (
                    ground (arith, listed, is_level, fine),
                    (
                      names,
                      level,
                      listed,
                      is_level,
                      rw same (
                          select_specs-Eligible p workload level execution_scope exclude named names
                            chosen fine),
                    ),
                  )
            ]
      ]
    ]
