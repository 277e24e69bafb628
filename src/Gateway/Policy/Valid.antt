-- ===== src/Gateway/Policy/Valid.antt =====
-- What a policy that is parsed has: the settings, providers and routes keep to their bounds.
use mathlib.Core.Path.{subst}
use inuself.Base.{
  ℕ, ◌/◌, ◌%◌, ◌<◌, ◌≤◌, String, ◌≡◌, refl, true, false, not, Option, some, List, [], ◌∷◌, ◌==◌,
  ==_iff, ℕ_eq, String_eq, Dict, insert, elem, All, ok, bind_ok, ok_injective, guard-then_ok, arith,
  leb, inl, inr, Bool-cases, Option-cases,
}
use inuself.Gateway.Json.{
  Value, Fields, Elements, null, bool, text, num, array, obj, no_fields, field, no_elements,
  element,
}
use inuself.Gateway.Specs.{PoolSettings, ProviderSpec, reasoning_level}
use inuself.Gateway.Policy.{
  provider_keys, settings_keys, positive, at, object_of, check_keys, whole, parse_settings,
  limit_of, choice_of, level_of, reasoning_of, texts_of, workloads_of, health_of, getenv, Strings,
  strings_of, model_of, spec_of, parse_provider, parse_each, parse_providers,
}

positive_lem : (v : Value) {n : ℕ} → positive v ≡ ok n → 0 < n
unfolding positive
positive_lem (num false n) h = ground (arith, h)
positive_lem (num true n) h = cc
positive_lem null h = cc
positive_lem (bool b) h = cc
positive_lem (text s) h = cc
positive_lem (array vs) h = cc
positive_lem (obj fs) h = cc

whole_lem : (m : ℕ) {n : ℕ} → 0 < m → whole m ≡ ok n → 0 < n
unfolding whole
whole_lem m some_ h =
    let (divides, made) = guard-then_ok (m % 1000 == 0) "must be an integer" (ok (m / 1000)) h in
    omega (arith, some_, (==_iff (m % 1000) 0).0 divides, ok_injective made)

-- The settings that are parsed are positive.
abbrev pub Positive : PoolSettings → Type 0
Positive s =
    (0 < s.health_interval)
    × (0 < s.health_timeout)
    × (0 < s.first_output_timeout)
    × (0 < s.request_timeout)
    × (0 < s.failure_threshold)
    × (0 < s.circuit_cooldown)
    × (0 < s.admission_timeout)

pub parse_settings-Positive : (v : Value) {s : PoolSettings} → parse_settings v ≡ ok s → Positive s
unfolding parse_settings
parse_settings-Positive v {s} h =
    let (raw, e, h) = bind_ok (object_of v) _ h in
    let (u, e, h) = bind_ok (check_keys settings_keys raw) _ h in
    let (a, ea, h) = bind_ok (positive (at raw "health_interval_seconds")) _ h in
    let (b, eb, h) = bind_ok (positive (at raw "health_timeout_seconds")) _ h in
    let (c, ec, h) = bind_ok (positive (at raw "first_output_timeout_seconds")) _ h in
    let (d, ed, h) = bind_ok (positive (at raw "request_timeout_seconds")) _ h in
    let (t, et, h) = bind_ok (positive (at raw "failure_threshold")) _ h in
    let (f, ef, h) = bind_ok (positive (at raw "circuit_cooldown_seconds")) _ h in
    let (g, eg, h) = bind_ok (positive (at raw "admission_timeout_seconds")) _ h in
    let (n, en, h) = bind_ok (whole t) _ h in
    subst Positive (ok_injective h) (
      positive_lem _ ea,
      positive_lem _ eb,
      positive_lem _ ec,
      positive_lem _ ed,
      whole_lem t (positive_lem _ et) en,
      positive_lem _ ef,
      positive_lem _ eg,
    )

choice_lem :
    (options : List String) (v : Value) {s : String}
    → choice_of options v ≡ ok s
    → elem s options ≡ true
unfolding choice_of
choice_lem options (text t) {s} h =
    let (within, made) = guard-then_ok (elem t options) "is invalid" (ok t) h in
    subst (λ s. elem s options ≡ true) (ok_injective made) within
choice_lem options null h = cc
choice_lem options (num b n) h = cc
choice_lem options (bool b) h = cc
choice_lem options (array vs) h = cc
choice_lem options (obj fs) h = cc

-- The two levels are known, and in order.
abbrev pub Levels : String → String → Type 0
Levels low high =
    (a : ℕ) × (b : ℕ) × (reasoning_level low ≡ some a) × (reasoning_level high ≡ some b) × (a ≤ b)

level_lem : (v : Value) {p : String × ℕ} → level_of v ≡ ok p → reasoning_level p.0 ≡ some p.1
level_lem (text s) {p} h = elim (Option-cases (reasoning_level s)) [
  | inl unknown ↦ absurd (cc (rw (unknown, level_of) at h))
  | inr (n, known) ↦
      subst (λ p. reasoning_level p.0 ≡ some p.1) (ok_injective (rw (known, level_of) at h)) known
]
level_lem null h = cc
level_lem (num b n) h = cc
level_lem (bool b) h = cc
level_lem (array vs) h = cc
level_lem (obj fs) h = cc

reasoning_lem : (raw : Fields) {p : String × String} → reasoning_of raw ≡ ok p → Levels p.0 p.1
unfolding reasoning_of
reasoning_lem raw h =
    let (low, el, h) = bind_ok (level_of (at raw "reasoning_min")) _ h in
    let (high, eh, h) = bind_ok (level_of (at raw "reasoning_max")) _ h in
    let (ordered, made) = guard-then_ok (leb low.1 high.1) "has reversed reasoning range" _ h in
    subst (λ p. Levels p.0 p.1) (ok_injective made)
      (low.1, high.1, level_lem _ el, level_lem _ eh, ground (arith, ordered))

-- A list that is not empty, of texts that are not.
abbrev pub Texts : List String → Type 0
Texts [] = ⊥
Texts (s ∷ ss) = ((s == "") ≡ false) × All (λ t. (t == "") ≡ false) ss

texts_lem :
    (vs : Elements) {ss : List String} → texts_of vs ≡ ok ss → All (λ t. (t == "") ≡ false) ss
unfolding texts_of
texts_lem no_elements h = subst (λ ss. All (λ t. (t == "") ≡ false) ss) (ok_injective h) tt
texts_lem (element (text s) vs) h =
    let (some_, h) = guard-then_ok (not (s == "")) "must be non-empty strings" _ h in
    let (rest, e, h) = bind_ok (texts_of vs) _ h in
    subst (λ ss. All (λ t. (t == "") ≡ false) ss) (ok_injective h)
      (ground (arith, some_), texts_lem vs e)
texts_lem (element null vs) h = cc
texts_lem (element (num b n) vs) h = cc
texts_lem (element (bool b) vs) h = cc
texts_lem (element (array xs) vs) h = cc
texts_lem (element (obj fs) vs) h = cc

workloads_lem : (v : Value) {ss : List String} → workloads_of v ≡ ok ss → Texts ss
unfolding workloads_of texts_of
workloads_lem (array (element (text s) vs)) h =
    let (some_, h) = guard-then_ok (not (s == "")) "must be non-empty strings" _ h in
    let (rest, e, h) = bind_ok (texts_of vs) _ h in
    subst Texts (ok_injective h) (ground (arith, some_), texts_lem vs e)
workloads_lem (array (element null vs)) h = cc
workloads_lem (array (element (num b n) vs)) h = cc
workloads_lem (array (element (bool b) vs)) h = cc
workloads_lem (array (element (array xs) vs)) h = cc
workloads_lem (array (element (obj fs) vs)) h = cc
workloads_lem (array no_elements) h = cc
workloads_lem (text s) h = cc
workloads_lem null h = cc
workloads_lem (num b n) h = cc
workloads_lem (bool b) h = cc
workloads_lem (obj fs) h = cc

-- A provider that is stored under its name, with a positive limit, a known scope and kind, levels in
-- order, some workloads and a model.
abbrev pub ValidSpec : String × ProviderSpec → Type 0
ValidSpec (name, spec) =
    (spec.name ≡ name)
    × (0 < spec.max_inflight)
    × (elem spec.scope ("local" ∷ "remote" ∷ []) ≡ true)
    × (elem spec.kind ("npu" ∷ "gpu" ∷ "remote" ∷ []) ≡ true)
    × Levels spec.reasoning_min spec.reasoning_max
    × Texts spec.workloads
    × ((spec.model == "") ≡ false)

limit_lem : (raw : Fields) {n : ℕ} → limit_of raw ≡ ok n → 0 < n
unfolding limit_of
limit_lem raw h =
    let (m, e, h) = bind_ok (positive (at raw "max_inflight")) _ h in
    whole_lem m (positive_lem _ e) h

model_lem :
    (env : String → Option String) (t : Strings) {model : String}
    → model_of env t ≡ ok model
    → (model == "") ≡ false
unfolding model_of
model_lem env t h =
    let (some_, made) =
      guard-then_ok (not (getenv env t.model_env t.model_default == "")) "model must not be empty"
        (ok (getenv env t.model_env t.model_default)) h in
    subst (λ model. (model == "") ≡ false) (ok_injective made) (ground (arith, some_))

spec_of-ValidSpec :
    (env : String → Option String) (name : String) (raw : Fields) (t : Strings)
    {spec : ProviderSpec}
    → spec_of env name raw t ≡ ok spec
    → ValidSpec (name, spec)
unfolding spec_of
spec_of-ValidSpec env name raw t h =
    let (limit, e_limit, h) = bind_ok (limit_of raw) _ h in
    let (scope, e_scope, h) = bind_ok (choice_of ("local" ∷ "remote" ∷ []) (at raw "scope")) _ h in
    let (kind, e_kind, h) =
      bind_ok (choice_of ("npu" ∷ "gpu" ∷ "remote" ∷ []) (at raw "kind")) _ h in
    let (levels, e_levels, h) = bind_ok (reasoning_of raw) _ h in
    let (workloads, e_workloads, h) = bind_ok (workloads_of (at raw "workloads")) _ h in
    let (health, e, h) = bind_ok (health_of (at raw "health_path")) _ h in
    let (model, e_model, h) = bind_ok (model_of env t) _ h in
    subst (λ spec. ValidSpec (name, spec)) (ok_injective h)
      (
        refl,
        limit_lem raw e_limit,
        choice_lem _ _ e_scope,
        choice_lem _ _ e_kind,
        reasoning_lem raw e_levels,
        workloads_lem _ e_workloads,
        model_lem env t e_model,
      )

parse_provider-ValidSpec :
    (env : String → Option String) (name : String) (v : Value) {spec : ProviderSpec}
    → parse_provider env name v ≡ ok spec
    → ValidSpec (name, spec)
unfolding parse_provider
parse_provider-ValidSpec env name v h =
    let (raw, e, h) = bind_ok (object_of v) _ h in
    let (u, e, h) = bind_ok (check_keys provider_keys raw) _ h in
    let (t, e, h) = bind_ok (strings_of raw) _ h in spec_of-ValidSpec env name raw t h

pub insert-All :
    {V : Type 0} (P : String × V → Type 0) (k : String) (v : V) (m : Dict String V)
    → P (k, v)
    → All P m
    → All P (insert k v m)
insert-All P k v [] h hs = (h, tt)
insert-All P k v ((j, w) ∷ m) h hs = elim (Bool-cases (j == k)) [
  | inl same ↦ rw same (h, hs.1)
  | inr other ↦ rw other (hs.0, insert-All P k v m h hs.1)
]

parse_each-ValidSpec :
    (env : String → Option String) (fs : Fields) (specs : Dict String ProviderSpec)
    {last : Dict String ProviderSpec}
    → All ValidSpec specs
    → parse_each env fs specs ≡ ok last
    → All ValidSpec last
unfolding parse_each
parse_each-ValidSpec env no_fields specs valid h = subst (All ValidSpec) (ok_injective h) valid
parse_each-ValidSpec env (field name v fs) specs valid h =
    let (spec, e, h) = bind_ok (parse_provider env name v) _ h in
    parse_each-ValidSpec env fs (insert name spec specs)
      (insert-All ValidSpec name spec specs (parse_provider-ValidSpec env name v e) valid) h

pub parse_providers-ValidSpec :
    (env : String → Option String) (v : Value) {specs : Dict String ProviderSpec}
    → parse_providers env v ≡ ok specs
    → All ValidSpec specs
unfolding parse_providers
parse_providers-ValidSpec env (obj (field name v fs)) h =
    parse_each-ValidSpec env (field name v fs) [] tt h
parse_providers-ValidSpec env (obj no_fields) h = cc
parse_providers-ValidSpec env null h = cc
parse_providers-ValidSpec env (num b n) h = cc
parse_providers-ValidSpec env (bool b) h = cc
parse_providers-ValidSpec env (text s) h = cc
parse_providers-ValidSpec env (array vs) h = cc
