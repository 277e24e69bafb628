-- ===== src/Gateway/Specs.antt =====
-- infra/ai-gateway/services/provider_pool.py: the settings and providers of a routing policy. Times
-- are whole numbers of a unit (thousandths of a second); the source has floats of seconds.
use inuself.Base.{ℕ, String, Bool, not, Option, List, [], ◌∷◌, ◌==◌, String_eq, Dict, lookup}

pub record PoolSettings : Type 0 where
  pub health_interval : ℕ
  pub health_timeout : ℕ
  pub first_output_timeout : ℕ
  pub request_timeout : ℕ
  pub failure_threshold : ℕ
  pub circuit_cooldown : ℕ
  pub admission_timeout : ℕ

pub record ProviderSpec : Type 0 where
  pub name : String
  pub kind : String
  pub base_url : String
  pub model : String
  pub api_key : String
  pub scope : String
  pub max_inflight : ℕ
  pub health_path : Option String
  pub workloads : List String
  pub reasoning_min : String
  pub reasoning_max : String

-- `bool(self.base_url)`.
abbrev pub enabled : ProviderSpec → Bool
enabled spec = not (spec.base_url == "")

-- _REASONING.
abbrev pub reasoning_levels : Dict String ℕ
reasoning_levels = ("none", 0) ∷ ("low", 1) ∷ ("medium", 2) ∷ ("high", 3) ∷ []

unfoldable pub reasoning_level : String → Option ℕ
reasoning_level reasoning = lookup reasoning reasoning_levels
