-- ===== src/Gateway/Pool/Tests.antt =====
-- The provider pool on two providers of one workload.
use inuself.Base.{
  ℕ, ◌≡◌, ◌≢◌, refl, String, true, false, Option, none, some, List, [], ◌∷◌, String_eq, ℕ_eq,
  lookup, ok, if◌then◌else◌, ltb, arith, Dict,
}
use inuself.Gateway.Json.{Value, text, array, obj, no_elements, element, no_fields, field}
use inuself.Gateway.Specs.{ProviderSpec, PoolSettings}
use inuself.Gateway.Pool.{
  ProviderState, ProviderPool, healthy, init, attempt, Turn, acquire_from, waits_for,
  circuit_available, verdict, probe_ok,
}
use inuself.Gateway.Pool.Admission.{acquire_from_ends}
use inuself.Gateway.Pool.Granting.{Outcome, attempt-Outcome}
use inuself.Gateway.Pool.Circuit.{fail_all, failures_open_circuit, probe_all, probes-health}

abbrev pub test_settings : PoolSettings
test_settings = record {
  health_interval = 15;
  health_timeout = 3;
  first_output_timeout = 30;
  request_timeout = 300;
  failure_threshold = 2;
  circuit_cooldown = 30;
  admission_timeout = 10;
}

abbrev pub spark : ProviderSpec
spark = record {
  name = "spark";
  kind = "openai";
  base_url = "http://spark";
  model = "local";
  api_key = "k";
  scope = "local";
  max_inflight = 1;
  health_path = none;
  workloads = "chat" ∷ [];
  reasoning_min = "none";
  reasoning_max = "high";
}

abbrev pub cloud : ProviderSpec
cloud = record spark {
  name = "cloud";
  scope = "external";
  max_inflight = 2;
  health_path = some "/models";
}

abbrev pub test_specs : Dict String ProviderSpec
test_specs = ("spark", spark) ∷ ("cloud", cloud) ∷ []

abbrev pub test_routes : Dict String (List String)
test_routes = ("chat", "spark" ∷ "cloud" ∷ []) ∷ []

-- The states: `spark` full and healthy, `cloud` healthy with its circuit open until 40.
abbrev pub spark_state : ProviderState
spark_state = record {
  health = healthy;
  inflight = 1;
  probe_failures = 0;
  request_failures = 0;
  circuit_open_until = 0;
  half_open_probe = false;
}

abbrev pub cloud_state : ProviderState
cloud_state = record spark_state { inflight = 0; request_failures = 2; circuit_open_until = 40 }

abbrev pub busy : ProviderPool
busy = record {
  settings = test_settings;
  specs = test_specs;
  routes = test_routes;
  states = ("spark", spark_state) ∷ ("cloud", cloud_state) ∷ [];
}

abbrev pub both : List ProviderSpec
both = spark ∷ cloud ∷ []

attempt_waits : attempt busy 35 100 110 both "preferred" ≡ waits_for 5 10
unfolding attempt verdict
attempt_waits = refl

attempt-Outcome_example :
    Outcome busy 35 100 110 both "preferred" (attempt busy 35 100 110 both "preferred")
attempt-Outcome_example =
    attempt-Outcome busy 35 100 110 both "preferred"
      ((spark_state, refl), ((cloud_state, refl), tt))

abbrev late_turns : List Turn
late_turns =
    (record { pool = busy; now = 35; time = 100; notified = true })
    ∷ (record { pool = busy; now = 45; time = 110; notified = false })
    ∷ []

acquire_from_ends_example : acquire_from 110 both "preferred" late_turns ≢ none
acquire_from_ends_example = acquire_from_ends 110 both "preferred" late_turns refl

abbrev probe_pool : ProviderPool
probe_pool = init test_settings test_specs test_routes

failures_open_circuit_example :
    (p' : ProviderPool) × (st' : ProviderState) × (fail_all "spark" (5 ∷ 6 ∷ []) probe_pool ≡ ok p')
    × (lookup "spark" p'.states ≡ some st')
    × (circuit_available st' 7
        ≡ (if ltb 2 2 then (true, false) else if ltb 7 36 then (false, false) else (true, true)))
    × (st'.health ≡ healthy)
    × (st'.inflight ≡ 0)
unfolding init
failures_open_circuit_example =
    failures_open_circuit "spark" 5 (6 ∷ []) probe_pool (record spark_state { inflight = 0 }) 7 refl
      refl refl (omega arith)

abbrev models : Option (ℕ × Value)
models = some (
  200,
  obj (
      field "data" (array (element (obj (field "id" (text "local") no_fields)) no_elements))
        no_fields),
)

probes-health_example :
    (p' : ProviderPool) × (st' : ProviderState) × (probe_all cloud (models ∷ none ∷ []) busy
      ≡ ok p')
    × (lookup "cloud" p'.states ≡ some st')
    × (st'.health ≡ healthy)
unfolding probe_ok
probes-health_example =
    probes-health cloud models (none ∷ []) busy cloud_state refl refl (refl, tt) (omega arith)
