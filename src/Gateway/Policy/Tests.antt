-- ===== src/Gateway/Policy/Tests.antt =====
-- A policy with one provider, whose address is in the environment.
use inuself.Base.{
  ℕ, String, ◌≡◌, refl, false, Option, none, some, List, [], ◌∷◌, ◌==◌, String_eq, All, ok, err,
  if◌then◌else◌,
}
use inuself.Gateway.Json.{Fields, num, text, array, obj, no_fields, field, no_elements, element}
use inuself.Gateway.Specs.{reasoning_level}
use inuself.Content.Texts.{strip}
use inuself.Gateway.Policy.{
  Policy, check_keys, parse_settings, positive, whole, parse_providers, parse_each, parse_provider,
  strings_of, spec_of, limit_of, choice_of, reasoning_of, workloads_of, texts_of, health_of,
  model_of, names_of, parse_routes, parse_each_route, parse_route, route_of, parse_policy,
}
use inuself.Gateway.Policy.Valid.{Positive, ValidSpec}
use inuself.Gateway.Policy.Routes.{ValidRoute, parse_policy-Valid}
use inuself.Gateway.World.{Call, acquires_explicit, fails, releases, start, run}
use inuself.Gateway.World.Capacity.{Sound}

abbrev seconds : Fields
seconds = field "health_interval_seconds" (num false 15000) (
    field "health_timeout_seconds" (num false 2500) (
      field "first_output_timeout_seconds" (num false 20000) (
        field "request_timeout_seconds" (num false 60000) (
          field "failure_threshold" (num false 3000) (
            field "circuit_cooldown_seconds" (num false 30000)
              (field "admission_timeout_seconds" (num false 5000) no_fields))))))

abbrev gpu : ℕ → Fields
gpu limit = field "kind" (text "gpu") (
    field "base_url_env" (text "GPU_URL") (
      field "base_url_default" (text "") (
        field "model_env" (text "GPU_MODEL") (
          field "model_default" (text "m") (
            field "api_key_env" (text "") (
              field "scope" (text "local") (
                field "max_inflight" (num false limit) (
                  field "health_path" (text "/health") (
                    field "workloads" (array (element (text "chat") no_elements)) (
                      field "reasoning_min" (text "none")
                        (field "reasoning_max" (text "high") no_fields)))))))))))

abbrev policy : ℕ → String → Fields
policy limit named = field "settings" (obj seconds) (
    field "providers" (obj (field "gpu" (obj (gpu limit)) no_fields)) (
      field "routes" (obj (field "chat" (array (element (text named) no_elements)) no_fields))
        no_fields))

abbrev env : String → Option String
env name = if name == "GPU_URL" then some "http://gpu " else none

abbrev parsed : Policy
parsed = record {
  settings = record {
    health_interval = 15000;
    health_timeout = 2500;
    first_output_timeout = 20000;
    request_timeout = 60000;
    failure_threshold = 3;
    circuit_cooldown = 30000;
    admission_timeout = 5000;
  };
  specs =
      (
        "gpu",
        record {
          name = "gpu";
          kind = "gpu";
          base_url = "http://gpu";
          model = "m";
          api_key = "";
          scope = "local";
          max_inflight = 2;
          health_path = some "/health";
          workloads = "chat" ∷ [];
          reasoning_min = "none";
          reasoning_max = "high";
        },
      )
      ∷ [];
  routes = ("chat", "gpu" ∷ []) ∷ [];
}

parses :
    (parse_policy env (policy 2000 "gpu") ≡ ok parsed)
    × (parse_policy env (policy 2500 "gpu") ≡ err "must be an integer")
    × (parse_policy env (policy 2000 "npu") ≡ err "references unknown providers")
unfolding parse_policy check_keys parse_settings positive whole parse_providers parse_each
    parse_provider strings_of spec_of limit_of choice_of reasoning_of reasoning_level workloads_of
    texts_of health_of model_of names_of parse_routes parse_each_route parse_route route_of strip
parses = (refl, refl, refl)

abbrev calls : List Call
calls = acquires_explicit 7 7 9 "gpu" ∷ fails 8 "gpu" ∷ releases 0 ∷ []

parse_policy-Valid_example :
    Positive parsed.settings
    × All ValidSpec parsed.specs
    × All (ValidRoute parsed.specs) parsed.routes
    × Sound (run (start parsed.settings parsed.specs parsed.routes) calls)
parse_policy-Valid_example = parse_policy-Valid env (policy 2000 "gpu") parsed calls parses.0
