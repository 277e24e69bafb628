-- ===== src/Gateway/Chat/Tests.antt =====
-- Requests to the gateway over two providers of one workload.
use inuself.Base.{
  All, elem, ℕ, ◌≡◌, refl, String, true, false, none, some, List, [], ◌∷◌, ◌++◌, String_eq, ℕ_eq,
  lookup, err, arith,
}
use inuself.Gateway.Json.{text, array, obj, no_elements, Fields, no_fields, field}
use inuself.Gateway.Specs.{reasoning_level}
use inuself.Gateway.Pool.{ProviderPool, init, Turn, acquire_specs, serves}
use inuself.Gateway.Pool.Tests.{test_settings, test_specs, test_routes, spark}
use inuself.Gateway.Pool.Eligible.{Eligible, acquire_specs-Eligible}
use inuself.Gateway.World.Tests.{test_named}
use inuself.Gateway.Chat.{
  Profile, type_error, extract_routing, raw_routing, routing_of, profile_of, one_of, Visit, Opened,
  failed, payload, streaming, timeout_or_network, Reply, Action, handle_local, after_reply,
  finished,
}
use inuself.Gateway.Chat.Leases.{held_after}
use inuself.Gateway.Chat.Ends.{handle_local_ends}
use inuself.Gateway.Chat.Routing.{Valid, Requested, extract_routing-Valid}

abbrev asks_summary : Fields
asks_summary =
    field "routing"
      (obj (field "workload" (text "summary") (field "reasoning" (text "auto") no_fields)))
      no_fields

abbrev summary_profile : Profile
summary_profile = record {
  workload = "summary";
  reasoning = "medium";
  execution_scope = "local_only";
}

extract_routing-Valid_example :
    (raw : Fields) × Requested asks_summary raw × Valid raw summary_profile
unfolding extract_routing routing_of profile_of one_of raw_routing
extract_routing-Valid_example = extract_routing-Valid asks_summary summary_profile refl

-- A field that is an array has no hash.
array_workload :
    extract_routing
      (field "routing" (obj (field "workload" (array no_elements) no_fields)) no_fields)
    ≡ err type_error
unfolding extract_routing routing_of profile_of one_of raw_routing
array_workload = refl

abbrev gateway : ProviderPool
gateway = init test_settings test_specs test_routes

abbrev turns : List Turn
turns = (record { pool = gateway; now = 1; time = 10; notified = false }) ∷ []

abbrev visit_with : Opened → Visit
visit_with o = record { deadline = 10; turns = turns; opened = o }

abbrev four_visits : List Visit
four_visits =
    visit_with (payload "")
    ∷ visit_with (failed timeout_or_network)
    ∷ visit_with (payload "")
    ∷ visit_with (streaming "m")
    ∷ []

abbrev chat_profile : Profile
chat_profile = record { workload = "chat"; reasoning = "low"; execution_scope = "local_only" }

handle_local_ends_example :
    (reply : Reply) × (log : List Action) × (handle_local gateway "auto" chat_profile four_visits
      ≡ some (reply, log))
    × (held_after none (log ++ after_reply reply finished) ≡ some none)
unfolding init
handle_local_ends_example =
    handle_local_ends finished gateway "auto" chat_profile four_visits test_named
      (refl, (refl, (refl, (refl, tt)))) (omega arith)

acquire_specs-Eligible_example :
    (names : List String) × (level : ℕ) × (lookup "chat" gateway.routes ≡ some names)
    × (reasoning_level "low" ≡ some level)
    × (All
        (λ s. (elem s.name names ≡ true) × Eligible gateway "chat" level "local_only" [] s)
        (spark ∷ []))
unfolding init acquire_specs serves reasoning_level
acquire_specs-Eligible_example =
    (acquire_specs-Eligible gateway "chat" "low" "local_only" [] (spark ∷ []) test_named refl).1
