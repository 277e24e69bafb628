-- ===== src/Gateway/Serverless/Tests.antt =====
-- A serverless request with an address for both providers.
use inuself.Base.{◌≡◌, refl, false, some, ◌==◌, String_eq, if◌then◌else◌}
use inuself.Gateway.Chat.{Profile, Opened, failed, payload, other_error, classify_upstream_error}
use inuself.Gateway.Serverless.{
  ProviderResult, Config, serverless_providers, answered, handle_serverless, try_all, tried,
}
use inuself.Gateway.Serverless.Answers.{Ends, handle_serverless-Ends}

abbrev settings : Config
settings = record {
  codex_api_base = "http://codex";
  codex_model = "big";
  llm_base_url = "http://llm";
  llm_model = "small";
}

abbrev remote_high : Profile
remote_high = record { workload = "chat"; reasoning = "high"; execution_scope = "remote_allowed" }

abbrev llm_overloaded : ProviderResult → Opened
llm_overloaded p = if p.name == "codex" then payload "" else failed (other_error (some 429))

falls_back :
    handle_serverless settings llm_overloaded "auto" remote_high
    ≡ answered false "codex" "big" "error-fallback"
unfolding handle_serverless serverless_providers try_all tried classify_upstream_error
falls_back = refl

handle_serverless-Ends_example :
    Ends false llm_overloaded
      (serverless_providers settings "auto" remote_high)
      (handle_serverless settings llm_overloaded "auto" remote_high)
handle_serverless-Ends_example = handle_serverless-Ends settings llm_overloaded "auto" remote_high
