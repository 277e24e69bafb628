-- ===== src/Gateway/Serverless.antt =====
-- infra/ai-gateway/routes/chat.py, `_handle_serverless`, with the providers of
-- infra/ai-gateway/services/routing.py. The environment's settings and the answers of the upstream
-- servers are arguments.
pub mod Order
pub mod Answers
pub mod Tests
use inuself.Base.{
  ℕ, String, Bool, true, false, not, ◌&&◌, ◌||◌, Option, none, some, List, [], ◌∷◌, ◌++◌, map,
  if◌then◌else◌, ◌==◌, String_eq, elem, lookup,
}
use inuself.Gateway.Chat.{
  Profile, codex_efforts, ErrorKind, invalid_request, overloaded, retryable,
  classify_upstream_error, Opened, cancelled, failed, payload, streaming, named_model,
}

pub record ProviderResult : Type 0 where
  pub api_base : String
  pub model : String
  pub name : String
  pub reasoning_effort : Option String

-- CODEX_API_BASE, CODEX_MODEL, RUNPOD_LLM_BASE_URL and LLM_MODEL_NAME.
pub record Config : Type 0 where
  pub codex_api_base : String
  pub codex_model : String
  pub llm_base_url : String
  pub llm_model : String

abbrev pub get_serverless_llm_provider : Config → ProviderResult
get_serverless_llm_provider config = record {
  api_base = config.llm_base_url;
  model = config.llm_model;
  name = "runpod-llm";
  reasoning_effort = none;
}

-- `model_name` is a key of the map at both calls.
abbrev pub get_codex_provider : Config → String → ProviderResult
get_codex_provider config model_name = record {
  api_base = config.codex_api_base;
  model = config.codex_model;
  name = "codex";
  reasoning_effort = lookup model_name codex_efforts;
}

abbrev pub is_explicit : String → Bool
is_explicit model = elem model (map (λ entry. entry.0) codex_efforts)

unfoldable pub serverless_providers : Config → String → Profile → List ProviderResult
serverless_providers config model profile =
    if is_explicit model
    then get_codex_provider config model ∷ get_serverless_llm_provider config ∷ []
    else get_serverless_llm_provider config
      ∷ (if (profile.reasoning == "high") && (profile.execution_scope == "remote_allowed")
          then get_codex_provider config "codex-high" ∷ []
          else [])

-- The reply: whether it is a stream, with its headers; or an error.
pub data Answer : Type 0 where
  answered : Bool → String → String → String → Answer
  too_busy : Answer
  none_available : Answer
  refused : ℕ → Answer
  stopped : Answer

-- What the loop's body does at one provider: it goes on, and whether for an overload, or ends.
pub data Tried : Type 0 where
  moves_on : Bool → Tried
  ends : Answer → Tried

abbrev pub after_kind : ErrorKind → ℕ → Tried
after_kind invalid_request status = ends (refused status)
after_kind overloaded status = moves_on true
after_kind retryable status = moves_on false

abbrev pub reason_of : Bool → Bool → String
reason_of explicit failing =
    if failing then "error-fallback" else if explicit then "explicit-codex" else "preferred"

abbrev pub opened_as : Bool → Bool → ProviderResult → Opened → Tried
opened_as explicit failing p cancelled = ends stopped
opened_as explicit failing p (failed exc) =
    after_kind (classify_upstream_error exc).0 (classify_upstream_error exc).1
opened_as explicit failing p (payload reported) =
    ends (answered false p.name (named_model reported p.model) (reason_of explicit failing))
opened_as explicit failing p (streaming reported) =
    ends (answered true p.name (named_model reported p.model) (reason_of explicit failing))

unfoldable pub tried : Bool → (ProviderResult → Opened) → Bool → ProviderResult → Tried
tried explicit upstream failing p =
    if p.api_base == "" then moves_on false else opened_as explicit failing p (upstream p)

-- The loop, with `saw_overload` and `failed`.
unfoldable pub try_all :
    Bool → (ProviderResult → Opened) → Bool → Bool → List ProviderResult → Answer
try_all explicit upstream saw_overload failing [] =
    if saw_overload then too_busy else none_available
try_all explicit upstream saw_overload failing (p ∷ ps) = elim (tried explicit upstream failing p) [
  | ends answer ↦ answer
  | moves_on busy ↦ try_all explicit upstream (saw_overload || busy) true ps
]

unfoldable pub handle_serverless : Config → (ProviderResult → Opened) → String → Profile → Answer
handle_serverless config upstream model profile =
    try_all (is_explicit model) upstream false false (serverless_providers config model profile)
