-- ===== src/Gateway/Policy.antt =====
-- infra/ai-gateway/services/provider_pool.py, _parse_policy: the settings, providers and routes of a
-- routing policy. The policy is the JSON of the file, in which an object has each key once; the
-- environment is a function of the name. A message leaves out what it lists.
pub mod Valid
pub mod Routes
pub mod Tests
use package.text.Mathlib.Text.{starts_with}
use inuself.Base.{
  ℕ, ◌/◌, ◌%◌, String, Bool, true, false, not, ◌&&◌, Option, none, some, List, [], ◌∷◌, ◌==◌, ℕ_eq,
  String_eq, Dict, lookup, insert, all, elem, or_default, ltb, leb, Result, ok, err, guard, ◌>>=◌,
  ◌>>◌, if◌then◌else◌,
}
use inuself.Content.Texts.{strip}
use inuself.Gateway.Json.{
  Value, Fields, Elements, null, text, num, array, obj, no_fields, field, no_elements, element, get,
  field_names,
}
use inuself.Gateway.Specs.{PoolSettings, ProviderSpec, reasoning_level}

-- _SETTINGS and _PROVIDER_KEYS.
abbrev pub settings_keys : List String
settings_keys =
    "health_interval_seconds" ∷ "health_timeout_seconds" ∷ "first_output_timeout_seconds"
    ∷ "request_timeout_seconds" ∷ "failure_threshold" ∷ "circuit_cooldown_seconds"
    ∷ "admission_timeout_seconds" ∷ []

abbrev pub provider_keys : List String
provider_keys =
    "kind" ∷ "base_url_env" ∷ "base_url_default" ∷ "model_env" ∷ "model_default" ∷ "api_key_env"
    ∷ "scope" ∷ "max_inflight" ∷ "health_path" ∷ "workloads" ∷ "reasoning_min" ∷ "reasoning_max"
    ∷ []

unfoldable pub positive : Value → Result String ℕ
positive (num false n) = if ltb 0 n then ok n else err "must be positive"
positive _ = err "must be positive"

-- `raw[key]`, once the keys are checked.
abbrev pub at : Fields → String → Value
at raw key = or_default (get key raw) null

abbrev pub object_of : Value → Result String Fields
object_of (obj raw) = ok raw
object_of _ = err "must be an object"

unfoldable pub check_keys : List String → Fields → Result String (Unit {0})
check_keys keys raw =
    guard (all (λ k. elem k (field_names raw)) keys) "missing keys"
    >> guard (all (λ k. elem k keys) (field_names raw)) "has unknown keys"

-- A number of thousandths that is a whole number, as that.
unfoldable pub whole : ℕ → Result String ℕ
whole n = guard (n % 1000 == 0) "must be an integer" >> ok (n / 1000)

unfoldable pub parse_settings : Value → Result String PoolSettings
parse_settings v = object_of v >>= λ raw. check_keys settings_keys raw >>= λ u.
    positive (at raw "health_interval_seconds") >>= λ interval.
    positive (at raw "health_timeout_seconds") >>= λ timeout.
    positive (at raw "first_output_timeout_seconds") >>= λ first.
    positive (at raw "request_timeout_seconds") >>= λ request.
    positive (at raw "failure_threshold") >>= λ threshold.
    positive (at raw "circuit_cooldown_seconds") >>= λ cooldown.
    positive (at raw "admission_timeout_seconds") >>= λ admission. whole threshold >>= λ failures.
    ok (record {
      health_interval = interval;
      health_timeout = timeout;
      first_output_timeout = first;
      request_timeout = request;
      failure_threshold = failures;
      circuit_cooldown = cooldown;
      admission_timeout = admission;
    })

abbrev pub string_of : Value → Result String String
string_of (text s) = ok s
string_of _ = err "must be a string"

unfoldable pub limit_of : Fields → Result String ℕ
limit_of raw = positive (at raw "max_inflight") >>= λ n. whole n

-- A text that is one of the options.
unfoldable pub choice_of : List String → Value → Result String String
choice_of options (text s) = guard (elem s options) "is invalid" >> ok s
choice_of options _ = err "is invalid"

abbrev pub level_of : Value → Result String (String × ℕ)
level_of (text s) = elim (reasoning_level s) [
  | none ↦ err "has invalid reasoning range"
  | some n ↦ ok (s, n)
]
level_of _ = err "has invalid reasoning range"

unfoldable pub reasoning_of : Fields → Result String (String × String)
reasoning_of raw = level_of (at raw "reasoning_min") >>= λ low.
    level_of (at raw "reasoning_max") >>= λ high.
    guard (leb low.1 high.1) "has reversed reasoning range" >> ok (low.0, high.0)

-- The texts of a list, if all are not empty.
unfoldable pub texts_of : Elements → Result String (List String)
texts_of no_elements = ok []
texts_of (element (text s) vs) =
    guard (not (s == "")) "must be non-empty strings" >> (texts_of vs >>= λ rest. ok (s ∷ rest))
texts_of (element v vs) = err "must be non-empty strings"

unfoldable pub workloads_of : Value → Result String (List String)
workloads_of (array (element v vs)) = texts_of (element v vs)
workloads_of _ = err "workloads must be non-empty strings"

unfoldable pub health_of : Value → Result String (Option String)
health_of null = ok none
health_of (text s) = guard (starts_with s "/") "health_path must start with /" >> ok (some s)
health_of _ = err "health_path must be string or null"

-- `os.getenv(name, default).strip()`.
abbrev pub getenv : (String → Option String) → String → String → String
getenv env name default_ = strip (or_default (env name) default_)

-- The texts of a provider's address, model and key.
pub record Strings : Type 0 where
  pub base_url_env : String
  pub base_url_default : String
  pub model_env : String
  pub model_default : String
  pub api_key_env : String

unfoldable pub strings_of : Fields → Result String Strings
strings_of raw = string_of (at raw "kind") >>= λ kind.
    string_of (at raw "base_url_env") >>= λ base_url_env.
    string_of (at raw "base_url_default") >>= λ base_url_default.
    string_of (at raw "model_env") >>= λ model_env.
    string_of (at raw "model_default") >>= λ model_default.
    string_of (at raw "api_key_env") >>= λ api_key_env. ok (record {
      base_url_env = base_url_env;
      base_url_default = base_url_default;
      model_env = model_env;
      model_default = model_default;
      api_key_env = api_key_env;
    })

unfoldable pub model_of : (String → Option String) → Strings → Result String String
model_of env t =
    let model = getenv env t.model_env t.model_default in
    guard (not (model == "")) "model must not be empty" >> ok model

-- The rest of the checks, and the provider.
unfoldable pub spec_of :
    (String → Option String) → String → Fields → Strings → Result String ProviderSpec
spec_of env name raw t = limit_of raw >>= λ limit.
    choice_of ("local" ∷ "remote" ∷ []) (at raw "scope") >>= λ scope.
    choice_of ("npu" ∷ "gpu" ∷ "remote" ∷ []) (at raw "kind") >>= λ kind.
    reasoning_of raw >>= λ reasoning. workloads_of (at raw "workloads") >>= λ workloads.
    health_of (at raw "health_path") >>= λ health_path. model_of env t >>= λ model. ok (record {
      name = name;
      kind = kind;
      base_url = getenv env t.base_url_env t.base_url_default;
      model = model;
      api_key = if t.api_key_env == "" then "" else getenv env t.api_key_env "";
      scope = scope;
      max_inflight = limit;
      health_path = health_path;
      workloads = workloads;
      reasoning_min = reasoning.0;
      reasoning_max = reasoning.1;
    })

unfoldable pub parse_provider :
    (String → Option String) → String → Value → Result String ProviderSpec
parse_provider env name v = object_of v >>= λ raw.
    check_keys provider_keys raw >>= λ u. strings_of raw >>= λ t. spec_of env name raw t

unfoldable pub parse_each :
    (String → Option String)
    → Fields
    → Dict String ProviderSpec
    → Result String (Dict String ProviderSpec)
parse_each env no_fields specs = ok specs
parse_each env (field name v fs) specs =
    parse_provider env name v >>= λ spec. parse_each env fs (insert name spec specs)

unfoldable pub parse_providers :
    (String → Option String) → Value → Result String (Dict String ProviderSpec)
parse_providers env (obj (field name v fs)) = parse_each env (field name v fs) []
parse_providers env _ = err "providers must be a non-empty object"

-- `all(isinstance(name, str) for name in names)`, with the names.
unfoldable pub names_of : Elements → Result String (List String)
names_of no_elements = ok []
names_of (element (text s) vs) = names_of vs >>= λ rest. ok (s ∷ rest)
names_of (element v vs) = err "must be a non-empty list"

abbrev pub distinct : List String → Bool
distinct [] = true
distinct (n ∷ ns) = not (elem n ns) && distinct ns

abbrev pub is_known : Dict String ProviderSpec → String → Bool
is_known specs n = elim (lookup n specs) [ none ↦ false | some spec ↦ true ]

abbrev pub supports : Dict String ProviderSpec → String → String → Bool
supports specs workload n = elim (lookup n specs) [
  | none ↦ false
  | some spec ↦ elem workload spec.workloads
]

unfoldable pub route_of : Dict String ProviderSpec → String → Elements → Result String (List String)
route_of specs workload vs = names_of vs >>= λ names.
    guard (distinct names) "contains duplicate providers" >>= λ u.
    guard (all (is_known specs) names) "references unknown providers" >>= λ u.
    guard (all (supports specs workload) names) "uses providers without workload support" >>= λ u.
    ok names

unfoldable pub parse_route : Dict String ProviderSpec → String → Value → Result String (List String)
parse_route specs workload (array (element v vs)) = route_of specs workload (element v vs)
parse_route specs workload _ = err "must be a non-empty list"

unfoldable pub parse_each_route :
    Dict String ProviderSpec
    → Fields
    → Dict String (List String)
    → Result String (Dict String (List String))
parse_each_route specs no_fields routes = ok routes
parse_each_route specs (field workload v fs) routes = parse_route specs workload v >>= λ names.
    parse_each_route specs fs (insert workload names routes)

unfoldable pub parse_routes :
    Dict String ProviderSpec → Value → Result String (Dict String (List String))
parse_routes specs (obj (field workload v fs)) = parse_each_route specs (field workload v fs) []
parse_routes specs _ = err "routes must be a non-empty object"

pub record Policy : Type 0 where
  pub settings : PoolSettings
  pub specs : Dict String ProviderSpec
  pub routes : Dict String (List String)

unfoldable pub parse_policy : (String → Option String) → Fields → Result String Policy
parse_policy env policy = check_keys ("settings" ∷ "providers" ∷ "routes" ∷ []) policy >>= λ u.
    parse_settings (at policy "settings") >>= λ settings.
    parse_providers env (at policy "providers") >>= λ specs.
    parse_routes specs (at policy "routes") >>= λ routes.
    ok (record { settings = settings; specs = specs; routes = routes })
