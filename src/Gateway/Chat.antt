-- ===== src/Gateway/Chat.antt =====
-- infra/ai-gateway/routes/chat.py: the checks of a request, and the loop over the providers for a
-- request on the local deployment. What it does to the pool is a log of actions; the answers of the
-- upstream servers and the turns of each acquisition are arguments.
pub mod Leases
pub mod Untried
pub mod Ends
pub mod Routing
pub mod Tests
use inuself.Base.{
  ℕ, String, Bool, true, false, not, ◌&&◌, ◌||◌, Option, none, some, List, [], ◌∷◌, map, ◌++◌, leb,
  nat_eq, if◌then◌else◌, ◌==◌, String_eq, ℕ_eq, elem, lookup, Dict, Result, ok, err, ◌>>=◌,
}
use inuself.Gateway.Json.{
  Value, null, bool, num, text, array, obj, Fields, no_fields, field, get, field_names,
}
use inuself.Gateway.Specs.{ProviderSpec}
use inuself.Gateway.Pool.{
  ProviderPool, ProviderLease, PoolError, admission_timeout, no_eligible_provider,
  no_healthy_provider, key_error, Turn, acquire_from, acquire_specs, explicit_specs,
}

pub record Profile : Type 0 where
  pub workload : String
  pub reasoning : String
  pub execution_scope : String

-- RoutingValidationError with its message, or the TypeError of `in` on a set for a value that has
-- no hash.
pub data RoutingError : Type 0 where
  validation_error : String → RoutingError
  type_error : RoutingError

-- `dict.get(key, default)` where the default is a string.
abbrev pub field_or : String → String → Fields → Value
field_or key default raw = elim (get key raw) [ none ↦ text default | some v ↦ v ]

-- `value not in names`, and the string that it is otherwise.
unfoldable pub one_of : List String → String → Value → Result RoutingError String
one_of names message (text s) = if elem s names then ok s else err (validation_error message)
one_of names message (array _) = err type_error
one_of names message (obj _) = err type_error
one_of names message null = err (validation_error message)
one_of names message (bool b) = err (validation_error message)
one_of names message (num sign n) = err (validation_error message)

abbrev pub routing_keys : List String
routing_keys = "workload" ∷ "reasoning" ∷ "execution_scope" ∷ []

abbrev pub workloads : List String
workloads = "chat" ∷ "summary" ∷ []

abbrev pub reasonings : List String
reasonings = "auto" ∷ "none" ∷ "low" ∷ "medium" ∷ "high" ∷ []

abbrev pub scopes : List String
scopes = "local_only" ∷ "remote_allowed" ∷ []

-- CODEX_REASONING_EFFORT_MAP.
abbrev pub codex_efforts : Dict String String
codex_efforts = ("codex-high", "high") ∷ ("codex-medium", "medium") ∷ ("codex-low", "low") ∷ []

abbrev pub all_elem : List String → List String → Bool
all_elem [] names = true
all_elem (x ∷ xs) names = elem x names && all_elem xs names

-- The object that `_extract_routing` reads: the field of the body, else the one of `extra_body`.
unfoldable pub raw_routing : Fields → Value
raw_routing body = elim (get "routing" body) [
  | some raw ↦ raw
  | none ↦ elim (get "extra_body" body) [
    | some (obj extra) ↦ elim (get "routing" extra) [ some raw ↦ raw | none ↦ obj no_fields ]
    | _ ↦ obj no_fields
  ]
]

unfoldable pub profile_of : Fields → Result RoutingError Profile
unfolding one_of
profile_of raw = do
  workload ←
      one_of workloads "routing.workload must be chat or summary" (field_or "workload" "chat" raw)
  reasoning ←
      one_of reasonings "routing.reasoning has an invalid value" (field_or "reasoning" "medium" raw)
  scope ←
      one_of scopes "routing.execution_scope has an invalid value"
        (field_or "execution_scope" "local_only" raw)
  ok (record {
    workload = workload;
    reasoning = if reasoning == "auto" then "medium" else reasoning;
    execution_scope = scope;
  })

-- The unknown fields are not listed in the message.
unfoldable pub routing_of : Value → Result RoutingError Profile
unfolding profile_of
routing_of (obj raw) =
    if all_elem (field_names raw) routing_keys
    then profile_of raw
    else err (validation_error "unknown routing fields")
routing_of _ = err (validation_error "routing must be an object")

unfoldable pub extract_routing : Fields → Result RoutingError Profile
unfolding routing_of raw_routing
extract_routing body = routing_of (raw_routing body)

pub data ErrorKind : Type 0 where
  invalid_request overloaded retryable : ErrorKind

-- What `_classify_upstream_error` sees of an exception: a timeout or a failure of the network, or
-- another one with the status code that it has, if any.
pub data UpstreamError : Type 0 where
  timeout_or_network : UpstreamError
  other_error : Option ℕ → UpstreamError

unfoldable pub classify_upstream_error : UpstreamError → ErrorKind × ℕ
classify_upstream_error timeout_or_network = (retryable, 503)
classify_upstream_error (other_error none) = (retryable, 503)
classify_upstream_error (other_error (some status)) =
    if elem status (400 ∷ 413 ∷ 422 ∷ [])
    then (invalid_request, 400)
    else if nat_eq status 429
    then (overloaded, 503)
    else if elem status (401 ∷ 403 ∷ 404 ∷ []) || leb 500 status
    then (retryable, 503)
    else (retryable, 503)

-- How `_open_upstream` ends: cancelled; with an exception; with a whole answer; or with a stream
-- of which the first chunk is there. An answer has the model that it names ("" for none).
pub data Opened : Type 0 where
  cancelled : Opened
  failed : UpstreamError → Opened
  payload : String → Opened
  streaming : String → Opened

-- The calls on leases and the pool, and the opening of the upstream with a reasoning effort.
pub data Action : Type 0 where
  opens : String → Option String → Action
  counts_failure : String → Action
  counts_success : String → Action
  gives_back : String → Action

-- The answer; a stream has the lease of the provider that it names, which it releases at its end.
pub data Reply : Type 0 where
  json : String → String → String → Reply
  stream : String → String → String → Reply
  overloaded_reply : Reply
  unavailable : PoolError → Reply
  bad_request : ℕ → Reply
  cancelled_reply : Reply
  crashed : PoolError → Reply

-- The variables of the loop.
pub record Loop : Type 0 where
  pub attempted : List String
  pub use_explicit : Bool
  pub fell_back : Bool
  pub saw_overload : Bool

-- One visit of the loop's body: the turns of its acquisition, and how the upstream answers.
pub record Visit : Type 0 where
  pub deadline : ℕ
  pub turns : List Turn
  pub opened : Opened

-- A visit that goes on has its new variables and its actions, one that returns its reply.
pub data Visited : Type 0 where
  waits : Visited
  continues : Loop → List Action → Visited
  returns : Reply → List Action → Visited

abbrev pub route_profile : Bool → Profile → Profile
route_profile explicit profile =
    if explicit
    then record { workload = "chat"; reasoning = "high"; execution_scope = "local_only" }
    else profile

abbrev acquired :
    ℕ
    → List Turn
    → String
    → Result PoolError (List ProviderSpec)
    → Option (Result PoolError (ProviderPool × ProviderLease))
acquired deadline turns preferred (err e) = some (err e)
acquired deadline turns preferred (ok specs) = acquire_from deadline specs preferred turns

-- The providers that a visit asks for.
unfoldable pub visit_specs :
    ProviderPool → Bool → Profile → Loop → Result PoolError (List ProviderSpec)
visit_specs pool explicit profile s =
    if s.use_explicit
    then explicit_specs pool "codex"
    else acquire_specs pool (route_profile explicit profile).workload
        (route_profile explicit profile).reasoning (route_profile explicit profile).execution_scope
        s.attempted

-- A visit's acquisition; `none` while it waits.
unfoldable pub visit_lease :
    ProviderPool
    → Bool
    → Profile
    → Loop
    → Visit
    → Option (Result PoolError (ProviderPool × ProviderLease))
visit_lease pool explicit profile s v =
    acquired v.deadline v.turns (if s.use_explicit then "explicit-codex" else "preferred")
      (visit_specs pool explicit profile s)

unfoldable pub not_admitted : Loop → PoolError → Visited
not_admitted s admission_timeout = returns overloaded_reply []
not_admitted s key_error = returns (crashed key_error) []
not_admitted s e =
    if s.use_explicit
    then continues
        (record s { attempted = "codex" ∷ s.attempted; use_explicit = false; fell_back = true }) []
    else if s.saw_overload
    then returns overloaded_reply []
    else returns (unavailable e) []

-- `opened["model"]`.
abbrev pub named_model : String → String → String
named_model reported model = if reported == "" then model else reported

-- `CODEX_REASONING_EFFORT_MAP[model] if use_explicit else ("high" if … == "codex" else None)`.
abbrev pub effort_for : Loop → String → ProviderLease → Option String
effort_for s model lease =
    if s.use_explicit
    then lookup model codex_efforts
    else if lease.spec.name == "codex"
    then some "high"
    else none

unfoldable pub after_error_loop : Loop → ProviderLease → Bool → Loop
after_error_loop s lease busy = record s {
  attempted = lease.spec.name ∷ s.attempted;
  use_explicit = false;
  fell_back = true;
  saw_overload = busy || s.saw_overload;
}

-- What follows an exception of the upstream, by its kind and status.
unfoldable pub after_error : Loop → String → ProviderLease → ErrorKind → ℕ → Visited
unfolding after_error_loop
after_error s model lease invalid_request status =
    returns (bad_request status)
      (opens lease.spec.name (effort_for s model lease) ∷ gives_back lease.spec.name ∷ [])
after_error s model lease retryable status = continues (after_error_loop s lease false) (
    opens lease.spec.name (effort_for s model lease)
    ∷ counts_failure lease.spec.name
    ∷ gives_back lease.spec.name
    ∷ [])
after_error s model lease overloaded status =
    continues (after_error_loop s lease true)
      (opens lease.spec.name (effort_for s model lease) ∷ gives_back lease.spec.name ∷ [])

-- The body after the acquisition. `model` is one of the map's keys where `use_explicit` is set.
unfoldable pub serve : Loop → String → ProviderLease → Opened → Visited
unfolding after_error
serve s model lease (failed exc) =
    after_error s model lease (classify_upstream_error exc).0 (classify_upstream_error exc).1
serve s model lease cancelled =
    returns cancelled_reply
      (opens lease.spec.name (effort_for s model lease) ∷ gives_back lease.spec.name ∷ [])
serve s model lease (payload reported) =
    let name = lease.spec.name in
    returns
      (json name (named_model reported lease.spec.model)
        (if s.fell_back then "error-fallback" else lease.reason))
      (opens name (effort_for s model lease) ∷ counts_success name ∷ gives_back name ∷ [])
serve s model lease (streaming reported) =
    let name = lease.spec.name in
    returns
      (stream name (named_model reported lease.spec.model)
        (if s.fell_back then "error-fallback" else lease.reason))
      (opens name (effort_for s model lease) ∷ [])

-- How a stream that was started ends, in `generate` of `_stream_response`.
pub data StreamEnd : Type 0 where
  finished disconnected broken : StreamEnd

unfoldable pub stream_actions : String → StreamEnd → List Action
stream_actions name finished = counts_success name ∷ gives_back name ∷ []
stream_actions name disconnected = gives_back name ∷ []
stream_actions name broken = counts_failure name ∷ gives_back name ∷ []

-- What is left to do after a reply, should it be a stream.
unfoldable pub after_reply : Reply → StreamEnd → List Action
unfolding stream_actions
after_reply (stream name model reason) e = stream_actions name e
after_reply _ e = []

unfoldable pub visit : ProviderPool → Bool → Profile → String → Loop → Visit → Visited
unfolding not_admitted
visit pool explicit profile model s v = elim (visit_lease pool explicit profile s v) [
  | none ↦ waits
  | some (err e) ↦ not_admitted s e
  | some (ok (p, lease)) ↦ serve s model lease v.opened
]

-- The loop over the visits that it is given: the reply and the log, `none` without one.
unfoldable pub loop :
    ProviderPool → Bool → Profile → String → Loop → List Visit → Option (Reply × List Action)
loop pool explicit profile model s [] = none
loop pool explicit profile model s (v ∷ visits) = elim (visit pool explicit profile model s v) [
  | waits ↦ none
  | returns reply log ↦ some (reply, log)
  | continues s' log ↦ elim (loop pool explicit profile model s' visits) [
    | none ↦ none
    | some (reply, rest) ↦ some (reply, log ++ rest)
  ]
]

unfoldable pub handle_local :
    ProviderPool → String → Profile → List Visit → Option (Reply × List Action)
handle_local pool model profile visits =
    loop pool (elem model (map (λ entry. entry.0) codex_efforts)) profile model
      (record {
        attempted = [];
        use_explicit = elem model (map (λ entry. entry.0) codex_efforts);
        fell_back = false;
        saw_overload = false;
      })
      visits
