-- ===== src/Gateway/Pool.antt =====
-- infra/ai-gateway/services/provider_pool.py: the state of the providers and the operations on it.
-- Each operation runs under the pool's condition, so it is one atomic step on the pool. The clock
-- and the event loop's time are arguments. `key_error` is a KeyError on an unknown provider.
pub mod Scan
pub mod Waiting
pub mod Admission
pub mod Outcomes
pub mod Granting
pub mod Circuit
pub mod Eligible
pub mod Tests
use inuself.Base.{
  ℕ, ◌+◌, ◌-◌, String, Bool, true, false, not, ◌&&◌, ◌||◌, Option, none, some, List, [], ◌∷◌, ◌++◌,
  map, min, ltb, leb, nat_eq, if◌then◌else◌, ◌==◌, String_eq, elem, Dict, lookup, insert, Result,
  ok, err, ◌>>=◌, or_fail,
}
use inuself.Gateway.Json.{Value, text, array, obj, Elements, no_elements, element, get}
use inuself.Gateway.Specs.{PoolSettings, ProviderSpec, enabled, reasoning_level}

pub data Health : Type 0 where
  unknown healthy unhealthy : Health

pub record ProviderState : Type 0 where
  pub health : Health
  pub inflight : ℕ
  pub probe_failures : ℕ
  pub request_failures : ℕ
  pub circuit_open_until : ℕ
  pub half_open_probe : Bool

pub record ProviderPool : Type 0 where
  pub settings : PoolSettings
  pub specs : Dict String ProviderSpec
  pub routes : Dict String (List String)
  pub states : Dict String ProviderState

pub data PoolError : Type 0 where
  no_eligible_provider no_healthy_provider admission_timeout key_error : PoolError

-- The lease keeps its provider's spec, and whether it has been released.
pub record ProviderLease : Type 0 where
  pub spec : ProviderSpec
  pub reason : String
  pub half_open : Bool
  pub released : Bool

abbrev pub is_healthy : Health → Bool
is_healthy healthy = true
is_healthy _ = false

abbrev pub is_unknown : Health → Bool
is_unknown unknown = true
is_unknown _ = false

is_none : Option String → Bool
is_none none = true
is_none (some p) = false

initial_health : ProviderSpec → Health
unfolding is_none
initial_health spec = if enabled spec && is_none spec.health_path then healthy else unknown

unfoldable pub initial_state : ProviderSpec → ProviderState
unfolding initial_health
initial_state spec = record {
  health = initial_health spec;
  inflight = 0;
  probe_failures = 0;
  request_failures = 0;
  circuit_open_until = 0;
  half_open_probe = false;
}

unfoldable pub init_states : Dict String ProviderSpec → Dict String ProviderState
init_states [] = []
init_states ((name, spec) ∷ specs) = (name, initial_state spec) ∷ init_states specs

-- `ProviderPool.__init__`, from what the policy was parsed to.
unfoldable pub init :
    PoolSettings → Dict String ProviderSpec → Dict String (List String) → ProviderPool
unfolding init_states initial_state
init settings specs routes = record {
  settings = settings;
  specs = specs;
  routes = routes;
  states = init_states specs;
}

-- The tests of `_eligible_specs` on one provider, in the source's order.
unfoldable pub serves : String → ℕ → String → ProviderSpec → Result PoolError Bool
serves workload level execution_scope spec =
    if enabled spec && elem workload spec.workloads
    then (do
      low ← or_fail (reasoning_level spec.reasoning_min) key_error
      if leb low level then below_max else ok false)
    else ok false
  where
    below_max : Result PoolError Bool
    below_max = do
      high ← or_fail (reasoning_level spec.reasoning_max) key_error
      ok (leb level high && (spec.scope == "local" || execution_scope == "remote_allowed"))

unfoldable pub select_specs :
    ProviderPool
    → String
    → ℕ
    → String
    → List String
    → List String
    → Result PoolError (List ProviderSpec)
select_specs p workload level execution_scope exclude [] = ok []
select_specs p workload level execution_scope exclude (name ∷ names) =
    let rest = select_specs p workload level execution_scope exclude names in
    if elem name exclude then rest else (do
      spec ← or_fail (lookup name p.specs) key_error
      good ← serves workload level execution_scope spec
      others ← rest
      ok (if good then spec ∷ others else others))

unfoldable pub eligible_specs :
    ProviderPool → String → String → String → List String → Result PoolError (List ProviderSpec)
unfolding select_specs
eligible_specs p workload reasoning execution_scope exclude = elim (lookup workload p.routes) [
  | none ↦ ok []
  | some names ↦ elim (reasoning_level reasoning) [
    | none ↦ ok []
    | some level ↦ select_specs p workload level execution_scope exclude names
  ]
]

-- Whether a request may go through, and whether it would be the half-open probe.
unfoldable pub circuit_available : ProviderState → ℕ → Bool × Bool
circuit_available state now =
    if nat_eq state.circuit_open_until 0
    then (true, false)
    else if ltb now state.circuit_open_until || state.half_open_probe
    then (false, false)
    else (true, true)

-- What one pass over the providers finds: the provider to take, with the reason and whether it is
-- a half-open probe; or none, with whether a healthy one exists and the open circuits' times.
pub data Round : Type 0 where
  selected : ProviderSpec → String → Bool → Round
  none_free : Bool → List ℕ → Round

abbrev pub grant_reason : String → Bool → Bool → String
grant_reason preferred_reason preceding_unhealthy preceding_busy =
    if preferred_reason == "preferred"
    then (if preceding_unhealthy
        then "unhealthy-fallback"
        else if preceding_busy
        then "capacity-overflow"
        else preferred_reason)
    else preferred_reason

-- What the pass does at one provider.
pub data Verdict : Type 0 where
  skip_unhealthy : List ℕ → Verdict
  skip_busy : Verdict
  take : Bool → Verdict

unfoldable pub verdict : ProviderSpec → ProviderState → ℕ → Verdict
unfolding circuit_available
verdict spec state now =
    if not (is_healthy state.health) || not (circuit_available state now).0
    then skip_unhealthy (
        if is_healthy state.health && ltb now state.circuit_open_until
        then (state.circuit_open_until - now) ∷ []
        else [])
    else if leb spec.max_inflight state.inflight
    then skip_busy
    else take (circuit_available state now).1

-- The `for spec in specs` loop of `_acquire_from`, with its flags.
unfoldable pub scan :
    Dict String ProviderState
    → ℕ
    → String
    → List ProviderSpec
    → Bool
    → Bool
    → Bool
    → List ℕ
    → Result PoolError Round
scan states now preferred [] bad busy alive waits = ok (none_free alive waits)
scan states now preferred (spec ∷ specs) bad busy alive waits = elim (lookup spec.name states) [
  | none ↦ err key_error
  | some state ↦ elim (verdict spec state now) [
    | skip_unhealthy more ↦ scan states now preferred specs true busy alive (waits ++ more)
    | skip_busy ↦ scan states now preferred specs bad true true waits
    | take half_open ↦ ok (selected spec (grant_reason preferred bad busy) half_open)
  ]
]

-- The change of the provider's state that a lease makes.
unfoldable pub occupy : ProviderSpec → Bool → ProviderPool → ProviderPool
occupy spec half_open p = elim (lookup spec.name p.states) [
  | none ↦ p
  | some state ↦ record p {
    states =
        insert spec.name
          (record state {
            inflight = state.inflight + 1;
            half_open_probe = half_open || state.half_open_probe;
          })
          p.states;
  }
]

-- `min([remaining, *circuit_waits])`.
abbrev pub min_of : ℕ → List ℕ → ℕ
min_of m [] = m
min_of m (n ∷ ns) = min_of (min m n) ns

-- One turn of the `while True` loop of `_acquire_from`.
pub data Attempt : Type 0 where
  leased : ProviderPool → ProviderLease → Attempt
  raised : PoolError → Attempt
  waits_for : ℕ → ℕ → Attempt

-- With the deadline in the loop's time; `waits_for` has the wait and the time that remains.
unfoldable pub attempt : ProviderPool → ℕ → ℕ → ℕ → List ProviderSpec → String → Attempt
unfolding scan occupy
attempt p now time deadline specs preferred =
    elim (scan p.states now preferred specs false false false []) [
      | err e ↦ raised e
      | ok (selected spec reason half_open) ↦
          leased (occupy spec half_open p)
            (record { spec = spec; reason = reason; half_open = half_open; released = false })
      | ok (none_free false waits) ↦ raised no_healthy_provider
      | ok (none_free true waits) ↦
          if leb deadline time
          then raised admission_timeout
          else waits_for (min_of (deadline - time) waits) (deadline - time)
    ]

-- What one turn of the loop meets: the pool as the others left it, the two clocks, and, should it
-- wait, whether it is notified before the wait ends.
pub record Turn : Type 0 where
  pub pool : ProviderPool
  pub now : ℕ
  pub time : ℕ
  pub notified : Bool

-- The loop over the turns that it is given; `none` while it still waits after the last of them.
unfoldable pub acquire_from :
    ℕ
    → List ProviderSpec
    → String
    → List Turn
    → Option (Result PoolError (ProviderPool × ProviderLease))
acquire_from deadline specs preferred [] = none
acquire_from deadline specs preferred (t ∷ ts) =
    elim (attempt t.pool t.now t.time deadline specs preferred) [
      | leased p l ↦ some (ok (p, l))
      | raised e ↦ some (err e)
      | waits_for wait remaining ↦
          let rest = acquire_from deadline specs preferred ts in
          if t.notified
          then rest
          else if ltb wait remaining
          then rest
          else some (err admission_timeout)
    ]

-- `acquire` and `acquire_explicit` up to the loop: the providers to try, and the reason.
unfoldable pub acquire_specs :
    ProviderPool → String → String → String → List String → Result PoolError (List ProviderSpec)
unfolding eligible_specs
acquire_specs p workload reasoning execution_scope exclude = do
  specs ← eligible_specs p workload reasoning execution_scope exclude
  elim specs [ [] ↦ err no_eligible_provider | s ∷ ss ↦ ok (s ∷ ss) ]

unfoldable pub explicit_specs : ProviderPool → String → Result PoolError (List ProviderSpec)
explicit_specs p provider_name = elim (lookup provider_name p.specs) [
  | none ↦ err no_eligible_provider
  | some spec ↦ if enabled spec then ok (spec ∷ []) else err no_eligible_provider
]

-- `self.states[name]`, changed in place.
abbrev pub with_state :
    String → (ProviderState → ProviderState) → ProviderPool → Result PoolError ProviderPool
with_state name f p = do
  state ← or_fail (lookup name p.states) key_error
  ok (record p { states = insert name (f state) p.states })

-- `_release`. (`-` on ℕ stops at 0, as `max(0, …)` does.)
unfoldable pub release : ProviderLease → ProviderPool → Result PoolError ProviderPool
release lease p =
    with_state lease.spec.name
      (λ state. record state {
        inflight = state.inflight - 1;
        half_open_probe = if lease.half_open then false else state.half_open_probe;
      })
      p

unfoldable pub record_success : String → ProviderPool → Result PoolError ProviderPool
unfolding is_none
record_success name p = do
  spec ← or_fail (lookup name p.specs) key_error
  with_state name
      (λ state. record state {
        request_failures = 0;
        circuit_open_until = 0;
        half_open_probe = false;
        health = if is_none spec.health_path then healthy else state.health;
      })
      p

failed_once : ℕ → PoolSettings → ProviderState → ProviderState
failed_once now settings state =
    let failures = state.request_failures + 1 in
    if leb settings.failure_threshold failures
    then record state {
      request_failures = failures;
      circuit_open_until = now + settings.circuit_cooldown;
      half_open_probe = false;
    }
    else record state { request_failures = failures }

unfoldable pub record_failure : ℕ → String → ProviderPool → Result PoolError ProviderPool
unfolding failed_once
record_failure now name p = with_state name (failed_once now p.settings) p

-- The id of an entry of the models' list, where the entry is an object.
lists_model : String → Elements → Bool
lists_model model no_elements = false
lists_model model (element (obj entry) elements) =
    (elim (get "id" entry) [ some (text id) ↦ id == model | _ ↦ false ])
    || lists_model model elements
lists_model model (element _ elements) = lists_model model elements

-- What `_probe` makes of the response: none if the call or the decoding raised.
unfoldable pub probe_ok : String → Option (ℕ × Value) → Bool
unfolding lists_model
probe_ok model none = false
probe_ok model (some (status, obj payload)) =
    nat_eq status 200
    && (elim (get "data" payload) [ some (array models) ↦ lists_model model models | _ ↦ false ])
probe_ok model (some (status, _)) = false

probed : Bool → PoolSettings → ProviderState → ProviderState
probed true settings state = record state { health = healthy; probe_failures = 0 }
probed false settings state =
    let failures = state.probe_failures + 1 in
    if is_unknown state.health || leb settings.failure_threshold failures
    then record state { probe_failures = failures; health = unhealthy }
    else record state { probe_failures = failures }

unfoldable pub probe :
    ProviderSpec → Option (ℕ × Value) → ProviderPool → Result PoolError ProviderPool
unfolding probed
probe spec response p = with_state spec.name (probed (probe_ok spec.model response) p.settings) p
