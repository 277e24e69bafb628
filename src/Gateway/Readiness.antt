-- ===== src/Gateway/Readiness.antt =====
-- infra/ai-gateway/services/provider_pool.py: what the pool tells of its providers and routes.
use inuself.Base.{
  ℕ, ◌-◌, String, Bool, true, false, not, ◌&&◌, ◌||◌, Option, none, some, List, [], ◌∷◌,
  if◌then◌else◌, ◌==◌, String_eq, Dict, lookup, Result, ok, ◌>>=◌, or_fail,
}
use inuself.Gateway.Specs.{ProviderSpec, enabled}
use inuself.Gateway.Pool.{
  Health, ProviderState, ProviderPool, PoolError, key_error, is_healthy, circuit_available,
}

-- One provider's entry of `snapshot`: health (none for "disabled"), load, and its circuit.
pub record Status : Type 0 where
  pub health : Option Health
  pub inflight : ℕ
  pub max_inflight : ℕ
  pub model : String
  pub circuit_open : Bool
  pub circuit_cooldown_remaining : ℕ

status_of : ℕ → ProviderSpec → ProviderState → Status
status_of now spec state = record {
  health = if enabled spec then some state.health else none;
  inflight = state.inflight;
  max_inflight = spec.max_inflight;
  model = spec.model;
  circuit_open = not (circuit_available state now).0;
  circuit_cooldown_remaining = state.circuit_open_until - now;
}

snapshot_of :
    ℕ → Dict String ProviderState → Dict String ProviderSpec → Result PoolError (Dict String Status)
unfolding status_of
snapshot_of now states [] = ok []
snapshot_of now states ((name, spec) ∷ specs) = do
  state ← or_fail (lookup name states) key_error
  rest ← snapshot_of now states specs
  ok ((name, status_of now spec state) ∷ rest)

unfoldable pub snapshot : ℕ → ProviderPool → Result PoolError (Dict String Status)
unfolding snapshot_of
snapshot now p = snapshot_of now p.states p.specs

-- The test of `route_readiness` on one provider. `any` stops at the first that is ready.
ready : ℕ → Bool → ProviderPool → String → Result PoolError Bool
unfolding circuit_available
ready now local_only p name = do
  spec ← or_fail (lookup name p.specs) key_error
  if enabled spec && (not local_only || spec.scope == "local") then alive else ok false
  where
    alive : Result PoolError Bool
    alive = do
      state ← or_fail (lookup name p.states) key_error
      ok (is_healthy state.health && (circuit_available state now).0)

any_ready : ℕ → Bool → ProviderPool → List String → Result PoolError Bool
unfolding ready
any_ready now local_only p [] = ok false
any_ready now local_only p (name ∷ names) = do
  here ← ready now local_only p name
  let rest = any_ready now local_only p names
  if here then ok true else rest

routes_ready :
    ℕ → Bool → ProviderPool → Dict String (List String) → Result PoolError (Dict String Bool)
unfolding any_ready
routes_ready now local_only p [] = ok []
routes_ready now local_only p ((workload, names) ∷ routes) = do
  here ← any_ready now local_only p names
  rest ← routes_ready now local_only p routes
  ok ((workload, here) ∷ rest)

-- Whether each workload is "ready".
unfoldable pub route_readiness : ℕ → Bool → ProviderPool → Result PoolError (Dict String Bool)
unfolding routes_ready
route_readiness now local_only p = routes_ready now local_only p p.routes
