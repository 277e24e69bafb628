-- ===== src/Gateway/Pool/Circuit.antt =====
-- The circuit and the health of a provider: failures in a row open the circuit, and probes of the
-- health path take a provider down and up.
use inuself.Base.{
  ℕ, ◌+◌, All, ◌<◌, String, ◌≡◌, refl, true, false, Option, some, List, [], ◌∷◌, if◌then◌else◌,
  String_eq, ==_refl, lookup, insert, lookup-insert, Result, ok, ◌>>=◌, arith, leb, ltb, length,
}
use inuself.Gateway.Json.{Value}
use inuself.Gateway.Specs.{ProviderSpec, PoolSettings}
use inuself.Gateway.Pool.{
  ProviderState, ProviderPool, PoolError, healthy, unhealthy, circuit_available, record_failure,
  probe, probe_ok, failed_once, probed,
}

-- Failures of requests to one provider, each at its time, with no success in between.
unfoldable pub fail_all : String → List ℕ → ProviderPool → Result PoolError ProviderPool
fail_all name [] p = ok p
fail_all name (now ∷ times) p = do p' ← record_failure now name p; fail_all name times p'

-- The time of the last failure.
abbrev pub last_time : ℕ → List ℕ → ℕ
last_time t [] = t
last_time t (u ∷ us) = last_time u us

fail_all-last :
    (name : String) (now : ℕ) (times : List ℕ) (p : ProviderPool) (st : ProviderState)
    → lookup name p.states ≡ some st
    → (p' : ProviderPool) × (st' : ProviderState) × (fail_all name (now ∷ times) p ≡ ok p')
      × (lookup name p'.states ≡ some st')
      × (st'.request_failures ≡ st.request_failures + length (now ∷ times))
      × (st'.circuit_open_until ≡ (
          if leb p.settings.failure_threshold st'.request_failures
          then last_time now times + p.settings.circuit_cooldown
          else st.circuit_open_until))
      × (st'.half_open_probe ≡ (
          if leb p.settings.failure_threshold st'.request_failures
          then false
          else st.half_open_probe))
      × (st'.health ≡ st.health)
      × (st'.inflight ≡ st.inflight)
unfolding fail_all record_failure
fail_all-last name now [] p st at = (
  record p { states = insert name (failed_once now p.settings st) p.states },
  failed_once now p.settings st,
  rw at,
  rw (lookup-insert name name (failed_once now p.settings st) p.states, ==_refl name),
  ground arith,
  ground arith,
  ground arith,
  ground arith,
  ground arith,
)
fail_all-last name now (later ∷ times) p st at =
    let failed = failed_once now p.settings st in
    let after = record p { states = insert name failed p.states } in
    let at_after : lookup name after.states ≡ some failed =
      rw (lookup-insert name name failed p.states, ==_refl name) refl in
    let (p', st', e, at', failures, opened, half, same, load) =
      fail_all-last name later times after failed at_after in
    (
      p',
      st',
      rw at e,
      at',
      ground (arith, failures),
      ground (arith, failures, opened),
      ground (arith, failures, half),
      ground (arith, same),
      ground (arith, load),
    )

-- Failures in a row, from a state with a closed circuit and none counted: below the threshold the
-- circuit stays closed; from the threshold on it lets nothing through until the cooldown after the
-- last failure is over, and then one probe. Health and load are as before.
pub failures_open_circuit :
    (name : String) (now : ℕ) (times : List ℕ) (p : ProviderPool) (st : ProviderState) (t : ℕ)
    → lookup name p.states ≡ some st
    → st.request_failures ≡ 0
    → st.circuit_open_until ≡ 0
    → 0 < p.settings.circuit_cooldown
    → (p' : ProviderPool) × (st' : ProviderState) × (fail_all name (now ∷ times) p ≡ ok p')
      × (lookup name p'.states ≡ some st')
      × (circuit_available st' t ≡ (
          if ltb (length (now ∷ times)) p.settings.failure_threshold
          then (true, false)
          else if ltb t (last_time now times + p.settings.circuit_cooldown)
          then (false, false)
          else (true, true)))
      × (st'.health ≡ st.health)
      × (st'.inflight ≡ st.inflight)
unfolding circuit_available
failures_open_circuit name now times p st t at none_yet closed cool =
    let (p', st', e, at', failures, opened, half, same, load) =
      fail_all-last name now times p st at in
    (p', st', e, at', ground (arith, failures, opened, half, none_yet, closed, cool), same, load)

-- Probes of the health path one after the other.
unfoldable pub probe_all :
    ProviderSpec → List (Option (ℕ × Value)) → ProviderPool → Result PoolError ProviderPool
probe_all spec [] p = ok p
probe_all spec (r ∷ responses) p = do p' ← probe spec r p; probe_all spec responses p'

probed-health :
    (settings : PoolSettings) (st : ProviderState)
    → (st.health
        ≡ (if ltb st.probe_failures settings.failure_threshold then healthy else unhealthy))
    → ((probed false settings st).health
        ≡ (if ltb (st.probe_failures + 1) settings.failure_threshold then healthy else unhealthy))
      × ((probed false settings st).probe_failures ≡ st.probe_failures + 1)
unfolding probed
probed-health settings st same = (ground (arith, same), ground arith)

failing_probes :
    (spec : ProviderSpec) (bad : List (Option (ℕ × Value))) (p : ProviderPool) (st : ProviderState)
    → lookup spec.name p.states ≡ some st
    → All (λ r. probe_ok spec.model r ≡ false) bad
    → (st.health
        ≡ (if ltb st.probe_failures p.settings.failure_threshold then healthy else unhealthy))
    → (p' : ProviderPool) × (st' : ProviderState) × (probe_all spec bad p ≡ ok p')
      × (lookup spec.name p'.states ≡ some st')
      × (st'.health ≡ (
          if ltb (st.probe_failures + length bad) p.settings.failure_threshold
          then healthy
          else unhealthy))
unfolding probe_all probe
failing_probes spec [] p st at bad same = (p, st, refl, at, ground (arith, same))
failing_probes spec (r ∷ bad) p st at (worse, bads) same =
    let st' = probed false p.settings st in
    let p' = record p { states = insert spec.name st' p.states } in
    let at' : lookup spec.name p'.states ≡ some st' =
      rw (lookup-insert spec.name spec.name st' p.states, ==_refl spec.name) refl in
    let (health', count) = probed-health p.settings st same in
    let (p'', st'', e, at'', health) = failing_probes spec bad p' st' at' bads (rw count health') in
    (p'', st'', rw (worse, at) e, at'', ground (arith, health, count))

-- After a good probe, failing ones take the provider down from the threshold on, and not before.
pub probes-health :
    (spec : ProviderSpec) (good : Option (ℕ × Value)) (bad : List (Option (ℕ × Value)))
    → (p : ProviderPool) (st : ProviderState) → lookup spec.name p.states ≡ some st
    → probe_ok spec.model good ≡ true
    → All (λ r. probe_ok spec.model r ≡ false) bad
    → 0 < p.settings.failure_threshold
    → (p' : ProviderPool) × (st' : ProviderState) × (probe_all spec (good ∷ bad) p ≡ ok p')
      × (lookup spec.name p'.states ≡ some st')
      × (st'.health
          ≡ (if ltb (length bad) p.settings.failure_threshold then healthy else unhealthy))
unfolding probe_all probe probed
probes-health spec good bad p st at answers fail positive =
    let up = record st { health = healthy; probe_failures = 0 } in
    let p' = record p { states = insert spec.name up p.states } in
    let at' : lookup spec.name p'.states ≡ some up =
      rw (lookup-insert spec.name spec.name up p.states, ==_refl spec.name) refl in
    let (p'', st'', e, at'', health) =
      failing_probes spec bad p' up at' fail (ground (arith, positive)) in
    (p'', st'', rw (answers, at) e, at'', ground (arith, health))
