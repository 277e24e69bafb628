-- ===== src/Gateway/World.antt =====
-- The provider pool with the leases that it has handed out (provider_pool.py): requests interleave
-- as a list of calls, each one atomic step under the pool's condition.
pub mod Capacity
pub mod Calls
pub mod History
pub mod Places
pub mod Marked
pub mod Probing
pub mod HalfOpen
pub mod Tests
use inuself.Base.{
  ℕ, String, Bool, true, false, not, ◌&&◌, Option, none, some, List, [], ◌∷◌, ◌++◌, if◌then◌else◌,
  ◌==◌, String_eq, Dict, lookup, Result, ok, err, ◌>>=◌, get_elem?, set, count,
}
use inuself.Gateway.Json.{Value}
use inuself.Gateway.Specs.{ProviderSpec, PoolSettings}
use inuself.Gateway.Pool.{
  ProviderPool, ProviderLease, PoolError, Attempt, leased, raised, waits_for, attempt,
  acquire_specs, explicit_specs, release, record_success, record_failure, probe, init,
}

pub record World : Type 0 where
  pub pool : ProviderPool
  pub leases : List ProviderLease

-- What a request or the monitor does. An acquisition has the clock, the loop's time and the
-- deadline of one turn; a release names the lease by its place.
pub data Call : Type 0 where
  acquires : ℕ → ℕ → ℕ → String → String → String → List String → Call
  acquires_explicit : ℕ → ℕ → ℕ → String → Call
  releases : ℕ → Call
  succeeds : String → Call
  fails : ℕ → String → Call
  probes : String → Option (ℕ × Value) → Call

-- A turn that grants nothing leaves the pool as it was.
abbrev pub granted : World → Attempt → World
granted w (leased p l) = record { pool = p; leases = w.leases ++ (l ∷ []) }
granted w (raised e) = w
granted w (waits_for wait remaining) = w

-- A call that raises leaves the pool as it was.
abbrev pub changed : World → Result PoolError ProviderPool → World
changed w (ok p) = record w { pool = p }
changed w (err e) = w

-- One turn of `acquire` or `acquire_explicit`, over the providers that the call may use.
unfoldable pub turn : World → ℕ → ℕ → ℕ → String → Result PoolError (List ProviderSpec) → World
turn w now time deadline preferred (err e) = w
turn w now time deadline preferred (ok specs) =
    granted w (attempt w.pool now time deadline specs preferred)

-- `ProviderLease.release`: only the first call gives the slot back.
unfoldable pub release_lease : ℕ → World → World
release_lease i w = elim (get_elem? w.leases i) [
  | none ↦ w
  | some l ↦
      if l.released
      then w
      else changed (record w { leases = set w.leases i (record l { released = true }) })
          (release l w.pool)
]

unfoldable pub step : World → Call → World
unfolding turn release_lease
step w (acquires now time deadline workload reasoning execution_scope exclude) =
    turn w now time deadline "preferred"
      (acquire_specs w.pool workload reasoning execution_scope exclude)
step w (acquires_explicit now time deadline name) =
    turn w now time deadline "explicit-codex" (explicit_specs w.pool name)
step w (releases i) = release_lease i w
step w (succeeds name) = changed w (record_success name w.pool)
step w (fails now name) = changed w (record_failure now name w.pool)
step w (probes name response) = elim (lookup name w.pool.specs) [
  | none ↦ w
  | some spec ↦ changed w (probe spec response w.pool)
]

unfoldable pub run : World → List Call → World
run w [] = w
run w (c ∷ cs) = run (step w c) cs

-- The gateway at its start.
unfoldable pub start : PoolSettings → Dict String ProviderSpec → Dict String (List String) → World
unfolding init
start settings specs routes = record { pool = init settings specs routes; leases = [] }

-- The leases on provider `name` that have not been released.
abbrev pub holds : String → ProviderLease → Bool
holds name l = not l.released && (l.spec.name == name)

abbrev pub outstanding : String → World → ℕ
outstanding name w = count (holds name) w.leases
