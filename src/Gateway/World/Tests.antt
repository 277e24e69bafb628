-- ===== src/Gateway/World/Tests.antt =====
-- Histories of leases on two providers.
use inuself.Base.{
  count, true, ◌≢◌, ap, ◌∙◌, sym, Dict, All, Bool-cases, inl, inr, ◌≡◌, refl, String, false, some,
  List, [], ◌∷◌, String_eq, ==_iff, lookup, ◌==◌,
}
use inuself.Gateway.Specs.{ProviderSpec, reasoning_level}
use inuself.Gateway.Pool.{
  ProviderState, occupy, leased, ProviderLease, explicit_specs, record_failure, acquire_specs,
  serves, verdict, release, attempt, initial_state,
}
use inuself.Gateway.Pool.Tests.{
  test_settings, test_specs, test_routes, spark, cloud, cloud_state, busy, both,
}
use inuself.Gateway.World.{
  granted, step, World, Call, acquires, acquires_explicit, releases, fails, run, start, outstanding,
  release_lease,
}
use inuself.Gateway.World.Capacity.{Sound}
use inuself.Gateway.World.Probing.{is_on}
use inuself.Gateway.World.HalfOpen.{half_open-exclusive}
use inuself.Gateway.World.History.{run-start-Sound, release_once}

abbrev calls : List Call
calls =
    acquires 1 1 9 "chat" "low" "local_only" []
    ∷ acquires 2 2 9 "chat" "low" "remote_allowed" []
    ∷ fails 3 "spark"
    ∷ releases 0
    ∷ acquires_explicit 4 4 9 "spark"
    ∷ []

one_out : outstanding "spark" (run (start test_settings test_specs test_routes) calls) ≡ 1
unfolding run start step explicit_specs record_failure acquire_specs reasoning_level serves verdict
    release attempt
one_out = refl

-- Entries that are stored under their providers' names.
named_entries :
    (specs : Dict String ProviderSpec)
    → All (λ entry. entry.1.name ≡ entry.0) specs
    → (n : String) (s : ProviderSpec) → lookup n specs ≡ some s
    → s.name ≡ n
named_entries [] named n s e = cc
named_entries ((k, x) ∷ specs) (here, there) n s e = elim (Bool-cases (k == n)) [
  | inl same ↦
      (let found = rw same at e in
        let is_x : x ≡ s = cc in sym (ap (λ y. y.name) is_x) ∙ here ∙ (==_iff k n).0 same)
  | inr other ↦ named_entries specs there n s (rw other at e)
]

pub test_named : (n : String) (s : ProviderSpec) → lookup n test_specs ≡ some s → s.name ≡ n
test_named = named_entries test_specs (refl, (refl, tt))

run-start-Sound_example : Sound (run (start test_settings test_specs test_routes) calls)
run-start-Sound_example = run-start-Sound test_settings test_specs test_routes calls test_named

abbrev short : List Call
short = acquires_explicit 4 4 9 "spark" ∷ []

abbrev after_calls : World
after_calls = run (start test_settings test_specs test_routes) short

abbrev out : ProviderLease
out = record { spec = spark; reason = "explicit-codex"; half_open = false; released = false }

release_once_example : release_lease 0 (release_lease 0 after_calls) ≡ release_lease 0 after_calls
unfolding run start step explicit_specs attempt verdict
release_once_example =
    (release_once after_calls 0 out (record (initial_state spark) { inflight = 1 })
      (run-start-Sound test_settings test_specs test_routes short test_named) refl refl refl).2

abbrev probe_lease : ProviderLease
probe_lease = record {
  spec = cloud;
  reason = "capacity-overflow";
  half_open = true;
  released = false;
}

abbrev before_probe : World
before_probe = record { pool = busy; leases = [] }

abbrev while_out : List Call
while_out =
    fails 41 "spark"
    ∷ acquires 42 1 9 "chat" "low" "remote_allowed" []
    ∷ acquires_explicit 43 4 9 "cloud"
    ∷ []

spark_apart : ◌≢◌ {A = String} "spark" "cloud"
spark_apart same =
    let equal : ◌==◌ {K = String} "spark" "cloud" ≡ true = (==_iff "spark" "cloud").1 same in
    let apart : ◌==◌ {K = String} "spark" "cloud" ≡ false = refl in cc (equal, apart)

half_open-exclusive_example :
    let w' = run (granted before_probe (leased (occupy cloud true busy) probe_lease)) while_out in
    (count (is_on "cloud") w'.leases ≡ 1)
    × ((free : ProviderState) × (lookup "cloud" (release_lease 0 w').pool.states ≡ some free)
        × (free.circuit_open_until ≡ 40)
        × (free.half_open_probe ≡ false))
unfolding attempt verdict occupy
half_open-exclusive_example =
    half_open-exclusive before_probe 40 100 110 both "preferred" (occupy cloud true busy)
      probe_lease cloud_state while_out refl refl refl (λ j k there. absurd (cc))
      (spark_apart, (tt, (tt, tt)))
