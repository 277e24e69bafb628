-- ===== src/Gateway/Pool/Granting.antt =====
-- One turn of the admission loop: whom it grants a lease and why, and why it grants none.
use inuself.Base.{
  ℕ, ◌+◌, ◌-◌, ◌≤◌, ◌<◌, String, ◌≡◌, refl, false, ◌||◌, some, List, ◌∷◌, ◌++◌, insert, lookup, All,
  All-map, Some, any-Some, String_eq,
}
use inuself.Gateway.Specs.{ProviderSpec}
use inuself.Gateway.Pool.{
  healthy, ProviderState, ProviderPool, ProviderLease, no_healthy_provider, admission_timeout,
  Attempt, leased, raised, waits_for, attempt, occupy,
}
use inuself.Gateway.Pool.Waiting.{EndsWithCircuits}
use inuself.Gateway.Pool.Admission.{
  Known, Admits, grants, nobody_healthy, times_out, delays, admits,
}
use inuself.Gateway.Pool.Outcomes.{
  Down, Full, PassedOver, Probes, Reason, Down-iff, Full-iff, skip-PassedOver, circuit-Probes,
  Reason-grant,
}

-- The pool with one more request on the provider of the lease.
abbrev pub with_lease : ProviderLease → ProviderState → ProviderPool → ProviderPool
with_lease l st p = record p {
  states =
      insert l.spec.name
        (record st {
          inflight = st.inflight + 1;
          half_open_probe = l.half_open || st.half_open_probe;
        })
        p.states;
}

pub data Outcome (p : ProviderPool) (now time deadline : ℕ) (specs : List ProviderSpec)
    (preferred : String) : Attempt → Type 0 where
  lets_in :
      (before after : List ProviderSpec) (l : ProviderLease) (st : ProviderState)
      → specs ≡ before ++ (l.spec ∷ after)
      → All (PassedOver p.states now) before
      → Reason p.states now preferred before l.reason
      → lookup l.spec.name p.states ≡ some st
      → st.health ≡ healthy
      → st.inflight < l.spec.max_inflight
      → Probes st now l.half_open
      → l.released ≡ false
      → (p' : ProviderPool) → p' ≡ with_lease l st p
      → Outcome p now time deadline specs preferred (leased p' l)
  all_down :
      All (Down p.states now) specs
      → Outcome p now time deadline specs preferred (raised no_healthy_provider)
  too_late :
      All (PassedOver p.states now) specs
      → Some (Full p.states now) specs
      → deadline ≤ time
      → Outcome p now time deadline specs preferred (raised admission_timeout)
  waits :
      (wait : ℕ)
      → All (PassedOver p.states now) specs
      → Some (Full p.states now) specs
      → 0 < wait
      → time + wait ≤ deadline
      → EndsWithCircuits p.states now wait specs
      → Outcome p now time deadline specs preferred (waits_for wait (deadline - time))

occupies :
    (l : ProviderLease) (st : ProviderState) (p : ProviderPool)
    → lookup l.spec.name p.states ≡ some st
    → occupy l.spec l.half_open p ≡ with_lease l st p
unfolding occupy
occupies l st p at = rw (at, occupy) refl

Admits-Outcome :
    (p : ProviderPool) (now time deadline : ℕ) (specs : List ProviderSpec) (preferred : String)
    {a : Attempt}
    → Admits p now time deadline specs preferred a
    → Outcome p now time deadline specs preferred a
Admits-Outcome p now time deadline specs preferred (grants l st sel at alive free circuit out) =
    lets_in sel.before sel.after l st sel.place
      (All-map _ (PassedOver p.states now) (skip-PassedOver p.states now) sel.before sel.passed)
      (Reason-grant p.states now preferred l.reason sel.before sel.reason) at alive free
      (circuit-Probes st now l.half_open circuit) out (occupy l.spec l.half_open p)
      (occupies l st p at)
Admits-Outcome p now time deadline specs preferred (nobody_healthy all) =
    all_down (All-map _ (Down p.states now) (λ x. (Down-iff p.states now x).0) specs all)
Admits-Outcome p now time deadline specs preferred (times_out all one late) =
    too_late (All-map _ (PassedOver p.states now) (skip-PassedOver p.states now) specs all)
      ((any-Some _ (Full p.states now) (Full-iff p.states now) specs).0 one) late
Admits-Outcome p now time deadline specs preferred (delays wait all one positive within until) =
    waits wait (All-map _ (PassedOver p.states now) (skip-PassedOver p.states now) specs all)
      ((any-Some _ (Full p.states now) (Full-iff p.states now) specs).0 one) positive within until

-- One turn over providers that the pool knows ends in one of four ways. It takes the first provider
-- that is healthy, below its limit and let through by its circuit, all before it being down (not
-- healthy, or with a circuit that lets nothing through) or full (at their limit), for the route's
-- reason, or where that is "preferred" as a fallback if one of them is down, else as an overflow if
-- one is full; the provider's load grows by one, and its probe is marked where the request is one.
-- Or all are down, and it raises NoHealthyProvider. Or all are down or full, one of them full, and
-- it raises AdmissionTimeout at the deadline, or before it waits a positive time, not beyond the
-- deadline and not beyond the moment at which any healthy provider's circuit may be tried again.
pub attempt-Outcome :
    (p : ProviderPool) (now time deadline : ℕ) (specs : List ProviderSpec) (preferred : String)
    → Known p specs
    → Outcome p now time deadline specs preferred (attempt p now time deadline specs preferred)
attempt-Outcome p now time deadline specs preferred known =
    Admits-Outcome p now time deadline specs preferred
      (admits p now time deadline specs preferred known)
