-- ===== src/Gateway/Pool/Outcomes.antt =====
-- The outcomes of a turn of the admission loop, said of the providers' states.
use inuself.Base.{
  ◌↔◌, ℕ, ◌≤◌, ◌<◌, String, ◌≡◌, ◌≢◌, refl, sym, ◌∙◌, ◌⊎◌, inl, inr, Bool, true, false, not, ◌&&◌,
  ◌||◌, some, List, ◌==◌, String_eq, ==_iff, ltb, leb, nat_eq, lookup, Some, any, any-Some, arith,
  Bool-cases, Option-cases, Dict,
}
use inuself.Gateway.Specs.{ProviderSpec}
use inuself.Gateway.Pool.{
  Health, unknown, healthy, unhealthy, is_healthy, ProviderState, circuit_available, verdict,
  grant_reason,
}
use inuself.Gateway.Pool.Scan.{verdict_of, is_skip, is_busy_skip, is_unhealthy_skip}

-- The circuit lets nothing through: it is open, or its probe is out.
abbrev pub Blocked : ProviderState → ℕ → Type 0
Blocked st now =
    (st.circuit_open_until ≢ 0) × ((now < st.circuit_open_until) ⊎ (st.half_open_probe ≡ true))

-- A provider that is not healthy, or whose circuit lets nothing through.
abbrev pub Down : Dict String ProviderState → ℕ → ProviderSpec → Type 0
Down states now x =
    (st : ProviderState) × (lookup x.name states ≡ some st)
    × ((st.health ≢ healthy) ⊎ Blocked st now)

-- A healthy provider whose circuit lets a request through, at its limit.
abbrev pub Full : Dict String ProviderState → ℕ → ProviderSpec → Type 0
Full states now x =
    (st : ProviderState) × (lookup x.name states ≡ some st)
    × (st.health ≡ healthy)
    × (¬ Blocked st now)
    × (x.max_inflight ≤ st.inflight)

abbrev pub PassedOver : Dict String ProviderState → ℕ → ProviderSpec → Type 0
PassedOver states now x = Down states now x ⊎ Full states now x

-- Whether a request that goes through is the probe of its circuit.
abbrev pub Probes : ProviderState → ℕ → Bool → Type 0
Probes st now half_open =
    ((st.circuit_open_until ≡ 0) × (half_open ≡ false))
    ⊎ ((st.circuit_open_until ≢ 0)
        × (st.circuit_open_until ≤ now)
        × (st.half_open_probe ≡ false)
        × (half_open ≡ true))

is_healthy_iff : (h : Health) → (is_healthy h ≡ true) ↔ (h ≡ healthy)
is_healthy_iff healthy = (λ e. refl, λ e. refl)
is_healthy_iff unknown = (λ e. absurd (cc), λ e. absurd (cc))
is_healthy_iff unhealthy = (λ e. absurd (cc), λ e. absurd (cc))

Blocked-iff :
    (st : ProviderState) (now : ℕ) → ((circuit_available st now).0 ≡ false) ↔ Blocked st now
unfolding circuit_available
Blocked-iff st now = (
  λ e. elim (Bool-cases (ltb now st.circuit_open_until)) [
    | inl early ↦ (ground (arith, e), inl (ground (arith, early)))
    | inr due ↦ (ground (arith, e), inr (ground (arith, due, e)))
  ],
  λ blocked. elim blocked.1 [
    | inl early ↦ ground (arith, blocked.0, early)
    | inr probe ↦ ground (arith, blocked.0, probe)
  ],
)

pub circuit-Probes :
    (st : ProviderState) (now : ℕ) (half_open : Bool)
    → circuit_available st now ≡ (true, half_open)
    → Probes st now half_open
unfolding circuit_available
circuit-Probes st now half_open e = elim (Bool-cases (nat_eq st.circuit_open_until 0)) [
  | inl closed ↦ inl (ground (arith, closed), ground (arith, closed, e))
  | inr opened ↦ inr (
    ground (arith, opened),
    ground (arith, opened, e),
    ground (arith, opened, e),
    ground (arith, opened, e),
  )
]

skips_down :
    (x : ProviderSpec) (st : ProviderState) (now : ℕ)
    → is_unhealthy_skip (some (verdict x st now))
      ≡ (not (is_healthy st.health) || not (circuit_available st now).0)
unfolding verdict
skips_down x st now = ground arith

skips_full :
    (x : ProviderSpec) (st : ProviderState) (now : ℕ)
    → is_busy_skip (some (verdict x st now))
      ≡ ((is_healthy st.health && (circuit_available st now).0) && leb x.max_inflight st.inflight)
unfolding verdict
skips_full x st now = ground arith

down_iff :
    (st : ProviderState) (now : ℕ)
    → ((not (is_healthy st.health) || not (circuit_available st now).0) ≡ true)
      ↔ ((st.health ≢ healthy) ⊎ Blocked st now)
down_iff st now = (
  λ e. elim (Bool-cases (is_healthy st.health)) [
    | inr ill ↦ inl (λ well. cc (ill, (is_healthy_iff st.health).1 well))
    | inl well ↦ inr ((Blocked-iff st now).0 (ground (arith, well, e)))
  ],
  λ down. elim down [
    | inl ill ↦ elim (Bool-cases (is_healthy st.health)) [
      | inl well ↦ absurd (ill ((is_healthy_iff st.health).0 well))
      | inr other ↦ rw other refl
    ]
    | inr blocked ↦ ground (arith, (Blocked-iff st now).1 blocked)
  ],
)

full_iff :
    (x : ProviderSpec) (st : ProviderState) (now : ℕ)
    → (((is_healthy st.health && (circuit_available st now).0) && leb x.max_inflight st.inflight)
        ≡ true)
      ↔ ((st.health ≡ healthy) × (¬ Blocked st now) × (x.max_inflight ≤ st.inflight))
full_iff x st now = (
  λ e. (
    (is_healthy_iff st.health).0 (ground (arith, e)),
    (λ blocked. absurd (ground (arith, e, (Blocked-iff st now).1 blocked))),
    ground (arith, e),
  ),
  λ full. elim (Bool-cases (circuit_available st now).0) [
    | inr closed ↦ absurd (full.1 ((Blocked-iff st now).0 closed))
    | inl through ↦ ground (arith, (is_healthy_iff st.health).1 full.0, through, full.2)
  ],
)

module _ (states : Dict String ProviderState) (now : ℕ) where
  pub Down-iff :
      (x : ProviderSpec) → (is_unhealthy_skip (verdict_of states now x) ≡ true) ↔ Down states now x
  Down-iff x = (
    λ e. elim (Option-cases (lookup x.name states)) [
      | inl miss ↦ absurd (cc (rw (miss, verdict_of) at e))
      | inr (st, at) ↦
          (st, at, (down_iff st now).0 (sym (skips_down x st now) ∙ (rw (at, verdict_of) at e)))
    ],
    λ down. rw (down.1, verdict_of) (skips_down x down.0 now ∙ (down_iff down.0 now).1 down.2),
  )

  pub Full-iff :
      (x : ProviderSpec) → (is_busy_skip (verdict_of states now x) ≡ true) ↔ Full states now x
  Full-iff x = (
    λ e. elim (Option-cases (lookup x.name states)) [
      | inl miss ↦ absurd (cc (rw (miss, verdict_of) at e))
      | inr (st, at) ↦
          let (well, through, limit) =
            (full_iff x st now).0 (sym (skips_full x st now) ∙ (rw (at, verdict_of) at e)) in
          (st, at, well, through, limit)
    ],
    λ full.
        rw (full.1, verdict_of)
          (skips_full x full.0 now ∙ (full_iff x full.0 now).1 (full.2, full.3, full.4)),
  )

  pub skip-PassedOver :
      (x : ProviderSpec) → is_skip (verdict_of states now x) ≡ true → PassedOver states now x
  skip-PassedOver x e = elim (Bool-cases (is_unhealthy_skip (verdict_of states now x))) [
    | inl down ↦ inl ((Down-iff x).0 down)
    | inr up ↦ inr ((Full-iff x).0 (ground (arith, e, up)))
  ]

-- The reason of a lease, from the route's and from what was passed over before its provider.
pub data Reason (states : Dict String ProviderState) (now : ℕ) (preferred : String)
    (before : List ProviderSpec) (reason : String) : Type 0 where
  by_route :
      preferred ≢ "preferred" → reason ≡ preferred → Reason states now preferred before reason
  fallback :
      preferred ≡ "preferred"
      → Some (Down states now) before
      → reason ≡ "unhealthy-fallback"
      → Reason states now preferred before reason
  overflow :
      preferred ≡ "preferred"
      → ¬ Some (Down states now) before
      → Some (Full states now) before
      → reason ≡ "capacity-overflow"
      → Reason states now preferred before reason
  first :
      preferred ≡ "preferred"
      → ¬ Some (Down states now) before
      → ¬ Some (Full states now) before
      → reason ≡ "preferred"
      → Reason states now preferred before reason

module _ (states : Dict String ProviderState) (now : ℕ) (preferred reason : String)
    (before : List ProviderSpec) where
  pub Reason-grant :
      reason
        ≡ grant_reason preferred
            (any (λ x. is_unhealthy_skip (verdict_of states now x)) before)
            (any (λ x. is_busy_skip (verdict_of states now x)) before)
      → Reason states now preferred before reason
  Reason-grant e =
      let down = any-Some _ (Down states now) (Down-iff states now) before in
      let full = any-Some _ (Full states now) (Full-iff states now) before in
      elim (Bool-cases (preferred == "preferred")) [
        | inr other ↦
            by_route (λ same. cc (other, (==_iff preferred "preferred").1 same)) (rw other at e)
        | inl same ↦
            let is : preferred ≡ "preferred" = (==_iff preferred "preferred").0 same in
            elim (Bool-cases (any (λ x. is_unhealthy_skip (verdict_of states now x)) before)) [
              | inl some_down ↦ fallback is (down.0 some_down) (ground (arith, same, some_down, e))
              | inr none_down ↦
                  let up : ¬ Some (Down states now) before = λ h. cc (none_down, down.1 h) in
                  elim (Bool-cases (any (λ x. is_busy_skip (verdict_of states now x)) before)) [
                    | inl some_full ↦
                        overflow is up (full.0 some_full)
                          (ground (arith, same, none_down, some_full, e))
                    | inr none_full ↦
                        first is up (λ h. cc (none_full, full.1 h))
                          (ground (arith, same, none_down, none_full, is, e))
                  ]
            ]
      ]
