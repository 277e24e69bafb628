-- ===== src/Gateway/World/Capacity.antt =====
-- The load of a provider is the number of its leases that are out, and stays within its limit.
use inuself.Base.{
  ◌+◌, ◌≤◌, String, ◌≡◌, inl, inr, some, List, if◌then◌else◌, ◌==◌, String_eq, ==_iff, lookup,
  insert, lookup-insert, count, arith, Bool-cases,
}
use inuself.Gateway.Specs.{ProviderSpec}
use inuself.Gateway.Pool.{ProviderState, ProviderLease}
use inuself.Gateway.World.{World, holds, outstanding}

-- Every provider is stored under its name, and its load counts its leases that are out and is
-- within its limit.
pub record Sound (w : World) : Type 0 where
  pub named : (n : String) (s : ProviderSpec) → lookup n w.pool.specs ≡ some s → s.name ≡ n
  pub known :
      (n : String) (s : ProviderSpec)
      → lookup n w.pool.specs ≡ some s
      → (st : ProviderState) × (lookup n w.pool.states ≡ some st)
  pub counted :
      (n : String) (st : ProviderState)
      → lookup n w.pool.states ≡ some st
      → st.inflight ≡ outstanding n w
  pub within :
      (n : String) (s : ProviderSpec) (st : ProviderState)
      → lookup n w.pool.specs ≡ some s
      → lookup n w.pool.states ≡ some st
      → st.inflight ≤ s.max_inflight

-- The world after a change of one provider's state and of the leases.
abbrev pub changes : World → String → ProviderState → List ProviderLease → World
changes w n st leases = record {
  pool = record w.pool { states = insert n st w.pool.states };
  leases = leases;
}

-- The change keeps the invariant if it changes the load as it changes the count of the leases, and
-- keeps the load within the limit.
pub changes-Sound :
    (w : World) (n : String) (st st' : ProviderState) (leases : List ProviderLease)
    → lookup n w.pool.states ≡ some st
    → ((m : String)
        → count (holds m) leases + (if n == m then st.inflight else 0)
          ≡ count (holds m) w.leases + (if n == m then st'.inflight else 0))
    → ((s : ProviderSpec) → lookup n w.pool.specs ≡ some s → st'.inflight ≤ s.max_inflight)
    → Sound w
    → Sound (changes w n st' leases)
changes-Sound w n st st' leases at moved fits h = record {
  named = h.named;
  known = known';
  counted = counted';
  within = within';
}
  where
    known' :
        (m : String) (s : ProviderSpec)
        → lookup m w.pool.specs ≡ some s
        → (t : ProviderState) × (lookup m (insert n st' w.pool.states) ≡ some t)
    known' m s e = elim (Bool-cases (n == m)) [
      | inl hit ↦ (st', rw (lookup-insert n m st' w.pool.states, hit))
      | inr other ↦
          let (t, found) = h.known m s e in
          (t, rw (lookup-insert n m st' w.pool.states, other) found)
    ]

    counted' :
        (m : String) (t : ProviderState)
        → lookup m (insert n st' w.pool.states) ≡ some t
        → t.inflight ≡ count (holds m) leases
    counted' m t e = elim (Bool-cases (n == m)) [
      | inl hit ↦ ground (
        arith,
        hit,
        lookup-insert n m st' w.pool.states,
        moved m,
        h.counted m st (rw ((==_iff n m).0 hit) at at),
      )
      | inr other ↦
          ground (arith, other, lookup-insert n m st' w.pool.states, moved m, h.counted m t)
    ]

    within' :
        (m : String) (s : ProviderSpec) (t : ProviderState)
        → lookup m w.pool.specs ≡ some s
        → lookup m (insert n st' w.pool.states) ≡ some t
        → t.inflight ≤ s.max_inflight
    within' m s t e found = elim (Bool-cases (n == m)) [
      | inl hit ↦
          ground (
            arith,
            hit,
            lookup-insert n m st' w.pool.states,
            fits s (rw (← (==_iff n m).0 hit) at e),
          )
      | inr other ↦ ground (arith, other, lookup-insert n m st' w.pool.states, h.within m s t e)
    ]
