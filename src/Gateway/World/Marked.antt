-- ===== src/Gateway/World/Marked.antt =====
-- The mark of a probe on the state of its provider, under a change of one state.
use inuself.Base.{
  ℕ, String, ◌≡◌, refl, ◌∙◌, inl, inr, true, some, ◌==◌, String_eq, ==_iff, lookup, lookup-insert,
  Result, ok, err, Option-cases, Bool-cases,
}
use inuself.Gateway.Pool.{ProviderState, ProviderPool, PoolError, with_state}
use inuself.Gateway.World.{World, changed}

-- The state of the provider while its probe is out.
abbrev pub Out : String → ℕ → ProviderPool → Type 0
Out name open_until p =
    (st : ProviderState) × (lookup name p.states ≡ some st)
    × (st.circuit_open_until ≡ open_until)
    × (st.half_open_probe ≡ true)

pub changed-leases :
    (w : World) (r : Result PoolError ProviderPool) → (changed w r).leases ≡ w.leases
changed-leases w (ok p) = refl
changed-leases w (err e) = refl

-- A change of one provider's state that keeps its circuit and the mark of its probe.
pub with_state-Out :
    (name n : String) (open_until : ℕ) (w : World) (f : ProviderState → ProviderState)
    → ((st : ProviderState)
        → n ≡ name
        → st.half_open_probe ≡ true
        → ((f st).circuit_open_until ≡ st.circuit_open_until) × ((f st).half_open_probe ≡ true))
    → Out name open_until w.pool
    → Out name open_until (changed w (with_state n f w.pool)).pool
with_state-Out name n open_until w f same (st, at, opened, marked) =
    elim (Option-cases (lookup n w.pool.states)) [
      | inl miss ↦ rw miss (st, at, opened, marked)
      | inr (st', found) ↦ rw found (elim (Bool-cases (n == name)) [
        | inr other ↦
            (st, rw (lookup-insert n name (f st') w.pool.states, other) at, opened, marked)
        | inl hit ↦
            let own : n ≡ name = (==_iff n name).0 hit in
            let one : st' ≡ st = cc (rw own at found, at) in
            let (circuit, half) = same st' own (rw one marked) in
            (
              f st',
              rw (lookup-insert n name (f st') w.pool.states, hit) refl,
              circuit ∙ (rw one opened),
              half,
            )
      ])
    ]
