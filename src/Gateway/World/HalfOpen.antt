-- ===== src/Gateway/World/HalfOpen.antt =====
-- The probe request of a provider whose circuit is half open, while other calls go on.
use inuself.Base.{
  ℕ, ◌+◌, String, ◌≡◌, ◌≢◌, refl, ap, ◌∙◌, inl, inr, true, false, ◌&&◌, ◌||◌, some, List, [], ◌∷◌,
  String_eq, ==_refl, lookup, lookup-insert, get_elem?, count, count-append, length, arith, All,
}
use inuself.Gateway.Specs.{ProviderSpec}
use inuself.Gateway.Pool.{
  ProviderState, ProviderPool, ProviderLease, leased, attempt, circuit_available, occupy,
}
use inuself.Gateway.Pool.Admission.{attempt-leased}
use inuself.Gateway.World.{World, Call, granted, holds, release_lease, run}
use inuself.Gateway.World.Places.{get_elem?-append, get_elem?-last}
use inuself.Gateway.World.Probing.{Quiet, is_on, Probing, run-Probing, Probing-released}

-- A half-open probe holds its circuit for itself. From a turn that grants it, while no probe of the
-- provider was out, and over any calls after it but the release of its lease and the outcome of a
-- request to its provider, no lease on that provider is granted; and when its lease is released
-- then with no outcome recorded, the circuit is as it was before, with no probe out.
pub half_open-exclusive :
    (w : World) (now time deadline : ℕ) (specs : List ProviderSpec) (preferred : String)
    (p' : ProviderPool) (l : ProviderLease) (st : ProviderState) (cs : List Call)
    → attempt w.pool now time deadline specs preferred ≡ leased p' l
    → l.half_open ≡ true
    → lookup l.spec.name w.pool.states ≡ some st
    → ((j : ℕ) (k : ProviderLease)
        → get_elem? w.leases j ≡ some k
        → (holds l.spec.name k && k.half_open) ≡ false)
    → All (Quiet l.spec.name (length w.leases)) cs
    → let w' = run (granted w (leased p' l)) cs in
      (count (is_on l.spec.name) w'.leases ≡ count (is_on l.spec.name) w.leases + 1)
      × ((free : ProviderState) × (lookup l.spec.name
              (release_lease (length w.leases) w').pool.states
            ≡ some free)
          × (free.circuit_open_until ≡ st.circuit_open_until)
          × (free.half_open_probe ≡ false))
unfolding circuit_available occupy
half_open-exclusive w now time deadline specs preferred p' l st cs grant half at none_out quiet =
    let (made, fresh, (st', at', circuit)) =
      attempt-leased w.pool p' now time deadline specs preferred l grant in
    let one : st' ≡ st = cc (at, at') in
    let opened : st.circuit_open_until ≢ 0 = ground (arith, rw one at circuit, half) in
    let held = record st {
      inflight = st.inflight + 1;
      half_open_probe = l.half_open || st.half_open_probe;
    } in
    let stored : lookup l.spec.name (occupy l.spec l.half_open w.pool).states ≡ some held =
      rw (at, occupy)
        (rw (lookup-insert l.spec.name l.spec.name held w.pool.states, ==_refl l.spec.name) refl) in
    let begun : Probing l (length w.leases) st.circuit_open_until
        (count (is_on l.spec.name) w.leases + 1) half fresh opened (granted w (leased p' l)) =
      record {
        marked = (held, ap (λ p. lookup l.spec.name p.states) made ∙ stored, refl, rw half refl);
        mine = get_elem?-last w.leases l;
        sole = λ j k there holding. elim (get_elem?-append w.leases l k j there) [
          | inl (last, same) ↦ last
          | inr before ↦ absurd (cc (none_out j k before, holding))
        ];
        counted =
            ground (arith, count-append (is_on l.spec.name) w.leases (l ∷ []), ==_refl l.spec.name);
      } in
    let ended =
      run-Probing l (length w.leases) st.circuit_open_until (count (is_on l.spec.name) w.leases + 1)
        half fresh opened (granted w (leased p' l)) cs quiet begun in
    (
      ended.counted,
      Probing-released l (length w.leases) st.circuit_open_until
          (count (is_on l.spec.name) w.leases + 1) half fresh opened
          (run (granted w (leased p' l)) cs) ended,
    )
