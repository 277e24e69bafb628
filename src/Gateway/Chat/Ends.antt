-- ===== src/Gateway/Chat/Ends.antt =====
-- The loop over the providers ends: no provider of the route is asked twice.
use inuself.Base.{
  ℕ, ◌+◌, ◌≤◌, ◌<◌, String, ◌≡◌, ◌≢◌, refl, ◌⊎◌, Bool, true, false, not, Option, none, some, List,
  [], ◌∷◌, ◌++◌, if◌then◌else◌, String_eq, elem, lookup, Result, ok, err, Bool-cases, Option-cases,
  Result-cases, inl, inr, All, arith, leb, any, count, length, or_default, map,
}
use inuself.Gateway.Specs.{ProviderSpec}
use inuself.Gateway.Pool.{
  ProviderPool, ProviderLease, PoolError, no_eligible_provider, no_healthy_provider,
  admission_timeout, key_error, acquire_specs,
}
use inuself.Gateway.Pool.Admission.{acquire_from_ends}
use inuself.Gateway.Pool.Eligible.{Eligible, acquire_specs-Eligible}
use inuself.Gateway.Chat.Leases.{held_after, handle_local-leases}
use inuself.Gateway.Chat.{
  StreamEnd, Reply, after_reply, Profile, route_profile, Loop, Visit, Visited, waits, continues,
  returns, visit, visit_lease, visit_specs, serve, loop, handle_local, Opened, failed, cancelled,
  payload, streaming, classify_upstream_error, invalid_request, overloaded, retryable, after_error,
  after_error_loop, not_admitted, ErrorKind, Action, codex_efforts,
}
use inuself.Gateway.Chat.Untried.{acquire_from-All, fewer, fewer_than}

-- The names that a request may yet ask, and one for the model that it names.
abbrev work : List String → Loop → ℕ
work names s = (if s.use_explicit then 1 else 0) + count (λ n. not (elem n s.attempted)) names

after_error-adds :
    (s s' : Loop) (model : String) (lease : ProviderLease) (kind : ErrorKind) (status : ℕ)
    (log : List Action)
    → after_error s model lease kind status ≡ continues s' log
    → (s'.attempted ≡ lease.spec.name ∷ s.attempted) × (s'.use_explicit ≡ false)
unfolding after_error after_error_loop
after_error-adds s s' model lease invalid_request status log e = absurd (ground arith)
after_error-adds s s' model lease retryable status log e = (ground arith, ground arith)
after_error-adds s s' model lease overloaded status log e = (ground arith, ground arith)

serve-adds :
    (s s' : Loop) (model : String) (lease : ProviderLease) (o : Opened) (log : List Action)
    → serve s model lease o ≡ continues s' log
    → (s'.attempted ≡ lease.spec.name ∷ s.attempted) × (s'.use_explicit ≡ false)
unfolding serve
serve-adds s s' model lease (failed exc) log e = after_error-adds s s' model lease _ _ log e
serve-adds s s' model lease cancelled log e = absurd (ground arith)
serve-adds s s' model lease (payload m) log e = absurd (ground arith)
serve-adds s s' model lease (streaming m) log e = absurd (ground arith)

not_admitted-adds :
    (s s' : Loop) (x : PoolError) (log : List Action)
    → not_admitted s x ≡ continues s' log
    → (s.use_explicit ≡ true) × (s'.attempted ≡ "codex" ∷ s.attempted) × (s'.use_explicit ≡ false)
unfolding not_admitted
not_admitted-adds s s' admission_timeout log e = absurd (ground arith)
not_admitted-adds s s' key_error log e = absurd (ground arith)
not_admitted-adds s s' no_eligible_provider log e = (ground arith, ground arith, ground arith)
not_admitted-adds s s' no_healthy_provider log e = (ground arith, ground arith, ground arith)

serve-moves :
    (s : Loop) (model : String) (lease : ProviderLease) (o : Opened) → serve s model lease o ≢ waits
unfolding serve after_error
serve-moves s model lease (failed exc) e = go (classify_upstream_error exc).0 e
  where
    go : (k : ErrorKind) → after_error s model lease k (classify_upstream_error exc).1 ≡ waits → ⊥
    go invalid_request e' = ground arith
    go overloaded e' = ground arith
    go retryable e' = ground arith
serve-moves s model lease cancelled e = ground arith
serve-moves s model lease (payload m) e = ground arith
serve-moves s model lease (streaming m) e = ground arith

not_admitted-moves : (s : Loop) (x : PoolError) → not_admitted s x ≢ waits
unfolding not_admitted
not_admitted-moves s admission_timeout e = ground arith
not_admitted-moves s key_error e = ground arith
not_admitted-moves s no_eligible_provider e = ground arith
not_admitted-moves s no_healthy_provider e = ground arith

module _ (pool : ProviderPool) (explicit : Bool) (profile : Profile) (model : String)
    (named : (n : String) (s : ProviderSpec) → lookup n pool.specs ≡ some s → s.name ≡ n) where
  abbrev route_names : List String
  route_names = or_default (lookup (route_profile explicit profile).workload pool.routes) []

  -- A lease that is not of the model named is on a provider of the route, and an untried one.
  lease-untried :
      (s : Loop) (v : Visit) (p : ProviderPool) (l : ProviderLease)
      → s.use_explicit ≡ false
      → visit_lease pool explicit profile s v ≡ some (ok (p, l))
      → (elem l.spec.name route_names ≡ true) × (elem l.spec.name s.attempted ≡ false)
  unfolding visit_lease visit_specs
  lease-untried s v p l later e =
      elim (Result-cases (
        acquire_specs pool (route_profile explicit profile).workload
          (route_profile explicit profile).reasoning
          (route_profile explicit profile).execution_scope s.attempted)) [
            | inl (x, bad) ↦ absurd (ground (arith, later, bad))
            | inr (specs, fine) ↦
                let (some_left, (names, level, listed, is_level, all)) =
                  acquire_specs-Eligible pool (route_profile explicit profile).workload
                    (route_profile explicit profile).reasoning
                    (route_profile explicit profile).execution_scope s.attempted specs named fine in
                let good =
                  acquire_from-All
                    (λ x.
                      (elem x.name names ≡ true)
                      × Eligible pool (route_profile explicit profile).workload level
                          (route_profile explicit profile).execution_scope s.attempted x)
                    v.deadline specs "preferred" v.turns p l all (ground (arith, later, fine)) in
                (rw listed good.0, good.1.untried)
          ]

  less-adds :
      (s s' : Loop) (x : String)
      → s'.attempted ≡ x ∷ s.attempted
      → s'.use_explicit ≡ false
      → (s.use_explicit ≡ true) ⊎ ((elem x route_names ≡ true) × (elem x s.attempted ≡ false))
      → work route_names s' < work route_names s
  less-adds s s' x adds off (inl first) =
      rw (adds, off, first) (omega (arith, fewer route_names s.attempted x))
  less-adds s s' x adds off (inr (here, new)) =
      rw (adds, off) (ground (arith, fewer_than route_names s.attempted x here new))

  visit-less :
      (s s' : Loop) (v : Visit) (log : List Action)
      → visit pool explicit profile model s v ≡ continues s' log
      → work route_names s' < work route_names s
  unfolding visit
  visit-less s s' v log e = go (visit_lease pool explicit profile s v) refl
    where
      go :
          (r : Option (Result PoolError (ProviderPool × ProviderLease)))
          → visit_lease pool explicit profile s v ≡ r
          → work route_names s' < work route_names s
      go none at = absurd (ground (arith, at))
      go (some (err x)) at =
          let (first, adds, off) = not_admitted-adds s s' x log (ground (arith, at)) in
          less-adds s s' "codex" adds off (inl first)
      go (some (ok (p, l))) at =
          let (adds, off) = serve-adds s s' model l v.opened log (ground (arith, at)) in
          less-adds s s' l.spec.name adds off (elim (Bool-cases s.use_explicit) [
            | inl first ↦ inl first
            | inr later ↦ inr (lease-untried s v p l later at)
          ])

  -- A visit whose turns reach its deadline does not wait for ever.
  visit-moves :
      (s : Loop) (v : Visit)
      → any (λ t. leb v.deadline t.time) v.turns ≡ true
      → visit pool explicit profile model s v ≢ waits
  unfolding visit visit_lease
  visit-moves s v late e = go (visit_lease pool explicit profile s v) refl
    where
      go :
          (r : Option (Result PoolError (ProviderPool × ProviderLease)))
          → visit_lease pool explicit profile s v ≡ r
          → ⊥
      go none at = elim (Result-cases (visit_specs pool explicit profile s)) [
        | inl (x, bad) ↦ ground (arith, at, bad)
        | inr (specs, fine) ↦
            acquire_from_ends v.deadline specs
              (if s.use_explicit then "explicit-codex" else "preferred") v.turns late
              (rw fine at at)
      ]
      go (some (err x)) at = not_admitted-moves s x (ground (arith, at))
      go (some (ok (p, l))) at = serve-moves s model l v.opened (ground (arith, at))

  loop_ends :
      (s : Loop) (visits : List Visit)
      → All (λ v. any (λ t. leb v.deadline t.time) v.turns ≡ true) visits
      → work route_names s < length visits
      → loop pool explicit profile model s visits ≢ none
  unfolding loop
  loop_ends s [] late enough e = omega (arith, enough)
  loop_ends s (v ∷ visits) (now, later) enough e =
      go (visit pool explicit profile model s v) refl (λ s'. loop_ends s' visits later)
    where
      go :
          (r : Visited)
          → visit pool explicit profile model s v ≡ r
          → ((s' : Loop)
              → work route_names s' < length visits
              → loop pool explicit profile model s' visits ≢ none)
          → ⊥
      go waits at ih = visit-moves s v now at
      go (returns reply log) at ih = ground (arith, at)
      go (continues s' log) at ih =
          elim (Option-cases (loop pool explicit profile model s' visits)) [
            | inl stuck ↦ ih s' (omega (arith, enough, visit-less s s' v log at)) stuck
            | inr (x, f) ↦ ground (arith, at, f)
          ]

count_most : (p : String → Bool) (xs : List String) → count p xs ≤ length xs
count_most p [] = omega arith
count_most p (x ∷ xs) = ground (arith, count_most p xs)

-- Whether the request names a model of CODEX_REASONING_EFFORT_MAP.
abbrev pub names_codex : String → Bool
names_codex model = elem model (map (λ entry. entry.0) codex_efforts)

-- With turns that reach each acquisition's deadline, and two more visits than the providers of the
-- request's route, a request on the local deployment is answered, whatever the upstream servers
-- do; and at the end of its reply or of its stream it holds no lease, having given back each.
pub handle_local_ends :
    (e : StreamEnd) (pool : ProviderPool) (model : String) (profile : Profile) (visits : List Visit)
    → ((n : String) (s : ProviderSpec) → lookup n pool.specs ≡ some s → s.name ≡ n)
    → All (λ v. any (λ t. leb v.deadline t.time) v.turns ≡ true) visits
    → length
          (or_default (lookup (route_profile (names_codex model) profile).workload pool.routes) [])
        + 2
      ≤ length visits
    → (reply : Reply) × (log : List Action) × (handle_local pool model profile visits
        ≡ some (reply, log))
      × (held_after none (log ++ after_reply reply e) ≡ some none)
unfolding handle_local
handle_local_ends e pool model profile visits named late enough =
    let start : Loop = record {
      attempted = [];
      use_explicit = names_codex model;
      fell_back = false;
      saw_overload = false;
    } in
    let names =
      or_default (lookup (route_profile (names_codex model) profile).workload pool.routes) [] in
    elim (Option-cases (handle_local pool model profile visits)) [
      | inl stuck ↦ absurd (
          loop_ends pool (names_codex model) profile model named start visits late
            (ground (arith, enough, count_most (λ n. not (elem n [])) names)) stuck)
      | inr ((reply, log), f) ↦
          (reply, log, f, handle_local-leases e pool model profile visits reply log f)
    ]
