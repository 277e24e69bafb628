-- ===== src/Gateway/Chat/Leases.antt =====
-- Who holds a lease: a request of the local deployment has at most one at a time, and gives each
-- one back.
use mathlib.Core.List.{append_assoc}
use inuself.Base.{
  sym, ℕ, String, ◌≡◌, refl, Bool, Option, none, some, List, [], ◌∷◌, ◌++◌, if◌then◌else◌, ◌==◌,
  String_eq, ==_refl, arith, Result, ok, err, Bool-cases, Option-cases, inl, inr,
}
use inuself.Gateway.Pool.{
  ProviderPool, ProviderLease, PoolError, no_eligible_provider, no_healthy_provider,
  admission_timeout, key_error,
}
use inuself.Gateway.Chat.{
  Profile, Loop, Visit, Visited, waits, continues, returns, visit, visit_lease, serve, loop,
  handle_local, Action, opens, counts_failure, counts_success, gives_back, Reply, StreamEnd,
  finished, disconnected, broken, after_reply, stream_actions, Opened, failed, cancelled, payload,
  streaming, after_error, not_admitted, ErrorKind, invalid_request, overloaded, retryable,
}

-- The lease held after the actions: a lease is opened only with none held; an outcome is counted
-- for the provider of the lease that is held, and only that one is given back.
abbrev pub held_after : Option String → List Action → Option (Option String)
held_after held [] = some held
held_after none (opens n effort ∷ log) = held_after (some n) log
held_after (some n) (counts_failure m ∷ log) = if n == m then held_after (some n) log else none
held_after (some n) (counts_success m ∷ log) = if n == m then held_after (some n) log else none
held_after (some n) (gives_back m ∷ log) = if n == m then held_after none log else none
held_after held (a ∷ log) = none

-- The log of a visit, before whatever follows.
Clean : StreamEnd → Visited → Type 0
Clean e waits = Unit
Clean e (returns reply log) = held_after none (log ++ after_reply reply e) ≡ some none
Clean e (continues s log) =
    (rest : List Action) → held_after none (log ++ rest) ≡ held_after none rest

after_stream : (n : String) (e : StreamEnd) → held_after (some n) (stream_actions n e) ≡ some none
unfolding stream_actions
after_stream n finished = rw (==_refl n) refl
after_stream n disconnected = rw (==_refl n) refl
after_stream n broken = rw (==_refl n) refl

after_error-Clean :
    (e : StreamEnd) (s : Loop) (model : String) (lease : ProviderLease) (kind : ErrorKind)
    (status : ℕ)
    → Clean e (after_error s model lease kind status)
unfolding after_error Clean after_reply
after_error-Clean e s model lease invalid_request status = rw (==_refl lease.spec.name) refl
after_error-Clean e s model lease retryable status = λ rest. rw (==_refl lease.spec.name) refl
after_error-Clean e s model lease overloaded status = λ rest. rw (==_refl lease.spec.name) refl

serve-Clean :
    (e : StreamEnd) (s : Loop) (model : String) (lease : ProviderLease) (o : Opened)
    → Clean e (serve s model lease o)
unfolding serve Clean after_reply
serve-Clean e s model lease cancelled = rw (==_refl lease.spec.name) refl
serve-Clean e s model lease (payload reported) = rw (==_refl lease.spec.name) refl
serve-Clean e s model lease (streaming reported) = after_stream lease.spec.name e
serve-Clean e s model lease (failed exc) = after_error-Clean e s model lease _ _

not_admitted-Clean : (e : StreamEnd) (s : Loop) (x : PoolError) → Clean e (not_admitted s x)
unfolding not_admitted Clean after_reply
not_admitted-Clean e s admission_timeout = refl
not_admitted-Clean e s key_error = refl
not_admitted-Clean e s no_eligible_provider = elim (Bool-cases s.use_explicit) [
  | inl first ↦ rw first (λ rest. refl)
  | inr later ↦ elim (Bool-cases s.saw_overload) [
    | inl busy ↦ rw (later, busy) refl
    | inr free ↦ rw (later, free) refl
  ]
]
not_admitted-Clean e s no_healthy_provider = elim (Bool-cases s.use_explicit) [
  | inl first ↦ rw first (λ rest. refl)
  | inr later ↦ elim (Bool-cases s.saw_overload) [
    | inl busy ↦ rw (later, busy) refl
    | inr free ↦ rw (later, free) refl
  ]
]

visit-Clean :
    (e : StreamEnd) (pool : ProviderPool) (explicit : Bool) (profile : Profile) (model : String)
    (s : Loop) (v : Visit)
    → Clean e (visit pool explicit profile model s v)
unfolding visit Clean
visit-Clean e pool explicit profile model s v = go (visit_lease pool explicit profile s v)
  where
    go :
        (r : Option (Result PoolError (ProviderPool × ProviderLease)))
        → Clean e (elim r [
          | none ↦ waits
          | some (err x) ↦ not_admitted s x
          | some (ok (p, lease)) ↦ serve s model lease v.opened
        ])
    go none = tt
    go (some (err x)) = not_admitted-Clean e s x
    go (some (ok (p, lease))) = serve-Clean e s model lease v.opened

loop-leases :
    (e : StreamEnd) (pool : ProviderPool) (explicit : Bool) (profile : Profile) (model : String)
    (s : Loop) (visits : List Visit) (reply : Reply) (log : List Action)
    → loop pool explicit profile model s visits ≡ some (reply, log)
    → held_after none (log ++ after_reply reply e) ≡ some none
unfolding loop Clean
loop-leases e pool explicit profile model s [] reply log h = cc
loop-leases e pool explicit profile model s (v ∷ visits) reply log h =
    go (visit pool explicit profile model s v) refl (visit-Clean e pool explicit profile model s v)
      (λ s'. loop-leases e pool explicit profile model s' visits)
  where
    goal : Type 0
    goal = held_after none (log ++ after_reply reply e) ≡ some none

    go :
        (r : Visited)
        → visit pool explicit profile model s v ≡ r
        → Clean e r
        → ((s' : Loop) (reply' : Reply) (log' : List Action)
            → loop pool explicit profile model s' visits ≡ some (reply', log')
            → held_after none (log' ++ after_reply reply' e) ≡ some none)
        → goal
    go waits at clean ih = absurd (ground arith)
    go (returns reply' log') at clean ih =
        let h' = rw (at, loop) at h in
        let same_reply : reply' ≡ reply = cc in
        let same_log : log' ≡ log = cc in rw (same_reply, same_log) at clean
    go (continues s' log') at clean ih =
        elim (Option-cases (loop pool explicit profile model s' visits)) [
          | inl x ↦ absurd (ground arith)
          | inr ((reply', log''), f) ↦
              (let h' = rw (at, f, loop) at h in
                let same_reply : reply' ≡ reply = cc in
                let same_log : log' ++ log'' ≡ log = cc in
                rw
                  (
                    sym same_reply,
                    sym same_log,
                    append_assoc log' log'' (after_reply reply' e),
                    clean (log'' ++ after_reply reply' e),
                  )
                  (ih s' reply' log'' f))
        ]

-- A request on the local deployment that is answered has opened one lease at a time, counted
-- outcomes only for the lease that it held, and given every lease back: all of them by its reply,
-- or the last one at the end of the stream that it replies with, however the stream ends.
pub handle_local-leases :
    (e : StreamEnd) (pool : ProviderPool) (model : String) (profile : Profile) (visits : List Visit)
    (reply : Reply) (log : List Action)
    → handle_local pool model profile visits ≡ some (reply, log)
    → held_after none (log ++ after_reply reply e) ≡ some none
unfolding handle_local
handle_local-leases e pool model profile visits reply log h =
    loop-leases e pool _ profile model _ visits reply log h
