-- ===== src/Gateway/Serverless/Answers.antt =====
-- In which order the serverless providers are tried, and what their answers make of the reply.
use mathlib.Core.Path.{subst}
use inuself.Base.{
  All-map, Some, any-Some, ◌↔◌, String, ◌≡◌, ◌≢◌, refl, ◌⊎◌, Bool, true, false, not, ℕ, List, [],
  ◌∷◌, ◌++◌, All, any, Bool-cases, inl, inr, ◌==◌, String_eq, ==_iff,
}
use inuself.Gateway.Chat.{
  Profile, ErrorKind, invalid_request, overloaded, retryable, classify_upstream_error,
  UpstreamError, Opened, cancelled, failed, payload, streaming, named_model,
}
use inuself.Gateway.Serverless.Order.{
  goes_on, overloads, is_empty, Traced, stops_at, runs_out, try_all-Traced,
}
use inuself.Gateway.Serverless.{
  ProviderResult, Config, is_explicit, serverless_providers, Answer, answered, too_busy,
  none_available, refused, stopped, ends, after_kind, reason_of, tried, opened_as,
  handle_serverless,
}

-- The reason in a reply: it is a fallback after an error, or the first provider, which was asked for
-- by name or not.
pub data Reason (explicit : Bool) (before : List ProviderResult) (reason : String) : Type 0 where
  fallback : before ≢ [] → reason ≡ "error-fallback" → Reason explicit before reason
  asked_for :
      before ≡ [] → explicit ≡ true → reason ≡ "explicit-codex" → Reason explicit before reason
  first : before ≡ [] → explicit ≡ false → reason ≡ "preferred" → Reason explicit before reason

-- The answer of the provider `p` after the providers `before`.
pub data Gives (explicit : Bool) (before : List ProviderResult) (p : ProviderResult)
    : Opened → Answer → Type 0 where
  whole :
      (reported reason : String)
      → Reason explicit before reason
      → Gives explicit before p
          (payload reported)
          (answered false p.name (named_model reported p.model) reason)
  in_parts :
      (reported reason : String)
      → Reason explicit before reason
      → Gives explicit before p
          (streaming reported)
          (answered true p.name (named_model reported p.model) reason)
  refuses :
      (exc : UpstreamError) (status : ℕ)
      → classify_upstream_error exc ≡ (invalid_request, status)
      → Gives explicit before p (failed exc) (refused status)
  stops : Gives explicit before p cancelled stopped

-- The provider has no address, or fails with an error that is no refusal.
abbrev pub PassedOver : (ProviderResult → Opened) → ProviderResult → Type 0
PassedOver upstream p =
    (p.api_base ≡ "")
    ⊎ ((exc : UpstreamError) × (upstream p ≡ failed exc)
        × ((classify_upstream_error exc).0 ≢ invalid_request))

-- The provider has an address, and fails for an overload.
abbrev pub Overloads : (ProviderResult → Opened) → ProviderResult → Type 0
Overloads upstream p =
    (p.api_base ≢ "")
    × ((exc : UpstreamError) × (upstream p ≡ failed exc)
        × ((classify_upstream_error exc).0 ≡ overloaded))

-- Either the reply is that of one provider, all before it passed over, or all are passed over, and
-- the reply is that they are busy exactly if one of them was overloaded.
pub data Ends (explicit : Bool) (upstream : ProviderResult → Opened) (ps : List ProviderResult)
    (answer : Answer) : Type 0 where
  by_one :
      (before : List ProviderResult) (p : ProviderResult) (after : List ProviderResult)
      → ps ≡ before ++ (p ∷ after)
      → All (PassedOver upstream) before
      → p.api_base ≢ ""
      → Gives explicit before p (upstream p) answer
      → Ends explicit upstream ps answer
  all_busy :
      All (PassedOver upstream) ps
      → Some (Overloads upstream) ps
      → answer ≡ too_busy
      → Ends explicit upstream ps answer
  all_gone :
      All (PassedOver upstream) ps
      → ¬ Some (Overloads upstream) ps
      → answer ≡ none_available
      → Ends explicit upstream ps answer

tried-PassedOver :
    (explicit : Bool) (upstream : ProviderResult → Opened) (p : ProviderResult)
    → goes_on (tried explicit upstream true p) ≡ true
    → PassedOver upstream p
unfolding tried
tried-PassedOver explicit upstream p e = elim (Bool-cases (p.api_base == "")) [
  | inl unset ↦ inl ((==_iff p.api_base "").0 unset)
  | inr set ↦ inr (go (upstream p) refl (rw (set, tried) at e))
]
  where
    kind : (k : ErrorKind) (status : ℕ) → goes_on (after_kind k status) ≡ true → k ≢ invalid_request
    kind invalid_request status h bad = cc
    kind overloaded status h bad = cc
    kind retryable status h bad = cc

    go :
        (o : Opened)
        → upstream p ≡ o
        → goes_on (opened_as explicit true p o) ≡ true
        → (exc : UpstreamError) × (upstream p ≡ failed exc)
          × ((classify_upstream_error exc).0 ≢ invalid_request)
    go cancelled at h = absurd (cc)
    go (payload m) at h = absurd (cc)
    go (streaming m) at h = absurd (cc)
    go (failed exc) at h =
        (exc, at, kind (classify_upstream_error exc).0 (classify_upstream_error exc).1 h)

reason_of-Reason :
    (explicit : Bool) (before : List ProviderResult)
    → Reason explicit before (reason_of explicit (not (is_empty before)))
reason_of-Reason explicit (p ∷ before) = fallback (λ e. cc) refl
reason_of-Reason true [] = asked_for refl refl refl
reason_of-Reason false [] = first refl refl refl

ends_inj : (a b : Answer) → ends a ≡ ends b → a ≡ b
ends_inj a b e = cc

opened_as-Gives :
    (explicit : Bool) (before : List ProviderResult) (p : ProviderResult) (o : Opened)
    (answer : Answer)
    → opened_as explicit (not (is_empty before)) p o ≡ ends answer
    → Gives explicit before p o answer
opened_as-Gives explicit before p cancelled answer e =
    subst (Gives explicit before p cancelled) (ends_inj stopped answer e) stops
opened_as-Gives explicit before p (payload m) answer e =
    subst (Gives explicit before p (payload m)) (ends_inj _ answer e)
      (whole m _ (reason_of-Reason explicit before))
opened_as-Gives explicit before p (streaming m) answer e =
    subst (Gives explicit before p (streaming m)) (ends_inj _ answer e)
      (in_parts m _ (reason_of-Reason explicit before))
opened_as-Gives explicit before p (failed exc) answer e =
    go (classify_upstream_error exc).0 (classify_upstream_error exc).1 refl e
  where
    go :
        (k : ErrorKind) (status : ℕ)
        → classify_upstream_error exc ≡ (k, status)
        → after_kind k status ≡ ends answer
        → Gives explicit before p (failed exc) answer
    go invalid_request status is h =
        subst (Gives explicit before p (failed exc)) (ends_inj _ answer h) (refuses exc status is)
    go overloaded status is h = absurd (cc)
    go retryable status is h = absurd (cc)

tried-Gives :
    (explicit : Bool) (upstream : ProviderResult → Opened) (before : List ProviderResult)
    (p : ProviderResult) (answer : Answer)
    → tried explicit upstream (not (is_empty before)) p ≡ ends answer
    → (p.api_base ≢ "") × Gives explicit before p (upstream p) answer
unfolding tried
tried-Gives explicit upstream before p answer e = elim (Bool-cases (p.api_base == "")) [
  | inl unset ↦ absurd (cc (rw (unset, tried) at e))
  | inr set ↦ (
    λ same. cc (set, (==_iff p.api_base "").1 same),
    opened_as-Gives explicit before p (upstream p) answer (rw (set, tried) at e),
  )
]

-- What the loop counts as an overload is one.
overloads_iff :
    (explicit : Bool) (upstream : ProviderResult → Opened) (p : ProviderResult)
    → (overloads (tried explicit upstream true p) ≡ true) ↔ Overloads upstream p
unfolding tried
overloads_iff explicit upstream p = (there, back)
  where
    kind : (k : ErrorKind) (status : ℕ) → overloads (after_kind k status) ≡ true → k ≡ overloaded
    kind overloaded status h = refl
    kind invalid_request status h = absurd (cc)
    kind retryable status h = absurd (cc)

    opened :
        (o : Opened)
        → upstream p ≡ o
        → overloads (opened_as explicit true p o) ≡ true
        → (exc : UpstreamError) × (upstream p ≡ failed exc)
          × ((classify_upstream_error exc).0 ≡ overloaded)
    opened cancelled at h = absurd (cc)
    opened (payload m) at h = absurd (cc)
    opened (streaming m) at h = absurd (cc)
    opened (failed exc) at h =
        (exc, at, kind (classify_upstream_error exc).0 (classify_upstream_error exc).1 h)

    there : overloads (tried explicit upstream true p) ≡ true → Overloads upstream p
    there e = elim (Bool-cases (p.api_base == "")) [
      | inl unset ↦ absurd (cc (rw (unset, tried) at e))
      | inr set ↦ (
        λ same. cc (set, (==_iff p.api_base "").1 same),
        opened (upstream p) refl (rw (set, tried) at e),
      )
    ]

    back : Overloads upstream p → overloads (tried explicit upstream true p) ≡ true
    back (set, (exc, at, is)) = elim (Bool-cases (p.api_base == "")) [
      | inl unset ↦ absurd (set ((==_iff p.api_base "").0 unset))
      | inr other ↦ rw (other, tried) (rw at (rw is refl))
    ]

Traced-Ends :
    (explicit : Bool) (upstream : ProviderResult → Opened) (ps : List ProviderResult)
    (answer : Answer)
    → Traced explicit upstream false false ps answer
    → Ends explicit upstream ps answer
Traced-Ends explicit upstream ps answer (stops_at before p after place passed last) =
    let (set, gives) = tried-Gives explicit upstream before p answer last in
    by_one before p after place
      (All-map _ (PassedOver upstream) (tried-PassedOver explicit upstream) before passed) set gives
Traced-Ends explicit upstream ps answer (runs_out passed is) =
    let gone = All-map _ (PassedOver upstream) (tried-PassedOver explicit upstream) ps passed in
    let overloaded_iff =
      any-Some (λ p. overloads (tried explicit upstream true p)) (Overloads upstream)
        (overloads_iff explicit upstream) ps in
    elim (Bool-cases (any (λ p. overloads (tried explicit upstream true p)) ps)) [
      | inl busy ↦ all_busy gone (overloaded_iff.0 busy) (rw busy at is)
      | inr free ↦ all_gone gone (λ some. cc (free, overloaded_iff.1 some)) (rw free at is)
    ]

-- A request that is served by serverless providers ends in one of three ways. One provider gives the
-- reply, all before it having no address or an error that is no refusal: its answer, with the reason
-- "error-fallback" exactly if there is one before it, or its refusal, or the cancellation. Or all
-- are passed over, and the reply is that they are busy if one that has an address was overloaded,
-- or, if none was, that none is available.
pub handle_serverless-Ends :
    (config : Config) (upstream : ProviderResult → Opened) (model : String) (profile : Profile)
    → Ends
        (is_explicit model)
        upstream
        (serverless_providers config model profile)
        (handle_serverless config upstream model profile)
unfolding handle_serverless
handle_serverless-Ends config upstream model profile =
    Traced-Ends (is_explicit model) upstream (serverless_providers config model profile) _ (
      try_all-Traced (is_explicit model) upstream false false
        (serverless_providers config model profile))
