-- ===== src/Gateway/Chat/Routing.antt =====
-- The routing profiles that the checks of a request let through.
use mathlib.Core.Path.{subst}
use inuself.Base.{
  ◌⊎◌, ◌∙◌, some, Option-cases, All, String, ◌≡◌, ◌≢◌, refl, ap, true, none, List, [], ◌∷◌,
  if◌then◌else◌, ◌==◌, String_eq, ==_iff, elem, ok, Bool-cases, Result-cases, inl, inr, arith,
}
use inuself.Gateway.Json.{
  Value, null, bool, num, text, array, obj, Fields, field_names, get, no_fields,
}
use inuself.Gateway.Specs.{reasoning_level}
use inuself.Gateway.Chat.{
  Profile, one_of, field_or, all_elem, profile_of, routing_of, raw_routing, extract_routing,
  routing_keys, workloads, reasonings, scopes,
}

one_of_ok :
    (names : List String) (message : String) (v : Value) (s : String)
    → one_of names message v ≡ ok s
    → (v ≡ text s) × (elem s names ≡ true)
unfolding one_of
one_of_ok names message (text t) s e = elim (Bool-cases (elem t names)) [
  | inl there ↦ (let same : t ≡ s = ground (arith, there) in (ap text same, rw same at there))
  | inr out ↦ absurd (ground (arith, out))
]
one_of_ok names message (array _) s e = cc
one_of_ok names message (obj _) s e = cc
one_of_ok names message null s e = cc
one_of_ok names message (bool b) s e = cc
one_of_ok names message (num sign n) s e = cc

-- The text of a field, or its default where the field is missing.
abbrev pub Has : String → String → Fields → String → Type 0
Has key default raw s = (get key raw ≡ some (text s)) ⊎ ((get key raw ≡ none) × (s ≡ default))

field_or-Has :
    (key default : String) (raw : Fields) (s : String)
    → field_or key default raw ≡ text s
    → Has key default raw s
field_or-Has key default raw s e = elim (Option-cases (get key raw)) [
  | inl miss ↦ inr (miss, ground (arith, miss, e))
  | inr (v, there) ↦ let same : v ≡ text s = rw (there, field_or) at e in inl (there ∙ ap some same)
]

-- A routing object: each of its fields is one of the three, and the profile has its texts, or the
-- defaults, each one that is allowed, with "medium" for "auto".
pub record Valid (raw : Fields) (profile : Profile) : Type 0 where
  pub known :
      All
        (λ key. elem key ("workload" ∷ "reasoning" ∷ "execution_scope" ∷ []) ≡ true)
        (field_names raw)
  pub workload_is : Has "workload" "chat" raw profile.workload
  pub workload_allowed : elem profile.workload ("chat" ∷ "summary" ∷ []) ≡ true
  pub asked : String
  pub asked_is : Has "reasoning" "medium" raw asked
  pub asked_allowed : elem asked ("auto" ∷ "none" ∷ "low" ∷ "medium" ∷ "high" ∷ []) ≡ true
  pub reasoning_is : profile.reasoning ≡ (if asked == "auto" then "medium" else asked)
  pub has_level : reasoning_level profile.reasoning ≢ none
  pub scope_is : Has "execution_scope" "local_only" raw profile.execution_scope
  pub scope_allowed : elem profile.execution_scope ("local_only" ∷ "remote_allowed" ∷ []) ≡ true

-- The object that a body is read for: its own field, or where it has none the one of its
-- `extra_body`, or where that has none either an empty object.
pub data Requested (body raw : Fields) : Type 0 where
  own : get "routing" body ≡ some (obj raw) → Requested body raw
  nested :
      (extra : Fields)
      → get "routing" body ≡ none
      → get "extra_body" body ≡ some (obj extra)
      → get "routing" extra ≡ some (obj raw)
      → Requested body raw
  missing :
      get "routing" body ≡ none
      → ((extra : Fields) → get "extra_body" body ≡ some (obj extra) → get "routing" extra ≡ none)
      → raw ≡ no_fields
      → Requested body raw

obj_inj : (a b : Fields) → obj a ≡ obj b → a ≡ b
obj_inj a b e = cc

raw_routing-Requested : (body raw : Fields) → raw_routing body ≡ obj raw → Requested body raw
unfolding raw_routing
raw_routing-Requested body raw e = elim (Option-cases (get "routing" body)) [
  | inr (v, there) ↦
      let same : v ≡ obj raw = rw (there, raw_routing) at e in own (there ∙ ap some same)
  | inl miss ↦ elim (Option-cases (get "extra_body" body)) [
    | inl none_extra ↦ missing miss (λ extra h. absurd (cc)) (ground (arith, miss, none_extra, e))
    | inr (x, extra_is) ↦ inside x miss extra_is
  ]
]
  where
    inside :
        (x : Value)
        → get "routing" body ≡ none
        → get "extra_body" body ≡ some x
        → Requested body raw
    inside (obj extra) miss at = elim (Option-cases (get "routing" extra)) [
      | inr (v, there) ↦
          let same : v ≡ obj raw = ground (arith, miss, at, there, e) in
          nested extra miss at (there ∙ ap some same)
      | inl gone ↦
          missing miss (λ other h. let same : extra ≡ other = cc (at, h) in rw same at gone)
            (ground (arith, miss, at, gone, e))
    ]
    inside null miss at = missing miss (λ other h. cc (at, h)) (ground (arith, miss, at, e))
    inside (bool b) miss at = missing miss (λ other h. cc (at, h)) (ground (arith, miss, at, e))
    inside (num sign n) miss at = missing miss (λ other h. cc (at, h)) (ground (arith, miss, at, e))
    inside (text t) miss at = missing miss (λ other h. cc (at, h)) (ground (arith, miss, at, e))
    inside (array _) miss at = missing miss (λ other h. cc (at, h)) (ground (arith, miss, at, e))

elem-All :
    (P : String → Type 0) (names : List String) (s : String)
    → All P names
    → elem s names ≡ true
    → P s
elem-All P [] s a e = cc
elem-All P (n ∷ names) s (here, there) e = elim (Bool-cases (n == s)) [
  | inl same ↦ subst P ((==_iff n s).0 same) here
  | inr other ↦ elem-All P names s there (rw other at e)
]

level-known :
    (asked : String)
    → elem asked reasonings ≡ true
    → reasoning_level (if asked == "auto" then "medium" else asked) ≢ none
unfolding reasoning_level
level-known asked =
    elem-All (λ r. reasoning_level (if r == "auto" then "medium" else r) ≢ none) reasonings asked
      ((λ e. cc), ((λ e. cc), ((λ e. cc), ((λ e. cc), ((λ e. cc), tt)))))

all_elem-All :
    (xs names : List String) → all_elem xs names ≡ true → All (λ x. elem x names ≡ true) xs
all_elem-All [] names e = tt
all_elem-All (x ∷ xs) names e = (ground (arith, e), all_elem-All xs names (ground (arith, e)))

profile_of-Valid :
    (raw : Fields) (profile : Profile)
    → all_elem (field_names raw) routing_keys ≡ true
    → profile_of raw ≡ ok profile
    → Valid raw profile
unfolding profile_of
profile_of-Valid raw profile known e =
    elim (Result-cases (
      one_of workloads "routing.workload must be chat or summary"
        (field_or "workload" "chat" raw))) [
          | inl (x, bad) ↦ absurd (ground (arith, bad))
          | inr (w, is_w) ↦
              elim (Result-cases (
                one_of reasonings "routing.reasoning has an invalid value"
                  (field_or "reasoning" "medium" raw))) [
                    | inl (x, bad) ↦ absurd (ground (arith, is_w, bad))
                    | inr (r, is_r) ↦
                        elim (Result-cases (
                          one_of scopes "routing.execution_scope has an invalid value"
                            (field_or "execution_scope" "local_only" raw))) [
                              | inl (x, bad) ↦ absurd (ground (arith, is_w, is_r, bad))
                              | inr (s, is_s) ↦
                                  let made : record {
                                    workload = w;
                                    reasoning = if r == "auto" then "medium" else r;
                                    execution_scope = s;
                                  }
                                      ≡ profile =
                                    ground (arith, is_w, is_r, is_s) in
                                  let (w_text, w_in) = one_of_ok workloads _ _ w is_w in
                                  let (r_text, r_in) = one_of_ok reasonings _ _ r is_r in
                                  let (s_text, s_in) = one_of_ok scopes _ _ s is_s in
                                  subst (Valid raw) made (record {
                                    known = all_elem-All (field_names raw) routing_keys known;
                                    workload_is = field_or-Has _ _ raw w w_text;
                                    workload_allowed = w_in;
                                    asked = r;
                                    asked_is = field_or-Has _ _ raw r r_text;
                                    asked_allowed = r_in;
                                    reasoning_is = refl;
                                    has_level = level-known r r_in;
                                    scope_is = field_or-Has _ _ raw s s_text;
                                    scope_allowed = s_in;
                                  })
                            ]
                  ]
        ]

-- What the checks let through is an object (the body's own field, or where it has none the one of
-- its `extra_body`, or else an empty one) with none but the three fields, whose profile has its texts or the defaults, each one allowed,
-- with "medium" for "auto", so that the provider pool knows its reasoning level.
pub extract_routing-Valid :
    (body : Fields) (profile : Profile)
    → extract_routing body ≡ ok profile
    → (raw : Fields) × Requested body raw × Valid raw profile
unfolding extract_routing routing_of
extract_routing-Valid body profile e = go (raw_routing body) refl
  where
    go :
        (v : Value) → raw_routing body ≡ v → (raw : Fields) × Requested body raw × Valid raw profile
    go (obj raw) at = elim (Bool-cases (all_elem (field_names raw) routing_keys)) [
      | inl known ↦ (
        raw,
        raw_routing-Requested body raw at,
        profile_of-Valid raw profile known (ground (arith, at, known)),
      )
      | inr unknown ↦ absurd (ground (arith, at, unknown))
    ]
    go null at = absurd (ground (arith, at))
    go (bool b) at = absurd (ground (arith, at))
    go (num sign n) at = absurd (ground (arith, at))
    go (text t) at = absurd (ground (arith, at))
    go (array _) at = absurd (ground (arith, at))
