-- ===== src/Gateway/Policy/Routes.antt =====
-- The routes of a policy that is parsed, and the pool that is made of it.
use mathlib.Core.Path.{subst}
use inuself.Base.{
  String, ◌≡◌, refl, sym, ap, ◌∙◌, Bool, true, false, ◌&&◌, Option, none, some, List, [], ◌∷◌, ◌==◌,
  ==_iff, ℕ_eq, String_eq, Dict, lookup, insert, all, elem, All, ok, guard, bind_ok, guard_ok,
  ok_injective, inl, inr, Bool-cases, Option-cases,
}
use inuself.Gateway.Json.{
  Value, Fields, Elements, null, bool, text, num, array, obj, no_fields, field, no_elements,
  element,
}
use inuself.Gateway.Specs.{ProviderSpec}
use inuself.Gateway.Policy.{
  Policy, at, check_keys, parse_settings, parse_providers, names_of, distinct, is_known, supports,
  route_of, parse_route, parse_each_route, parse_routes, parse_policy,
}
use inuself.Gateway.Policy.Valid.{
  Positive, ValidSpec, insert-All, parse_settings-Positive, parse_providers-ValidSpec,
}
use inuself.Gateway.World.{start, run, Call}
use inuself.Gateway.World.Capacity.{Sound}
use inuself.Gateway.World.History.{run-start-Sound}

-- A provider of the policy that has the workload.
abbrev pub Serves : Dict String ProviderSpec → String → String → Type 0
Serves specs workload n =
    (spec : ProviderSpec) × (lookup n specs ≡ some spec) × (elem workload spec.workloads ≡ true)

-- A route names providers that serve its workload, each once.
abbrev pub ValidRoute : Dict String ProviderSpec → String × List String → Type 0
ValidRoute specs (workload, names) = (distinct names ≡ true) × All (Serves specs workload) names

supports_lem :
    (specs : Dict String ProviderSpec) (workload n : String)
    → supports specs workload n ≡ true
    → Serves specs workload n
supports_lem specs workload n h = elim (Option-cases (lookup n specs)) [
  | inl gone ↦ absurd (cc (rw (gone, supports) at h))
  | inr (spec, there) ↦ (spec, there, rw (there, supports) at h)
]

all-Serves :
    (specs : Dict String ProviderSpec) (workload : String) (names : List String)
    → all (supports specs workload) names ≡ true
    → All (Serves specs workload) names
all-Serves specs workload [] h = tt
all-Serves specs workload (n ∷ names) h =
    let (first, rest) = both (supports specs workload n) _ h in
    (supports_lem specs workload n first, all-Serves specs workload names rest)
  where
    both : (a b : Bool) → (a && b) ≡ true → (a ≡ true) × (b ≡ true)
    both true b k = (refl, k)
    both false b k = cc

route_of-ValidRoute :
    (specs : Dict String ProviderSpec) (workload : String) (vs : Elements) {names : List String}
    → route_of specs workload vs ≡ ok names
    → ValidRoute specs (workload, names)
unfolding route_of
route_of-ValidRoute specs workload vs h =
    let (names, e, h) = bind_ok (names_of vs) _ h in
    let (u, e_distinct, h) = bind_ok (guard (distinct names) "contains duplicate providers") _ h in
    let (u, e_known, h) =
      bind_ok (guard (all (is_known specs) names) "references unknown providers") _ h in
    let (u, e_supports, h) =
      bind_ok
        (guard (all (supports specs workload) names) "uses providers without workload support") _
        h in
    subst (λ names. ValidRoute specs (workload, names)) (ok_injective h)
      (
        guard_ok (distinct names) "contains duplicate providers" e_distinct,
        all-Serves specs workload names (
            guard_ok (all (supports specs workload) names) "uses providers without workload support"
              e_supports),
      )

parse_route-ValidRoute :
    (specs : Dict String ProviderSpec) (workload : String) (v : Value) {names : List String}
    → parse_route specs workload v ≡ ok names
    → ValidRoute specs (workload, names)
unfolding parse_route
parse_route-ValidRoute specs workload (array (element v vs)) h =
    route_of-ValidRoute specs workload (element v vs) h
parse_route-ValidRoute specs workload (array no_elements) h = cc
parse_route-ValidRoute specs workload null h = cc
parse_route-ValidRoute specs workload (num b n) h = cc
parse_route-ValidRoute specs workload (bool b) h = cc
parse_route-ValidRoute specs workload (text s) h = cc
parse_route-ValidRoute specs workload (obj fs) h = cc

parse_each_route-ValidRoute :
    (specs : Dict String ProviderSpec) (fs : Fields) (routes : Dict String (List String))
    {last : Dict String (List String)}
    → All (ValidRoute specs) routes
    → parse_each_route specs fs routes ≡ ok last
    → All (ValidRoute specs) last
unfolding parse_each_route
parse_each_route-ValidRoute specs no_fields routes valid h =
    subst (All (ValidRoute specs)) (ok_injective h) valid
parse_each_route-ValidRoute specs (field workload v fs) routes valid h =
    let (names, e, h) = bind_ok (parse_route specs workload v) _ h in
    parse_each_route-ValidRoute specs fs (insert workload names routes)
      (insert-All (ValidRoute specs) workload names routes
        (parse_route-ValidRoute specs workload v e) valid)
      h

parse_routes-ValidRoute :
    (specs : Dict String ProviderSpec) (v : Value) {routes : Dict String (List String)}
    → parse_routes specs v ≡ ok routes
    → All (ValidRoute specs) routes
unfolding parse_routes
parse_routes-ValidRoute specs (obj (field workload v fs)) h =
    parse_each_route-ValidRoute specs (field workload v fs) [] tt h
parse_routes-ValidRoute specs (obj no_fields) h = cc
parse_routes-ValidRoute specs null h = cc
parse_routes-ValidRoute specs (num b n) h = cc
parse_routes-ValidRoute specs (bool b) h = cc
parse_routes-ValidRoute specs (text s) h = cc
parse_routes-ValidRoute specs (array vs) h = cc

stored-name :
    (specs : Dict String ProviderSpec)
    → All ValidSpec specs
    → (n : String) (s : ProviderSpec) → lookup n specs ≡ some s
    → s.name ≡ n
stored-name [] valid n s h = cc
stored-name ((k, t) ∷ specs) valid n s h = elim (Bool-cases (k == n)) [
  | inl same ↦ named n s k t same valid.0.0 (rw same at h)
  | inr other ↦ stored-name specs valid.1 n s (rw other at h)
]
  where
    named :
        (n : String) (s : ProviderSpec) (k : String) (t : ProviderSpec)
        → (k == n) ≡ true
        → t.name ≡ k
        → ◌≡◌ {A = Option ProviderSpec} (some t) (some s)
        → s.name ≡ n
    named n s k t same called e =
        sym (ap (λ o. elim o [ none ↦ t.name | some x ↦ x.name ]) e) ∙ called ∙ (==_iff k n).0 same

-- A policy that is parsed has positive settings; providers that are stored under their names, with a
-- positive limit, a known scope and kind, reasoning levels in order, some workloads and a model; and
-- routes that name providers of the policy with the route's workload, each once. A pool that is made
-- of it keeps the loads of its providers within their limits, and equal to the leases that are out,
-- after any history of calls.
pub parse_policy-Valid :
    (env : String → Option String) (policy : Fields) (p : Policy) (cs : List Call)
    → parse_policy env policy ≡ ok p
    → Positive p.settings
      × All ValidSpec p.specs
      × All (ValidRoute p.specs) p.routes
      × Sound (run (start p.settings p.specs p.routes) cs)
unfolding parse_policy
parse_policy-Valid env policy p cs h =
    let (u, e, h) = bind_ok (check_keys ("settings" ∷ "providers" ∷ "routes" ∷ []) policy) _ h in
    let (settings, e_settings, h) = bind_ok (parse_settings (at policy "settings")) _ h in
    let (specs, e_specs, h) = bind_ok (parse_providers env (at policy "providers")) _ h in
    let (routes, e_routes, h) = bind_ok (parse_routes specs (at policy "routes")) _ h in
    let valid = parse_providers-ValidSpec env (at policy "providers") e_specs in
    subst
      (λ p.
        Positive p.settings
        × All ValidSpec p.specs
        × All (ValidRoute p.specs) p.routes
        × Sound (run (start p.settings p.specs p.routes) cs))
      (ok_injective h)
      (
        parse_settings-Positive (at policy "settings") e_settings,
        valid,
        parse_routes-ValidRoute specs (at policy "routes") e_routes,
        run-start-Sound settings specs routes cs (stored-name specs valid),
      )
