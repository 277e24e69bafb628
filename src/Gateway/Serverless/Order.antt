-- ===== src/Gateway/Serverless/Order.antt =====
-- The trace of the loop over the serverless providers, in the terms of what its body does at each.
use inuself.Base.{
  ap, ◌∙◌, ◌≡◌, refl, Bool, true, false, not, ◌||◌, List, [], ◌∷◌, ◌++◌, if◌then◌else◌, All, any,
  arith, Bool-cases, inl, inr, ◌==◌, String_eq,
}
use inuself.Gateway.Chat.{Opened, cancelled, failed, payload, streaming}
use inuself.Gateway.Serverless.{
  ProviderResult, Answer, too_busy, none_available, Tried, moves_on, ends, tried, opened_as,
  try_all,
}

abbrev pub goes_on : Tried → Bool
goes_on (moves_on busy) = true
goes_on (ends answer) = false

abbrev pub overloads : Tried → Bool
overloads (moves_on busy) = busy
overloads (ends answer) = false

abbrev pub is_empty : List ProviderResult → Bool
is_empty [] = true
is_empty (p ∷ ps) = false

-- Providers without an address or with an error that is no refusal, whichever came before.
abbrev pub Passed : Bool → (ProviderResult → Opened) → List ProviderResult → Type 0
Passed explicit upstream ps = All (λ p. goes_on (tried explicit upstream true p) ≡ true) ps

-- Either the reply is that of one provider, all before it passed, or all passed, and the reply is
-- that they are busy if one of them was overloaded.
pub data Traced (explicit : Bool) (upstream : ProviderResult → Opened) (saw failing : Bool)
    (ps : List ProviderResult) (answer : Answer) : Type 0 where
  stops_at :
      (before : List ProviderResult) (p : ProviderResult) (after : List ProviderResult)
      → ps ≡ before ++ (p ∷ after)
      → Passed explicit upstream before
      → tried explicit upstream (failing || not (is_empty before)) p ≡ ends answer
      → Traced explicit upstream saw failing ps answer
  runs_out :
      Passed explicit upstream ps
      → answer ≡ (
          if saw || any (λ p. overloads (tried explicit upstream true p)) ps
          then too_busy
          else none_available)
      → Traced explicit upstream saw failing ps answer

-- A provider that is passed over is so whatever came before it.
moves_same :
    (explicit failing busy : Bool) (upstream : ProviderResult → Opened) (p : ProviderResult)
    → tried explicit upstream failing p ≡ moves_on busy
    → tried explicit upstream true p ≡ moves_on busy
unfolding tried
moves_same explicit failing busy upstream p e = elim (Bool-cases (p.api_base == "")) [
  | inl unset ↦ ground (arith, unset, e)
  | inr set ↦ rw set (go (upstream p) (rw set at e))
]
  where
    go :
        (o : Opened)
        → opened_as explicit failing p o ≡ moves_on busy
        → opened_as explicit true p o ≡ moves_on busy
    go cancelled h = cc
    go (failed exc) h = h
    go (payload m) h = cc
    go (streaming m) h = cc

or_regroup : (a b c : Bool) → ((a || b) || c) ≡ (a || (b || c))
or_regroup true b c = refl
or_regroup false b c = refl

pub try_all-Traced :
    (explicit : Bool) (upstream : ProviderResult → Opened) (saw failing : Bool)
    (ps : List ProviderResult)
    → Traced explicit upstream saw failing ps (try_all explicit upstream saw failing ps)
unfolding try_all
try_all-Traced explicit upstream saw failing [] = runs_out tt (ground arith)
try_all-Traced explicit upstream saw failing (p ∷ ps) =
    go (tried explicit upstream failing p) refl
      (λ b. try_all-Traced explicit upstream (saw || b) true ps)
  where
    step :
        (busy : Bool)
        → tried explicit upstream true p ≡ moves_on busy
        → (answer : Answer) → Traced explicit upstream (saw || busy) true ps answer
        → Traced explicit upstream saw failing (p ∷ ps) answer
    step busy at answer (stops_at before q after place passed last) =
        stops_at (p ∷ before) q after (ap (◌∷◌ p) place) (ap goes_on at, passed)
          (elim (Bool-cases failing) [ inl f ↦ rw f last | inr f ↦ rw f last ])
    step busy at answer (runs_out passed all) =
        runs_out (ap goes_on at, passed)
          (rw at (all ∙ ap (λ b. if b then too_busy else none_available) (or_regroup saw busy _)))

    go :
        (t : Tried)
        → tried explicit upstream failing p ≡ t
        → ((b : Bool)
            → Traced explicit upstream
                (saw || b)
                true
                ps
                (try_all explicit upstream (saw || b) true ps))
        → Traced explicit upstream saw failing
            (p ∷ ps)
            (try_all explicit upstream saw failing (p ∷ ps))
    go (ends answer) at ih =
        rw (try_all, at)
          (stops_at [] p ps refl tt
            (elim (Bool-cases failing) [ inl f ↦ rw f (rw f at at) | inr f ↦ rw f (rw f at at) ]))
    go (moves_on busy) at ih =
        rw (try_all, at) (step busy (moves_same explicit failing busy upstream p at) _ (ih busy))
