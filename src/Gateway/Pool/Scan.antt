-- ===== src/Gateway/Pool/Scan.antt =====
-- One pass over the providers: whom it takes and why, and what it has found where it takes nobody.
use mathlib.Core.List.{append-nil, append_assoc}
use inuself.Base.{
  ℕ, String, ◌≡◌, refl, sym, ap, ◌∙◌, ◌≢◌, inl, inr, Bool, true, false, ◌||◌, Option, none, some,
  List, [], ◌∷◌, ◌++◌, arith, String_eq, Dict, lookup, ok, err, any, All, Option-cases,
}
use inuself.Gateway.Specs.{ProviderSpec}
use inuself.Gateway.Pool.{
  ProviderState, PoolError, key_error, selected, none_free, grant_reason, Verdict, skip_unhealthy,
  skip_busy, take, verdict, scan,
}

-- The verdict on a provider, if the pool has its state.
abbrev pub verdict_of : Dict String ProviderState → ℕ → ProviderSpec → Option Verdict
verdict_of states now spec = elim (lookup spec.name states) [
  | none ↦ none
  | some state ↦ some (verdict spec state now)
]

abbrev pub is_unhealthy_skip : Option Verdict → Bool
is_unhealthy_skip (some (skip_unhealthy ws)) = true
is_unhealthy_skip _ = false

abbrev pub is_busy_skip : Option Verdict → Bool
is_busy_skip (some skip_busy) = true
is_busy_skip _ = false

abbrev pub is_skip : Option Verdict → Bool
is_skip o = is_unhealthy_skip o || is_busy_skip o

-- The four ways in which a pass meets a provider.
pub data Meets (states : Dict String ProviderState) (now : ℕ) (x : ProviderSpec) : Type 0 where
  missing : lookup x.name states ≡ none → Meets states now x
  avoids : (ws : List ℕ) → verdict_of states now x ≡ some (skip_unhealthy ws) → Meets states now x
  waits : verdict_of states now x ≡ some skip_busy → Meets states now x
  takes : (h : Bool) → verdict_of states now x ≡ some (take h) → Meets states now x

meets : (states : Dict String ProviderState) (now : ℕ) (x : ProviderSpec) → Meets states now x
meets states now x = elim (Option-cases (lookup x.name states)) [
  | inl miss ↦ missing miss
  | inr (st, at) ↦ found st at (verdict x st now) refl
]
  where
    found :
        (st : ProviderState)
        → lookup x.name states ≡ some st
        → (v : Verdict) → verdict x st now ≡ v
        → Meets states now x
    found st at (skip_unhealthy ws) e = avoids ws (rw (at, verdict_of) (ap some e))
    found st at skip_busy e = waits (rw (at, verdict_of) (ap some e))
    found st at (take h) e = takes h (rw (at, verdict_of) (ap some e))

module _ (states : Dict String ProviderState) (now : ℕ) (preferred : String) (x : ProviderSpec)
    (specs : List ProviderSpec) (bad busy alive : Bool) (ws : List ℕ) where
  scan_missing :
      lookup x.name states ≡ none
      → scan states now preferred (x ∷ specs) bad busy alive ws ≡ err key_error
  unfolding scan
  scan_missing e = rw (e, scan)

  scan_avoids :
      (more : List ℕ)
      → verdict_of states now x ≡ some (skip_unhealthy more)
      → scan states now preferred (x ∷ specs) bad busy alive ws
        ≡ scan states now preferred specs true busy alive (ws ++ more)
  unfolding scan
  scan_avoids more e = ground arith

  scan_waits :
      verdict_of states now x ≡ some skip_busy
      → scan states now preferred (x ∷ specs) bad busy alive ws
        ≡ scan states now preferred specs bad true true ws
  unfolding scan
  scan_waits e = ground arith

  scan_takes :
      (h : Bool)
      → verdict_of states now x ≡ some (take h)
      → scan states now preferred (x ∷ specs) bad busy alive ws
        ≡ ok (selected x (grant_reason preferred bad busy) h)
  unfolding scan
  scan_takes h e = ground arith

-- The providers passed over before `s`, which is then taken for the reason `r`.
pub record Selects (states : Dict String ProviderState) (now : ℕ) (preferred : String)
    (specs : List ProviderSpec) (bad busy : Bool) (s : ProviderSpec) (r : String) (h : Bool)
    : Type 0 where
  pub before : List ProviderSpec
  pub after : List ProviderSpec
  pub place : specs ≡ before ++ (s ∷ after)
  pub passed : All (λ x. is_skip (verdict_of states now x) ≡ true) before
  pub taken : verdict_of states now s ≡ some (take h)
  pub reason :
      r
      ≡ grant_reason preferred
          (bad || any (λ x. is_unhealthy_skip (verdict_of states now x)) before)
          (busy || any (λ x. is_busy_skip (verdict_of states now x)) before)

pub scan-Selects :
    (states : Dict String ProviderState) (now : ℕ) (preferred : String) (specs : List ProviderSpec)
    (bad busy alive : Bool) (waits : List ℕ) (s : ProviderSpec) (r : String) (h : Bool)
    → scan states now preferred specs bad busy alive waits ≡ ok (selected s r h)
    → Selects states now preferred specs bad busy s r h
unfolding scan
scan-Selects states now preferred [] bad busy alive ws s r h e = absurd (ground arith)
scan-Selects states now preferred (x ∷ specs) bad busy alive ws s r h e =
    elim (meets states now x) [
      | missing m ↦ absurd (cc (scan_missing states now preferred x specs bad busy alive ws m))
      | avoids more v ↦
          let ih =
            scan-Selects states now preferred specs true busy alive (ws ++ more) s r h
              (sym (scan_avoids states now preferred x specs bad busy alive ws more v) ∙ e) in
          record {
            before = x ∷ ih.before;
            after = ih.after;
            place = ap (◌∷◌ x) ih.place;
            passed = (ground arith, ih.passed);
            taken = ih.taken;
            reason = ground (arith, ih.reason);
          }
      | waits v ↦
          let ih =
            scan-Selects states now preferred specs bad true true ws s r h
              (sym (scan_waits states now preferred x specs bad busy alive ws v) ∙ e) in
          record {
            before = x ∷ ih.before;
            after = ih.after;
            place = ap (◌∷◌ x) ih.place;
            passed = (ground arith, ih.passed);
            taken = ih.taken;
            reason = ground (arith, ih.reason);
          }
      | takes h' v ↦
          let same = sym (scan_takes states now preferred x specs bad busy alive ws h' v) ∙ e in
          record {
            before = [];
            after = specs;
            place = ground arith;
            passed = tt;
            taken = ground arith;
            reason = ground arith;
          }
    ]

abbrev pub own_waits : Option Verdict → List ℕ
own_waits (some (skip_unhealthy more)) = more
own_waits _ = []

-- What the healthy providers whose circuit is open are waited for.
unfoldable pub reopening : Dict String ProviderState → ℕ → List ProviderSpec → List ℕ
reopening states now [] = []
reopening states now (x ∷ specs) = own_waits (verdict_of states now x) ++ reopening states now specs

-- A pass that takes nobody has passed over all.
pub record Nobody (states : Dict String ProviderState) (now : ℕ) (specs : List ProviderSpec)
    (alive : Bool) (waits : List ℕ) (alive' : Bool) (waits' : List ℕ) : Type 0 where
  pub passed : All (λ x. is_skip (verdict_of states now x) ≡ true) specs
  pub healthy_seen : alive' ≡ alive || any (λ x. is_busy_skip (verdict_of states now x)) specs
  pub collected : waits' ≡ waits ++ reopening states now specs

pub scan-Nobody :
    (states : Dict String ProviderState) (now : ℕ) (preferred : String) (specs : List ProviderSpec)
    (bad busy alive : Bool) (ws : List ℕ) (alive' : Bool) (ws' : List ℕ)
    → scan states now preferred specs bad busy alive ws ≡ ok (none_free alive' ws')
    → Nobody states now specs alive ws alive' ws'
unfolding scan reopening
scan-Nobody states now preferred [] bad busy alive ws alive' ws' e = record {
  passed = tt;
  healthy_seen = ground arith;
  collected = ground (arith, append-nil ws);
}
scan-Nobody states now preferred (x ∷ specs) bad busy alive ws alive' ws' e =
    elim (meets states now x) [
      | missing m ↦ absurd (cc (scan_missing states now preferred x specs bad busy alive ws m))
      | avoids more v ↦
          let ih =
            scan-Nobody states now preferred specs true busy alive (ws ++ more) alive' ws'
              (sym (scan_avoids states now preferred x specs bad busy alive ws more v) ∙ e) in
          record {
            passed = (ground arith, ih.passed);
            healthy_seen = ground (arith, ih.healthy_seen);
            collected =
                ground (arith, ih.collected, append_assoc ws more (reopening states now specs));
          }
      | waits v ↦
          let ih =
            scan-Nobody states now preferred specs bad true true ws alive' ws'
              (sym (scan_waits states now preferred x specs bad busy alive ws v) ∙ e) in
          record {
            passed = (ground arith, ih.passed);
            healthy_seen = ground (arith, ih.healthy_seen);
            collected = ground (arith, ih.collected);
          }
      | takes h' v ↦ absurd (cc (scan_takes states now preferred x specs bad busy alive ws h' v))
    ]

-- A pass over providers that the pool knows raises nothing.
pub scan-total :
    (states : Dict String ProviderState) (now : ℕ) (preferred : String) (specs : List ProviderSpec)
    (bad busy alive : Bool) (ws : List ℕ) (err' : PoolError)
    → All (λ x. (st : ProviderState) × (lookup x.name states ≡ some st)) specs
    → scan states now preferred specs bad busy alive ws ≢ err err'
unfolding scan
scan-total states now preferred [] bad busy alive ws err' known e = cc
scan-total states now preferred (x ∷ specs) bad busy alive ws err' known e =
    elim (meets states now x) [
      | missing m ↦ cc (known.0.1)
      | avoids more v ↦
          scan-total states now preferred specs true busy alive (ws ++ more) err' known.1
            (sym (scan_avoids states now preferred x specs bad busy alive ws more v) ∙ e)
      | waits v ↦
          scan-total states now preferred specs bad true true ws err' known.1
            (sym (scan_waits states now preferred x specs bad busy alive ws v) ∙ e)
      | takes h' v ↦ cc (scan_takes states now preferred x specs bad busy alive ws h' v)
    ]
