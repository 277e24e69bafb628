-- ===== src/Content/Watchdog/Found.antt =====
-- What the watchdog and the reconciler do together about a file without activity.
use inuself.Base.{
  ℕ, ap, ◌∙◌, String, ◌≡◌, ◌≢◌, ◌⊎◌, refl, true, some, [], ◌∷◌, inl, ℕ_eq, String_eq,
}
use inuself.Content.Machine.{pulling, is_terminal_state, is_processing_state}
use inuself.Content.Files.{Db, File, Content}
use inuself.Content.Reconciler.{Session, Summary, raises, answers, reconcile}
use inuself.Content.Reconciler.Elsewhere.{Keeps}
use inuself.Content.Reconciler.Frame.{reconcile-Keeps}
use inuself.Content.Reconciler.Stuck.{stuck_ends}
use inuself.Content.Watchdog.{check_file, timed_out, other_findings, stuck_finding}

-- The first of the findings about a file that timed out is that it is stuck.
found_first :
    (now : ℕ) (db : Db) (f : ℕ) (file : File) (c : Content)
    → db.contents f ≡ some c
    → timed_out now db f file c.status ≡ true
    → check_file now db f file ≡ stuck_finding f ∷ other_findings now db f file c.status
unfolding check_file
found_first now db f file c found late = rw (check_file, found, late) refl

-- A file in progress, but not PULLING, whose time without activity is over the timeout of its
-- status, is committed in a terminal status when all findings of its check are reconciled, in a
-- session with nothing pending, where each summary raises or has both a title and a text.
pub timed_out_ends :
    (now later f : ℕ) (execute : String → Summary) (db : Db) (file : File) (c : Content)
    → db.files f ≡ some file
    → db.contents f ≡ some c
    → is_processing_state c.status ≡ true
    → c.status ≢ pulling
    → timed_out now db f file c.status ≡ true
    → ((text : String)
        → (execute text ≡ raises)
          ⊎ ((t : String) × (m : String) × (execute text ≡ answers (some t) (some m))))
    → (row : Content) × ((reconcile later execute
            (check_file now db f file)
            (record { committed = db; current = db })).0.committed.contents
          f
        ≡ some row)
      × (is_terminal_state row.status ≡ true)
unfolding reconcile
timed_out_ends now later f execute db file c there found busy other late whole =
    let s : Session = record { committed = db; current = db } in
    let (row, committed, ended, settled) =
      stuck_ends later execute (stuck_finding f) s file c refl there found busy other whole in
    let after = (reconcile later execute (stuck_finding f ∷ []) s).0 in
    let keeps : Keeps f (some row) after = record {
      in_committed = committed;
      in_current = ap (λ d. d.contents f) settled ∙ committed;
    } in
    let (kept, _) =
      reconcile-Keeps later f row execute (other_findings now db f file c.status) after (inl ended)
        keeps settled in
    (row, rw (found_first now db f file c found late) kept.in_committed, ended)
