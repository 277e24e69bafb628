-- ===== src/Content/Reconciler/Tests.antt =====
-- The reconciler at a database with a stuck audio file.
use inuself.Base.{
  ◌≡◌, refl, inl, inr, String, true, false, none, some, [], ◌∷◌, ◌==◌, ℕ_eq, if◌then◌else◌,
}
use inuself.Gateway.Json.{no_fields}
use inuself.Content.Machine.{
  FileStatus_eq, FileStatus-discrete, summary_queued, completed, is_terminal_state,
  is_processing_state, get_valid_transitions,
}
use inuself.Content.Files.{Db, Content, audio}
use inuself.Content.Reconciler.{Finding, Session, Summary, answers, reconcile}
use inuself.Content.Reconciler.Elsewhere.{Keeps}
use inuself.Content.Reconciler.Frame.{reconcile-Keeps}
use inuself.Content.Reconciler.Stuck.{stuck_ends}

abbrev pub waiting : Content
waiting = record {
  id = 7;
  status = summary_queued;
  title = none;
  summary_md = none;
  user_id = 2;
  summary_sections = no_fields;
  updated_at = 3;
  completed_at = none;
}

abbrev finished : Content
finished = record waiting { id = 8; status = completed; completed_at = some 3 }

abbrev pub two_files : Db
two_files = record {
  files = λ f. some (record { filename = "talk.mp3"; content_type = audio; created_at = 1 });
  contents = λ f. if f == 1 then some waiting else some finished;
  stt_logs = [];
  llm_logs = [];
  transcriptions = λ f. some "text";
  documents = λ f. none;
}

abbrev pub session : Session
session = record { committed = two_files; current = two_files }

abbrev stuck_file : Finding
stuck_file = record { file_id = 1; issue_type = "stuck"; mentions_failed = false }

abbrev pub sums_up : String → Summary
sums_up text = answers (some "title") (some text)

reconcile-Keeps_example :
    Keeps 2 (some finished) (reconcile 9 sums_up (stuck_file ∷ []) session).0
    × ((reconcile 9 sums_up (stuck_file ∷ []) session).0.current
        ≡ (reconcile 9 sums_up (stuck_file ∷ []) session).0.committed)
unfolding is_terminal_state get_valid_transitions
reconcile-Keeps_example =
    reconcile-Keeps 9 2 finished sums_up (stuck_file ∷ []) session (inl refl)
      (record { in_committed = refl; in_current = refl }) refl

stuck_ends_example :
    (row : Content) × ((reconcile 9 sums_up (stuck_file ∷ []) session).0.committed.contents 1
      ≡ some row)
    × (is_terminal_state row.status ≡ true)
    × ((reconcile 9 sums_up (stuck_file ∷ []) session).0.current
        ≡ (reconcile 9 sums_up (stuck_file ∷ []) session).0.committed)
unfolding is_processing_state FileStatus-discrete
stuck_ends_example =
    stuck_ends 9 sums_up stuck_file session
      (record { filename = "talk.mp3"; content_type = audio; created_at = 1 }) waiting refl refl
      refl refl (λ e. cc) (λ text. inr ("title", text, refl))
