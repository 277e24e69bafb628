-- ===== src/Content/Reconciler/Stuck.antt =====
-- What becomes of a stuck file.
use inuself.Base.{
  ℕ, ap, ◌∙◌, String, ◌≡◌, ◌≢◌, ◌⊎◌, refl, true, false, none, some, [], ◌∷◌, ◌==◌, ℕ_eq, String_eq,
  ==_iff, ok, err, leb, inl, inr, Bool-cases, Option-cases,
}
use inuself.Content.Machine.{
  FileStatus, FileStatus_eq, queued, pulling, processing, ocr_processing, summary_queued,
  summarizing, completed, download_failed, asr_failed, ocr_failed, summary_failed, cancelled,
  is_terminal_state, is_processing_state, can_transition, get_failure_state_for,
  get_valid_transitions,
}
use inuself.Content.Files.{Db, File, Content, add_llm_log}
use inuself.Content.Reconciler.{
  Finding, ReconcileAction, Session, commit, Summary, raises, answers, Handled, get_retry_count,
  forced, mark_as_failed, text_of, not_empty, save_summary, log_summary, title_saved, summary_saved,
  llm_failed, finish_llm, run_llm, requeue_llm_job, stuck_below, handle_stuck, dispatch,
  handle_finding, settle, reconcile, failure_state, max_retry_count,
}
use inuself.Content.Reconciler.Rows.{
  Has, update_lands, log_lands, llm_log_lands, title_lands, summary_lands,
}

-- A call that returns its action, with the file in a terminal status.
record Lands (f : ℕ) (h : Handled) : Type 0 where
  action : ReconcileAction
  returned : h.1 ≡ ok action
  final : FileStatus
  there : Has f final h.0.current
  ended : is_terminal_state final ≡ true

failure_state_terminal : (t : FileStatus) → is_terminal_state (failure_state t) ≡ true
unfolding get_failure_state_for is_terminal_state get_valid_transitions
failure_state_terminal queued = refl
failure_state_terminal pulling = refl
failure_state_terminal processing = refl
failure_state_terminal ocr_processing = refl
failure_state_terminal summary_queued = refl
failure_state_terminal summarizing = refl
failure_state_terminal completed = refl
failure_state_terminal download_failed = refl
failure_state_terminal asr_failed = refl
failure_state_terminal ocr_failed = refl
failure_state_terminal summary_failed = refl
failure_state_terminal cancelled = refl

module _ (now f : ℕ) where
  mark-Lands :
      (t u : FileStatus) (s : Session) → Has f t s.current → Lands f (mark_as_failed now f u s)
  unfolding mark_as_failed forced
  mark-Lands t u s h =
      let (db, r, fine, has) =
        update_lands now f t (failure_state u) false s.current h (inr refl) in
      rw (fine, forced)
        (record {
          action = record { file_id = f; action = "marked_failed"; success = true };
          returned = refl;
          final = failure_state u;
          there = log_lands now f (failure_state u) "reconciler_marked_failed" db has;
          ended = failure_state_terminal u;
        })

  llm_failed-Lands :
      (t : FileStatus) (s : Session) → Has f summarizing s.current → Lands f (llm_failed now f t s)
  unfolding llm_failed can_transition is_terminal_state get_valid_transitions
  llm_failed-Lands t s h =
      let (db, r, fine, has) =
        update_lands now f summarizing summary_failed true s.current h (inr refl) in
      rw (fine, llm_failed)
        (mark-Lands summary_failed t
          (commit (record s { current = add_llm_log now f "reconciler_llm_failed" db }))
          (llm_log_lands now f summary_failed "reconciler_llm_failed" db has))

  -- A summary that raises, or that has both its parts.
  abbrev Whole : Summary → Type 0
  Whole answer =
      (answer ≡ raises) ⊎ ((t : String) × (m : String) × (answer ≡ answers (some t) (some m)))

  finish-Lands :
      (u : FileStatus) (s : Session) (db : Db)
      → Has f completed db
      → Lands f (finish_llm now f u s (db, none))
  unfolding finish_llm is_terminal_state get_valid_transitions
  finish-Lands u s db h = record {
    action = record { file_id = f; action = "requeued"; success = true };
    returned = refl;
    final = completed;
    there = h;
    ended = refl;
  }

  run_llm-Lands :
      (u : FileStatus) (answer : Summary) (s : Session)
      → Whole answer
      → Has f summarizing s.current
      → Lands f (run_llm now f u answer s)
  unfolding run_llm save_summary log_summary can_transition is_terminal_state get_valid_transitions
  run_llm-Lands u answer s (inl broken) h = rw (broken, run_llm) (llm_failed-Lands u s h)
  run_llm-Lands u answer s (inr (t, m, whole)) h =
      let saved = summary_saved now f (some m) (title_saved now f (some t) s.current) in
      let (done, r, fine, has) =
        update_lands now f summarizing completed true saved
          (summary_lands now f summarizing (some m) (title_saved now f (some t) s.current)
            (title_lands now f summarizing (some t) s.current h))
          (inr refl) in
      let logged = add_llm_log now f "reconciler_llm_completed" done in
      let saving : save_summary now f (some t) (some m) s.current ≡ (logged, none) =
        rw (save_summary, fine) refl in
      rw (whole, run_llm, saving)
        (finish-Lands u s logged
          (llm_log_lands now f completed "reconciler_llm_completed" done has))

  requeue-Lands :
      (execute : String → Summary) (s : Session)
      → ((text : String) → Whole (execute text))
      → Has f summary_queued s.current
      → Lands f (requeue_llm_job now f summary_queued execute s)
  unfolding requeue_llm_job can_transition is_terminal_state get_valid_transitions
  requeue-Lands execute s whole h = elim (Option-cases (not_empty (text_of s.current f))) [
    | inl miss ↦ rw (miss, requeue_llm_job) (mark-Lands summary_queued summary_queued s h)
    | inr (text, found) ↦
        let (db, r, fine, has) =
          update_lands now f summary_queued summarizing true s.current h (inr refl) in
        rw (found, fine, requeue_llm_job)
          (run_llm-Lands summary_queued (execute text) (commit (record s { current = db }))
            (whole text) has)
  ]

  stuck_below-Lands :
      (t : FileStatus) (execute : String → Summary) (s : Session)
      → ((text : String) → Whole (execute text))
      → is_processing_state t ≡ true
      → t ≢ pulling
      → Has f t s.current
      → Lands f (stuck_below now f t execute s)
  unfolding stuck_below is_processing_state
  stuck_below-Lands queued execute s whole busy other h = mark-Lands queued queued s h
  stuck_below-Lands processing execute s whole busy other h = mark-Lands processing processing s h
  stuck_below-Lands ocr_processing execute s whole busy other h =
      mark-Lands ocr_processing ocr_processing s h
  stuck_below-Lands summary_queued execute s whole busy other h = requeue-Lands execute s whole h
  stuck_below-Lands summarizing execute s whole busy other h =
      mark-Lands summarizing summarizing s h
  stuck_below-Lands pulling execute s whole busy other h = absurd (other refl)
  stuck_below-Lands completed execute s whole busy other h = cc
  stuck_below-Lands download_failed execute s whole busy other h = cc
  stuck_below-Lands asr_failed execute s whole busy other h = cc
  stuck_below-Lands ocr_failed execute s whole busy other h = cc
  stuck_below-Lands summary_failed execute s whole busy other h = cc
  stuck_below-Lands cancelled execute s whole busy other h = cc

progress : (t : FileStatus) → is_processing_state t ≡ true → is_terminal_state t ≡ false
unfolding is_processing_state is_terminal_state get_valid_transitions
progress queued e = refl
progress pulling e = refl
progress processing e = refl
progress ocr_processing e = refl
progress summary_queued e = refl
progress summarizing e = refl
progress completed e = cc
progress download_failed e = cc
progress asr_failed e = cc
progress ocr_failed e = cc
progress summary_failed e = cc
progress cancelled e = cc

-- Reconciling a finding of a stuck file ends its progress: a file in any status in progress but
-- PULLING is committed in a terminal status, and nothing is pending, when each summary raises or has
-- both a title and a text.
pub stuck_ends :
    (now : ℕ) (execute : String → Summary) (finding : Finding) (s : Session) (file : File)
    (c : Content)
    → finding.issue_type ≡ "stuck"
    → s.current.files finding.file_id ≡ some file
    → s.current.contents finding.file_id ≡ some c
    → is_processing_state c.status ≡ true
    → c.status ≢ pulling
    → ((text : String)
        → (execute text ≡ raises)
          ⊎ ((t : String) × (m : String) × (execute text ≡ answers (some t) (some m))))
    → (row : Content) × ((reconcile now execute (finding ∷ []) s).0.committed.contents
          finding.file_id
        ≡ some row)
      × (is_terminal_state row.status ≡ true)
      × ((reconcile now execute (finding ∷ []) s).0.current
          ≡ (reconcile now execute (finding ∷ []) s).0.committed)
unfolding reconcile handle_stuck Has handle_finding dispatch
stuck_ends now execute finding s file c stuck found row_is busy other whole =
    let f = finding.file_id in
    let lands : Lands f (handle_finding now execute finding s) = handled in
    ended (handle_finding now execute finding s) lands
  where
    stuck_case :
        (n : ℕ) → Lands finding.file_id (handle_stuck now finding.file_id c.status n execute s)
    stuck_case n = elim (Bool-cases (leb max_retry_count n)) [
      | inl enough ↦
          rw (enough, handle_stuck)
            (mark-Lands now finding.file_id c.status c.status s (c, row_is, refl))
      | inr below ↦
          rw (below, handle_stuck)
            (stuck_below-Lands now finding.file_id c.status execute s whole busy other
              (c, row_is, refl))
    ]

    handled : Lands finding.file_id (handle_finding now execute finding s)
    handled =
        let going : is_terminal_state c.status ≡ false = progress c.status busy in
        let at_stuck : (finding.issue_type == "stuck") ≡ true =
          (==_iff finding.issue_type "stuck").1 stuck in
        rw (found, row_is, going, handle_finding, dispatch, at_stuck)
          (stuck_case (get_retry_count s.current finding.file_id))

    ended :
        (h : Handled)
        → Lands finding.file_id h
        → (row : Content) × ((settle finding h).0.committed.contents finding.file_id ≡ some row)
          × (is_terminal_state row.status ≡ true)
          × ((settle finding h).0.current ≡ (settle finding h).0.committed)
    ended (s', ok a) l =
        let (row, there, is_final) = l.there in
        (row, there, ap is_terminal_state is_final ∙ l.ended, refl)
    ended (s', err e) l = absurd (cc l.returned)
