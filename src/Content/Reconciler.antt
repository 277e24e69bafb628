-- ===== src/Content/Reconciler.antt =====
-- backend/app/services/state_reconciler.py: what is done about the problems that the watchdog finds.
-- A session has the database as it is committed, and as the session sees it. The summary of the
-- language model is an argument; published progress and the details of an action are left out.
pub mod Elsewhere
pub mod Frame
pub mod Rows
pub mod Stuck
pub mod Tests
use inuself.Base.{
  ℕ, ◌+◌, String, Bool, true, false, Option, none, some, List, [], ◌∷◌, ◌==◌, ℕ_eq, String_eq,
  Result, ok, err, ◌>>=◌, if◌then◌else◌, leb, count, ◌&&◌, or_default,
}
use inuself.Content.Machine.{
  FileStatus, FileStatus_eq, queued, processing, ocr_processing, summary_queued, summarizing,
  completed, summary_failed, cancelled, is_terminal_state, get_failure_state_for,
}
use inuself.Content.Files.{
  Db, File, Content, ContentType, audio, document, portray, Log, update_file_status, update_title,
  update_summary_markdown, add_log, add_llm_log,
}

-- `mentions_failed` is whether the details have "_failed" in them.
pub record Finding : Type 0 where
  pub file_id : ℕ
  pub issue_type : String
  pub mentions_failed : Bool

pub record ReconcileAction : Type 0 where
  pub file_id : ℕ
  pub action : String
  pub success : Bool

pub record Session : Type 0 where
  pub committed : Db
  pub current : Db

abbrev pub commit : Session → Session
commit s = record { committed = s.current; current = s.current }

abbrev pub rollback : Session → Session
rollback s = record { committed = s.committed; current = s.committed }

-- What `SectionGraphExecutor.execute` does: it raises, or gives a title and a summary or None.
pub data Summary : Type 0 where
  raises : Summary
  answers : Option String → Option String → Summary

-- A call on the session that returns, or raises with its message.
abbrev pub Handled : Type 0
Handled = Session × Result String ReconcileAction

-- MAX_RETRY_COUNT.
abbrev pub max_retry_count : ℕ
max_retry_count = 3

is_requeue : ℕ → Log → Bool
is_requeue content_id log =
    log.event == "reconciler_requeued"
    && (elim log.content_id [ none ↦ false | some i ↦ i == content_id ])

unfoldable pub get_retry_count : Db → ℕ → ℕ
unfolding is_requeue
get_retry_count db file_id = elim (db.contents file_id) [
  | none ↦ 0
  | some c ↦ count (is_requeue c.id) db.stt_logs + count (is_requeue c.id) db.llm_logs
]

-- `get_failure_state_for(status) or CANCELLED`.
abbrev pub failure_state : FileStatus → FileStatus
failure_state status = or_default (get_failure_state_for status) cancelled

-- A status that is forced on the file, with the log of it.
unfoldable pub forced : ℕ → ℕ → FileStatus → String → String → Session → Handled
forced now file_id status event action s =
    elim (update_file_status now file_id status false s.current) [
      | err e ↦ (s, err e)
      | ok (db, r) ↦ (
        record s { current = add_log now file_id event db },
        ok (record { file_id = file_id; action = action; success = true }),
      )
    ]

unfoldable pub mark_as_failed : ℕ → ℕ → FileStatus → Session → Handled
mark_as_failed now file_id status s =
    forced now file_id (failure_state status) "reconciler_marked_failed" "marked_failed" s

unfoldable pub skipped : ℕ → Bool → Session → Handled
skipped file_id success s =
    (s, ok (record { file_id = file_id; action = "skipped"; success = success }))

-- The text to sum up, if there is one that is not empty.
unfoldable pub text_of : Db → ℕ → Option String
text_of db file_id = elim (db.files file_id) [
  | none ↦ none
  | some file ↦ elim file.content_type [
    | audio ↦ db.transcriptions file_id
    | document ↦ db.documents file_id
    | portray ↦ db.documents file_id
  ]
]

abbrev pub not_empty : Option String → Option String
not_empty none = none
not_empty (some t) = if t == "" then none else some t

abbrev pub title_saved : ℕ → ℕ → Option String → Db → Db
title_saved now file_id title db = elim (not_empty title) [
  | none ↦ db
  | some t ↦ update_title now file_id t db
]

abbrev pub summary_saved : ℕ → ℕ → Option String → Db → Db
summary_saved now file_id summary_md db = elim (not_empty summary_md) [
  | none ↦ db
  | some m ↦ update_summary_markdown now file_id m db
]

-- The log after COMPLETED takes the lengths of the title and of the summary, a TypeError for None.
unfoldable pub log_summary : ℕ → ℕ → Option String → Option String → Db → Db × Option String
log_summary now file_id none summary_md db = (db, some "TypeError")
log_summary now file_id (some t) none db = (db, some "TypeError")
log_summary now file_id (some t) (some m) db =
    (add_llm_log now file_id "reconciler_llm_completed" db, none)

-- What follows the summary in the `try`: the database, and the exception if one is raised.
unfoldable pub save_summary : ℕ → ℕ → Option String → Option String → Db → Db × Option String
save_summary now file_id title summary_md db =
    let saved = summary_saved now file_id summary_md (title_saved now file_id title db) in
    elim (update_file_status now file_id completed true saved) [
      | err e ↦ (saved, some e)
      | ok (done, r) ↦ log_summary now file_id title summary_md done
    ]

-- The `except` of `_requeue_llm_job`.
unfoldable pub llm_failed : ℕ → ℕ → FileStatus → Session → Handled
llm_failed now file_id status s =
    elim (update_file_status now file_id summary_failed true s.current) [
      | err e ↦ (s, err e)
      | ok (db, r) ↦
          mark_as_failed now file_id status
            (commit (record s { current = add_llm_log now file_id "reconciler_llm_failed" db }))
    ]

-- The last commit of the `try`, or the way to its `except`.
unfoldable pub finish_llm : ℕ → ℕ → FileStatus → Session → Db × Option String → Handled
finish_llm now file_id status s (db, some e) =
    llm_failed now file_id status (record s { current = db })
finish_llm now file_id status s (db, none) = (
  commit (record s { current = db }),
  ok (record { file_id = file_id; action = "requeued"; success = true }),
)

-- The part of the `try` after the commit of SUMMARIZING.
unfoldable pub run_llm : ℕ → ℕ → FileStatus → Summary → Session → Handled
run_llm now file_id status raises s = llm_failed now file_id status s
run_llm now file_id status (answers title summary_md) s =
    finish_llm now file_id status s (save_summary now file_id title summary_md s.current)

unfoldable pub requeue_llm_job : ℕ → ℕ → FileStatus → (String → Summary) → Session → Handled
requeue_llm_job now file_id status execute s = elim (not_empty (text_of s.current file_id)) [
  | none ↦ mark_as_failed now file_id status s
  | some text ↦ elim (update_file_status now file_id summarizing true s.current) [
    | err e ↦ llm_failed now file_id status s
    | ok (db, r) ↦ run_llm now file_id status (execute text) (commit (record s { current = db }))
  ]
]

-- `_handle_stuck` below the limit on retries; QUEUED goes by `_requeue_initial_job`.
unfoldable pub stuck_below : ℕ → ℕ → FileStatus → (String → Summary) → Session → Handled
unfolding skipped
stuck_below now file_id processing execute s = mark_as_failed now file_id processing s
stuck_below now file_id ocr_processing execute s = mark_as_failed now file_id ocr_processing s
stuck_below now file_id summarizing execute s = mark_as_failed now file_id summarizing s
stuck_below now file_id summary_queued execute s =
    requeue_llm_job now file_id summary_queued execute s
stuck_below now file_id queued execute s = mark_as_failed now file_id queued s
stuck_below now file_id status execute s = skipped file_id false s

unfoldable pub handle_stuck : ℕ → ℕ → FileStatus → ℕ → (String → Summary) → Session → Handled
handle_stuck now file_id status retry_count execute s =
    if leb max_retry_count retry_count
    then mark_as_failed now file_id status s
    else stuck_below now file_id status execute s

unfoldable pub handle_no_job : ℕ → ℕ → FileStatus → ℕ → (String → Summary) → Session → Handled
unfolding skipped
handle_no_job now file_id status retry_count execute s =
    if leb max_retry_count retry_count
    then mark_as_failed now file_id status s
    else if status == summary_queued
    then requeue_llm_job now file_id status execute s
    else skipped file_id false s

unfoldable pub handle_job_mismatch : ℕ → ℕ → FileStatus → Bool → Session → Handled
unfolding skipped
handle_job_mismatch now file_id status mentions_failed s =
    if mentions_failed
    then forced now file_id (failure_state status) "reconciler_status_fix" "fixed_status" s
    else skipped file_id false s

-- The action on a file that is in the status of progress `status`.
unfoldable pub dispatch : ℕ → FileStatus → ℕ → (String → Summary) → Finding → Session → Handled
unfolding skipped
dispatch now status retry_count execute finding s =
    if finding.issue_type == "stuck"
    then handle_stuck now finding.file_id status retry_count execute s
    else if finding.issue_type == "no_job"
    then handle_no_job now finding.file_id status retry_count execute s
    else if finding.issue_type == "job_mismatch"
    then handle_job_mismatch now finding.file_id status finding.mentions_failed s
    else if finding.issue_type == "job_failed"
    then mark_as_failed now finding.file_id status s
    else skipped finding.file_id false s

unfoldable pub handle_finding : ℕ → (String → Summary) → Finding → Session → Handled
unfolding skipped
handle_finding now execute finding s = elim (s.current.files finding.file_id) [
  | none ↦ skipped finding.file_id false s
  | some file ↦ elim (s.current.contents finding.file_id) [
    | none ↦ skipped finding.file_id false s
    | some c ↦
        if is_terminal_state c.status
        then skipped finding.file_id true s
        else dispatch now c.status (get_retry_count s.current finding.file_id) execute finding s
  ]
]

-- The end of one round of `reconcile`: a commit, or a rollback with the action "error".
abbrev pub settle : Finding → Handled → Session × ReconcileAction
settle finding (s, ok action) = (commit s, action)
settle finding (s, err e) =
    (rollback s, record { file_id = finding.file_id; action = "error"; success = false })

unfoldable pub reconcile :
    ℕ → (String → Summary) → List Finding → Session → Session × List ReconcileAction
reconcile now execute [] s = (s, [])
reconcile now execute (finding ∷ findings) s =
    let first = settle finding (handle_finding now execute finding s) in
    let rest = reconcile now execute findings first.0 in (rest.0, first.1 ∷ rest.1)
