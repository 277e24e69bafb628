-- ===== src/Content/Watchdog.antt =====
-- backend/app/services/state_watchdog.py: the check of one file. Times are in thousandths of a
-- second; the details of a finding are left out, but for whether they have "_failed" in them.
pub mod Found
pub mod Tests
use Prim.Native.String.{slice, len}
use inuself.Base.{
  ℕ, ◌+◌, ◌-◌, ◌*◌, max, String, Bool, true, false, not, Option, none, some, List, [], ◌∷◌, ◌++◌,
  ◌==◌, ℕ_eq, String_eq, if◌then◌else◌, ltb, leb, ◌&&◌, or_default, elem, any,
}
use inuself.Content.Machine.{
  FileStatus, FileStatus_eq, processing, ocr_processing, summary_queued, summarizing, get_timeout,
}
use inuself.Content.Files.{Db, File, Content, Log}
use inuself.Content.Reconciler.{Finding}

abbrev pub minute : ℕ
minute = 60000

-- `s.endswith(suffix)`.
ends_with : String → String → Bool
ends_with s suffix = leb (len suffix) (len s) && (slice s (len s - len suffix) (len s) == suffix)

owned : ℕ → Log → Bool
owned i log = elim log.content_id [ none ↦ false | some j ↦ j == i ]

abbrev later_of : Option Log → Log → Log
later_of none log = log
later_of (some best) log = if ltb best.created_at log.created_at then log else best

-- The newest log of the content: `ORDER BY created_at DESC LIMIT 1`.
newest_from : ℕ → Option Log → List Log → Option Log
unfolding owned
newest_from i best [] = best
newest_from i best (log ∷ logs) =
    newest_from i (if owned i log then some (later_of best log) else best) logs

newest : ℕ → List Log → Option Log
unfolding newest_from
newest i logs = newest_from i none logs

abbrev latest_time : Option Log → Option Log → Option ℕ
latest_time none none = none
latest_time (some a) none = some a.created_at
latest_time none (some b) = some b.created_at
latest_time (some a) (some b) = some (max a.created_at b.created_at)

unfoldable pub get_last_activity_time : Db → ℕ → Option ℕ
unfolding newest
get_last_activity_time db file_id = elim (db.contents file_id) [
  | none ↦ none
  | some c ↦ latest_time (newest c.id db.stt_logs) (newest c.id db.llm_logs)
]

abbrev latest_event : Option Log → Option Log → Option String
latest_event none none = none
latest_event (some a) none = some a.event
latest_event none (some b) = some b.event
latest_event (some a) (some b) = some (if ltb b.created_at a.created_at then a.event else b.event)

unfoldable pub get_last_log_event : Db → ℕ → Option String
unfolding newest
get_last_log_event db file_id = elim (db.contents file_id) [
  | none ↦ none
  | some c ↦ latest_event (newest c.id db.stt_logs) (newest c.id db.llm_logs)
]

unfoldable pub check_celery_job : Db → ℕ → List Finding
unfolding ends_with
check_celery_job db file_id = elim (get_last_log_event db file_id) [
  | none ↦ []
  | some event ↦
      if ends_with event "_started"
      then []
      else if ends_with event "_failed"
      then record { file_id = file_id; issue_type = "job_mismatch"; mentions_failed = true } ∷ []
      else []
]

unfoldable pub check_llm_job_queued : Db → ℕ → Bool
unfolding owned
check_llm_job_queued db file_id = elim (db.contents file_id) [
  | none ↦ false
  | some c ↦ any (owned c.id) db.llm_logs
]

-- The time without activity, `stuck_minutes` in thousandths of a second.
unfoldable pub stuck_time : ℕ → Db → ℕ → File → ℕ
stuck_time now db file_id file =
    now - or_default (get_last_activity_time db file_id) file.created_at

abbrev pub stuck_finding : ℕ → Finding
stuck_finding file_id = record { file_id = file_id; issue_type = "stuck"; mentions_failed = false }

-- `stuck_minutes > timeout_minutes`.
unfoldable pub timed_out : ℕ → Db → ℕ → File → FileStatus → Bool
timed_out now db file_id file status =
    ltb (or_default (get_timeout status) 30 * minute) (stuck_time now db file_id file)

-- The findings of the second and the third check.
unfoldable pub other_findings : ℕ → Db → ℕ → File → FileStatus → List Finding
other_findings now db file_id file status =
    (if elem status (processing ∷ summarizing ∷ ocr_processing ∷ [])
      then check_celery_job db file_id
      else [])
    ++ (if (status == summary_queued)
          && ltb (5 * minute) (stuck_time now db file_id file)
          && not (check_llm_job_queued db file_id)
        then record { file_id = file_id; issue_type = "no_job"; mentions_failed = false } ∷ []
        else [])

unfoldable pub check_file : ℕ → Db → ℕ → File → List Finding
check_file now db file_id file = elim (db.contents file_id) [
  | none ↦ []
  | some c ↦
      (if timed_out now db file_id file c.status then stuck_finding file_id ∷ [] else [])
      ++ other_findings now db file_id file c.status
]
