-- ===== src/Content/Consumer.antt =====
-- backend/app/services/stream_consumer.py: the messages by which the workers report their results,
-- and what they make of a file. A session commits its writes together, or none of them where it
-- raises; a transaction is one atomic step, and others write to the database while a summary is made.
-- A message is handled at one time, but for what comes after its summary. Database and Redis do not
-- fail.
pub mod Handling
pub mod Entries
pub mod Writes
pub mod Followed
pub mod Reached
pub mod Summed
pub mod Completed
pub mod Pending
pub mod Tests
use Prim.Native.String.{◌++◌ as append}
use inuself.Base.{
  ℕ, String, Bool, true, false, not, ◌&&◌, ◌||◌, Option, none, some, List, [], ◌∷◌, ◌==◌, ℕ_eq,
  String_eq, filter, Result, ok, err, ◌>>=◌, if◌then◌else◌,
}
use inuself.Gateway.Json.{Fields}
use inuself.Content.Machine.{
  FileStatus, FileStatus_eq, queued, processing, ocr_processing, summary_queued, summarizing,
  completed, asr_failed, ocr_failed, summary_failed,
}
use inuself.Content.Files.{
  Db, File, put, update_file_status, update_title, update_summary_markdown, add_log, add_llm_log,
}
use inuself.Content.Texts.{base_name}
use inuself.Content.Transcript.{rebuild_transcription_text, segments_to_text_with_metadata}

-- What `publish_file_progress` is given, but for the texts for people and the metadata.
pub record Progress : Type 0 where
  pub file_id : ℕ
  pub status : String
  pub step : String
  pub progress : ℕ

-- The committed database, the keys of the active jobs, and what was published, the latest first.
pub record World : Type 0 where
  pub db : Db
  pub active_jobs : List (String × ℕ)
  pub emitted : List Progress

-- A message of the stream; a missing text is empty.
pub record Message : Type 0 where
  pub type_ : String
  pub event : String
  pub file_id : ℕ
  pub result_s3_key : String

-- The "transcription" of a result.
pub record Transcription : Type 0 where
  pub text : String
  pub segments : List Fields

-- A result in the object store, with the defaults of its missing fields.
pub record Stored : Type 0 where
  pub transcription : Transcription
  pub ocr_text : String
  pub raw_response : String
  pub skipped : Bool

-- What `summarize_with_block_generator` returns.
pub record Summary : Type 0 where
  pub title : String
  pub summary_md : String
  pub success : Bool

-- What a handler asks of the rest of the program, at two times: the object store, the summary of a
-- text, with the database as it is left by all who wrote to it meanwhile, and the parser of replies.
pub record Outside : Type 0 where
  pub now : ℕ
  pub later : ℕ
  pub download_json : String → Result String Stored
  pub summarize : ℕ → String → Db → Db × Result String Summary
  pub parse_llm_response : String → Result String (String × String)

-- How a handler ends: an exception leaves what was committed before it.
abbrev pub Outcome : Type 0
Outcome = World × Result String (Unit {0})

abbrev pub and_then : Outcome → (World → Outcome) → Outcome
and_then (w, err e) next = (w, err e)
and_then (w, ok u) next = next w

-- `try` and `except Exception`.
abbrev pub except : Outcome → (World → Outcome) → Outcome
except (w, err e) handler = handler w
except (w, ok u) handler = (w, ok tt)

-- The end of a session: a commit, or a rollback.
abbrev pub transaction : World → Result String Db → Outcome
transaction w (err e) = (w, err e)
transaction w (ok db) = (record w { db = db }, ok tt)

abbrev pub emit : ℕ → String → String → ℕ → World → Outcome
emit file_id status step progress w = (
  record w {
    emitted =
        record { file_id = file_id; status = status; step = step; progress = progress } ∷ w.emitted;
  },
  ok tt,
)

unfoldable pub asr_started_event : ℕ → World → Outcome
asr_started_event file_id w = emit file_id "PROCESSING" "asr" 0 w

unfoldable pub asr_completed_event : ℕ → World → Outcome
asr_completed_event file_id w = emit file_id "SUMMARY_QUEUED" "asr_completed" 0 w

unfoldable pub asr_failed_event : ℕ → World → Outcome
asr_failed_event file_id w = emit file_id "ASR_FAILED" "asr_failed" 0 w

unfoldable pub ocr_started_event : ℕ → World → Outcome
ocr_started_event file_id w = emit file_id "OCR_PROCESSING" "ocr" 0 w

unfoldable pub ocr_completed_event : ℕ → World → Outcome
ocr_completed_event file_id w = emit file_id "SUMMARY_QUEUED" "ocr_completed" 0 w

unfoldable pub ocr_failed_event : ℕ → World → Outcome
ocr_failed_event file_id w = emit file_id "OCR_FAILED" "ocr_failed" 0 w

unfoldable pub llm_started_event : ℕ → World → Outcome
llm_started_event file_id w = emit file_id "SUMMARIZING" "llm" 0 w

unfoldable pub llm_completed_event : ℕ → World → Outcome
llm_completed_event file_id w = emit file_id "COMPLETED" "completed" 100 w

unfoldable pub llm_failed_event : ℕ → World → Outcome
llm_failed_event file_id w = emit file_id "SUMMARY_FAILED" "llm_failed" 0 w

unfoldable pub completed_empty_event : ℕ → World → Outcome
completed_empty_event file_id w = emit file_id "COMPLETED" "completed" 100 w

unfoldable pub clear_active_job : String → ℕ → World → Outcome
clear_active_job task_type file_id w = (
  record w {
    active_jobs = filter (λ job. not (job.0 == task_type && job.1 == file_id)) w.active_jobs;
  },
  ok tt,
)
