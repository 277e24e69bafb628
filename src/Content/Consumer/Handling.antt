-- ===== src/Content/Consumer/Handling.antt =====
-- backend/app/services/stream_consumer.py: the handlers of the three kinds of results, the handling
-- of a message, and of the entries of the stream with their acknowledgement.
use Prim.Native.String.{◌++◌ as append}
use inuself.Base.{
  ℕ, String, Bool, true, ◌||◌, Option, none, some, [], ◌∷◌, ◌==◌, ℕ_eq, String_eq, Result, ok, err,
  ◌>>=◌, if◌then◌else◌,
}
use inuself.Content.Machine.{
  FileStatus, FileStatus_eq, queued, processing, ocr_processing, summary_queued, summarizing,
  completed, asr_failed, ocr_failed, summary_failed,
}
use inuself.Content.Files.{
  Db, File, put, update_file_status, update_title, update_summary_markdown, add_log, add_llm_log,
}
use inuself.Content.Texts.{base_name}
use inuself.Content.Transcript.{rebuild_transcription_text, segments_to_text_with_metadata}
use inuself.Content.Consumer.{
  World, Message, Transcription, Stored, Summary, Outside, Outcome, and_then, except, transaction,
  asr_started_event, asr_completed_event, asr_failed_event, ocr_started_event, ocr_completed_event,
  ocr_failed_event, llm_started_event, llm_completed_event, llm_failed_event, completed_empty_event,
  clear_active_job,
}

-- `update_file_status`, with its result thrown away.
unfoldable pub update : ℕ → ℕ → FileStatus → Db → Result String Db
update now file_id status db = update_file_status now file_id status true db >>= λ r. ok r.0

-- The row is updated where it is there and created where not, and holds the new text either way.
unfoldable pub save_transcription : ℕ → String → Db → Result String Db
save_transcription file_id text db = elim (db.contents file_id) [
  | none ↦ err "Content not found"
  | some c ↦ ok (record db { transcriptions = put file_id text db.transcriptions })
]

unfoldable pub save_document : ℕ → String → Db → Result String Db
save_document file_id ocr_text db = elim (db.contents file_id) [
  | none ↦ err "Content not found"
  | some c ↦ ok (record db { documents = put file_id ocr_text db.documents })
]

-- A file that is still QUEUED goes through the status of its worker.
unfoldable pub queue_summary : ℕ → ℕ → FileStatus → Db → Result String Db
queue_summary now file_id working db = elim (db.contents file_id) [
  | none ↦ update now file_id summary_queued db
  | some c ↦
      if c.status == queued
      then (update now file_id working db >>= λ db. update now file_id summary_queued db)
      else update now file_id summary_queued db
]

-- The empty texts of a summary are not written.
abbrev pub titled : ℕ → ℕ → Summary → Db → Db
titled now file_id s db = if s.title == "" then db else update_title now file_id s.title db

abbrev pub sectioned : ℕ → ℕ → Summary → Db → Db
sectioned now file_id s db =
    if s.summary_md == "" then db else update_summary_markdown now file_id s.summary_md db

-- The transaction that saves a title and a summary with the last status.
unfoldable pub save_summary : ℕ → ℕ → Summary → Db → Result String Db
save_summary now file_id s db =
    update now file_id (if s.success then completed else summary_failed)
      (sectioned now file_id s (titled now file_id s db))
    >>= λ db.
        ok (
          add_llm_log now file_id (if s.success then "llm_completed" else "llm_partial_failure") db)

-- The part of the `try` after the summary.
unfoldable pub finish_summary : Outside → ℕ → Result String Summary → World → Outcome
finish_summary o file_id (err e) w = (w, err e)
finish_summary o file_id (ok s) w =
    and_then (transaction w (save_summary o.later file_id s w.db))
      (λ w. if s.success then llm_completed_event file_id w else llm_failed_event file_id w)

unfoldable pub fail_summary : ℕ → ℕ → World → Outcome
fail_summary now file_id w =
    and_then
      (transaction w (
        update now file_id summary_failed w.db >>= λ db.
        ok (add_llm_log now file_id "llm_failed" db)))
      (llm_failed_event file_id)

abbrev pub after_summary : Outside → ℕ → Db × Result String Summary → World → Outcome
after_summary o file_id (db, r) w =
    except (finish_summary o file_id r (record w { db = db })) (fail_summary o.later file_id)

unfoldable pub summarize_text : Outside → ℕ → String → World → Outcome
summarize_text o file_id text w =
    and_then (transaction w (update o.now file_id summarizing w.db)) (λ w.
      and_then (llm_started_event file_id w)
        (λ w. after_summary o file_id (o.summarize file_id text w.db) w))

abbrev pub empty_title : ℕ → ℕ → Option File → Db → Db
empty_title now file_id none db = db
empty_title now file_id (some file) db =
    update_title now file_id (append (base_name file.filename) " - 내용 없음") db

unfoldable pub complete_empty : ℕ → ℕ → World → Outcome
complete_empty now file_id w =
    and_then
      (transaction w (
        update now file_id completed (empty_title now file_id (w.db.files file_id) w.db) >>= λ db.
        ok (add_llm_log now file_id "llm_skipped" db)))
      (completed_empty_event file_id)

abbrev pub with_summary : Outside → ℕ → String → World → Outcome
with_summary o file_id text w =
    if text == "" then complete_empty o.now file_id w else summarize_text o file_id text w

-- The text that is stored, and the one that is summed up.
abbrev pub stored_text : Transcription → String
stored_text t = elim t.segments [ [] ↦ t.text | s ∷ ss ↦ rebuild_transcription_text (s ∷ ss) ]

abbrev pub text_to_summarize : Transcription → String
text_to_summarize t = elim t.segments [
  | [] ↦ t.text
  | s ∷ ss ↦ segments_to_text_with_metadata (s ∷ ss)
]

-- What the end of a job commits, for the text that its worker made, and what then happens.
unfoldable pub store_transcription : ℕ → ℕ → String → Db → Result String Db
store_transcription now file_id text db = save_transcription file_id text db >>= λ db.
    queue_summary now file_id processing db >>= λ db. ok (add_log now file_id "asr_completed" db)

unfoldable pub store_document : ℕ → ℕ → String → Db → Result String Db
store_document now file_id ocr_text db = save_document file_id ocr_text db >>= λ db.
    queue_summary now file_id ocr_processing db >>= λ db.
    ok (add_log now file_id "ocr_completed" db)

unfoldable pub asr_completed : Outside → Message → World → Outcome
asr_completed o m w = elim (o.download_json m.result_s3_key) [
  | err e ↦ (w, err e)
  | ok r ↦
      and_then
        (transaction w (store_transcription o.now m.file_id (stored_text r.transcription) w.db))
        (λ w. and_then (asr_completed_event m.file_id w) (λ w.
          and_then (with_summary o m.file_id (text_to_summarize r.transcription) w)
            (clear_active_job "asr" m.file_id)))
]

unfoldable pub ocr_completed : Outside → Message → World → Outcome
ocr_completed o m w = elim (o.download_json m.result_s3_key) [
  | err e ↦ (w, err e)
  | ok r ↦ and_then (transaction w (store_document o.now m.file_id r.ocr_text w.db)) (λ w.
      and_then (ocr_completed_event m.file_id w)
        (λ w. and_then (with_summary o m.file_id r.ocr_text w) (clear_active_job "ocr" m.file_id)))
]

-- A status with the log of the event, in one transaction.
unfoldable pub logged : ℕ → ℕ → FileStatus → String → Db → Result String Db
logged now file_id status event db =
    update now file_id status db >>= λ db. ok (add_log now file_id event db)

abbrev pub started : String → Bool
started event = event == "started" || event == "processing_started"

unfoldable pub handle_asr_result : Outside → Message → World → Outcome
handle_asr_result o m w =
    if started m.event
    then and_then (transaction w (logged o.now m.file_id processing "asr_started" w.db))
        (asr_started_event m.file_id)
    else if m.event == "completed"
    then asr_completed o m w
    else if m.event == "failed"
    then and_then (transaction w (logged o.now m.file_id asr_failed "asr_failed" w.db))
        (λ w. and_then (asr_failed_event m.file_id w) (clear_active_job "asr" m.file_id))
    else (w, ok tt)

-- The exception of `_delete_temp_ocr_images` is caught.
unfoldable pub handle_ocr_result : Outside → Message → World → Outcome
handle_ocr_result o m w =
    if started m.event
    then and_then (transaction w (update o.now m.file_id ocr_processing w.db))
        (ocr_started_event m.file_id)
    else if m.event == "completed"
    then ocr_completed o m w
    else if m.event == "failed"
    then and_then (transaction w (logged o.now m.file_id ocr_failed "ocr_failed" w.db))
        (λ w. and_then (ocr_failed_event m.file_id w) (clear_active_job "ocr" m.file_id))
    else (w, ok tt)

-- A reply that is skipped, or cannot be parsed, returns before the job is cleared.
unfoldable pub llm_replied : Outside → ℕ → Stored → World → Outcome
llm_replied o file_id r w =
    if r.skipped
    then and_then (transaction w (update o.now file_id completed w.db))
        (completed_empty_event file_id)
    else elim (o.parse_llm_response r.raw_response) [
      | err e ↦
          and_then (transaction w (update o.now file_id summary_failed w.db))
            (llm_failed_event file_id)
      | ok (title, summary_md) ↦
          and_then
            (transaction w (
              save_summary o.now file_id
                (record { title = title; summary_md = summary_md; success = true }) w.db))
            (λ w. and_then (llm_completed_event file_id w) (clear_active_job "llm" file_id))
    ]

unfoldable pub handle_llm_result : Outside → Message → World → Outcome
handle_llm_result o m w =
    if m.event == "started"
    then and_then (transaction w (update o.now m.file_id summarizing w.db))
        (llm_started_event m.file_id)
    else if m.event == "completed"
    then elim (o.download_json m.result_s3_key) [
      | err e ↦ (w, err e)
      | ok r ↦ llm_replied o m.file_id r w
    ]
    else if m.event == "failed"
    then and_then (fail_summary o.now m.file_id w) (clear_active_job "llm" m.file_id)
    else (w, ok tt)
