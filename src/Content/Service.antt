-- ===== src/Content/Service.antt =====
-- backend/app/services/content_service.py: the retries that a user asks for, and the regeneration of
-- a block of a summary. The session's transactions are atomic, and others write to the database
-- while a summary is made. An error is its message without details; a file is there for every
-- content, so that the retry of a content without one is its error only.
pub mod Restored
pub mod Retried
pub mod Tests
use inuself.Base.{
  ℕ, String, Bool, true, false, not, ◌&&◌, ◌||◌, Option, none, some, List, [], ◌∷◌, ◌==◌, ℕ_eq,
  String_eq, elem, or_default, ltb, Result, ok, err, ◌>>=◌, if◌then◌else◌,
}
use inuself.Gateway.Json.{Fields, no_fields, field}
use inuself.Content.Machine.{
  FileStatus, FileStatus_eq, queued, processing, completed, asr_failed, summary_failed,
}
use inuself.Content.Files.{
  Db, Content, ContentType, audio, document, portray, File, put, update_file_status,
  try_acquire_summarizing_lock, restore_summarizing_status, add_log, add_llm_log,
}
use inuself.Content.Texts.{strip}
use inuself.Content.Reconciler.{text_of}
use inuself.Content.Consumer.{Summary}
use inuself.Content.Consumer.Handling.{titled, sectioned, update}

-- What the service asks of the rest of the program, at two times: the making of a summary and of one
-- block anew, each with the database as it is left by all who wrote to it meanwhile, and the task
-- queue, which gives the id of a job, none where it skips a duplicate, or raises.
pub record Outside : Type 0 where
  pub now : ℕ
  pub later : ℕ
  pub summarize : ℕ → String → Db → Db × Result String Summary
  pub regenerate_block : ℕ → String → String → Db → Db × Result String Summary
  pub enqueue : String → ℕ → Result String (Option String)

pub record Reply : Type 0 where
  pub success : Bool
  pub job_id : Option String

-- The committed database, and the reply or the exception.
abbrev pub Answer : Type 0
Answer = Db × Result String Reply

-- The user is given, and is not the owner of the content.
abbrev pub denied : Option ℕ → Option Content → Bool
denied (some user) (some c) = not (c.user_id == user)
denied _ _ = false

-- The job is enqueued after the commit.
unfoldable pub with_job : Outside → String → ℕ → Db → Answer
with_job o kind file_id db =
    (db, o.enqueue kind file_id >>= λ job. ok (record { success = true; job_id = job }))

-- The status is forced to QUEUED, with a log, and the job enqueued; `db` is committed before.
unfoldable pub requeue : Outside → String → ℕ → Db → Db → Answer
requeue o kind file_id db changed = elim (update_file_status o.now file_id queued false changed) [
  | err x ↦ (db, err x)
  | ok (moved, r) ↦ with_job o kind file_id (add_log o.now file_id "manual_retry" moved)
]

abbrev pub ocr_type : String → ContentType
ocr_type ocr_mode = if ocr_mode == "portray" then portray else document

-- The test of the status has no effect.
unfoldable pub retry_ocr : Outside → ℕ → File → String → Db → Answer
retry_ocr o file_id file ocr_mode db = elim file.content_type [
  | audio ↦ (db, err "Cannot retry OCR for non-document/non-portray file")
  | _ ↦ requeue o "ocr" file_id db (record db {
    files = put file_id (record file { content_type = ocr_type ocr_mode }) db.files;
  })
]

abbrev pub bad_speakers : Option ℕ → Option ℕ → Bool
bad_speakers (some min_speakers) (some max_speakers) = ltb max_speakers min_speakers
bad_speakers _ _ = false

abbrev pub asr_retryable : Option Content → Bool
asr_retryable none = false
asr_retryable (some c) = elem c.status (asr_failed ∷ processing ∷ queued ∷ [])

unfoldable pub retry_asr : Outside → ℕ → File → Option ℕ → Option ℕ → Db → Answer
retry_asr o file_id file min_speakers max_speakers db = elim file.content_type [
  | audio ↦
      if not (asr_retryable (db.contents file_id))
      then (db, err "Cannot retry ASR for file with status")
      else if bad_speakers min_speakers max_speakers
      then (db, err "min_speakers must be less than or equal to max_speakers")
      else requeue o "asr" file_id db db
  | _ ↦ (db, err "Cannot retry ASR for non-audio file")
]

-- The text of the transcription or of the document, which is empty where there is none.
unfoldable pub stripped_text : Db → ℕ → String
stripped_text db file_id = strip (or_default (text_of db file_id) "")

-- What the session has written when the last update of the `try` returns or raises.
unfoldable pub save_retried : ℕ → ℕ → Summary → Db → Db × Result String Reply
save_retried now file_id s db =
    let saved = sectioned now file_id s (titled now file_id s db) in
    elim (update now file_id (if s.success then completed else summary_failed) saved) [
      | err x ↦ (saved, err x)
      | ok moved ↦ (
        add_llm_log now file_id
            (if s.success then "summarizing_completed" else "summarizing_partial_failure") moved,
        ok (record { success = s.success; job_id = none }),
      )
    ]

-- The `except`, which goes on with what the session has written, and raises.
unfoldable pub retry_failed : ℕ → ℕ → Db → Db → Answer
retry_failed now file_id db pending = elim (update now file_id summary_failed pending) [
  | err x ↦ (db, err x)
  | ok moved ↦ (add_llm_log now file_id "summarizing_failed" moved, err "LLM summarization failed")
]

-- The end of the `try`: a commit, or the `except`.
unfoldable pub finish_retry : ℕ → ℕ → Db → Db × Result String Reply → Answer
finish_retry now file_id db (pending, ok reply) = (pending, ok reply)
finish_retry now file_id db (pending, err x) = retry_failed now file_id db pending

unfoldable pub after_retry : ℕ → ℕ → Db × Result String Summary → Answer
after_retry now file_id (db, err x) = retry_failed now file_id db db
after_retry now file_id (db, ok s) = finish_retry now file_id db (save_retried now file_id s db)

unfoldable pub retry_locked : Outside → ℕ → String → Db → Db × Bool → Answer
retry_locked o file_id text db (locked, false) =
    (db, err "Cannot retry LLM summary: already in progress or invalid status")
retry_locked o file_id text db (locked, true) =
    after_retry o.later file_id
      (o.summarize file_id text (add_llm_log o.now file_id "manual_retry" locked))

unfoldable pub retry_summary : Outside → ℕ → Db → Answer
retry_summary o file_id db =
    let text = stripped_text db file_id in
    if text == ""
    then (db, err "Cannot retry LLM summary: no text available")
    else retry_locked o file_id text db (try_acquire_summarizing_lock o.now file_id none db)

-- What a user asks for, with the type of the retry in lower case.
pub record Retry : Type 0 where
  pub retry_type : String
  pub user_id : Option ℕ
  pub min_speakers : Option ℕ
  pub max_speakers : Option ℕ
  pub ocr_mode : String

unfoldable pub retry_processing : Outside → ℕ → Retry → Db → Answer
retry_processing o file_id r db = elim (db.files file_id) [
  | none ↦ (db, err "Content not found")
  | some file ↦
      if denied r.user_id (db.contents file_id)
      then (db, err "You don't have permission to retry this content")
      else if r.retry_type == "ocr"
      then retry_ocr o file_id file r.ocr_mode db
      else if r.retry_type == "asr"
      then retry_asr o file_id file r.min_speakers r.max_speakers db
      else if r.retry_type == "summary"
      then retry_summary o file_id db
      else (db, err "Invalid retry_type")
]

abbrev pub has_fields : Fields → Bool
has_fields no_fields = false
has_fields (field k v fs) = true

-- The rest of the `try` after the block was made, and its `finally`, at the database that others
-- left; a block that failed writes no text.
unfoldable pub save_block : ℕ → ℕ → Result String Summary → Db → Answer
save_block now file_id (err x) db = (db, err x)
save_block now file_id (ok s) db = (
  add_llm_log now file_id
      (if s.success then "block_regenerate_completed" else "block_regenerate_failed")
      (if s.success then sectioned now file_id s (titled now file_id s db) else db),
  ok (record { success = s.success; job_id = none }),
)

abbrev pub finally_restored : ℕ → ℕ → FileStatus → Answer → Answer
finally_restored now file_id previous_status (db, reply) =
    ((restore_summarizing_status now file_id previous_status db).0, reply)

abbrev pub after_block : ℕ → ℕ → FileStatus → Db × Result String Summary → Answer
after_block now file_id previous_status (db, r) =
    finally_restored now file_id previous_status (save_block now file_id r db)

unfoldable pub block_locked : Outside → ℕ → String → String → FileStatus → Db → Db × Bool → Answer
block_locked o file_id block_key text previous_status db (locked, false) =
    (db, err "Cannot regenerate summary block: another summarization is in progress")
block_locked o file_id block_key text previous_status db (locked, true) =
    after_block o.later file_id previous_status (
      o.regenerate_block file_id block_key text
        (add_llm_log o.now file_id "block_regenerate_requested" locked))

-- The checks of the status and of the text, and the lock.
unfoldable pub regenerate_stable : Outside → ℕ → String → Content → Db → Answer
regenerate_stable o file_id block_key c db =
    let text = stripped_text db file_id in
    if text == ""
    then (db, err "No text available for block regeneration")
    else if not (elem c.status (completed ∷ summary_failed ∷ []))
    then (db, err "Cannot regenerate summary block unless summarization is stable")
    else block_locked o file_id block_key text c.status db
        (try_acquire_summarizing_lock o.now file_id (some (c.status ∷ [])) db)

unfoldable pub regenerate_summary_block : Outside → ℕ → String → Option ℕ → Db → Answer
regenerate_summary_block o file_id block_key user_id db = elim (db.files file_id) [
  | none ↦ (db, err "Content not found")
  | some file ↦
      if denied user_id (db.contents file_id)
      then (db, err "You don't have permission to regenerate this content")
      else elim (db.contents file_id) [
        | none ↦ (db, err "No summary_sections found")
        | some c ↦
            if not (has_fields c.summary_sections)
            then (db, err "No summary_sections found")
            else regenerate_stable o file_id block_key c db
      ]
]
