-- ===== src/Content/Files.antt =====
-- backend/app/repositories/file_repository.py: the rows that the status of a file lives in, and the
-- statements that change it. A table is a function of the file's id (Content.file_id is unique);
-- an id is a number, and so is a time. Each statement is one atomic update.
pub mod Laws
pub mod History
pub mod Tests
use inuself.Base.{
  ℕ, String, Bool, true, false, not, ◌&&◌, Option, none, some, List, [], ◌∷◌, ◌==◌, ℕ_eq, elem,
  Result, ok, err, if◌then◌else◌, or_default,
}
use inuself.Gateway.Json.{Fields, no_fields}
use inuself.Content.Machine.{
  FileStatus, FileStatus_eq, queued, summary_queued, summarizing, completed, summary_failed,
  can_transition,
}

pub data ContentType : Type 0 where
  audio document portray : ContentType

pub record File : Type 0 where
  pub filename : String
  pub content_type : ContentType
  pub created_at : ℕ

-- The columns of Content that the pipeline reads and writes; no sections are an empty object.
pub record Content : Type 0 where
  pub id : ℕ
  pub status : FileStatus
  pub title : Option String
  pub summary_md : Option String
  pub user_id : ℕ
  pub summary_sections : Fields
  pub updated_at : ℕ
  pub completed_at : Option ℕ

-- A row of SttLog or LlmLog: its owner, the "event" of its JSON and its time.
pub record Log : Type 0 where
  pub content_id : Option ℕ
  pub event : String
  pub created_at : ℕ

pub record Db : Type 0 where
  pub files : ℕ → Option File
  pub contents : ℕ → Option Content
  pub stt_logs : List Log
  pub llm_logs : List Log
  pub transcriptions : ℕ → Option String
  pub documents : ℕ → Option String

pub record TransitionResult : Type 0 where
  pub success : Bool
  pub old_state : Option FileStatus
  pub new_state : Option FileStatus
  pub reason : String

-- `UPDATE … WHERE key = k`, on a table as a function.
abbrev pub put {ℓ} : {V : Type ℓ} → ℕ → V → (ℕ → Option V) → ℕ → Option V
put k v m j = if k == j then some v else m j

unfoldable pub get_content_status : Db → ℕ → Option FileStatus
get_content_status db file_id = elim (db.contents file_id) [ none ↦ none | some c ↦ some c.status ]

-- `INSERT` of the file and of its content, under new ids.
unfoldable pub create_file : ℕ → ℕ → ℕ → String → ContentType → ℕ → Option FileStatus → Db → Db
create_file now file_id content_id filename content_type user_id status db = record db {
  files =
      put file_id (record { filename = filename; content_type = content_type; created_at = now })
        db.files;
  contents =
      put file_id
        (record {
          id = content_id;
          status = or_default status queued;
          title = none;
          summary_md = none;
          user_id = user_id;
          summary_sections = no_fields;
          updated_at = now;
          completed_at = none;
        })
        db.contents;
}

abbrev pub set_content : ℕ → Content → Db → Db
set_content file_id c db = record db { contents = put file_id c db.contents }

-- The values that the UPDATE of `update_file_status` writes.
abbrev pub with_status : ℕ → FileStatus → Content → Content
with_status now status c = record c {
  status = status;
  updated_at = now;
  completed_at = if status == completed then some now else c.completed_at;
}

-- An exception is InvalidTransitionError, with its reason. (A reason leaves out the file's id.)
unfoldable pub update_file_status :
    ℕ → ℕ → FileStatus → Bool → Db → Result String (Db × TransitionResult)
update_file_status now file_id status validate db = elim (db.contents file_id) [
  | none ↦ ok (
    db,
    record { success = false; old_state = none; new_state = none; reason = "Content not found" },
  )
  | some c ↦
      if c.status == status
      then ok (
        db,
        record {
          success = true;
          old_state = some c.status;
          new_state = some status;
          reason = "Already in target state";
        },
      )
      else if validate && not (can_transition c.status status).0
      then err (can_transition c.status status).1
      else ok (
        set_content file_id (with_status now status c) db,
        record { success = true; old_state = some c.status; new_state = some status; reason = "" },
      )
]

-- The default of `allowed_statuses`.
abbrev pub lockable : List FileStatus
lockable = summary_queued ∷ summary_failed ∷ completed ∷ []

-- The new database, and whether one row was changed.
unfoldable pub try_acquire_summarizing_lock : ℕ → ℕ → Option (List FileStatus) → Db → Db × Bool
try_acquire_summarizing_lock now file_id allowed_statuses db = elim (db.contents file_id) [
  | none ↦ (db, false)
  | some c ↦
      if elem c.status (or_default allowed_statuses lockable)
      then (set_content file_id (record c { status = summarizing; updated_at = now }) db, true)
      else (db, false)
]

unfoldable pub restore_summarizing_status : ℕ → ℕ → FileStatus → Db → Db × Bool
restore_summarizing_status now file_id previous_status db = elim (db.contents file_id) [
  | none ↦ (db, false)
  | some c ↦
      if c.status == summarizing
      then (set_content file_id (record c { status = previous_status; updated_at = now }) db, true)
      else (db, false)
]

unfoldable pub update_title : ℕ → ℕ → String → Db → Db
update_title now file_id title db = elim (db.contents file_id) [
  | none ↦ db
  | some c ↦ set_content file_id (record c { title = some title; updated_at = now }) db
]

unfoldable pub update_summary_markdown : ℕ → ℕ → String → Db → Db
update_summary_markdown now file_id summary_md db = elim (db.contents file_id) [
  | none ↦ db
  | some c ↦ set_content file_id (record c { summary_md = some summary_md; updated_at = now }) db
]

-- The id of the file's content, `file.content.id if file.content else None`.
content_id : Db → ℕ → Option ℕ
content_id db file_id = elim (db.contents file_id) [ none ↦ none | some c ↦ some c.id ]

unfoldable pub add_log : ℕ → ℕ → String → Db → Db
unfolding content_id
add_log now file_id event db = elim (db.files file_id) [
  | none ↦ db
  | some f ↦ record db {
    stt_logs =
        record { content_id = content_id db file_id; event = event; created_at = now }
        ∷ db.stt_logs;
  }
]

unfoldable pub add_llm_log : ℕ → ℕ → String → Db → Db
unfolding content_id
add_llm_log now file_id event db = elim (db.files file_id) [
  | none ↦ db
  | some f ↦ record db {
    llm_logs =
        record { content_id = content_id db file_id; event = event; created_at = now }
        ∷ db.llm_logs;
  }
]
