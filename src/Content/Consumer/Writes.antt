-- ===== src/Content/Consumer/Writes.antt =====
-- What the transactions of the consumer do to the statuses of files: each change is a step of the
-- transition table.
use inuself.Base.{
  ℕ, String, ◌≡◌, refl, Bool, true, false, Option, none, some, ◌==◌, ==_iff, ==_refl, ℕ_eq,
  String_eq, inl, inr, Result, ok, err, ◌>>=◌, arith, Bool-cases, Option-cases, if◌then◌else◌,
}
use inuself.Content.Machine.{
  FileStatus, FileStatus_eq, queued, processing, ocr_processing, summary_queued, completed,
  summary_failed,
}
use inuself.Content.Files.{
  Db, Content, File, set_content, TransitionResult, update_file_status, update_title,
  update_summary_markdown, add_log, add_llm_log,
}
use inuself.Content.Files.Laws.{Follows, update-Follows, update_file_status-Updates, after_update}
use inuself.Content.Consumer.{Summary}
use inuself.Content.Consumer.Handling.{
  update, titled, sectioned, save_transcription, save_document, queue_summary, save_summary,
  empty_title, store_transcription, store_document, logged,
}

-- Whatever a file's status is followed from in one database, it is in the other.
abbrev pub Forward : Db → Db → Type 0
Forward db db' = (s : FileStatus) (g : ℕ) → Follows s db g → Follows s db' g

abbrev pub Writes : Db → Result String Db → Type 0
Writes db (err e) = Unit
Writes db (ok db') = Forward db db'

pub Writes-after :
    (db db' : Db) (r : Result String Db) → Forward db db' → Writes db' r → Writes db r
Writes-after db db' (err e) h k = tt
Writes-after db db' (ok last) h k = λ s g f. k s g (h s g f)

pub Writes-bind :
    (db : Db) (r : Result String Db) (next : Db → Result String Db)
    → Writes db r
    → ((db' : Db) → Writes db' (next db'))
    → Writes db (r >>= next)
Writes-bind db (err e) next h k = tt
Writes-bind db (ok db') next h k = Writes-after db db' (next db') h (k db')

updated : Db → Result String (Db × TransitionResult) → Result String Db
updated db r = r >>= λ u. ok u.0

updated-Writes :
    (db : Db) (r : Result String (Db × TransitionResult))
    → Forward db (after_update db r)
    → Writes db (updated db r)
unfolding updated
updated-Writes db (err e) h = tt
updated-Writes db (ok u) h = h

pub update-Writes : (now f : ℕ) (s : FileStatus) (db : Db) → Writes db (update now f s db)
unfolding update updated
update-Writes now f s db =
    updated-Writes db (update_file_status now f s true db)
      (λ t g h. update-Follows now f s t db g (update_file_status-Updates now f s db) h)

-- A row with the same status in the place of another.
set_content-Forward :
    (f : ℕ) (row row' : Content) (db : Db)
    → db.contents f ≡ some row
    → row'.status ≡ row.status
    → Forward db (set_content f row' db)
set_content-Forward f row row' db there same s g h c e = elim (Bool-cases (f == g)) [
  | inl hit ↦
      let here : f ≡ g = (==_iff f g).0 hit in
      let it : row'.status ≡ c.status = ground (arith, ==_refl f) in
      rw (← it, same) (h row (rw (← here) there))
  | inr other ↦ h c (ground arith)
]

update_title-Forward :
    (now f : ℕ) (title : String) (db : Db) → Forward db (update_title now f title db)
unfolding update_title
update_title-Forward now f title db = elim (Option-cases (db.contents f)) [
  | inl gone ↦ rw (update_title, gone) (λ s g h. h)
  | inr (row, there) ↦ rw (update_title, there) (set_content-Forward f row _ db there refl)
]

update_summary_markdown-Forward :
    (now f : ℕ) (summary_md : String) (db : Db)
    → Forward db (update_summary_markdown now f summary_md db)
unfolding update_summary_markdown
update_summary_markdown-Forward now f summary_md db = elim (Option-cases (db.contents f)) [
  | inl gone ↦ rw (update_summary_markdown, gone) (λ s g h. h)
  | inr (row, there) ↦
      rw (update_summary_markdown, there) (set_content-Forward f row _ db there refl)
]

add_log-Forward : (now f : ℕ) (event : String) (db : Db) → Forward db (add_log now f event db)
unfolding add_log
add_log-Forward now f event db = elim (Option-cases (db.files f)) [
  | inl gone ↦ rw (add_log, gone) (λ s g h. h)
  | inr (row, there) ↦ rw (add_log, there) (λ s g h. h)
]

pub add_llm_log-Forward :
    (now f : ℕ) (event : String) (db : Db) → Forward db (add_llm_log now f event db)
unfolding add_llm_log
add_llm_log-Forward now f event db = elim (Option-cases (db.files f)) [
  | inl gone ↦ rw (add_llm_log, gone) (λ s g h. h)
  | inr (row, there) ↦ rw (add_llm_log, there) (λ s g h. h)
]

save_transcription-Writes : (f : ℕ) (t : String) (db : Db) → Writes db (save_transcription f t db)
unfolding save_transcription
save_transcription-Writes f t db = elim (Option-cases (db.contents f)) [
  | inl gone ↦ rw (save_transcription, gone) tt
  | inr (row, there) ↦ rw (save_transcription, there) (λ s g h. h)
]

save_document-Writes : (f : ℕ) (t : String) (db : Db) → Writes db (save_document f t db)
unfolding save_document
save_document-Writes f t db = elim (Option-cases (db.contents f)) [
  | inl gone ↦ rw (save_document, gone) tt
  | inr (row, there) ↦ rw (save_document, there) (λ s g h. h)
]

queue_summary-Writes :
    (now f : ℕ) (working : FileStatus) (db : Db) → Writes db (queue_summary now f working db)
unfolding queue_summary
queue_summary-Writes now f working db = elim (Option-cases (db.contents f)) [
  | inl gone ↦ rw (queue_summary, gone) (update-Writes now f summary_queued db)
  | inr (row, there) ↦ elim (Bool-cases (row.status == queued)) [
    | inl waits ↦
        rw (queue_summary, there, waits)
          (Writes-bind db (update now f working db) _ (update-Writes now f working db)
            (λ db. update-Writes now f summary_queued db))
    | inr works ↦ rw (queue_summary, there, works) (update-Writes now f summary_queued db)
  ]
]

-- A checked update with a log.
then_log :
    (db : Db) (r : Result String Db) (log : Db → Db)
    → Writes db r
    → ((db : Db) → Forward db (log db))
    → Writes db (r >>= λ db. ok (log db))
then_log db r log h k = Writes-bind db r _ h k

pub logged-Writes :
    (now f : ℕ) (status : FileStatus) (event : String) (db : Db)
    → Writes db (logged now f status event db)
unfolding logged
logged-Writes now f status event db =
    then_log db (update now f status db) (add_log now f event) (update-Writes now f status db)
      (add_log-Forward now f event)

pub update-log-Writes :
    (now f : ℕ) (status : FileStatus) (event : String) (db : Db)
    → Writes db (update now f status db >>= λ db. ok (add_llm_log now f event db))
update-log-Writes now f status event db =
    then_log db (update now f status db) (add_llm_log now f event) (update-Writes now f status db)
      (add_llm_log-Forward now f event)

pub store_transcription-Writes :
    (now f : ℕ) (t : String) (db : Db) → Writes db (store_transcription now f t db)
unfolding store_transcription
store_transcription-Writes now f t db =
    Writes-bind db (save_transcription f t db) _ (save_transcription-Writes f t db) (λ db.
      then_log db (queue_summary now f processing db) (add_log now f "asr_completed")
        (queue_summary-Writes now f processing db) (add_log-Forward now f "asr_completed"))

pub store_document-Writes :
    (now f : ℕ) (t : String) (db : Db) → Writes db (store_document now f t db)
unfolding store_document
store_document-Writes now f t db =
    Writes-bind db (save_document f t db) _ (save_document-Writes f t db) (λ db.
      then_log db (queue_summary now f ocr_processing db) (add_log now f "ocr_completed")
        (queue_summary-Writes now f ocr_processing db) (add_log-Forward now f "ocr_completed"))

unless : (b : Bool) (db db' : Db) → Forward db db' → Forward db (if b then db else db')
unless true db db' h = λ s g f. f
unless false db db' h = h

pub saved-Forward :
    (now f : ℕ) (s : Summary) (db : Db) → Forward db (sectioned now f s (titled now f s db))
saved-Forward now f s db t g h =
    unless (s.summary_md == "") (titled now f s db) _
      (update_summary_markdown-Forward now f s.summary_md (titled now f s db)) t g
      (unless (s.title == "") db _ (update_title-Forward now f s.title db) t g h)

pub save_summary-Writes : (now f : ℕ) (s : Summary) (db : Db) → Writes db (save_summary now f s db)
unfolding save_summary
save_summary-Writes now f s db =
    let saved = sectioned now f s (titled now f s db) in
    Writes-after db saved _ (saved-Forward now f s db) (
      update-log-Writes now f (if s.success then completed else summary_failed)
        (if s.success then "llm_completed" else "llm_partial_failure") saved)

pub complete_empty-Writes :
    (now f : ℕ) (file : Option File) (db : Db)
    → Writes db (
        update now f completed (empty_title now f file db) >>= λ db.
        ok (add_llm_log now f "llm_skipped" db))
complete_empty-Writes now f none db = update-log-Writes now f completed "llm_skipped" db
complete_empty-Writes now f (some file) db =
    Writes-after db (empty_title now f (some file) db) _ (update_title-Forward now f _ db)
      (update-log-Writes now f completed "llm_skipped" (empty_title now f (some file) db))
