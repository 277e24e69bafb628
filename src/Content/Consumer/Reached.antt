-- ===== src/Content/Consumer/Reached.antt =====
-- What the transactions of the consumer make of the status of one file, where they go through.
use mathlib.Core.Path.{subst}
use inuself.Base.{
  ℕ, String, ◌≡◌, refl, sym, ◌∙◌, ok_injective, Bool, true, false, Option, none, some, ◌==◌, ==_iff,
  ==_refl, ℕ_eq, String_eq, ◌⊎◌, inl, inr, Result, ok, err, ◌>>=◌, arith, Bool-cases, Option-cases,
  if◌then◌else◌,
}
use inuself.Content.Machine.{
  FileStatus-discrete, FileStatus, FileStatus_eq, queued, processing, ocr_processing,
  summary_queued, completed, summary_failed, can_transition,
}
use inuself.Content.Machine.Graph.{◌⟶◌}
use inuself.Content.Files.{
  Db, Content, File, put, set_content, with_status, update_file_status, update_title,
  update_summary_markdown, add_log, add_llm_log,
}
use inuself.Content.Consumer.{Summary}
use inuself.Content.Consumer.Handling.{
  update, titled, sectioned, save_transcription, save_document, queue_summary, save_summary,
  store_transcription, store_document, empty_title,
}

-- The file has a content of that status.
abbrev pub At : ℕ → FileStatus → Db → Type 0
At f s db = (c : Content) × (db.contents f ≡ some c) × (c.status ≡ s)

abbrev pub Gives : ℕ → FileStatus → Result String Db → Type 0
Gives f s r = (db : Db) × (r ≡ ok db) × At f s db

moved :
    (r s t : FileStatus)
    → r ≡ s
    → (s ⟶ t) ⊎ (s ≡ t)
    → (r == t) ≡ false
    → (can_transition r t).0 ≡ true
moved r s t is (inl step) other = rw is step
moved r s t is (inr same) other = absurd (ground (arith, ==_iff r t, is ∙ same))

pub update-Gives :
    (now f : ℕ) (s t : FileStatus) (db : Db)
    → (s ⟶ t) ⊎ (s ≡ t)
    → At f s db
    → Gives f t (update now f t db)
unfolding update update_file_status
update-Gives now f s t db step (c, there, is) = elim (Bool-cases (c.status == t)) [
  | inl same ↦
      rw (update, update_file_status, there, same)
        (db, refl, (c, there, (==_iff c.status t).0 same))
  | inr other ↦
      let allowed : (can_transition c.status t).0 ≡ true = moved c.status s t is step other in
      rw (update, update_file_status, there, other, allowed)
        (set_content f (with_status now t c) db, refl, (with_status now t c, rw (==_refl f), refl))
]

Gives-bind :
    (f : ℕ) (s t : FileStatus) (r : Result String Db) (next : Db → Result String Db)
    → Gives f s r
    → ((db : Db) → At f s db → Gives f t (next db))
    → Gives f t (r >>= next)
Gives-bind f s t (err e) next (db, made, at_) k = absurd (cc)
Gives-bind f s t (ok db') next (db, made, at_) k =
    k db' (subst (At f s) (sym (ok_injective made)) at_)

pub log-Gives :
    (f : ℕ) (t : FileStatus) (r : Result String Db) (log : Db → Db)
    → ((db : Db) → At f t db → At f t (log db))
    → Gives f t r
    → Gives f t (r >>= λ db. ok (log db))
log-Gives f t r log k h =
    Gives-bind f t t r (λ db. ok (log db)) h (λ db at_. (log db, refl, k db at_))

pub add_log-At :
    (now f g : ℕ) (s : FileStatus) (event : String) (db : Db)
    → At g s db
    → At g s (add_log now f event db)
unfolding add_log
add_log-At now f g s event db at_ = elim (Option-cases (db.files f)) [
  | inl gone ↦ rw (add_log, gone) at_
  | inr (row, there) ↦ rw (add_log, there) at_
]

pub add_llm_log-At :
    (now f g : ℕ) (s : FileStatus) (event : String) (db : Db)
    → At g s db
    → At g s (add_llm_log now f event db)
unfolding add_llm_log
add_llm_log-At now f g s event db at_ = elim (Option-cases (db.files f)) [
  | inl gone ↦ rw (add_llm_log, gone) at_
  | inr (row, there) ↦ rw (add_llm_log, there) at_
]

update_title-At :
    (now f : ℕ) (s : FileStatus) (title : String) (db : Db)
    → At f s db
    → At f s (update_title now f title db)
unfolding update_title
update_title-At now f s title db (c, there, is) =
    rw (update_title, there) (record c { title = some title; updated_at = now }, rw (==_refl f), is)

update_summary_markdown-At :
    (now f : ℕ) (s : FileStatus) (md : String) (db : Db)
    → At f s db
    → At f s (update_summary_markdown now f md db)
unfolding update_summary_markdown
update_summary_markdown-At now f s md db (c, there, is) =
    rw (update_summary_markdown, there)
      (record c { summary_md = some md; updated_at = now }, rw (==_refl f), is)

unless :
    (f : ℕ) (s : FileStatus) (b : Bool) (db db' : Db)
    → At f s db
    → At f s db'
    → At f s (if b then db else db')
unless f s true db db' h k = h
unless f s false db db' h k = k

pub saved-At :
    (now f : ℕ) (s : FileStatus) (m : Summary) (db : Db)
    → At f s db
    → At f s (sectioned now f m (titled now f m db))
saved-At now f s m db at_ =
    let kept = unless f s (m.title == "") db _ at_ (update_title-At now f s m.title db at_) in
    unless f s (m.summary_md == "") (titled now f m db) _ kept
      (update_summary_markdown-At now f s m.summary_md (titled now f m db) kept)

abbrev pub final : Bool → FileStatus
final success = if success then completed else summary_failed

pub save_summary-Gives :
    (now f : ℕ) (s : FileStatus) (m : Summary) (db : Db)
    → (s ⟶ final m.success) ⊎ (s ≡ final m.success)
    → At f s db
    → Gives f (final m.success) (save_summary now f m db)
unfolding save_summary
save_summary-Gives now f s m db step at_ =
    let saved = sectioned now f m (titled now f m db) in
    log-Gives f (final m.success) (update now f (final m.success) saved) _
      (λ db. add_llm_log-At now f f (final m.success) _ db)
      (update-Gives now f s (final m.success) saved step (saved-At now f s m db at_))

pub update-refused :
    (now f : ℕ) (s t : FileStatus) (db : Db)
    → At f s db
    → (s == t) ≡ false
    → (can_transition s t).0 ≡ false
    → (x : String) × (update now f t db ≡ err x)
unfolding update update_file_status
update-refused now f s t db (c, there, is) other refused =
    let away : (c.status == t) ≡ false = rw is other in
    let bad : (can_transition c.status t).0 ≡ false = rw is refused in
    ((can_transition c.status t).1, rw (update, update_file_status, there, away, bad))

bind_refused :
    (r : Result String Db) (next : Db → Result String Db)
    → (x : String) × (r ≡ err x)
    → (x : String) × ((r >>= next) ≡ err x)
bind_refused (err e) next h = (e, refl)
bind_refused (ok db) next (x, h) = cc

-- A summary that has failed already cannot be completed.
pub save_summary-refused :
    (now f : ℕ) (m : Summary) (db : Db)
    → m.success ≡ true
    → At f summary_failed db
    → (x : String) × (save_summary now f m db ≡ err x)
unfolding save_summary can_transition FileStatus-discrete
save_summary-refused now f m db success at_ =
    bind_refused (update now f (final m.success) (sectioned now f m (titled now f m db))) _ (
      update-refused now f summary_failed (final m.success) (sectioned now f m (titled now f m db))
        (saved-At now f summary_failed m db at_) (rw success refl) refl)

pub empty_title-At :
    (now f : ℕ) (s : FileStatus) (file : Option File) (db : Db)
    → At f s db
    → At f s (empty_title now f file db)
empty_title-At now f s none db at_ = at_
empty_title-At now f s (some file) db at_ = update_title-At now f s _ db at_

-- From QUEUED, or from the status of the worker, which the table lets go on.
queue_summary-Gives :
    (now f : ℕ) (s working : FileStatus) (db : Db)
    → (s ≡ queued) ⊎ (s ≡ working)
    → queued ⟶ working
    → working ⟶ summary_queued
    → At f s db
    → Gives f summary_queued (queue_summary now f working db)
unfolding queue_summary
queue_summary-Gives now f s working db from starts goes (c, there, is) =
    elim (Bool-cases (c.status == queued)) [
      | inl waits ↦
          rw (queue_summary, there, waits)
            (Gives-bind f working summary_queued (update now f working db) _
              (update-Gives now f queued working db (inl starts)
                (c, there, (==_iff c.status queued).0 waits))
              (λ db at_. update-Gives now f working summary_queued db (inl goes) at_))
      | inr works ↦
          rw (queue_summary, there, works)
            (update-Gives now f working summary_queued db (inl goes)
              (c, there, at_work c.status s working is from works))
    ]
  where
    at_work :
        (r s working : FileStatus)
        → r ≡ s
        → (s ≡ queued) ⊎ (s ≡ working)
        → (r == queued) ≡ false
        → r ≡ working
    at_work r s working is (inl waits) works = absurd (ground (arith, ==_iff r queued, is ∙ waits))
    at_work r s working is (inr it) works = is ∙ it

pub store_transcription-Gives :
    (now f : ℕ) (s : FileStatus) (t : String) (db : Db)
    → (s ≡ queued) ⊎ (s ≡ processing)
    → At f s db
    → Gives f summary_queued (store_transcription now f t db)
unfolding store_transcription save_transcription can_transition FileStatus-discrete
store_transcription-Gives now f s t db from (c, there, is) =
    let saved = record db { transcriptions = put f t db.transcriptions } in
    rw (store_transcription, save_transcription, there)
      (log-Gives f summary_queued (queue_summary now f processing saved) _
        (λ db. add_log-At now f f summary_queued _ db)
        (queue_summary-Gives now f s processing saved from refl refl (c, there, is)))

pub store_document-Gives :
    (now f : ℕ) (s : FileStatus) (t : String) (db : Db)
    → (s ≡ queued) ⊎ (s ≡ ocr_processing)
    → At f s db
    → Gives f summary_queued (store_document now f t db)
unfolding store_document save_document can_transition FileStatus-discrete
store_document-Gives now f s t db from (c, there, is) =
    let saved = record db { documents = put f t db.documents } in
    rw (store_document, save_document, there)
      (log-Gives f summary_queued (queue_summary now f ocr_processing saved) _
        (λ db. add_log-At now f f summary_queued _ db)
        (queue_summary-Gives now f s ocr_processing saved from refl refl (c, there, is)))
