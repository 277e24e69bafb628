-- ===== src/Content/Reconciler/Rows.antt =====
-- What the statements of the reconciler make of the status of their file.
use mathlib.Core.Path.{subst}
use inuself.Base.{
  ℕ, String, ◌≡◌, ◌⊎◌, refl, not, ◌&&◌, Bool, false, Option, some, ◌==◌, ℕ_eq, String_eq, ==_refl,
  ==_iff, ok, inl, inr, arith, Bool-cases, Option-cases, Result-cases,
}
use inuself.Content.Machine.{FileStatus, FileStatus_eq, can_transition}
use inuself.Content.Files.{
  put, with_status, Db, Content, TransitionResult, update_file_status, update_title,
  update_summary_markdown, add_log, add_llm_log,
}
use inuself.Content.Reconciler.{not_empty, title_saved, summary_saved}

-- The file's row has the status.
unfoldable pub Has : ℕ → FileStatus → Db → Type 0
Has f t db = (c : Content) × (db.contents f ≡ some c) × (c.status ≡ t)

pub update_lands :
    (now f : ℕ) (t u : FileStatus) (validate : Bool) (db : Db)
    → Has f t db
    → (t ≡ u) ⊎ ((validate && not (can_transition t u).0) ≡ false)
    → (db' : Db) × (r : TransitionResult) × (update_file_status now f u validate db ≡ ok (db', r))
      × Has f u db'
unfolding update_file_status Has
update_lands now f t u validate db (c, found, is_t) may = elim (Bool-cases (c.status == u)) [
  | inl there ↦ elim (Result-cases (update_file_status now f u validate db)) [
    | inl (x, bad) ↦ absurd (ground (arith, found, there, bad))
    | inr ((db', r), fine) ↦
        let same : db ≡ db' = ground (arith, found, there, fine) in
        (db', r, fine, subst (Has f u) same (c, found, (==_iff c.status u).0 there))
  ]
  | inr away ↦
      let allowed : (validate && not (can_transition c.status u).0) ≡ false = elim may [
        | inl same ↦ absurd (cc (rw (is_t, same, ==_refl u) at away))
        | inr way ↦ simp (is_t, way)
      ] in
      elim (Result-cases (update_file_status now f u validate db)) [
        | inl (x, bad) ↦ absurd (ground (arith, found, away, allowed, bad))
        | inr ((db', r), fine) ↦
            let same : record db { contents = put f (with_status now u c) db.contents } ≡ db' =
              ground (arith, found, away, allowed, fine) in
            (db', r, fine, subst (Has f u) same (with_status now u c, rw (==_refl f) refl, refl))
      ]
]

pub log_lands :
    (now f : ℕ) (t : FileStatus) (event : String) (db : Db)
    → Has f t db
    → Has f t (add_log now f event db)
unfolding Has add_log
log_lands now f t event db (c, found, is_t) = (c, ground (arith, found), is_t)

pub llm_log_lands :
    (now f : ℕ) (t : FileStatus) (event : String) (db : Db)
    → Has f t db
    → Has f t (add_llm_log now f event db)
unfolding Has add_llm_log
llm_log_lands now f t event db (c, found, is_t) = (c, ground (arith, found), is_t)

pub title_lands :
    (now f : ℕ) (t : FileStatus) (title : Option String) (db : Db)
    → Has f t db
    → Has f t (title_saved now f title db)
unfolding Has update_title
title_lands now f t title db (c, found, is_t) = elim (Option-cases (not_empty title)) [
  | inl none_given ↦ (c, rw (none_given, title_saved) found, is_t)
  | inr (s, given) ↦ (
    record c { title = some s; updated_at = now },
    rw (given, title_saved, update_title, found, ==_refl f) refl,
    is_t,
  )
]

pub summary_lands :
    (now f : ℕ) (t : FileStatus) (m : Option String) (db : Db)
    → Has f t db
    → Has f t (summary_saved now f m db)
unfolding Has update_summary_markdown
summary_lands now f t m db (c, found, is_t) = elim (Option-cases (not_empty m)) [
  | inl none_given ↦ (c, rw (none_given, summary_saved) found, is_t)
  | inr (s, given) ↦ (
    record c { summary_md = some s; updated_at = now },
    rw (given, summary_saved, update_summary_markdown, found, ==_refl f) refl,
    is_t,
  )
]
