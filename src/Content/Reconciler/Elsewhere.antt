-- ===== src/Content/Reconciler/Elsewhere.antt =====
-- Actions on one file leave the row of another as it is.
use inuself.Base.{
  ℕ, String, ◌≡◌, sym, not, ◌&&◌, Bool, true, false, Option, none, some, ◌==◌, ℕ_eq, String_eq, ok,
  inl, inr, arith, Bool-cases, Option-cases, Result-cases,
}
use inuself.Content.Machine.{
  FileStatus, FileStatus_eq, queued, pulling, processing, ocr_processing, summary_queued,
  summarizing, completed, download_failed, asr_failed, ocr_failed, summary_failed, cancelled,
  can_transition,
}
use inuself.Content.Files.{
  put, with_status, Db, Content, TransitionResult, update_file_status, update_title,
  update_summary_markdown, add_log, add_llm_log,
}
use inuself.Content.Reconciler.{
  Session, commit, Summary, raises, answers, forced, mark_as_failed, text_of, not_empty,
  log_summary, save_summary, title_saved, summary_saved, llm_failed, finish_llm, run_llm,
  requeue_llm_job, stuck_below, failure_state,
}

-- The row of file `g`, committed and seen.
pub record Keeps (g : ℕ) (row : Option Content) (s : Session) : Type 0 where
  pub in_committed : s.committed.contents g ≡ row
  pub in_current : s.current.contents g ≡ row

module _ (now f g : ℕ) (row : Option Content) (other : (f == g) ≡ false) where
  update_elsewhere :
      (t : FileStatus) (validate : Bool) (db db' : Db) (r : TransitionResult)
      → update_file_status now f t validate db ≡ ok (db', r)
      → db.contents g ≡ row
      → db'.contents g ≡ row
  unfolding update_file_status
  update_elsewhere t validate db db' r e h = elim (Option-cases (db.contents f)) [
    | inl miss ↦ (let same : db ≡ db' = ground (arith, miss) in rw same at h)
    | inr (c, found) ↦ elim (Bool-cases (c.status == t)) [
      | inl there ↦ (let same : db ≡ db' = ground (arith, found, there) in rw same at h)
      | inr away ↦ elim (Bool-cases (validate && not (can_transition c.status t).0)) [
        | inl refused ↦ absurd (ground (arith, found, away, refused))
        | inr allowed ↦
            let same : record db { contents = put f (with_status now t c) db.contents } ≡ db' =
              ground (arith, found, away, allowed) in
            rw (sym same) (rw other h)
      ]
    ]
  ]

  log_elsewhere : (event : String) (db : Db) → (add_log now f event db).contents g ≡ db.contents g
  unfolding add_log
  log_elsewhere event db = ground arith

  llm_log_elsewhere :
      (event : String) (db : Db) → (add_llm_log now f event db).contents g ≡ db.contents g
  unfolding add_llm_log
  llm_log_elsewhere event db = ground arith

  title_elsewhere :
      (title : Option String) (db : Db) → (title_saved now f title db).contents g ≡ db.contents g
  unfolding update_title
  title_elsewhere title db = ground (arith, other)

  summary_elsewhere :
      (m : Option String) (db : Db) → (summary_saved now f m db).contents g ≡ db.contents g
  unfolding update_summary_markdown
  summary_elsewhere m db = ground (arith, other)

  pub forced-Keeps :
      (t : FileStatus) (event action : String) (s : Session)
      → Keeps g row s
      → Keeps g row (forced now f t event action s).0
  unfolding forced
  forced-Keeps t event action s k =
      elim (Result-cases (update_file_status now f t false s.current)) [
        | inl (x, bad) ↦ rw (bad, forced) k
        | inr ((db, r), fine) ↦
            rw (fine, forced)
              (record {
                in_committed = k.in_committed;
                in_current =
                    rw (log_elsewhere event db)
                      (update_elsewhere t false s.current db r fine k.in_current);
              })
      ]

  save_summary-elsewhere :
      (title m : Option String) (db : Db)
      → db.contents g ≡ row
      → (save_summary now f title m db).0.contents g ≡ row
  unfolding save_summary log_summary
  save_summary-elsewhere title m db h =
      elim (Result-cases (update_file_status now f completed true saved)) [
        | inl (x, bad) ↦ rw (bad, save_summary) saved_row
        | inr ((done, r), fine) ↦
            rw (fine, save_summary)
              (logged title m done (update_elsewhere completed true saved done r fine saved_row))
      ]
    where
      saved : Db
      saved = summary_saved now f m (title_saved now f title db)

      saved_row : saved.contents g ≡ row
      saved_row = rw (summary_elsewhere m (title_saved now f title db), title_elsewhere title db) h

      logged :
          (title' m' : Option String) (done : Db)
          → done.contents g ≡ row
          → (log_summary now f title' m' done).0.contents g ≡ row
      logged none m' done h' = h'
      logged (some t) none done h' = h'
      logged (some t) (some n) done h' = rw (llm_log_elsewhere "reconciler_llm_completed" done) h'

  llm_failed-Keeps :
      (t : FileStatus) (s : Session) → Keeps g row s → Keeps g row (llm_failed now f t s).0
  unfolding llm_failed mark_as_failed
  llm_failed-Keeps t s k =
      elim (Result-cases (update_file_status now f summary_failed true s.current)) [
        | inl (x, bad) ↦ rw (bad, llm_failed) k
        | inr ((db, r), fine) ↦
            let row_kept : (add_llm_log now f "reconciler_llm_failed" db).contents g ≡ row =
              rw (llm_log_elsewhere "reconciler_llm_failed" db)
                (update_elsewhere summary_failed true s.current db r fine k.in_current) in
            rw (fine, llm_failed)
              (forced-Keeps (failure_state t) _ _ _
                (record { in_committed = row_kept; in_current = row_kept }))
      ]

  finish-Keeps :
      (t : FileStatus) (s : Session) (saved : Db × Option String)
      → Keeps g row s
      → saved.0.contents g ≡ row
      → Keeps g row (finish_llm now f t s saved).0
  unfolding finish_llm
  finish-Keeps t s (db, some e) k kept =
      llm_failed-Keeps t (record s { current = db })
        (record { in_committed = k.in_committed; in_current = kept })
  finish-Keeps t s (db, none) k kept = record { in_committed = kept; in_current = kept }

  run_llm-Keeps :
      (t : FileStatus) (answer : Summary) (s : Session)
      → Keeps g row s
      → Keeps g row (run_llm now f t answer s).0
  unfolding run_llm
  run_llm-Keeps t raises s k = llm_failed-Keeps t s k
  run_llm-Keeps t (answers title m) s k =
      finish-Keeps t s (save_summary now f title m s.current) k
        (save_summary-elsewhere title m s.current k.in_current)

  pub requeue-Keeps :
      (t : FileStatus) (execute : String → Summary) (s : Session)
      → Keeps g row s
      → Keeps g row (requeue_llm_job now f t execute s).0
  unfolding requeue_llm_job mark_as_failed
  requeue-Keeps t execute s k = elim (Option-cases (not_empty (text_of s.current f))) [
    | inl miss ↦ rw (miss, requeue_llm_job) (forced-Keeps (failure_state t) _ _ s k)
    | inr (text, found) ↦
        elim (Result-cases (update_file_status now f summarizing true s.current)) [
          | inl (x, bad) ↦ rw (found, bad, requeue_llm_job) (llm_failed-Keeps t s k)
          | inr ((db, r), fine) ↦
              let kept = update_elsewhere summarizing true s.current db r fine k.in_current in
              rw (found, fine, requeue_llm_job)
                (run_llm-Keeps t (execute text) (commit (record s { current = db }))
                  (record { in_committed = kept; in_current = kept }))
        ]
  ]

  pub stuck_below-Keeps :
      (t : FileStatus) (execute : String → Summary) (s : Session)
      → Keeps g row s
      → Keeps g row (stuck_below now f t execute s).0
  unfolding stuck_below mark_as_failed
  stuck_below-Keeps queued execute s k = forced-Keeps _ _ _ s k
  stuck_below-Keeps processing execute s k = forced-Keeps _ _ _ s k
  stuck_below-Keeps ocr_processing execute s k = forced-Keeps _ _ _ s k
  stuck_below-Keeps summary_queued execute s k = requeue-Keeps summary_queued execute s k
  stuck_below-Keeps summarizing execute s k = forced-Keeps _ _ _ s k
  stuck_below-Keeps pulling execute s k = k
  stuck_below-Keeps completed execute s k = k
  stuck_below-Keeps download_failed execute s k = k
  stuck_below-Keeps asr_failed execute s k = k
  stuck_below-Keeps ocr_failed execute s k = k
  stuck_below-Keeps summary_failed execute s k = k
  stuck_below-Keeps cancelled execute s k = k
