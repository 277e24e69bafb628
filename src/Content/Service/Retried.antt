-- ===== src/Content/Service/Retried.antt =====
-- The retry of a summary: how it ends, and the status that the file has then.
use inuself.Base.{
  ℕ, String, ◌≡◌, refl, Bool, true, false, none, some, ◌==◌, ==_iff, ℕ_eq, String_eq, ◌⊎◌, elem,
  inl, inr, Result, ok, err, Bool-cases, if◌then◌else◌,
}
use inuself.Content.Machine.{
  FileStatus_eq, FileStatus-discrete, summarizing, completed, summary_failed, can_transition,
}
use inuself.Content.Files.{Db, Content, lockable, try_acquire_summarizing_lock, add_llm_log}
use inuself.Content.Files.Laws.{lock_refused}
use inuself.Content.Consumer.{Summary}
use inuself.Content.Consumer.Handling.{titled, sectioned, update}
use inuself.Content.Consumer.Reached.{
  At, Gives, update-Gives, update-refused, saved-At, add_llm_log-At, final,
}
use inuself.Content.Service.{
  Outside, Answer, stripped_text, save_retried, retry_failed, finish_retry, after_retry,
  retry_locked, retry_summary,
}
use inuself.Content.Service.Restored.{lock-At}

-- The ways in which a retry that was let through ends: completed; given up with a reply; or raised,
-- with the file's summary failed.
pub data Retried (f : ℕ) : Answer → Type 0 where
  done :
      (db : Db) → At f completed db → Retried f (db, ok (record { success = true; job_id = none }))
  partial :
      (db : Db)
      → At f summary_failed db
      → Retried f (db, ok (record { success = false; job_id = none }))
  raised : (db : Db) (x : String) → At f summary_failed db → Retried f (db, err x)

abbrev Open : ℕ → Db → Type 0
Open f db = At f summarizing db ⊎ At f summary_failed db

retry_failed-Retried :
    (now f : ℕ) (db pending : Db) → Open f pending → Retried f (retry_failed now f db pending)
unfolding retry_failed can_transition FileStatus-discrete
retry_failed-Retried now f db pending open_ =
    let (moved, made, at_) = given open_ in
    rw (retry_failed, made)
      (raised _ _ (add_llm_log-At now f f summary_failed "summarizing_failed" moved at_))
  where
    given : Open f pending → Gives f summary_failed (update now f summary_failed pending)
    given (inl a) = update-Gives now f summarizing summary_failed pending (inl refl) a
    given (inr a) = update-Gives now f summary_failed summary_failed pending (inr refl) a

replied :
    (f : ℕ) (success : Bool) (db : Db)
    → At f (final success) db
    → Retried f (db, ok (record { success = success; job_id = none }))
replied f true db at_ = done db at_
replied f false db at_ = partial db at_

wrote :
    (now f : ℕ) (s : Summary) (db moved : Db)
    → update now f (final s.success) (sectioned now f s (titled now f s db)) ≡ ok moved
    → save_retried now f s db ≡ (
      add_llm_log now f
          (if s.success then "summarizing_completed" else "summarizing_partial_failure")
          moved,
      ok (record { success = s.success; job_id = none }),
    )
unfolding save_retried
wrote now f s db moved made = rw (save_retried, made)

raised_with :
    (now f : ℕ) (s : Summary) (db : Db) (x : String)
    → update now f (final s.success) (sectioned now f s (titled now f s db)) ≡ err x
    → save_retried now f s db ≡ (sectioned now f s (titled now f s db), err x)
unfolding save_retried
raised_with now f s db x failed = rw (save_retried, failed)

-- The last update goes through.
saved-Retried :
    (now f : ℕ) (s : Summary) (db : Db)
    → Gives f
        (final s.success)
        (update now f (final s.success) (sectioned now f s (titled now f s db)))
    → Retried f (finish_retry now f db (save_retried now f s db))
unfolding finish_retry
saved-Retried now f s db (moved, made, at_) =
    rw (wrote now f s db moved made)
      (replied f s.success _ (add_llm_log-At now f f (final s.success) _ moved at_))

-- It raises, and the session has written the texts only.
refused-Retried :
    (now f : ℕ) (s : Summary) (db : Db)
    → At f summary_failed db
    → (x : String) × (update now f (final s.success) (sectioned now f s (titled now f s db))
        ≡ err x)
    → Retried f (finish_retry now f db (save_retried now f s db))
unfolding finish_retry
refused-Retried now f s db at_ (x, failed) =
    rw (raised_with now f s db x failed)
      (retry_failed-Retried now f db _ (inr (saved-At now f summary_failed s db at_)))

after_retry-Retried :
    (now f : ℕ) (r : Db × Result String Summary) → Open f r.0 → Retried f (after_retry now f r)
unfolding after_retry can_transition FileStatus-discrete
after_retry-Retried now f (db, err x) open_ = retry_failed-Retried now f db db open_
after_retry-Retried now f (db, ok s) (inl a) = saved-Retried now f s db (
    update-Gives now f summarizing (final s.success) _ (inl (goes s.success))
      (saved-At now f summarizing s db a))
  where
    goes : (b : Bool) → (can_transition summarizing (final b)).0 ≡ true
    goes true = refl
    goes false = refl
after_retry-Retried now f (db, ok s) (inr a) =
    let saved = saved-At now f summary_failed s db a in
    elim (Bool-cases s.success) [
      | inl success ↦
          refused-Retried now f s db a
            (update-refused now f summary_failed (final s.success) _ saved (rw success refl) refl)
      | inr failure ↦
          saved-Retried now f s db
            (update-Gives now f summary_failed (final s.success) _ (inr (rw failure refl)) saved)
    ]

-- Others leave the file SUMMARIZING or SUMMARY_FAILED while its summary is made.
abbrev pub Undisturbed : Outside → ℕ → Type 0
Undisturbed o f = (text : String) (db : Db) → At f summarizing db → Open f (o.summarize f text db).0

retry_locked-Retried :
    (o : Outside) (f : ℕ) (text : String) (db : Db) (lock : Db × Bool)
    → Undisturbed o f
    → lock.1 ≡ true
    → At f summarizing lock.0
    → Retried f (retry_locked o f text db lock)
unfolding retry_locked
retry_locked-Retried o f text db (locked, got) calm taken at_ =
    rw (taken, retry_locked)
      (after_retry-Retried o.later f _
        (calm text _ (add_llm_log-At o.now f f summarizing "manual_retry" locked at_)))

-- A retry of a summary is refused, with the database as it was, if there is no text or the status
-- of the file is not one that the lock allows. Otherwise, where others leave the file SUMMARIZING or
-- SUMMARY_FAILED during the summary, it ends with the file COMPLETED and a reply of success, or with
-- the file SUMMARY_FAILED and a reply of no success or an exception.
pub retry_summary-Retried :
    (o : Outside) (f : ℕ) (db : Db) (c : Content)
    → db.contents f ≡ some c
    → Undisturbed o f
    → (((stripped_text db f ≡ "") ⊎ (elem c.status lockable ≡ false))
        × ((x : String) × (retry_summary o f db ≡ (db, err x))))
      ⊎ ((elem c.status lockable ≡ true) × Retried f (retry_summary o f db))
unfolding retry_summary retry_locked try_acquire_summarizing_lock
retry_summary-Retried o f db c there calm = elim (Bool-cases (stripped_text db f == "")) [
  | inl empty ↦ inl (
    inl ((==_iff (stripped_text db f) "").0 empty),
    ("Cannot retry LLM summary: no text available", rw (retry_summary, empty)),
  )
  | inr some_ ↦ elim (Bool-cases (elem c.status lockable)) [
    | inl allowed ↦
        let got : (try_acquire_summarizing_lock o.now f none db).1 ≡ true =
          rw (try_acquire_summarizing_lock, there, allowed) in
        inr (
          allowed,
          rw (retry_summary, some_)
              (retry_locked-Retried o f (stripped_text db f) db _ calm got
                (lock-At o.now f none db got)),
        )
    | inr other ↦ inl (
      inr other,
      (
        "Cannot retry LLM summary: already in progress or invalid status",
        rw (retry_summary, some_, lock_refused o.now f none db c there other, retry_locked),
      ),
    )
  ]
]
