-- ===== src/Content/Service/Restored.antt =====
-- The regeneration of a block gives the file back its status.
use inuself.Base.{
  ℕ, String, ◌≡◌, refl, ap, Bool, true, false, not, Option, some, List, [], ◌∷◌, ◌==◌, ==_iff,
  ==_refl, ℕ_eq, String_eq, elem, inl, inr, Result, ok, err, Option-cases, if◌then◌else◌,
}
use inuself.Content.Machine.{FileStatus, FileStatus_eq, summarizing, completed, summary_failed}
use inuself.Content.Files.{Db, Content, try_acquire_summarizing_lock, restore_summarizing_status}
use inuself.Content.Files.Laws.{lock_taken}
use inuself.Content.Consumer.{Summary}
use inuself.Content.Consumer.Reached.{At, saved-At, add_llm_log-At}
use inuself.Content.Service.{
  Outside, Answer, denied, stripped_text, has_fields, save_block, after_block, block_locked,
  regenerate_stable, regenerate_summary_block,
}

-- The new database after a lock that was got.
pub lock-At :
    (now f : ℕ) (allowed : Option (List FileStatus)) (db : Db)
    → (try_acquire_summarizing_lock now f allowed db).1 ≡ true
    → At f summarizing (try_acquire_summarizing_lock now f allowed db).0
lock-At now f allowed db got =
    let locked = (try_acquire_summarizing_lock now f allowed db).0 in
    let (c, there, within, made) = lock_taken now f allowed db locked (ap (λ b. (locked, b)) got) in
    rw made (record c { status = summarizing; updated_at = now }, rw (==_refl f), refl)

restore-At :
    (now f : ℕ) (s : FileStatus) (db : Db)
    → At f summarizing db
    → At f s (restore_summarizing_status now f s db).0
unfolding restore_summarizing_status
restore-At now f s db (c, there, is) =
    rw (restore_summarizing_status, there, (==_iff c.status summarizing).1 is)
      (record c { status = s; updated_at = now }, rw (==_refl f), refl)

choose-At :
    (f : ℕ) (s : FileStatus) (b : Bool) (yes_ no_ : Answer)
    → At f s yes_.0
    → At f s no_.0
    → At f s (if b then yes_ else no_).0
choose-At f s true yes_ no_ h k = h
choose-At f s false yes_ no_ h k = k

unless :
    (f : ℕ) (s : FileStatus) (b : Bool) (db db' : Db)
    → At f s db
    → At f s db'
    → At f s (if b then db else db')
unless f s true db db' h k = h
unless f s false db db' h k = k

save_block-At :
    (now f : ℕ) (r : Result String Summary) (db : Db)
    → At f summarizing db
    → At f summarizing (save_block now f r db).0
unfolding save_block
save_block-At now f (err x) db at_ = at_
save_block-At now f (ok s) db at_ =
    add_llm_log-At now f f summarizing _ _
      (unless f summarizing s.success _ db (saved-At now f summarizing s db at_) at_)

after_block-At :
    (now f : ℕ) (s : FileStatus) (r : Db × Result String Summary)
    → At f summarizing r.0
    → At f s (after_block now f s r).0
after_block-At now f s (db, r) at_ =
    restore-At now f s (save_block now f r db).0 (save_block-At now f r db at_)

-- Others leave the file SUMMARIZING while a block of it is made.
abbrev pub Held : Outside → ℕ → Type 0
Held o f =
    (key text : String) (db : Db)
    → At f summarizing db
    → At f summarizing (o.regenerate_block f key text db).0

module _ (o : Outside) (f : ℕ) (held : Held o f) where
  block_locked-At :
      (key text : String) (s : FileStatus) (db : Db) (lock : Db × Bool)
      → At f s db
      → (lock.1 ≡ true → At f summarizing lock.0)
      → At f s (block_locked o f key text s db lock).0
  unfolding block_locked
  block_locked-At key text s db (locked, false) at_ taken = at_
  block_locked-At key text s db (locked, true) at_ taken =
      after_block-At o.later f s _
        (held key text _ (add_llm_log-At o.now f f summarizing _ locked (taken refl)))

  regenerate_stable-At :
      (key : String) (c : Content) (db : Db)
      → At f c.status db
      → At f c.status (regenerate_stable o f key c db).0
  unfolding regenerate_stable
  regenerate_stable-At key c db at_ = choose-At f c.status (stripped_text db f == "") _ _ at_ (
      choose-At f c.status (not (elem c.status (completed ∷ summary_failed ∷ []))) _ _ at_ (
        block_locked-At key (stripped_text db f) c.status db _ at_
          (lock-At o.now f (some (c.status ∷ [])) db)))

-- Where others leave the file SUMMARIZING while its block is made, the file has afterwards the status
-- that it had before, however the regeneration ends: refused, raised, failed or done.
pub regenerate_summary_block-At :
    (o : Outside) (f : ℕ)
    → Held o f
    → (key : String) (user : Option ℕ) (s : FileStatus) (db : Db) → At f s db
    → At f s (regenerate_summary_block o f key user db).0
unfolding regenerate_summary_block
regenerate_summary_block-At o f held key user s db (c, there, is) =
    elim (Option-cases (db.files f)) [
      | inl gone ↦ rw (regenerate_summary_block, gone) (c, there, is)
      | inr (file, found) ↦
          rw (regenerate_summary_block, found, there)
            (choose-At f s (denied user (some c)) _ _ (c, there, is)
              (choose-At f s (not (has_fields c.summary_sections)) _ _ (c, there, is)
                (rw (← is) (regenerate_stable-At o f held key c db (c, there, refl)))))
    ]
