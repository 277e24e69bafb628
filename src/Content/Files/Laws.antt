-- ===== src/Content/Files/Laws.antt =====
-- What the statements of the file repository do to the status of a file.
use inuself.Base.{
  ℕ, String, ◌≡◌, refl, inl, inr, true, false, Option, none, some, List, [], ◌∷◌, ◌==◌, ==_iff,
  ==_refl, ℕ_eq, elem, Result, ok, err, arith, Bool-cases, Option-cases, or_default, if◌then◌else◌,
}
use inuself.Content.Machine.{FileStatus, FileStatus_eq, summarizing, completed, can_transition}
use inuself.Content.Machine.Graph.{◌⟶◌, ◌⟶*◌, next}
use inuself.Content.Files.{
  Db, Content, TransitionResult, update_file_status, try_acquire_summarizing_lock,
  restore_summarizing_status, lockable, put,
}

-- The ways in which a checked update of file `f` to the status `s` ends.
pub data Updates (now f : ℕ) (s : FileStatus) (db : Db)
    : Result String (Db × TransitionResult) → Type 0 where
  missing :
      (r : TransitionResult)
      → db.contents f ≡ none
      → r.success ≡ false
      → Updates now f s db (ok (db, r))
  unchanged :
      (c : Content) (r : TransitionResult)
      → db.contents f ≡ some c
      → c.status ≡ s
      → r.success ≡ true
      → Updates now f s db (ok (db, r))
  refused :
      (c : Content)
      → db.contents f ≡ some c
      → (can_transition c.status s).0 ≡ false
      → Updates now f s db (err (can_transition c.status s).1)
  moved :
      (c : Content) (db' : Db) (r : TransitionResult)
      → db.contents f ≡ some c
      → c.status ⟶ s
      → r.success ≡ true
      → db' ≡ record db {
        contents =
            put f
              (record c {
                status = s;
                updated_at = now;
                completed_at = if s == completed then some now else c.completed_at;
              })
              db.contents;
      }
      → Updates now f s db (ok (db', r))

-- A checked update ends in one of four ways: the file has no content, or is in the target already
-- (and nothing changes); the table refuses the step, and the exception carries its reason; or the
-- table allows it, and the row has the new status and time, its completion time set exactly when
-- the target is COMPLETED, with all else in the database as before.
pub update_file_status-Updates :
    (now f : ℕ) (s : FileStatus) (db : Db) → Updates now f s db (update_file_status now f s true db)
unfolding update_file_status
update_file_status-Updates now f s db = elim (Option-cases (db.contents f)) [
  | inl e ↦ rw (e, update_file_status) (missing _ e refl)
  | inr (c, e) ↦ elim (Bool-cases (c.status == s)) [
    | inl same ↦
        rw (e, same, update_file_status) (unchanged c _ e ((==_iff c.status s).0 same) refl)
    | inr other ↦ elim (Bool-cases (can_transition c.status s).0) [
      | inl allowed ↦ rw (e, other, allowed, update_file_status) (moved c _ _ e allowed refl refl)
      | inr bad ↦ rw (e, other, bad, update_file_status) (refused c e bad)
    ]
  ]
]

-- A history of checked updates, each with its time, file and target; one that is refused raises,
-- and leaves the database as it was.
abbrev pub after_update : Db → Result String (Db × TransitionResult) → Db
after_update db (ok (db', r)) = db'
after_update db (err e) = db

unfoldable pub run_updates : Db → List (ℕ × ℕ × FileStatus) → Db
run_updates db [] = db
run_updates db ((now, f, s) ∷ us) =
    run_updates (after_update db (update_file_status now f s true db)) us

-- The status of `g`, if it has one, is followed from `s`.
abbrev pub Follows : FileStatus → Db → ℕ → Type 0
Follows s db g = (c : Content) → db.contents g ≡ some c → s ⟶* c.status

pub update-Follows :
    (now f : ℕ) (s t : FileStatus) (db : Db) (g : ℕ) {r : Result String (Db × TransitionResult)}
    → Updates now f s db r
    → Follows t db g
    → Follows t (after_update db r) g
update-Follows now f s t db g (missing r e q) h c' at = h c' at
update-Follows now f s t db g (unchanged c r e same q) h c' at = h c' at
update-Follows now f s t db g (refused c e bad) h c' at = h c' at
update-Follows now f s t db g (moved c db' r e step q made) h c' at = elim (Bool-cases (f == g)) [
  | inl hit ↦
      let same : f ≡ g = (==_iff f g).0 hit in
      let e' : c'.status ≡ s = ground (arith, ==_refl f) in
      rw e' (next c.status (h c (rw (← same) e)) step)
  | inr other ↦ h c' (ground arith)
]

pub lock_taken :
    (now f : ℕ) (allowed : Option (List FileStatus)) (db db' : Db)
    → try_acquire_summarizing_lock now f allowed db ≡ (db', true)
    → (c : Content) × (db.contents f ≡ some c)
      × (elem c.status (or_default allowed lockable) ≡ true)
      × (db' ≡ record db {
        contents = put f (record c { status = summarizing; updated_at = now }) db.contents;
      })
unfolding try_acquire_summarizing_lock
lock_taken now f allowed db db' h = elim (Option-cases (db.contents f)) [
  | inl e ↦ absurd (ground arith)
  | inr (c, e) ↦ (c, e, ground arith, ground arith)
]

pub lock_refused :
    (now f : ℕ) (allowed : Option (List FileStatus)) (db : Db) (c : Content)
    → db.contents f ≡ some c
    → elem c.status (or_default allowed lockable) ≡ false
    → try_acquire_summarizing_lock now f allowed db ≡ (db, false)
unfolding try_acquire_summarizing_lock
lock_refused now f allowed db c e k = rw (e, k, try_acquire_summarizing_lock)

put_self : (f : ℕ) (c : Content) (m : ℕ → Option Content) → put f c m f ≡ some c
put_self f c m = rw (==_refl f)

unlocked : ℕ → ℕ → FileStatus → Content → Db → Db
unlocked now f s c db = record db {
  contents = put f (record c { status = s; updated_at = now }) db.contents;
}

restore_held :
    (now f : ℕ) (s : FileStatus) (db : Db) (c : Content)
    → db.contents f ≡ some c
    → c.status ≡ summarizing
    → restore_summarizing_status now f s db ≡ (unlocked now f s c db, true)
unfolding restore_summarizing_status unlocked
restore_held now f s db c e k =
    rw (e, (==_iff c.status summarizing).1 k, restore_summarizing_status)

-- The lock for the summary is exclusive. Where an attempt succeeds, the file was in an allowed
-- status and is SUMMARIZING with its other columns but the time as before, and any further attempt
-- fails and changes nothing, as long as SUMMARIZING is not among the statuses that it allows.
pub lock_exclusive :
    (now later f : ℕ) (first second : Option (List FileStatus)) (db db' : Db)
    → try_acquire_summarizing_lock now f first db ≡ (db', true)
    → elem summarizing (or_default second lockable) ≡ false
    → ((c : Content) × (db.contents f ≡ some c)
        × (elem c.status (or_default first lockable) ≡ true)
        × (db' ≡ record db {
          contents = put f (record c { status = summarizing; updated_at = now }) db.contents;
        }))
      × (try_acquire_summarizing_lock later f second db' ≡ (db', false))
lock_exclusive now later f first second db db' h k =
    let (c, e, within, made) = lock_taken now f first db db' h in
    let held = record c { status = summarizing; updated_at = now } in
    (
      (c, e, within, made),
      lock_refused later f second db' held (rw made (put_self f held db.contents)) k,
    )

-- Releasing the lock after a successful attempt succeeds, and gives the file the row that it had
-- before, status included, but for the time of the last update.
lock_restore :
    (now later f : ℕ) (first : Option (List FileStatus)) (db db' : Db) (c : Content)
    → db.contents f ≡ some c
    → try_acquire_summarizing_lock now f first db ≡ (db', true)
    → ((db'' : Db) × (restore_summarizing_status later f c.status db' ≡ (db'', true))
        × (db''.contents f ≡ some (record c { updated_at = later })))
unfolding unlocked
lock_restore now later f first db db' c e h =
    let (c', e', within, made) = lock_taken now f first db db' h in
    let held = record c' { status = summarizing; updated_at = now } in
    (
      unlocked later f c.status held db',
      restore_held later f c.status db' held (rw made (put_self f held db.contents)) refl,
      ground (arith, ==_refl f),
    )
