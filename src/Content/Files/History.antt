-- ===== src/Content/Files/History.antt =====
-- What a history of checked updates leaves of a file.
use mathlib.Core.Path.{subst}
use inuself.Base.{
  ℕ, String, ◌≡◌, ◌≢◌, refl, inl, inr, true, false, Option, none, some, List, [], ◌∷◌, ◌==◌, ==_iff,
  ==_refl, ℕ_eq, Result, Bool-cases, if◌then◌else◌,
}
use inuself.Gateway.Json.{no_fields}
use inuself.Content.Machine.{FileStatus, FileStatus_eq, queued, completed, can_transition}
use inuself.Content.Machine.Graph.{◌⟶◌}
use inuself.Content.Files.{
  Db, Content, ContentType, TransitionResult, create_file, update_file_status,
}
use inuself.Content.Files.Laws.{
  Updates, missing, unchanged, refused, moved, update_file_status-Updates, run_updates,
  after_update,
}

-- The walk of a file through updates of it and of others, from one status and time of completion to
-- another. An update of it moves it exactly where the transition table has a step from its status.
pub data Walk (f : ℕ)
    : List (ℕ × ℕ × FileStatus) → FileStatus → Option ℕ → FileStatus → Option ℕ → Type 0 where
  rests : {s : FileStatus} {done : Option ℕ} → Walk f [] s done s done
  others :
      {now g : ℕ} {target s s' : FileStatus} {done done' : Option ℕ}
      {us : List (ℕ × ℕ × FileStatus)}
      → g ≢ f
      → Walk f us s done s' done'
      → Walk f ((now, g, target) ∷ us) s done s' done'
  stays :
      {now g : ℕ} {target s s' : FileStatus} {done done' : Option ℕ}
      {us : List (ℕ × ℕ × FileStatus)}
      → g ≡ f
      → s ≡ target
      → Walk f us s done s' done'
      → Walk f ((now, g, target) ∷ us) s done s' done'
  refuses :
      {now g : ℕ} {target s s' : FileStatus} {done done' : Option ℕ}
      {us : List (ℕ × ℕ × FileStatus)}
      → g ≡ f
      → ¬ (s ⟶ target)
      → Walk f us s done s' done'
      → Walk f ((now, g, target) ∷ us) s done s' done'
  completes :
      {now g : ℕ} {target s s' : FileStatus} {done done' : Option ℕ}
      {us : List (ℕ × ℕ × FileStatus)}
      → g ≡ f
      → s ⟶ target
      → target ≡ completed
      → Walk f us target (some now) s' done'
      → Walk f ((now, g, target) ∷ us) s done s' done'
  moves :
      {now g : ℕ} {target s s' : FileStatus} {done done' : Option ℕ}
      {us : List (ℕ × ℕ × FileStatus)}
      → g ≡ f
      → s ⟶ target
      → target ≢ completed
      → Walk f us target done s' done'
      → Walk f ((now, g, target) ∷ us) s done s' done'

step-Walk :
    (f now g : ℕ) (target : FileStatus) (k c : Content) (us : List (ℕ × ℕ × FileStatus))
    (s' : FileStatus) (done' : Option ℕ)
    → g ≡ f
    → k ≡ c
    → k.status ⟶ target
    → Walk f us target (if target == completed then some now else k.completed_at) s' done'
    → Walk f ((now, g, target) ∷ us) c.status c.completed_at s' done'
step-Walk f now g target k c us s' done' own one step walk =
    subst (λ (r : Content). Walk f ((now, g, target) ∷ us) r.status r.completed_at s' done') one
      (elim (Bool-cases (target == completed)) [
        | inl end ↦ completes own step ((==_iff target completed).0 end) (rw end at walk)
        | inr on ↦ moves own step (λ e. cc (on, (==_iff target completed).1 e)) (rw on at walk)
      ])

-- From a row on, the database follows a walk of the file.
abbrev Walks : ℕ → List (ℕ × ℕ × FileStatus) → FileStatus → Option ℕ → Db → Type 0
Walks f us s done db =
    (c : Content) × (db.contents f ≡ some c) × Walk f us s done c.status c.completed_at

run_updates-Walks :
    (f : ℕ) (us : List (ℕ × ℕ × FileStatus)) (db : Db) (c : Content)
    → db.contents f ≡ some c
    → Walks f us c.status c.completed_at (run_updates db us)
unfolding run_updates
run_updates-Walks f [] db c at = (c, at, rests)
run_updates-Walks f ((now, g, target) ∷ us) db c at =
    go (update_file_status now g target true db) (update_file_status-Updates now g target db)
      (λ db' c' at'. run_updates-Walks f us db' c' at')
  where
    Next : Db → Type 0
    Next db' = Walks f ((now, g, target) ∷ us) c.status c.completed_at (run_updates db' us)

    go :
        (r : Result String (Db × TransitionResult))
        → Updates now g target db r
        → ((db' : Db) (c' : Content)
            → db'.contents f ≡ some c'
            → Walks f us c'.status c'.completed_at (run_updates db' us))
        → Next (after_update db r)
    go r (missing x e q) ih =
        let (c', at', walk) = ih db c at in (c', at', others (λ same. cc (rw same at e, at)) walk)
    go r (unchanged k x e same q) ih =
        let (c', at', walk) = ih db c at in
        (
          c',
          at',
          elim (Bool-cases (g == f)) [
            | inr other ↦ others (λ own. cc (other, (==_iff g f).1 own)) walk
            | inl hit ↦
                let own : g ≡ f = (==_iff g f).0 hit in
                let one : k ≡ c = cc (rw own at e, at) in stays own (rw one at same) walk
          ],
        )
    go r (refused k e bad) ih =
        let (c', at', walk) = ih db c at in
        (
          c',
          at',
          elim (Bool-cases (g == f)) [
            | inr other ↦ others (λ own. cc (other, (==_iff g f).1 own)) walk
            | inl hit ↦
                let own : g ≡ f = (==_iff g f).0 hit in
                let one : k ≡ c = cc (rw own at e, at) in
                let no_step : (can_transition c.status target).0 ≡ false = rw one at bad in
                refuses own (λ step. cc (no_step, step)) walk
          ],
        )
    go r (moved k db' x e step q made) ih = elim (Bool-cases (g == f)) [
      | inr other ↦
          let same : db'.contents f ≡ some c = rw made (rw other at) in
          let (c', at', walk) = ih db' c same in
          (c', at', others (λ own. cc (other, (==_iff g f).1 own)) walk)
      | inl hit ↦
          let own : g ≡ f = (==_iff g f).0 hit in
          let one : k ≡ c = cc (rw own at e, at) in
          let row = record k {
            status = target;
            updated_at = now;
            completed_at = if target == completed then some now else k.completed_at;
          } in
          let there : db'.contents f ≡ some row = rw made (rw hit refl) in
          let (c', at', walk) = ih db' row there in
          (c', at', step-Walk f now g target k c us c'.status c'.completed_at own one step walk)
    ]

-- After any history of checked updates of any files, a file that was created with the default
-- status has its content, and its status and time of completion are the ones that the transition
-- table alone makes of the history: an update of another file does nothing, one of it moves it to
-- the target exactly if the table has the step, and the time is that of the last step to COMPLETED.
pub created_history-Walk :
    (now f i : ℕ) (name : String) (k : ContentType) (user : ℕ) (db : Db)
    (us : List (ℕ × ℕ × FileStatus))
    → (c : Content) × ((run_updates (create_file now f i name k user none db) us).contents f
        ≡ some c)
      × Walk f us queued none c.status c.completed_at
unfolding create_file
created_history-Walk now f i name k user db us =
    run_updates-Walks f us (create_file now f i name k user none db)
      (record {
        id = i;
        status = queued;
        title = none;
        summary_md = none;
        user_id = user;
        summary_sections = no_fields;
        updated_at = now;
        completed_at = none;
      })
      (rw (==_refl f) refl)
