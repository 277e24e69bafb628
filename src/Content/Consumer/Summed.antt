-- ===== src/Content/Consumer/Summed.antt =====
-- The summary of a file that a worker of recognition has left: it ends, and what is published last
-- is its status.
use inuself.Base.{
  ℕ, String, ◌≡◌, refl, Bool, true, false, List, ◌∷◌, ◌==◌, ℕ_eq, String_eq, ◌⊎◌, inl, inr, Result,
  ok, err, Bool-cases, if◌then◌else◌,
}
use inuself.Content.Machine.{
  FileStatus, summary_queued, summarizing, completed, summary_failed, value, can_transition,
  FileStatus-discrete,
}
use inuself.Content.Files.{Db}
use inuself.Content.Consumer.{
  World, Progress, Summary, Outside, Outcome, and_then, except, transaction, llm_started_event,
  llm_completed_event, llm_failed_event, completed_empty_event,
}
use inuself.Content.Consumer.Handling.{
  update, save_summary, finish_summary, fail_summary, summarize_text, complete_empty, with_summary,
}
use inuself.Content.Consumer.Reached.{
  At, Gives, final, update-Gives, log-Gives, add_llm_log-At, save_summary-Gives,
  save_summary-refused, empty_title-At,
}

-- The outcome raises nothing, and its world is as said.
abbrev pub Ensures : (World → Type 0) → Outcome → Type 0
Ensures P out = (w : World) × (out ≡ (w, ok tt)) × P w

pub and_then-Ensures :
    (P Q : World → Type 0) (out : Outcome) (next : World → Outcome)
    → Ensures P out
    → ((w : World) → P w → Ensures Q (next w))
    → Ensures Q (and_then out next)
and_then-Ensures P Q out next (w, made, p) k = rw made (k w p)

pub transaction-Ensures :
    (Q : World → Type 0) (f : ℕ) (s : FileStatus) (w : World) (r : Result String Db)
    (next : World → Outcome)
    → Gives f s r
    → ((w : World) → At f s w.db → Ensures Q (next w))
    → Ensures Q (and_then (transaction w r) next)
transaction-Ensures Q f s w r next (db, made, at_) k = rw made (k (record w { db = db }) at_)

-- The file has that status, which was published last for it.
abbrev pub Shown : ℕ → FileStatus → World → Type 0
Shown f s w =
    At f s w.db
    × ((p : Progress) × (rest : List Progress) × (w.emitted ≡ p ∷ rest)
        × (p.file_id ≡ f)
        × (p.status ≡ value s))

abbrev pub Ended : ℕ → World → Type 0
Ended f w = Shown f completed w ⊎ Shown f summary_failed w

-- The summary was not disturbed, or was given up meanwhile.
abbrev pub Open : ℕ → Db → Type 0
Open f db = At f summarizing db ⊎ At f summary_failed db

fail_summary-Ended :
    (now f : ℕ) (w : World) → Open f w.db → Ensures (Ended f) (fail_summary now f w)
unfolding fail_summary llm_failed_event can_transition FileStatus-discrete
fail_summary-Ended now f w open_ =
    transaction-Ensures (Ended f) f summary_failed w _ (llm_failed_event f)
      (log-Gives f summary_failed (update now f summary_failed w.db) _
        (λ db. add_llm_log-At now f f summary_failed "llm_failed" db) (given open_))
      (λ w at_. (_, refl, inr (at_, (_, _, refl, refl, refl))))
  where
    given : Open f w.db → Gives f summary_failed (update now f summary_failed w.db)
    given (inl a) = update-Gives now f summarizing summary_failed w.db (inl refl) a
    given (inr a) = update-Gives now f summary_failed summary_failed w.db (inr refl) a

-- The last transaction goes through, or raises and leaves the world as it was.
Finishes : ℕ → World → Outcome → Type 0
Finishes f w out = Ensures (Ended f) out ⊎ ((x : String) × (out ≡ (w, err x)))

saved-Finishes :
    (o : Outside) (f : ℕ) (s : Summary) (w : World)
    → Gives f (final s.success) (save_summary o.later f s w.db)
    → Finishes f w (finish_summary o f (ok s) w)
unfolding Finishes finish_summary llm_completed_event llm_failed_event
saved-Finishes o f s w h = inl (
    transaction-Ensures (Ended f) f (final s.success) w (save_summary o.later f s w.db) _ h
      (shown s.success))
  where
    shown :
        (success : Bool) (w : World)
        → At f (final success) w.db
        → Ensures (Ended f) (if success then llm_completed_event f w else llm_failed_event f w)
    shown true w at_ = (_, refl, inl (at_, (_, _, refl, refl, refl)))
    shown false w at_ = (_, refl, inr (at_, (_, _, refl, refl, refl)))

refused-Finishes :
    (o : Outside) (f : ℕ) (s : Summary) (w : World)
    → (x : String) × (save_summary o.later f s w.db ≡ err x)
    → Finishes f w (finish_summary o f (ok s) w)
unfolding Finishes finish_summary
refused-Finishes o f s w (x, failed) = inr (x, rw (finish_summary, failed))

finish_summary-Finishes :
    (o : Outside) (f : ℕ) (r : Result String Summary) (w : World)
    → Open f w.db
    → Finishes f w (finish_summary o f r w)
unfolding Finishes finish_summary can_transition FileStatus-discrete
finish_summary-Finishes o f (err e) w open_ = inr (e, refl)
finish_summary-Finishes o f (ok s) w (inl a) =
    saved-Finishes o f s w
      (save_summary-Gives o.later f summarizing s w.db (inl (goes s.success)) a)
  where
    goes : (b : Bool) → (can_transition summarizing (final b)).0 ≡ true
    goes true = refl
    goes false = refl
finish_summary-Finishes o f (ok s) w (inr a) = elim (Bool-cases s.success) [
  | inl success ↦ refused-Finishes o f s w (save_summary-refused o.later f s w.db success a)
  | inr failure ↦
      saved-Finishes o f s w
        (save_summary-Gives o.later f summary_failed s w.db (inr (rw failure refl)) a)
]

except-Ended :
    (o : Outside) (f : ℕ) (w : World) (out : Outcome)
    → Open f w.db
    → Finishes f w out
    → Ensures (Ended f) (except out (fail_summary o.later f))
unfolding Finishes
except-Ended o f w out open_ (inl (w', made, ended)) = rw made (w', refl, ended)
except-Ended o f w out open_ (inr (x, raised)) = rw raised (fail_summary-Ended o.later f w open_)

-- The summary that others leave, with the status SUMMARIZING or SUMMARY_FAILED, of a file that was
-- SUMMARIZING.
abbrev pub Undisturbed : Outside → ℕ → Type 0
Undisturbed o f =
    (text : String) (db : Db)
    → At f summarizing db
    → At f summarizing (o.summarize f text db).0 ⊎ At f summary_failed (o.summarize f text db).0

module _ (o : Outside) (f : ℕ) (undisturbed : Undisturbed o f) where
  summarize_text-Ended :
      (text : String) (w : World)
      → At f summary_queued w.db
      → Ensures (Ended f) (summarize_text o f text w)
  unfolding summarize_text llm_started_event can_transition FileStatus-discrete
  summarize_text-Ended text w at_ =
      transaction-Ensures (Ended f) f summarizing w _ _
        (update-Gives o.now f summary_queued summarizing w.db (inl refl) at_)
        (λ w at_.
          except-Ended o f _ _ (undisturbed text w.db at_)
            (finish_summary-Finishes o f (o.summarize f text w.db).1 _ (undisturbed text w.db at_)))

  complete_empty-Ended :
      (w : World) → At f summary_queued w.db → Ensures (Ended f) (complete_empty o.now f w)
  unfolding complete_empty completed_empty_event can_transition FileStatus-discrete
  complete_empty-Ended w at_ =
      transaction-Ensures (Ended f) f completed w _ _
        (log-Gives f completed (update o.now f completed _) _
          (λ db. add_llm_log-At o.now f f completed "llm_skipped" db)
          (update-Gives o.now f summary_queued completed _ (inl refl)
            (empty_title-At o.now f summary_queued (w.db.files f) w.db at_)))
        (λ w at_. (_, refl, inl (at_, (_, _, refl, refl, refl))))

  pub with_summary-Ended :
      (text : String) (w : World)
      → At f summary_queued w.db
      → Ensures (Ended f) (with_summary o f text w)
  with_summary-Ended text w at_ = elim (Bool-cases (text == "")) [
    | inl empty ↦ rw empty (complete_empty-Ended w at_)
    | inr some_ ↦ rw some_ (summarize_text-Ended text w at_)
  ]
