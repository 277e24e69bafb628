-- ===== src/Content/Machine/Graph.antt =====
-- The transition table as a graph: what can be reached, and how the side tables agree with it.
use inuself.Base.{◌≡◌, refl, ◌≢◌, ◌↔◌, ◌⊎◌, inl, inr, Bool, true, false, none, some, arith}
use inuself.Content.Machine.{
  FileStatus, queued, pulling, processing, ocr_processing, summary_queued, summarizing, completed,
  download_failed, asr_failed, ocr_failed, summary_failed, cancelled, is_terminal_state,
  get_timeout, get_state_info, is_failed_state, is_processing_state, get_retry_target,
  get_failure_state_for, can_transition,
}

-- A step that `can_transition` lets through, and a run of such steps.
infix 40 ◌⟶◌ ◌⟶*◌
abbrev pub ◌⟶◌ : FileStatus → FileStatus → Type 0
s ⟶ t = (can_transition s t).0 ≡ true

pub data ◌⟶*◌ (s : FileStatus) : FileStatus → Type 0 where
  here : s ⟶* s
  next : (t : FileStatus) {u : FileStatus} → s ⟶* t → t ⟶ u → s ⟶* u

-- A status is terminal by the table exactly when it is not watched as in progress, exactly when it
-- has no timeout; STATE_INFO repeats the table's verdict and the timeouts.
tables_agree :
    (s : FileStatus)
    → ((is_terminal_state s ≡ true) ↔ (is_processing_state s ≡ false))
      × ((is_terminal_state s ≡ true) ↔ (get_timeout s ≡ none))
      × ((get_state_info s).is_terminal ≡ is_terminal_state s)
      × ((get_state_info s).timeout_minutes ≡ get_timeout s)
unfolding is_terminal_state is_processing_state get_timeout get_state_info
tables_agree queued = ground arith
tables_agree _ = ground arith

-- From a terminal status no run leads anywhere else.
terminal_absorbs : {s t : FileStatus} → is_terminal_state s ≡ true → s ⟶* t → t ≡ s
unfolding can_transition
terminal_absorbs h here = refl
terminal_absorbs {s} {t} h (next m r e) = absurd (stuck m t (rw (terminal_absorbs h r) h) e)
  where
    stuck : (m u : FileStatus) → is_terminal_state m ≡ true → m ⟶ u → ⊥
    stuck m u k e = cc (rw k at e)

-- Every status in progress can be cancelled at once, and has a run that completes.
processing_goes_on :
    (s : FileStatus) → is_processing_state s ≡ true → (s ⟶ cancelled) × (s ⟶* completed)
unfolding is_processing_state can_transition
processing_goes_on queued h =
    (refl, next summary_queued (next processing (next queued here refl) refl) refl)
processing_goes_on pulling h =
    (refl, next summary_queued (next processing (next pulling here refl) refl) refl)
processing_goes_on processing h = (refl, next summary_queued (next processing here refl) refl)
processing_goes_on ocr_processing h =
    (refl, next summary_queued (next ocr_processing here refl) refl)
processing_goes_on summary_queued h = (refl, next summary_queued here refl)
processing_goes_on summarizing h = (refl, next summarizing here refl)
processing_goes_on _ h = cc

-- Each status in progress has its own failure status, which is a failed one, is terminal, and is a
-- step that the table allows; no other status has one.
failure_state_allowed :
    (s : FileStatus)
    → ((is_processing_state s ≡ true)
        × ((f : FileStatus) × (get_failure_state_for s ≡ some f)
            × (is_failed_state f ≡ true)
            × (is_terminal_state f ≡ true)
            × (s ⟶ f)))
      ⊎ ((is_processing_state s ≡ false) × (get_failure_state_for s ≡ none))
unfolding get_failure_state_for is_failed_state is_terminal_state is_processing_state can_transition
failure_state_allowed queued = inl (refl, (asr_failed, refl, refl, refl, refl))
failure_state_allowed pulling = inl (refl, (download_failed, refl, refl, refl, refl))
failure_state_allowed processing = inl (refl, (asr_failed, refl, refl, refl, refl))
failure_state_allowed ocr_processing = inl (refl, (ocr_failed, refl, refl, refl, refl))
failure_state_allowed summary_queued = inl (refl, (summary_failed, refl, refl, refl, refl))
failure_state_allowed summarizing = inl (refl, (summary_failed, refl, refl, refl, refl))
failure_state_allowed _ = inr (refl, refl)

-- The retry table has a target exactly at the failed statuses, the target is in progress, and yet
-- the transition table refuses the step from the failed status to its target.
retry_target_refused :
    (s : FileStatus)
    → ((is_failed_state s ≡ false) × (get_retry_target s ≡ none))
      ⊎ ((is_failed_state s ≡ true)
          × ((t : FileStatus) × (get_retry_target s ≡ some t)
              × (is_processing_state t ≡ true)
              × ((can_transition s t).0 ≡ false)))
unfolding get_retry_target is_failed_state is_processing_state can_transition
retry_target_refused download_failed = inr (refl, (pulling, refl, refl, refl))
retry_target_refused asr_failed = inr (refl, (queued, refl, refl, refl))
retry_target_refused ocr_failed = inr (refl, (queued, refl, refl, refl))
retry_target_refused summary_failed = inr (refl, (summary_queued, refl, refl, refl))
retry_target_refused _ = inl (refl, refl)

-- A run that never enters `x`.
data Avoids (x s : FileStatus) : FileStatus → Type 0 where
  here : Avoids x s s
  next : (t : FileStatus) {u : FileStatus} → Avoids x s t → t ⟶ u → u ≢ x → Avoids x s u

-- The statuses from the wait for the summary on.
abbrev in_summary : FileStatus → Bool
in_summary summary_queued = true
in_summary summarizing = true
in_summary completed = true
in_summary summary_failed = true
in_summary _ = false

step_in_summary :
    (t u : FileStatus)
    → t ⟶ u
    → in_summary t ≡ false
    → (u ≡ summary_queued) ⊎ (in_summary u ≡ false)
unfolding can_transition
step_in_summary queued u e h = ground arith
step_in_summary _ u e h = ground arith

-- The summary stage is entered through the summary queue only: a run that starts before the stage
-- and never enters SUMMARY_QUEUED is never summarizing, completed or failed in the summary.
summary_needs_queue :
    {s t : FileStatus} → in_summary s ≡ false → Avoids summary_queued s t → in_summary t ≡ false
summary_needs_queue h here = h
summary_needs_queue h (next t {u} r e n) = elim (step_in_summary t u e (summary_needs_queue h r)) [
  | inl q ↦ absurd (n q)
  | inr k ↦ k
]
