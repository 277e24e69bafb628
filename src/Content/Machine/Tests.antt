-- ===== src/Content/Machine/Tests.antt =====
-- Runs of the state machine at concrete statuses.
use inuself.Base.{◌≡◌, refl, false}
use inuself.Content.Machine.{queued, pulling, completed, can_transition}

refused_from_completed :
    can_transition completed queued ≡ (false, "Current state 'COMPLETED' is terminal")
unfolding can_transition
refused_from_completed = refl

refused_with_targets : can_transition pulling completed ≡ (
  false,
  "Invalid transition: PULLING → COMPLETED. Valid targets: [QUEUED, PROCESSING, DOWNLOAD_FAILED, ASR_FAILED, CANCELLED]",
)
unfolding can_transition
refused_with_targets = refl
