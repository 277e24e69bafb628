-- ===== src/Content/Machine.antt =====
-- backend/app/state_machines: the statuses of a file, the transition table and the checks on it
-- (base.py, machines/content_machine.py), with FileStatus of db/models.py.
pub mod Graph
pub mod Tests
use Prim.Native.String.{◌++◌ as append}
use inuself.Base.{
  ℕ, String, ◌≡◌, refl, Bool, true, false, Option, none, some, List, [], ◌∷◌, Eq, eq_of_discrete,
  elem, if◌then◌else◌,
}

pub data FileStatus : Type 0 where
  queued pulling processing ocr_processing summary_queued summarizing completed : FileStatus
  download_failed asr_failed ocr_failed summary_failed cancelled : FileStatus

unfoldable pub FileStatus-discrete : Discrete FileStatus
FileStatus-discrete = hlevel

instance abbrev pub FileStatus_eq : Eq FileStatus
FileStatus_eq = eq_of_discrete FileStatus-discrete

-- `FileStatus.value`.
abbrev pub value : FileStatus → String
value queued = "QUEUED"
value pulling = "PULLING"
value processing = "PROCESSING"
value ocr_processing = "OCR_PROCESSING"
value summary_queued = "SUMMARY_QUEUED"
value summarizing = "SUMMARIZING"
value completed = "COMPLETED"
value download_failed = "DOWNLOAD_FAILED"
value asr_failed = "ASR_FAILED"
value ocr_failed = "OCR_FAILED"
value summary_failed = "SUMMARY_FAILED"
value cancelled = "CANCELLED"

-- TRANSITIONS, with the default `[]` of `get_valid_transitions`.
unfoldable pub get_valid_transitions : FileStatus → List FileStatus
get_valid_transitions queued =
    pulling ∷ processing ∷ ocr_processing ∷ asr_failed ∷ ocr_failed ∷ cancelled ∷ []
get_valid_transitions pulling = queued ∷ processing ∷ download_failed ∷ asr_failed ∷ cancelled ∷ []
get_valid_transitions processing = summary_queued ∷ asr_failed ∷ cancelled ∷ []
get_valid_transitions ocr_processing = summary_queued ∷ ocr_failed ∷ cancelled ∷ []
get_valid_transitions summary_queued = summarizing ∷ completed ∷ summary_failed ∷ cancelled ∷ []
get_valid_transitions summarizing = completed ∷ summary_failed ∷ cancelled ∷ []
get_valid_transitions completed = []
get_valid_transitions download_failed = []
get_valid_transitions asr_failed = []
get_valid_transitions ocr_failed = []
get_valid_transitions summary_failed = []
get_valid_transitions cancelled = []

-- `len(transitions) == 0`.
abbrev pub is_empty {ℓ} : {A : Type ℓ} → List A → Bool
is_empty [] = true
is_empty (x ∷ xs) = false

unfoldable pub is_terminal_state : FileStatus → Bool
unfolding get_valid_transitions
is_terminal_state s = is_empty (get_valid_transitions s)

-- TIMEOUTS, in minutes.
unfoldable pub get_timeout : FileStatus → Option ℕ
get_timeout queued = some 30
get_timeout pulling = some 30
get_timeout processing = some 60
get_timeout ocr_processing = some 30
get_timeout summary_queued = some 30
get_timeout summarizing = some 35
get_timeout _ = none

-- The fields of STATE_INFO that are no display texts.
pub record StateInfo : Type 0 where
  pub is_terminal : Bool
  pub timeout_minutes : Option ℕ
  pub retryable : Bool

working : ℕ → Bool → StateInfo
working t r = record { is_terminal = false; timeout_minutes = some t; retryable = r }

ended : StateInfo
ended = record { is_terminal = true; timeout_minutes = none; retryable = false }

unfoldable pub get_state_info : FileStatus → StateInfo
unfolding working ended
get_state_info queued = working 30 true
get_state_info pulling = working 30 true
get_state_info processing = working 60 false
get_state_info ocr_processing = working 30 false
get_state_info summary_queued = working 30 true
get_state_info summarizing = working 35 true
get_state_info _ = ended

unfoldable pub is_failed_state : FileStatus → Bool
unfolding FileStatus-discrete
is_failed_state s = elem s (download_failed ∷ asr_failed ∷ ocr_failed ∷ summary_failed ∷ [])

unfoldable pub is_processing_state : FileStatus → Bool
unfolding FileStatus-discrete
is_processing_state s =
    elem s (queued ∷ pulling ∷ processing ∷ ocr_processing ∷ summary_queued ∷ summarizing ∷ [])

-- RETRY_MAPPING.
unfoldable pub get_retry_target : FileStatus → Option FileStatus
get_retry_target download_failed = some pulling
get_retry_target asr_failed = some queued
get_retry_target ocr_failed = some queued
get_retry_target summary_failed = some summary_queued
get_retry_target _ = none

unfoldable pub get_failure_state_for : FileStatus → Option FileStatus
get_failure_state_for queued = some asr_failed
get_failure_state_for pulling = some download_failed
get_failure_state_for processing = some asr_failed
get_failure_state_for ocr_processing = some ocr_failed
get_failure_state_for summary_queued = some summary_failed
get_failure_state_for summarizing = some summary_failed
get_failure_state_for _ = none

concat : List String → String
concat [] = ""
concat (s ∷ ss) = append s (concat ss)

-- `", ".join(s.value for s in valid_targets)`.
join_values : List FileStatus → String
join_values [] = ""
join_values (s ∷ []) = value s
join_values (s ∷ t ∷ ss) = concat (value s ∷ ", " ∷ join_values (t ∷ ss) ∷ [])

-- Whether the step is allowed, and the reason where it is not.
unfoldable pub can_transition : FileStatus → FileStatus → Bool × String
unfolding is_terminal_state get_valid_transitions FileStatus-discrete concat join_values
can_transition current_state target_state =
    if is_terminal_state current_state
    then (false, concat ("Current state '" ∷ value current_state ∷ "' is terminal" ∷ []))
    else if elem target_state valid_targets
    then (true, "")
    else (
      false,
      concat (
          "Invalid transition: "
          ∷ value current_state
          ∷ " → "
          ∷ value target_state
          ∷ ". Valid targets: ["
          ∷ join_values valid_targets
          ∷ "]"
          ∷ []),
    )
  where
    valid_targets : List FileStatus
    valid_targets = get_valid_transitions current_state
