-- ===== src/Content/Progress.antt =====
-- backend/app/utils/progress_tracker.py, ProgressTracker. The ends of a phase are whole per cents, a
-- raw value is hundredths of a per cent, a position ten thousandths, so that the mapping of a phase
-- is exact, and a time is a whole number. Python's `round(x, 1)` is the argument `round_tenth`, on
-- positions.
pub mod Rising
pub mod Tests
use inuself.Base.{
  ℕ, zero, suc, ◌+◌, ◌-◌, ◌*◌, max, String, Bool, true, false, ◌||◌, Option, none, some, List, [],
  ◌∷◌, ◌==◌, String_eq, get_elem?, ltb, leb, if◌then◌else◌,
}

pub record Phase : Type 0 where
  pub name : String
  pub start : ℕ
  pub end_ : ℕ

-- What the callback is given.
pub record Sent : Type 0 where
  pub progress : ℕ
  pub step : String
  pub message : String

-- The callbacks that were made, the latest first.
pub record ProgressTracker : Type 0 where
  pub phases : List Phase
  pub throttle_sec : ℕ
  pub min_delta : ℕ
  pub phase_idx : ℕ
  pub published : ℕ
  pub last_time : ℕ
  pub raw : ℕ
  pub sent : List Sent

unfoldable pub new_tracker : List Phase → ℕ → ℕ → ProgressTracker
new_tracker phases throttle_sec min_delta = record {
  phases = phases;
  throttle_sec = throttle_sec;
  min_delta = min_delta;
  phase_idx = 0;
  published = 0;
  last_time = 0;
  raw = 0;
  sent = [];
}

abbrev pub last {ℓ} : {A : Type ℓ} → List A → Option A
last [] = none
last (x ∷ []) = some x
last (x ∷ y ∷ xs) = last (y ∷ xs)

abbrev pub or_else {ℓ} : {A : Type ℓ} → Option A → Option A → Option A
or_else none o = o
or_else (some x) o = some x

unfoldable pub current_phase : ProgressTracker → Option Phase
current_phase t = or_else (get_elem? t.phases t.phase_idx) (last t.phases)

-- What is published is kept exactly, and the callback is given it rounded.
abbrev pub emit : (ℕ → ℕ) → ℕ → ℕ → String → String → ProgressTracker → ProgressTracker
emit round_tenth now progress step message t = record t {
  published = progress;
  last_time = now;
  sent = record { progress = round_tenth progress; step = step; message = message } ∷ t.sent;
}

abbrev pub phase_name : Option Phase → String
phase_name none = ""
phase_name (some phase) = phase.name

unfoldable pub set_progress : (ℕ → ℕ) → ℕ → ℕ → String → String → ProgressTracker → ProgressTracker
set_progress round_tenth now progress message step t =
    emit round_tenth now (max progress t.published)
      (if step == "" then phase_name (current_phase t) else step) message t

abbrev pub reach : Option Phase → ℕ → ℕ
reach none published = published
reach (some phase) published = max published (phase.end_ * 10000)

unfoldable pub advance_phase : ProgressTracker → ProgressTracker
advance_phase t = record t {
  published = reach (current_phase t) t.published;
  phase_idx = t.phase_idx + 1;
  raw = 0;
}

-- `start + raw / 100 * (end - start)`; where the source's number is negative it is 0, and the
-- maximum with what is published is the same.
unfoldable pub mapped : Phase → ℕ → ℕ
mapped phase raw =
    if leb phase.start phase.end_
    then phase.start * 10000 + raw * (phase.end_ - phase.start)
    else phase.start * 10000 - raw * (phase.start - phase.end_)

-- A publication asks for a full phase, the time since the last callback and the change.
unfoldable pub should_publish : ℕ → ℕ → ℕ → ProgressTracker → Bool
should_publish now raw position t =
    leb 10000 raw
    || leb t.throttle_sec (now - t.last_time)
    || leb t.min_delta (position - t.published)

abbrev pub update_in : (ℕ → ℕ) → Option Phase → ℕ → ℕ → String → ProgressTracker → ProgressTracker
update_in round_tenth none now raw message t = t
update_in round_tenth (some phase) now raw message t =
    let position = max (mapped phase raw) t.published in
    if should_publish now raw position t
    then emit round_tenth now position phase.name message t
    else t

unfoldable pub update : (ℕ → ℕ) → ℕ → ℕ → String → ProgressTracker → ProgressTracker
update round_tenth now raw message t =
    let highest = max raw t.raw in
    update_in round_tenth (current_phase t) now highest message (record t { raw = highest })

-- The calls of a tracker, each with its time.
pub data Call : Type 0 where
  sets : ℕ → ℕ → String → String → Call
  advances : Call
  updates : ℕ → ℕ → String → Call

unfoldable pub call : (ℕ → ℕ) → Call → ProgressTracker → ProgressTracker
call round_tenth (sets now progress message step) t =
    set_progress round_tenth now progress message step t
call round_tenth advances t = advance_phase t
call round_tenth (updates now raw message) t = update round_tenth now raw message t

abbrev pub calls : (ℕ → ℕ) → List Call → ProgressTracker → ProgressTracker
calls round_tenth [] t = t
calls round_tenth (c ∷ cs) t = calls round_tenth cs (call round_tenth c t)
