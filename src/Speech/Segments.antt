-- ===== src/Speech/Segments.antt =====
-- worker/pipelines/asr/vad_utils.py, merge_speech_segments. Times are whole numbers (of milliseconds,
-- say), so a difference that is compared with a length is written as a sum.
pub mod Bounds
pub mod Kept
pub mod Tests
use inuself.Base.{
  ℕ, zero, suc, ◌+◌, ◌-◌, min, Bool, true, false, ◌&&◌, Option, none, some, List, [], ◌∷◌, ◌++◌,
  ◌==◌, ℕ_eq, ltb, leb, if◌then◌else◌,
}

pub record Segment : Type 0 where
  pub start : ℕ
  pub end_ : ℕ

abbrev pub same_segment : Segment → Segment → Bool
same_segment a b = a.start == b.start && a.end_ == b.end_

-- The first step, from the current segment.
abbrev pub merge_from : ℕ → Segment → List Segment → List Segment
merge_from max_gap current [] = current ∷ []
merge_from max_gap current (seg ∷ segs) =
    let joined = merge_from max_gap (record { start = current.start; end_ = seg.end_ }) segs in
    let apart = merge_from max_gap seg segs in
    if leb seg.start (current.end_ + max_gap) then joined else current ∷ apart

-- The `while` of a forced split; with a positive `max_duration` as many pieces as the length are
-- enough.
abbrev pub force_split : ℕ → ℕ → ℕ → ℕ → List Segment
force_split zero max_duration start end_ = []
force_split (suc fuel) max_duration start end_ =
    let next = min (start + max_duration) end_ in
    let rest = force_split fuel max_duration next end_ in
    if ltb start end_ then record { start = start; end_ = next } ∷ rest else []

abbrev pub split_whole : ℕ → ℕ → ℕ → List Segment
split_whole max_duration start end_ = force_split (end_ - start) max_duration start end_

-- `merged[merged.index(seg) + 1]`, if there is one.
abbrev pub next_after : Segment → List Segment → Option Segment
next_after seg [] = none
next_after seg (s ∷ []) = none
next_after seg (s ∷ s' ∷ ss) = if same_segment s seg then some s' else next_after seg (s' ∷ ss)

abbrev pub too_long : ℕ → ℕ → ℕ → Bool
too_long max_duration start end_ = ltb (start + max_duration) end_

-- What is left at the end.
abbrev pub last_chunk : ℕ → ℕ → ℕ → List Segment
last_chunk max_duration chunk_start chunk_end =
    if too_long max_duration chunk_start chunk_end
    then split_whole max_duration chunk_start chunk_end
    else record { start = chunk_start; end_ = chunk_end } ∷ []

-- The loop of the second step, from the current chunk. Its end after the forced split of the last
-- segment, which the source marks by a start of -1, is the empty rest here.
abbrev pub split_from : ℕ → List Segment → ℕ → ℕ → List Segment → List Segment
split_from max_duration merged chunk_start chunk_end [] =
    last_chunk max_duration chunk_start chunk_end
split_from max_duration merged chunk_start chunk_end (seg ∷ segs) =
    let grown = split_from max_duration merged chunk_start seg.end_ segs in
    let fresh = split_from max_duration merged seg.start seg.end_ segs in
    let onward : List Segment = elim (next_after seg merged) [
      | none ↦ []
      | some next ↦ split_from max_duration merged next.start next.end_ segs
    ] in
    if leb seg.end_ (chunk_start + max_duration)
    then grown
    else record { start = chunk_start; end_ = chunk_end }
      ∷ (if too_long max_duration seg.start seg.end_
          then split_whole max_duration seg.start seg.end_ ++ onward
          else fresh)

abbrev pub split_all : ℕ → List Segment → List Segment
split_all max_duration [] = []
split_all max_duration (seg ∷ segs) = split_from max_duration (seg ∷ segs) seg.start seg.end_ segs

abbrev pub merged_segments : ℕ → List Segment → List Segment
merged_segments max_gap [] = []
merged_segments max_gap (seg ∷ segs) = merge_from max_gap seg segs

unfoldable pub merge_speech_segments : ℕ → ℕ → List Segment → List Segment
merge_speech_segments max_duration max_gap segments =
    split_all max_duration (merged_segments max_gap segments)
