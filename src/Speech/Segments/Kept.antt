-- ===== src/Speech/Segments/Kept.antt =====
-- The chunks leave out no speech of the segments.
use inuself.Base.{
  ℕ, ◌+◌, ◌≤◌, ◌≡◌, ◌⊎◌, false, List, [], ◌∷◌, All, leb, arith, inl, inr, Bool-cases,
}
use inuself.Speech.Segments.{
  Segment, merge_from, too_long, split_from, split_all, merged_segments, merge_speech_segments,
}
use inuself.Speech.Segments.Bounds.{Fits}

abbrev pub During : ℕ → Segment → Type 0
During time s = (s.start ≤ time) × (time ≤ s.end_)

-- One of the segments has the time.
abbrev pub Spoken : ℕ → List Segment → Type 0
Spoken time [] = ⊥
Spoken time (s ∷ ss) = During time s ⊎ Spoken time ss

-- The starts do not go back, and nor do the ends.
abbrev pub InOrder : ℕ → ℕ → List Segment → Type 0
InOrder low high [] = Unit
InOrder low high (s ∷ ss) = (low ≤ s.start) × (high ≤ s.end_) × InOrder s.start s.end_ ss

InOrder-lower :
    (low low' high : ℕ) (ss : List Segment)
    → low' ≤ low
    → InOrder low high ss
    → InOrder low' high ss
InOrder-lower low low' high [] le o = tt
InOrder-lower low low' high (s ∷ ss) le (from, to, rest) = (omega (arith, le, from), to, rest)

merge_from-InOrder :
    (max_gap low high : ℕ) (s : Segment) (ss : List Segment)
    → InOrder low high (s ∷ ss)
    → InOrder low high (merge_from max_gap s ss)
merge_from-InOrder max_gap low high s [] o = o
merge_from-InOrder max_gap low high s (seg ∷ segs) (from, to, (later, longer, rest)) =
    elim (Bool-cases (leb seg.start (s.end_ + max_gap))) [
      | inl joins ↦ rw joins (
          merge_from-InOrder max_gap low high (record { start = s.start; end_ = seg.end_ }) segs
            (
              from,
              omega (arith, to, longer),
              InOrder-lower seg.start s.start seg.end_ segs later rest,
            ))
      | inr apart ↦
          rw apart
            (from, to, merge_from-InOrder max_gap s.start s.end_ seg segs (later, longer, rest))
    ]

merge_from-Spoken :
    (max_gap low high time : ℕ) (s : Segment) (ss : List Segment)
    → InOrder low high (s ∷ ss)
    → Spoken time (s ∷ ss)
    → Spoken time (merge_from max_gap s ss)
merge_from-Spoken max_gap low high time s [] o t = t
merge_from-Spoken max_gap low high time s (seg ∷ segs) (from, to, (later, longer, rest)) t =
    elim (Bool-cases (leb seg.start (s.end_ + max_gap))) [
      | inl joins ↦ rw joins (
          merge_from-Spoken max_gap low high time (record { start = s.start; end_ = seg.end_ }) segs
            (
              from,
              omega (arith, to, longer),
              InOrder-lower seg.start s.start seg.end_ segs later rest,
            )
            (joined t))
      | inr apart ↦
          rw apart
            (alone t (merge_from-Spoken max_gap s.start s.end_ time seg segs (later, longer, rest)))
    ]
  where
    joined :
        Spoken time (s ∷ seg ∷ segs)
        → Spoken time (record { start = s.start; end_ = seg.end_ } ∷ segs)
    joined (inl (a, b)) = inl (a, omega (arith, b, longer))
    joined (inr (inl (a, b))) = inl (omega (arith, a, later), b)
    joined (inr (inr t')) = inr t'

    alone :
        Spoken time (s ∷ seg ∷ segs)
        → (Spoken time (seg ∷ segs) → Spoken time (merge_from max_gap seg segs))
        → Spoken time (s ∷ merge_from max_gap seg segs)
    alone (inl here) go = inl here
    alone (inr t') go = inr (go t')

split_from-Spoken :
    (max_duration time : ℕ) (merged : List Segment) (chunk_start chunk_end : ℕ)
    (segs : List Segment)
    → chunk_end ≤ chunk_start + max_duration
    → All (Fits max_duration) segs
    → InOrder chunk_start chunk_end segs
    → Spoken time (record { start = chunk_start; end_ = chunk_end } ∷ segs)
    → Spoken time (split_from max_duration merged chunk_start chunk_end segs)
split_from-Spoken max_duration time merged chunk_start chunk_end [] fits a o t =
    let short : too_long max_duration chunk_start chunk_end ≡ false = ground (arith, fits) in
    rw short t
split_from-Spoken max_duration time merged chunk_start chunk_end (seg ∷ segs) fits a
      (later, longer, rest) t =
    elim (Bool-cases (leb seg.end_ (chunk_start + max_duration))) [
      | inl joins ↦ rw joins (
          split_from-Spoken max_duration time merged chunk_start seg.end_ segs
            (ground (arith, joins)) a.1
            (InOrder-lower seg.start chunk_start seg.end_ segs later rest) (joined t))
      | inr apart ↦
          let short : too_long max_duration seg.start seg.end_ ≡ false = ground (arith, a.0) in
          rw apart (
            rw short (
              alone t
                (split_from-Spoken max_duration time merged seg.start seg.end_ segs a.0 a.1 rest)))
    ]
  where
    joined :
        Spoken time (record { start = chunk_start; end_ = chunk_end } ∷ seg ∷ segs)
        → Spoken time (record { start = chunk_start; end_ = seg.end_ } ∷ segs)
    joined (inl (b, c)) = inl (b, omega (arith, c, longer))
    joined (inr (inl (b, c))) = inl (omega (arith, b, later), c)
    joined (inr (inr t')) = inr t'

    alone :
        Spoken time (record { start = chunk_start; end_ = chunk_end } ∷ seg ∷ segs)
        → (Spoken time (seg ∷ segs)
            → Spoken time (split_from max_duration merged seg.start seg.end_ segs))
        → Spoken time (
            record { start = chunk_start; end_ = chunk_end }
            ∷ split_from max_duration merged seg.start seg.end_ segs)
    alone (inl here) go = inl here
    alone (inr t') go = inr (go t')

split_all-Spoken :
    (max_duration low high time : ℕ) (merged : List Segment)
    → All (Fits max_duration) merged
    → InOrder low high merged
    → Spoken time merged
    → Spoken time (split_all max_duration merged)
split_all-Spoken max_duration low high time [] a o t = t
split_all-Spoken max_duration low high time (seg ∷ segs) a (from, to, rest) t =
    split_from-Spoken max_duration time (seg ∷ segs) seg.start seg.end_ segs a.0 a.1 rest t

-- Where the segments are in order, and none is longer than the maximum after the joining over short
-- gaps, every time of a segment is a time of a chunk.
pub merge_speech_segments-Spoken :
    (max_duration max_gap time : ℕ) (segments : List Segment)
    → InOrder 0 0 segments
    → All (Fits max_duration) (merged_segments max_gap segments)
    → Spoken time segments
    → Spoken time (merge_speech_segments max_duration max_gap segments)
unfolding merge_speech_segments
merge_speech_segments-Spoken max_duration max_gap time [] o a t = t
merge_speech_segments-Spoken max_duration max_gap time (seg ∷ segs) o a t =
    split_all-Spoken max_duration 0 0 time (merge_from max_gap seg segs) a
      (merge_from-InOrder max_gap 0 0 seg segs o) (merge_from-Spoken max_gap 0 0 time seg segs o t)
