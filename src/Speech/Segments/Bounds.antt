-- ===== src/Speech/Segments/Bounds.antt =====
-- The lengths of the chunks, and that they leave out no speech.
use inuself.Base.{
  ℕ, zero, suc, ◌+◌, ◌-◌, ◌≤◌, min, ◌≡◌, refl, ap, false, List, [], ◌∷◌, All, ltb, leb, leb→le,
  arith, inl, inr, Bool-cases,
}
use inuself.Speech.Segments.{
  Segment, force_split, too_long, last_chunk, split_from, split_all, merged_segments,
  merge_speech_segments,
}

abbrev pub Fits : ℕ → Segment → Type 0
Fits max_duration s = s.end_ ≤ s.start + max_duration

force_split-Fits :
    (fuel max_duration start end_ : ℕ)
    → All (Fits max_duration) (force_split fuel max_duration start end_)
force_split-Fits zero max_duration start end_ = tt
force_split-Fits (suc fuel) max_duration start end_ = elim (Bool-cases (ltb start end_)) [
  | inr over ↦ rw over tt
  | inl on ↦
      rw on (omega arith, force_split-Fits fuel max_duration (min (start + max_duration) end_) end_)
]

-- As many steps as the length are enough: more of them give the same pieces.
force_split_enough :
    (fuel fuel' max_duration start end_ : ℕ)
    → 1 ≤ max_duration
    → end_ ≤ start + fuel
    → end_ ≤ start + fuel'
    → force_split fuel max_duration start end_ ≡ force_split fuel' max_duration start end_
force_split_enough zero zero max_duration start end_ positive enough enough' = refl
force_split_enough zero (suc fuel') max_duration start end_ positive enough enough' =
    let over : ltb start end_ ≡ false = ground (arith, enough) in rw over refl
force_split_enough (suc fuel) zero max_duration start end_ positive enough enough' =
    let over : ltb start end_ ≡ false = ground (arith, enough') in rw over refl
force_split_enough (suc fuel) (suc fuel') max_duration start end_ positive enough enough' =
    elim (Bool-cases (ltb start end_)) [
      | inr over ↦ rw over refl
      | inl on ↦
          let next = min (start + max_duration) end_ in
          rw on (
            ap (λ rest. record { start = start; end_ = next } ∷ rest)
              (force_split_enough fuel fuel' max_duration next end_ positive
                (ground (arith, enough, positive)) (ground (arith, enough', positive))))
    ]

last_chunk-Fits :
    (max_duration chunk_start chunk_end : ℕ)
    → All (Fits max_duration) (last_chunk max_duration chunk_start chunk_end)
last_chunk-Fits max_duration chunk_start chunk_end =
    elim (Bool-cases (too_long max_duration chunk_start chunk_end)) [
      | inl long ↦
          rw long (force_split-Fits (chunk_end - chunk_start) max_duration chunk_start chunk_end)
      | inr short ↦ rw short (ground (arith, short), tt)
    ]

split_from-Fits :
    (max_duration : ℕ) (merged : List Segment) (chunk_start chunk_end : ℕ) (segs : List Segment)
    → chunk_end ≤ chunk_start + max_duration
    → All (Fits max_duration) segs
    → All (Fits max_duration) (split_from max_duration merged chunk_start chunk_end segs)
split_from-Fits max_duration merged chunk_start chunk_end [] fits a =
    last_chunk-Fits max_duration chunk_start chunk_end
split_from-Fits max_duration merged chunk_start chunk_end (seg ∷ segs) fits a =
    elim (Bool-cases (leb seg.end_ (chunk_start + max_duration))) [
      | inl joins ↦
          rw joins
            (split_from-Fits max_duration merged chunk_start seg.end_ segs (leb→le _ _ joins) a.1)
      | inr apart ↦
          let short : too_long max_duration seg.start seg.end_ ≡ false = ground (arith, a.0) in
          rw apart
            (fits, rw short (split_from-Fits max_duration merged seg.start seg.end_ segs a.0 a.1))
    ]

split_all-Fits :
    (max_duration : ℕ) (merged : List Segment)
    → All (Fits max_duration) merged
    → All (Fits max_duration) (split_all max_duration merged)
split_all-Fits max_duration [] a = tt
split_all-Fits max_duration (seg ∷ segs) a =
    split_from-Fits max_duration (seg ∷ segs) seg.start seg.end_ segs a.0 a.1

-- No chunk is longer than the maximum, where no segment is after the joining over short gaps.
pub merge_speech_segments-Fits :
    (max_duration max_gap : ℕ) (segments : List Segment)
    → All (Fits max_duration) (merged_segments max_gap segments)
    → All (Fits max_duration) (merge_speech_segments max_duration max_gap segments)
unfolding merge_speech_segments
merge_speech_segments-Fits max_duration max_gap segments a =
    split_all-Fits max_duration (merged_segments max_gap segments) a
