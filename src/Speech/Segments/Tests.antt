-- ===== src/Speech/Segments/Tests.antt =====
-- Speech with a short and a long pause, and speech that is too long.
use inuself.Base.{ℕ, ◌≡◌, refl, List, [], ◌∷◌, All, inl, inr, arith}
use inuself.Speech.Segments.{Segment, merge_speech_segments}
use inuself.Speech.Segments.Bounds.{Fits, merge_speech_segments-Fits}
use inuself.Speech.Segments.Kept.{Spoken, merge_speech_segments-Spoken}

abbrev seg : ℕ → ℕ → Segment
seg start end_ = record { start = start; end_ = end_ }

abbrev speech : List Segment
speech = seg 0 10 ∷ seg 12 20 ∷ seg 25 28 ∷ seg 35 50 ∷ []

chunks : merge_speech_segments 30 3 speech ≡ seg 0 28 ∷ seg 35 50 ∷ []
unfolding merge_speech_segments
chunks = refl

merge_speech_segments-Fits_example : All (Fits 30) (merge_speech_segments 30 3 speech)
merge_speech_segments-Fits_example =
    merge_speech_segments-Fits 30 3 speech (omega arith, (omega arith, (omega arith, tt)))

merge_speech_segments-Spoken_example : Spoken 15 (merge_speech_segments 30 3 speech)
merge_speech_segments-Spoken_example =
    merge_speech_segments-Spoken 30 3 15 speech
      (
        omega arith,
        omega arith,
        (omega arith, omega arith, (omega arith, omega arith, (omega arith, omega arith, tt))),
      )
      (omega arith, (omega arith, (omega arith, tt))) (inr (inl (omega arith, omega arith)))

-- A first segment that is too long is not split.
first_too_long :
    merge_speech_segments 30 3 (seg 0 100 ∷ seg 200 210 ∷ []) ≡ seg 0 100 ∷ seg 200 210 ∷ []
unfolding merge_speech_segments
first_too_long = refl

-- Nor is one after a forced split, which is also given a second time, in pieces.
after_split :
    merge_speech_segments 30 3 (seg 0 10 ∷ seg 100 140 ∷ seg 200 240 ∷ [])
    ≡ seg 0 10 ∷ seg 100 130 ∷ seg 130 140 ∷ seg 200 240 ∷ seg 200 230 ∷ seg 230 240 ∷ []
unfolding merge_speech_segments
after_split = refl
