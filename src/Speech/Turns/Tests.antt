-- ===== src/Speech/Turns/Tests.antt =====
-- Two speakers, the second of whom begins before the first has ended.
use inuself.Base.{ℕ, String, ◌≡◌, refl, true, List, [], ◌∷◌}
use inuself.Speech.Turns.{
  Turn, add_point, time_points, active_pieces, split_from, split_all, split_overlapping_segments,
}
use inuself.Speech.Turns.Spoken.{speaks, split_overlapping_segments-speaks}

abbrev says : ℕ → ℕ → String → Turn
says start end_ speaker = record { start = start; end_ = end_; speaker = speaker }

abbrev talk : List Turn
talk = says 0 10 "A" ∷ says 6 20 "B" ∷ []

cut :
    split_overlapping_segments talk
    ≡ says 0 6 "A" ∷ says 6 10 "A" ∷ says 6 10 "B" ∷ says 10 20 "B" ∷ []
unfolding split_overlapping_segments time_points add_point split_all split_from active_pieces
cut = refl

split_overlapping_segments-speaks_example : speaks "A" 7 (split_overlapping_segments talk) ≡ true
split_overlapping_segments-speaks_example = split_overlapping_segments-speaks "A" 7 talk
