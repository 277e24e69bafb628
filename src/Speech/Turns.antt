-- ===== src/Speech/Turns.antt =====
-- worker/pipelines/asr/diarization_utils.py, _split_overlapping_segments without metadata: the turns
-- of speakers, cut where one begins or ends. Times are whole numbers.
pub mod Points
pub mod Spoken
pub mod Tests
use inuself.Base.{
  ℕ, String, Bool, true, false, ◌&&◌, List, [], ◌∷◌, ◌++◌, ◌==◌, ℕ_eq, ltb, if◌then◌else◌,
}

pub record Turn : Type 0 where
  pub start : ℕ
  pub end_ : ℕ
  pub speaker : String

-- A point that is added to a set, which is kept as a rising list.
unfoldable pub add_point : ℕ → List ℕ → List ℕ
add_point x [] = x ∷ []
add_point x (y ∷ ys) =
    let rest = add_point x ys in if x == y then y ∷ ys else if ltb x y then x ∷ y ∷ ys else y ∷ rest

-- `sorted(time_points)`.
unfoldable pub time_points : List Turn → List ℕ
time_points [] = []
time_points (turn ∷ turns) = add_point turn.start (add_point turn.end_ (time_points turns))

abbrev pub is_active : ℕ → ℕ → Turn → Bool
is_active start_time end_time turn = ltb turn.start end_time && ltb start_time turn.end_

-- The pieces of one interval, one for each turn that is active in it.
unfoldable pub active_pieces : ℕ → ℕ → List Turn → List Turn
active_pieces start_time end_time [] = []
active_pieces start_time end_time (turn ∷ turns) =
    let rest = active_pieces start_time end_time turns in
    if is_active start_time end_time turn
    then record { start = start_time; end_ = end_time; speaker = turn.speaker } ∷ rest
    else rest

-- The intervals from a point on to the following ones.
unfoldable pub split_from : List Turn → ℕ → List ℕ → List Turn
split_from turns point [] = []
split_from turns point (next ∷ points) =
    active_pieces point next turns ++ split_from turns next points

unfoldable pub split_all : List Turn → List ℕ → List Turn
split_all turns [] = []
split_all turns (point ∷ points) = split_from turns point points

unfoldable pub split_overlapping_segments : List Turn → List Turn
split_overlapping_segments turns = split_all turns (time_points turns)
