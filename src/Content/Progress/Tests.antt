-- ===== src/Content/Progress/Tests.antt =====
-- A download of a video and its sound.
use inuself.Base.{ℕ, ◌≤◌, ◌≡◌, ◌+◌, ◌*◌, ◌/◌, refl, List, [], ◌∷◌, arith}
use inuself.Content.Progress.{
  Phase, new_tracker, Call, sets, advances, updates, calls, call, set_progress, advance_phase,
  update, current_phase, mapped, should_publish,
}
use inuself.Content.Progress.Rising.{Rising, Rounds, calls-Rising}

abbrev download : List Phase
download =
    record { name = "video"; start = 5; end_ = 55 }
    ∷ record { name = "audio"; start = 55; end_ = 95 }
    ∷ []

-- Rounding to a tenth of a per cent, upwards from the middle.
abbrev half_up : ℕ → ℕ
half_up n = (n + 500) / 1000 * 1000

half_up-Rounds : Rounds half_up
half_up-Rounds = record { keeps_order = λ a b le. omega (arith, le); keeps_whole = refl }

-- The progress goes back within the phase, and is not published then.
abbrev steps : List Call
steps =
    sets 10 30000 "" "metadata"
    ∷ updates 20 5000 ""
    ∷ updates 30 2000 ""
    ∷ advances
    ∷ updates 40 5012 ""
    ∷ updates 40 5100 ""
    ∷ sets 50 950000 "" "upload"
    ∷ []

progresses : (calls half_up steps (new_tracker download 1 30000)).published ≡ 950000
unfolding new_tracker call set_progress advance_phase update current_phase mapped should_publish
progresses = refl

calls-Rising_example :
    let t = calls half_up steps (new_tracker download 1 30000) in
    (t.published ≤ 1000000) × Rising (half_up t.published) t.sent × (half_up t.published ≤ 1000000)
calls-Rising_example =
    calls-Rising half_up download 1 30000 steps half_up-Rounds
      ((omega arith, omega arith), ((omega arith, omega arith), tt))
      (
        omega arith,
        (omega arith, (omega arith, (tt, (omega arith, (omega arith, (omega arith, tt)))))),
      )
