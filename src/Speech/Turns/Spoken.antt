-- ===== src/Speech/Turns/Spoken.antt =====
-- The cut turns have the same speakers as the turns, at each time.
use inuself.Base.{
  ℕ, ◌≤◌, ◌<◌, String, ◌≡◌, refl, sym, ◌∙◌, Bool, true, false, ◌&&◌, ◌||◌, List, [], ◌∷◌, ◌++◌,
  ◌==◌, ℕ_eq, String_eq, ◌⊎◌, inl, inr, any, elem, All, ltb, leb, arith, Bool-cases,
}
use inuself.Speech.Turns.{
  Turn, time_points, active_pieces, split_from, split_all, split_overlapping_segments,
}
use inuself.Speech.Turns.Points.{
  Rising, Risen, Rising-elem, Within, time_points-Risen, time_points-Within,
}

-- The speaker speaks in one of the turns at that time.
abbrev pub speaks : String → ℕ → List Turn → Bool
speaks speaker time turns =
    any (λ turn. turn.speaker == speaker && leb turn.start time && ltb time turn.end_) turns

any-append : (p : Turn → Bool) (xs ys : List Turn) → any p (xs ++ ys) ≡ (any p xs || any p ys)
any-append p [] ys = refl
any-append p (x ∷ xs) ys = ground (arith, any-append p xs ys)

-- A bound that is not inside an interval.
abbrev Outside : ℕ → ℕ → ℕ → Type 0
Outside a b x = (x ≤ a) ⊎ (b ≤ x)

abbrev Uncut : ℕ → ℕ → Turn → Type 0
Uncut a b turn = Outside a b turn.start × Outside a b turn.end_

pieces-speaks :
    (speaker : String) (time a b : ℕ) (turns : List Turn)
    → a < b
    → All (Uncut a b) turns
    → speaks speaker time (active_pieces a b turns)
      ≡ ((leb a time && ltb time b) && speaks speaker time turns)
unfolding active_pieces
pieces-speaks speaker time a b [] order h = ground arith
pieces-speaks speaker time a b (turn ∷ turns) order h =
    ground (arith, pieces-speaks speaker time a b turns order h.1, h.0, order)

-- A bound that is passed already, or is a point.
abbrev Known : ℕ → List ℕ → ℕ → Type 0
Known a points x = (x ≤ a) ⊎ (elem x points ≡ true)

abbrev Cut : ℕ → List ℕ → Turn → Type 0
Cut a points turn = Known a points turn.start × Known a points turn.end_

Known-Outside :
    (x a b : ℕ) (points : List ℕ)
    → Rising b points
    → Known a (b ∷ points) x
    → a < b
    → Outside a b x × Known b points x
Known-Outside x a b points r (inl passed) order = (inl passed, inl (omega (arith, passed, order)))
Known-Outside x a b points r (inr member) order = elim (Bool-cases (elem x points)) [
  | inl later ↦ (inr (omega (arith, Rising-elem x b points r later)), inr later)
  | inr not_ ↦ ground (arith, member, not_, order)
]

Cut-Uncut :
    (a b : ℕ) (points : List ℕ) (turns : List Turn)
    → Rising b points
    → a < b
    → All (Cut a (b ∷ points)) turns
    → All (Uncut a b) turns × All (Cut b points) turns
Cut-Uncut a b points [] r order h = (tt, tt)
Cut-Uncut a b points (turn ∷ turns) r order h =
    let (s_out, s_known) = Known-Outside turn.start a b points r h.0.0 order in
    let (e_out, e_known) = Known-Outside turn.end_ a b points r h.0.1 order in
    let (outs, knowns) = Cut-Uncut a b points turns r order h.1 in
    (((s_out, e_out), outs), ((s_known, e_known), knowns))

-- After the last point nobody speaks.
silent_after :
    (speaker : String) (time a : ℕ) (turns : List Turn)
    → All (Cut a []) turns
    → (leb a time && speaks speaker time turns) ≡ false
silent_after speaker time a [] h = ground arith
silent_after speaker time a (turn ∷ turns) h =
    ground (arith, silent_after speaker time a turns h.1, h.0)

split_from-speaks :
    (speaker : String) (time a : ℕ) (points : List ℕ) (turns : List Turn)
    → Rising a points
    → All (Cut a points) turns
    → speaks speaker time (split_from turns a points) ≡ (leb a time && speaks speaker time turns)
unfolding split_from
split_from-speaks speaker time a [] turns r h = sym (silent_after speaker time a turns h)
split_from-speaks speaker time a (b ∷ points) turns r h =
    let (outs, knowns) = Cut-Uncut a b points turns r.1 r.0 h in
    let later = split_from-speaks speaker time b points turns r.1 knowns in
    let now = pieces-speaks speaker time a b turns r.0 outs in
    rw
      (
        any-append (λ turn. turn.speaker == speaker && leb turn.start time && ltb time turn.end_)
            (active_pieces a b turns) (split_from turns b points),
        now,
        later,
      )
      (ground (arith, r.0))

Within-Cut :
    (p : ℕ) (points : List ℕ) (turns : List Turn)
    → All (Within (p ∷ points)) turns
    → All (Cut p points) turns
Within-Cut p points [] h = tt
Within-Cut p points (turn ∷ turns) h =
    ((known turn.start h.0.0, known turn.end_ h.0.1), Within-Cut p points turns h.1)
  where
    known : (x : ℕ) → elem x (p ∷ points) ≡ true → Known p points x
    known x member = ground (arith, member)

-- Before the first point nobody speaks.
silent_before :
    (speaker : String) (time p : ℕ) (points : List ℕ) (turns : List Turn)
    → Rising p points
    → All (Within (p ∷ points)) turns
    → (leb p time && speaks speaker time turns) ≡ speaks speaker time turns
silent_before speaker time p points [] r h = ground arith
silent_before speaker time p points (turn ∷ turns) r h =
    elim (Bool-cases (elem turn.start points)) [
      | inl later ↦ ground (
        arith,
        silent_before speaker time p points turns r h.1,
        Rising-elem turn.start p points r later,
      )
      | inr not_ ↦ ground (arith, silent_before speaker time p points turns r h.1, h.0.0, not_)
    ]

split_all-speaks :
    (speaker : String) (time : ℕ) (points : List ℕ) (turns : List Turn)
    → Risen points
    → All (Within points) turns
    → speaks speaker time (split_all turns points) ≡ speaks speaker time turns
unfolding split_all
split_all-speaks speaker time [] [] r h = refl
split_all-speaks speaker time [] (turn ∷ turns) r h = cc
split_all-speaks speaker time (p ∷ points) turns r h =
    split_from-speaks speaker time p points turns r (Within-Cut p points turns h)
    ∙ silent_before speaker time p points turns r h

-- At each time, a speaker speaks in one of the cut turns exactly if it does in one of the turns; a
-- turn lasts from its start to just before its end.
pub split_overlapping_segments-speaks :
    (speaker : String) (time : ℕ) (turns : List Turn)
    → speaks speaker time (split_overlapping_segments turns) ≡ speaks speaker time turns
unfolding split_overlapping_segments
split_overlapping_segments-speaks speaker time turns =
    split_all-speaks speaker time (time_points turns) turns (time_points-Risen turns)
      (time_points-Within turns)
