-- ===== src/Speech/Turns/Points.antt =====
-- The points at which the turns are cut: they rise, and all bounds of the turns are among them.
use inuself.Base.{
  ℕ, ◌<◌, ◌≡◌, refl, true, false, List, [], ◌∷◌, ◌==◌, ℕ_eq, String_eq, ◌⊎◌, inl, inr, elem, All,
  ltb, arith, Bool-cases,
}
use inuself.Speech.Turns.{Turn, add_point, time_points}

-- The points rise from one on.
abbrev pub Rising : ℕ → List ℕ → Type 0
Rising a [] = Unit
Rising a (b ∷ points) = (a < b) × Rising b points

pub Rising-elem : (x a : ℕ) (points : List ℕ) → Rising a points → elem x points ≡ true → a < x
Rising-elem x a [] r h = cc
Rising-elem x a (b ∷ points) r h = elim (Bool-cases (elem x points)) [
  | inl later ↦ omega (arith, r.0, Rising-elem x b points r.1 later)
  | inr not_ ↦ ground (arith, r.0, h, not_)
]

abbrev pub Risen : List ℕ → Type 0
Risen [] = Unit
Risen (p ∷ points) = Rising p points

add_point-Rising :
    (a x : ℕ) (points : List ℕ) → a < x → Rising a points → Rising a (add_point x points)
unfolding add_point
add_point-Rising a x [] order r = (order, tt)
add_point-Rising a x (y ∷ points) order r = elim (Bool-cases (x == y)) [
  | inl same ↦ rw same r
  | inr other ↦ elim (Bool-cases (ltb x y)) [
    | inl below ↦ rw (other, below) (order, (ground (arith, below), r.1))
    | inr above ↦
        rw (other, above) (r.0, add_point-Rising y x points (ground (arith, other, above)) r.1)
  ]
]

add_point-Risen : (x : ℕ) (points : List ℕ) → Risen points → Risen (add_point x points)
unfolding add_point
add_point-Risen x [] r = tt
add_point-Risen x (y ∷ points) r = elim (Bool-cases (x == y)) [
  | inl same ↦ rw same r
  | inr other ↦ elim (Bool-cases (ltb x y)) [
    | inl below ↦ rw (other, below) (ground (arith, below), r)
    | inr above ↦ rw (other, above) (add_point-Rising y x points (ground (arith, other, above)) r)
  ]
]

elem-add_point :
    (k x : ℕ) (points : List ℕ)
    → (k ≡ x) ⊎ (elem k points ≡ true)
    → elem k (add_point x points) ≡ true
unfolding add_point
elem-add_point k x [] h = ground (arith, h)
elem-add_point k x (y ∷ points) h = elim (Bool-cases (k == y)) [
  | inl hit ↦ ground (arith, hit)
  | inr miss ↦
      let rest = elem-add_point k x points (weaken k x y points h miss) in
      ground (arith, miss, rest, h)
]
  where
    weaken :
        (k x y : ℕ) (points : List ℕ)
        → (k ≡ x) ⊎ (elem k (y ∷ points) ≡ true)
        → (k == y) ≡ false
        → (k ≡ x) ⊎ (elem k points ≡ true)
    weaken k x y points (inl same) miss = inl same
    weaken k x y points (inr member) miss = inr (ground (arith, member, miss))

pub time_points-Risen : (turns : List Turn) → Risen (time_points turns)
unfolding time_points
time_points-Risen [] = tt
time_points-Risen (turn ∷ turns) =
    add_point-Risen turn.start _
      (add_point-Risen turn.end_ (time_points turns) (time_points-Risen turns))

abbrev pub Within : List ℕ → Turn → Type 0
Within points turn = (elem turn.start points ≡ true) × (elem turn.end_ points ≡ true)

add_point-Within :
    (x : ℕ) (points : List ℕ) (turns : List Turn)
    → All (Within points) turns
    → All (Within (add_point x points)) turns
add_point-Within x points [] h = tt
add_point-Within x points (turn ∷ turns) h = (
  (elem-add_point turn.start x points (inr h.0.0), elem-add_point turn.end_ x points (inr h.0.1)),
  add_point-Within x points turns h.1,
)

pub time_points-Within : (turns : List Turn) → All (Within (time_points turns)) turns
unfolding time_points
time_points-Within [] = tt
time_points-Within (turn ∷ turns) =
    let ends = add_point turn.end_ (time_points turns) in
    (
      (
        elem-add_point turn.start turn.start ends (inl refl),
        elem-add_point turn.end_ turn.start ends
            (inr (elem-add_point turn.end_ turn.end_ (time_points turns) (inl refl))),
      ),
      add_point-Within turn.start ends turns
          (add_point-Within turn.end_ (time_points turns) turns (time_points-Within turns)),
    )
