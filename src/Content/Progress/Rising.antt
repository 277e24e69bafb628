-- ===== src/Content/Progress/Rising.antt =====
-- What a tracker publishes rises, within the whole.
use inuself.Base.{
  ◌≡◌, ℕ, zero, suc, ◌-◌, ◌*◌, ◌≤◌, max, String, Option, none, some, List, [], ◌∷◌, ◌==◌, String_eq,
  get_elem?, All, leb, arith, inl, inr, Bool-cases, if◌then◌else◌,
}
use inuself.Content.Progress.{
  Phase, Sent, ProgressTracker, new_tracker, last, or_else, current_phase, phase_name, emit,
  set_progress, reach, advance_phase, mapped, should_publish, update_in, update, Call, sets,
  advances, updates, call, calls,
}

abbrev pub PhaseWithin : Phase → Type 0
PhaseWithin p = (p.start ≤ p.end_) × (p.end_ ≤ 100)

-- The values of a call are per cents.
abbrev pub CallWithin : Call → Type 0
CallWithin (sets now progress message step) = progress ≤ 1000000
CallWithin advances = Unit
CallWithin (updates now raw message) = raw ≤ 10000

-- Latest first, no callback is above the one after it.
abbrev pub Rising : ℕ → List Sent → Type 0
Rising bound [] = Unit
Rising bound (s ∷ ss) = (s.progress ≤ bound) × Rising s.progress ss

Rising-higher : (a b : ℕ) (ss : List Sent) → a ≤ b → Rising a ss → Rising b ss
Rising-higher a b [] le r = tt
Rising-higher a b (s ∷ ss) le (here, rest) = (omega (arith, le, here), rest)

abbrev WithinOption : Option Phase → Type 0
WithinOption none = Unit
WithinOption (some p) = PhaseWithin p

get_elem?-Within : (ps : List Phase) (i : ℕ) → All PhaseWithin ps → WithinOption (get_elem? ps i)
get_elem?-Within [] i a = tt
get_elem?-Within (p ∷ ps) zero a = a.0
get_elem?-Within (p ∷ ps) (suc i) a = get_elem?-Within ps i a.1

last-Within : (ps : List Phase) → All PhaseWithin ps → WithinOption (last ps)
last-Within [] a = tt
last-Within (p ∷ []) a = a.0
last-Within (p ∷ q ∷ ps) a = last-Within (q ∷ ps) a.1

current_phase-Within :
    (t : ProgressTracker) → All PhaseWithin t.phases → WithinOption (current_phase t)
unfolding current_phase
current_phase-Within t a =
    go (get_elem? t.phases t.phase_idx) (get_elem?-Within t.phases t.phase_idx a)
  where
    go : (o : Option Phase) → WithinOption o → WithinOption (or_else o (last t.phases))
    go none w = last-Within t.phases a
    go (some p) w = w

mul_mono : (a b d : ℕ) → a ≤ b → a * d ≤ b * d
mul_mono a b zero le = omega arith
mul_mono a b (suc d) le = omega (arith, le, mul_mono a b d le)

mapped_bound : (p : Phase) (raw : ℕ) → PhaseWithin p → raw ≤ 10000 → mapped p raw ≤ 1000000
unfolding mapped
mapped_bound p raw (ordered, low) small = elim (Bool-cases (leb p.start p.end_)) [
  | inl e ↦
      rw (e, mapped) (omega (arith, ordered, low, mul_mono raw 10000 (p.end_ - p.start) small))
  | inr e ↦ absurd (ground (arith, e, ordered))
]

-- What is documented of the rounding to a tenth: it keeps the order, and a hundred per cent.
pub record Rounds (round_tenth : ℕ → ℕ) : Type 0 where
  pub keeps_order : (a b : ℕ) → a ≤ b → round_tenth a ≤ round_tenth b
  pub keeps_whole : round_tenth 1000000 ≡ 1000000

module _ (round_tenth : ℕ → ℕ) (rounds : Rounds round_tenth) where
  record Sound (t : ProgressTracker) : Type 0 where
    phases_within : All PhaseWithin t.phases
    raw_within : t.raw ≤ 10000
    published_within : t.published ≤ 1000000
    rising : Rising (round_tenth t.published) t.sent

  emit-Sound :
      (now progress : ℕ) (step message : String) (t : ProgressTracker)
      → t.published ≤ progress
      → progress ≤ 1000000
      → Sound t
      → Sound (emit round_tenth now progress step message t)
  emit-Sound now progress step message t up low sound = record {
    phases_within = sound.phases_within;
    raw_within = sound.raw_within;
    published_within = low;
    rising = (
      omega arith,
      Rising-higher (round_tenth t.published) (round_tenth progress) t.sent
          (rounds.keeps_order t.published progress up) sound.rising,
    );
  }

  update_in-Sound :
      (o : Option Phase) (now raw : ℕ) (message : String) (t : ProgressTracker)
      → WithinOption o
      → raw ≤ 10000
      → Sound t
      → Sound (update_in round_tenth o now raw message t)
  update_in-Sound none now raw message t w small sound = sound
  update_in-Sound (some p) now raw message t w small sound =
      let position = max (mapped p raw) t.published in
      elim (Bool-cases (should_publish now raw position t)) [
        | inr quiet ↦ rw quiet sound
        | inl loud ↦ rw loud (
            emit-Sound now position p.name message t (omega arith)
              (omega (arith, mapped_bound p raw w small, sound.published_within)) sound)
      ]

  reach-within :
      (o : Option Phase) (n : ℕ)
      → WithinOption o
      → n ≤ 1000000
      → (n ≤ reach o n) × (reach o n ≤ 1000000)
  reach-within none n w low = (omega arith, low)
  reach-within (some p) n w low = (omega arith, omega (arith, w.1, low))

  call-Sound :
      (c : Call) (t : ProgressTracker) → CallWithin c → Sound t → Sound (call round_tenth c t)
  unfolding call set_progress advance_phase update
  call-Sound (sets now progress message step) t low sound =
      emit-Sound now (max progress t.published)
        (if step == "" then phase_name (current_phase t) else step) message t (omega arith)
        (omega (arith, low, sound.published_within)) sound
  call-Sound advances t low sound =
      let phase = current_phase-Within t sound.phases_within in
      let (up, whole) = reach-within (current_phase t) t.published phase sound.published_within in
      record {
        phases_within = sound.phases_within;
        raw_within = omega arith;
        published_within = whole;
        rising =
            Rising-higher (round_tenth t.published)
              (round_tenth (reach (current_phase t) t.published)) t.sent
              (rounds.keeps_order t.published (reach (current_phase t) t.published) up)
              sound.rising;
      }
  call-Sound (updates now raw message) t low sound =
      update_in-Sound (current_phase t) now (max raw t.raw) message
        (record t { raw = max raw t.raw }) (current_phase-Within t sound.phases_within)
        (omega (arith, low, sound.raw_within))
        (record {
          phases_within = sound.phases_within;
          raw_within = omega (arith, low, sound.raw_within);
          published_within = sound.published_within;
          rising = sound.rising;
        })

  calls-Sound :
      (cs : List Call) (t : ProgressTracker)
      → All CallWithin cs
      → Sound t
      → Sound (calls round_tenth cs t)
  calls-Sound [] t a sound = sound
  calls-Sound (c ∷ cs) t a sound =
      calls-Sound cs (call round_tenth c t) a.1 (call-Sound c t a.0 sound)

-- Whatever calls are made of a new tracker whose phases are ordered ends within a hundred per cent,
-- with per cents as values, where rounding keeps the order and a hundred per cent: its progress is
-- within a hundred per cent, and its callbacks never go back, the last one being at most at the
-- progress rounded, which is within a hundred per cent too.
pub calls-Rising :
    (round_tenth : ℕ → ℕ) (phases : List Phase) (throttle_sec min_delta : ℕ) (cs : List Call)
    → Rounds round_tenth
    → All PhaseWithin phases
    → All CallWithin cs
    → let t = calls round_tenth cs (new_tracker phases throttle_sec min_delta) in
      (t.published ≤ 1000000)
      × Rising (round_tenth t.published) t.sent
      × (round_tenth t.published ≤ 1000000)
unfolding new_tracker
calls-Rising round_tenth phases throttle_sec min_delta cs rounds within calls_within =
    let t = calls round_tenth cs (new_tracker phases throttle_sec min_delta) in
    let sound =
      calls-Sound round_tenth rounds cs (new_tracker phases throttle_sec min_delta) calls_within
        (record {
          phases_within = within;
          raw_within = omega arith;
          published_within = omega arith;
          rising = tt;
        }) in
    (
      sound.published_within,
      sound.rising,
      omega (
        arith,
        rounds.keeps_order t.published 1000000 sound.published_within,
        rounds.keeps_whole,
      ),
    )
