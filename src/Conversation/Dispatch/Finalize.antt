-- ===== src/Conversation/Dispatch/Finalize.antt =====
-- What the passes of the finalizer make of a row.
use inuself.Base.{
  ℕ, ◌-◌, ◌≡◌, refl, ap, ◌∙◌, Bool, true, false, ◌&&◌, ◌||◌, Option, none, some, List, [], ◌∷◌,
  ◌==◌, ℕ_eq, String_eq, ==_iff, elem, inl, inr, Bool-cases, Option-cases, if◌then◌else◌,
}
use inuself.Conversation.Messages.{
  Message, Messages, is_active, is_stale, stale_failure, update_where,
  fail_stale_active_assistant_message, put_row,
}
use inuself.Conversation.Worker.{Acquired, acquired, held, redis_down, failure_content}
use inuself.Conversation.Dispatch.{
  finalize_one, finalize_each, finalize_stale_active_agent_messages, active_job_ttl,
  get_stale_active_assistant_messages,
}

abbrev pub is_acquired : Acquired → Bool
is_acquired acquired = true
is_acquired held = false
is_acquired redis_down = false

-- A row as the finalizer writes it: failed when it is stale.
abbrev pub failed_row : ℕ → Option Message → Option Message
failed_row cutoff none = none
failed_row cutoff (some m) =
    if is_stale cutoff m then some (stale_failure failure_content m) else some m

failed_stays :
    (cutoff : ℕ) (m : Message) → is_stale cutoff (stale_failure failure_content m) ≡ false
unfolding is_stale is_active
failed_stays cutoff m = elim (Bool-cases (m.role == "assistant")) [
  | inl e ↦ rw e refl
  | inr e ↦ rw e refl
]

failed_twice :
    (cutoff : ℕ) (row : Option Message)
    → failed_row cutoff (failed_row cutoff row) ≡ failed_row cutoff row
failed_twice cutoff none = refl
failed_twice cutoff (some m) = elim (Bool-cases (is_stale cutoff m)) [
  | inl e ↦ rw e (rw (failed_stays cutoff m) refl)
  | inr e ↦ rw e (rw e refl)
]

fail_stale_row :
    (i j cutoff : ℕ) (t : Messages)
    → (fail_stale_active_assistant_message i cutoff failure_content t).0 j
      ≡ (if i == j then failed_row cutoff (t j) else t j)
unfolding fail_stale_active_assistant_message update_where
fail_stale_row i j cutoff t = elim (Option-cases (t i)) [
  | inl miss ↦ rw (miss, update_where) (absent miss)
  | inr (m, found) ↦ elim (Bool-cases (is_stale cutoff m)) [
    | inl stale ↦ rw (found, update_where, stale) (same_row m found stale)
    | inr fresh ↦ rw (found, update_where, fresh) (fresh_row m found fresh)
  ]
]
  where
    After : Type 0
    After = t j ≡ (if i == j then failed_row cutoff (t j) else t j)

    absent : t i ≡ none → After
    absent miss = elim (Bool-cases (i == j)) [
      | inr others ↦ rw others refl
      | inl own ↦ let at_j : t j ≡ none = rw ((==_iff i j).0 own) at miss in rw own (rw at_j refl)
    ]

    fresh_row : (m : Message) → t i ≡ some m → is_stale cutoff m ≡ false → After
    fresh_row m found fresh = elim (Bool-cases (i == j)) [
      | inr others ↦ rw others refl
      | inl own ↦
          let at_j : t j ≡ some m = rw ((==_iff i j).0 own) at found in
          rw own (rw (at_j) (rw fresh refl))
    ]

    same_row :
        (m : Message)
        → t i ≡ some m
        → is_stale cutoff m ≡ true
        → put_row i (some (stale_failure failure_content m)) t j
          ≡ (if i == j then failed_row cutoff (t j) else t j)
    same_row m found stale = elim (Bool-cases (i == j)) [
      | inr others ↦ rw others refl
      | inl own ↦
          let at_j : t j ≡ some m = rw ((==_iff i j).0 own) at found in
          rw own (rw at_j (rw stale refl))
    ]

finalize_one_row :
    (i j cutoff : ℕ) (lock : Acquired) (t : Messages)
    → (finalize_one cutoff lock i t).0 j
      ≡ (if is_acquired lock && i == j then failed_row cutoff (t j) else t j)
unfolding finalize_one
finalize_one_row i j cutoff acquired t = fail_stale_row i j cutoff t
finalize_one_row i j cutoff held t = refl
finalize_one_row i j cutoff redis_down t = refl

-- Two passes over a row make one; `other` is read only where the row is the pass's own.
twice :
    (cutoff : ℕ) (row : Option Message) (lock own later other : Bool)
    → (own ≡ true → other ≡ lock)
    → (let once = if other && own then failed_row cutoff row else row in
        if lock && later then failed_row cutoff once else once)
      ≡ (if lock && (own || later) then failed_row cutoff row else row)
twice cutoff row lock true later other same = rw (same refl) (go lock later)
  where
    go :
        (lock later : Bool)
        → (let once = if lock && true then failed_row cutoff row else row in
            if lock && later then failed_row cutoff once else once)
          ≡ (if lock && true then failed_row cutoff row else row)
    go false later = refl
    go true false = refl
    go true true = failed_twice cutoff row
twice cutoff row lock false later true same = refl
twice cutoff row lock false later false same = refl

finalize_each_row :
    (cutoff : ℕ) (locks : ℕ → Acquired) (is : List ℕ) (t : Messages) (j : ℕ)
    → (finalize_each cutoff locks is t).0 j
      ≡ (if is_acquired (locks j) && elem j is then failed_row cutoff (t j) else t j)
finalize_each_row cutoff locks [] t j = elim (Bool-cases (is_acquired (locks j))) [
  | inl e ↦ rw e refl
  | inr e ↦ rw e refl
]
finalize_each_row cutoff locks (i ∷ is) t j =
    finalize_each_row cutoff locks is (finalize_one cutoff (locks i) i t).0 j
    ∙ (rw (finalize_one_row i j cutoff (locks i) t) both)
  where
    both :
        (if is_acquired (locks j) && elem j is
          then failed_row cutoff
              (if is_acquired (locks i) && i == j then failed_row cutoff (t j) else t j)
          else (if is_acquired (locks i) && i == j then failed_row cutoff (t j) else t j))
        ≡ (if is_acquired (locks j) && (i == j || elem j is) then failed_row cutoff (t j) else t j)
    both =
        twice cutoff (t j) (is_acquired (locks j)) (i == j) (elem j is) (is_acquired (locks i))
          (λ own. ap (λ k. is_acquired (locks k)) ((==_iff i j).0 own))

-- A row after the finalizer, by the code's own scan and the row that it writes.
pub finalize_row :
    (now : ℕ) (locks : ℕ → Acquired) (ids : List ℕ) (t : Messages) (j : ℕ)
    → (finalize_stale_active_agent_messages now locks ids t).0 j ≡ (
        if is_acquired (locks j)
          && elem j (get_stale_active_assistant_messages (now - active_job_ttl) ids t)
        then failed_row (now - active_job_ttl) (t j)
        else t j)
unfolding finalize_stale_active_agent_messages
finalize_row now locks ids t j =
    finalize_each_row (now - active_job_ttl) locks
      (get_stale_active_assistant_messages (now - active_job_ttl) ids t) t j
