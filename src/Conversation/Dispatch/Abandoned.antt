-- ===== src/Conversation/Dispatch/Abandoned.antt =====
-- Which abandoned messages the finalizer fails, and what it writes.
use mathlib.Core.Path.{fun_ext}
use inuself.Base.{
  sym, ℕ, suc, zero, ◌-◌, ◌<◌, ◌≡◌, refl, ap, ◌∙◌, Bool, true, false, ◌&&◌, Option, none, some,
  List, [], ◌∷◌, ◌++◌, ◌==◌, ℕ_eq, String_eq, ==_iff, ==_refl, elem, take, filter, count, ltb, inl,
  inr, arith, Bool-cases, Option-cases,
}
use inuself.Conversation.Messages.{Message, Messages, is_active, is_stale}
use inuself.Conversation.Worker.{Acquired, acquired, held, redis_down}
use inuself.Conversation.Dispatch.{
  row_test, finalize_stale_active_agent_messages, active_job_ttl,
  get_stale_active_assistant_messages,
}
use inuself.Conversation.Dispatch.Finalize.{finalize_row, is_acquired}

-- A row that is being answered, and was created more than two hours ago.
abbrev pub abandoned : ℕ → Option Message → Bool
abandoned now none = false
abandoned now (some m) =
    (m.role == "assistant"
      && elem m.status ("queued" ∷ "analyzing" ∷ "searching" ∷ "thinking" ∷ "generating" ∷ []))
    && ltb m.created_at (now - 7200)

-- The message `j` is abandoned, the finalizer has its lock, and it stands in the scan after less
-- than a hundred that are abandoned.
pub record Due (now : ℕ) (locks : ℕ → Acquired) (ids : List ℕ) (t : Messages) (j : ℕ) : Type 0 where
  pub is_abandoned : abandoned now (t j) ≡ true
  pub locked : locks j ≡ acquired
  pub before : List ℕ
  pub after : List ℕ
  pub place : ids ≡ before ++ (j ∷ after)
  pub early : count (λ i. abandoned now (t i)) before < 100

module _ (p : ℕ → Bool) (j : ℕ) where
  -- The place of an element that is among the first `n` that pass.
  elem-take :
      (n : ℕ) (ids : List ℕ)
      → elem j (take n (filter p ids)) ≡ true
      → (p j ≡ true)
        × ((before : List ℕ) × (after : List ℕ) × (ids ≡ before ++ (j ∷ after))
            × (count p before < n))
  elem-take n [] e = absurd (cc)
  elem-take n (i ∷ is) e = elim (Bool-cases (p i)) [
    | inr fails ↦
        let (pass, (before, after, place, early)) = elem-take n is (rw fails at e) in
        (pass, (i ∷ before, after, ap (◌∷◌ i) place, ground (arith, fails, early)))
    | inl passes ↦ first n passes (rw passes at e) (λ m. elem-take m is)
  ]
    where
      first :
          (n : ℕ)
          → p i ≡ true
          → elem j (take n (i ∷ filter p is)) ≡ true
          → ((m : ℕ)
              → elem j (take m (filter p is)) ≡ true
              → (p j ≡ true)
                × ((before : List ℕ) × (after : List ℕ) × (is ≡ before ++ (j ∷ after))
                    × (count p before < m)))
          → (p j ≡ true)
            × ((before : List ℕ) × (after : List ℕ) × (i ∷ is ≡ before ++ (j ∷ after))
                × (count p before < n))
      first zero passes e ih = absurd (cc)
      first (suc m) passes e ih = elim (Bool-cases (i == j)) [
        | inl own ↦
            let same : i ≡ j = (==_iff i j).0 own in
            (rw same at passes, ([], is, ap (λ k. k ∷ is) same, omega arith))
        | inr other ↦
            let (pass, (before, after, place, early)) = ih m (rw other at e) in
            (pass, (i ∷ before, after, ap (◌∷◌ i) place, ground (arith, passes, early)))
      ]

  take-elem :
      (n : ℕ) (before after : List ℕ)
      → p j ≡ true
      → count p before < n
      → elem j (take n (filter p (before ++ (j ∷ after)))) ≡ true
  take-elem zero before after pass early = absurd (omega (arith, early))
  take-elem (suc n) [] after pass early = rw pass (rw (==_refl j) refl)
  take-elem (suc n) (i ∷ before) after pass early = elim (Bool-cases (p i)) [
    | inl passes ↦ rw passes (
        ground
          (arith, passes, early, take-elem n before after pass (ground (arith, passes, early))))
    | inr fails ↦ rw fails (take-elem (suc n) before after pass (ground (arith, fails, early)))
  ]

row_test-abandoned :
    (now i : ℕ) (t : Messages)
    → row_test (is_stale (now - active_job_ttl)) t i ≡ abandoned now (t i)
unfolding is_stale is_active
row_test-abandoned now i t = elim (Option-cases (t i)) [
  | inl miss ↦ rw (miss, row_test) refl
  | inr (m, found) ↦ rw (found, row_test) refl
]

-- A row that the finalizer finds due, with the lock, is among the scanned ones, and conversely.
scanned-Due :
    (now : ℕ) (locks : ℕ → Acquired) (ids : List ℕ) (t : Messages) (j : ℕ)
    → (is_acquired (locks j)
        && elem j (get_stale_active_assistant_messages (now - active_job_ttl) ids t))
      ≡ true
    → Due now locks ids t j
unfolding get_stale_active_assistant_messages
scanned-Due now locks ids t j e =
    let tests = fun_ext (λ i. row_test-abandoned now i t) in
    let inside : elem j (take 100 (filter (λ i. abandoned now (t i)) ids)) ≡ true =
      ground (arith, ap (λ p. elem j (take 100 (filter p ids))) tests, e) in
    let (pass, (before, after, place, early)) =
      elem-take (λ i. abandoned now (t i)) j 100 ids inside in
    record {
      is_abandoned = pass;
      locked = lock (locks j) (ground (arith, e));
      before = before;
      after = after;
      place = place;
      early = early;
    }
  where
    lock : (a : Acquired) → is_acquired a ≡ true → a ≡ acquired
    lock acquired h = refl
    lock held h = absurd (cc)
    lock redis_down h = absurd (cc)

Due-scanned :
    (now : ℕ) (locks : ℕ → Acquired) (ids : List ℕ) (t : Messages) (j : ℕ)
    → Due now locks ids t j
    → (is_acquired (locks j)
        && elem j (get_stale_active_assistant_messages (now - active_job_ttl) ids t))
      ≡ true
unfolding get_stale_active_assistant_messages
Due-scanned now locks ids t j due =
    let tests = fun_ext (λ i. row_test-abandoned now i t) in
    rw (due.locked, due.place)
      (ap (λ p. elem j (take 100 (filter p (due.before ++ (j ∷ due.after))))) tests
        ∙ take-elem (λ i. abandoned now (t i)) j 100 due.before due.after due.is_abandoned
            due.early)

-- A row after the finalizer: a message that is due is failed, with all but its status and texts as
-- it was, and any other row is as it was.
pub data Finalized (now : ℕ) (locks : ℕ → Acquired) (ids : List ℕ) (t : Messages) (j : ℕ)
    (row : Option Message) : Type 0 where
  fails :
      (m : Message)
      → t j ≡ some m
      → Due now locks ids t j
      → row
        ≡ some (record m {
          status = "failed";
          content = "This response could not be completed. Please try again.";
          partial_content = none;
        })
      → Finalized now locks ids t j row
  stays : ¬ Due now locks ids t j → row ≡ t j → Finalized now locks ids t j row

stale_test : (now : ℕ) (m : Message) → abandoned now (some m) ≡ is_stale (now - active_job_ttl) m
stale_test now m = sym (row_test-abandoned now 0 (λ i. some m))

-- The finalizer fails the messages that are due, and gives them the failure's text and no partial
-- content, with all else as it was: those that are answered by an assistant, have an active status
-- and were created more than two hours ago, whose lock it has, and which stand in the scan after
-- less than a hundred such. It leaves every other row as it was.
pub finalize_stale_active_agent_messages_lem :
    (now : ℕ) (locks : ℕ → Acquired) (ids : List ℕ) (t : Messages) (j : ℕ)
    → Finalized now locks ids t j ((finalize_stale_active_agent_messages now locks ids t).0 j)
finalize_stale_active_agent_messages_lem now locks ids t j =
    let by_code = finalize_row now locks ids t j in
    elim (Bool-cases (
      is_acquired (locks j)
      && elem j (get_stale_active_assistant_messages (now - active_job_ttl) ids t))) [
        | inr e ↦ stays (λ due. cc (e, Due-scanned now locks ids t j due)) (by_code ∙ rw e refl)
        | inl e ↦
            let due = scanned-Due now locks ids t j e in
            elim (Option-cases (t j)) [
              | inl miss ↦ absurd (cc (rw miss at due.is_abandoned))
              | inr (m, found) ↦
                  let old : abandoned now (some m) ≡ true = rw found at due.is_abandoned in
                  fails m found due
                    (by_code ∙ rw e (rw found (rw (sym (stale_test now m) ∙ old) refl)))
            ]
      ]
