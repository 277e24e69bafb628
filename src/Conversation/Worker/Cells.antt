-- ===== src/Conversation/Worker/Cells.antt =====
-- The life of a message, as an abstract machine: it is open while it is being answered, is closed
-- once, and is not opened again. The table's rows follow it through a run.
use mathlib.Core.Path.{subst}
use inuself.Base.{
  ℕ, String, ◌≡◌, ◌⊎◌, refl, Bool, true, false, Option, none, some, List, [], ◌∷◌, ◌==◌, ℕ_eq,
  ==_iff, ok, arith, inl, inr, Bool-cases, Option-cases, if◌then◌else◌,
}
use inuself.Gateway.Json.{Fields, Elements, no_elements, element, get}
use inuself.Conversation.Fields.{Library, set_field}
use inuself.Conversation.Messages.{
  Message, Messages, is_active, is_stale, update_where, update_active_assistant_message,
  fail_stale_active_assistant_message, put_row, stale_failure, delete_message,
}
use inuself.Conversation.Saves.{
  Job, save_status, save_partial, save_completed, with_status, with_partial, with_completed, number,
  updated_or_terminal, delete_replaced, delete_all_replaced, is_replaced, elements_of,
}
use inuself.Conversation.Saves.Final.{or_terminal_ok, save_completed_done}
use inuself.Conversation.Worker.{Tick, Acquired, run_agent_message, others_act, failure_content}
use inuself.Conversation.Worker.Kept.{Stable}
use inuself.Conversation.Worker.Whole.{run_agent_message-Stable}

pub data Cell : Type 0 where
  absent opened : Cell
  closed : Message → Cell

-- A closed cell keeps the whole message.
unfoldable pub cell : Option Message → Cell
cell none = absent
cell (some m) = if is_active m then opened else closed m

pub data Next : Cell → Cell → Type 0 where
  closes : (m : Message) → Next opened (closed m)
  drops : {c : Cell} → Next c absent

pub data Walk (c : Cell) : Cell → Type 0 where
  stop : Walk c c
  more : (d : Cell) {e : Cell} → Walk c d → Next d e → Walk c e

module _ (c : Cell) (j : ℕ) where
  abbrev At : Messages → Type 0
  At t = Walk c (cell (t j))

  changed_row :
      (n n' : Message) → is_active n ≡ true → Walk c (cell (some n)) → Walk c (cell (some n'))
  unfolding cell
  changed_row n n' active w = elim (Bool-cases (is_active n')) [
    | inl still ↦ rw still (rw active at w)
    | inr over ↦ rw over (more opened (rw active at w) (closes n'))
  ]

  update_where-At :
      (k : ℕ) (test : Message → Bool) (change : Message → Message) (t : Messages)
      → ((n : Message) → test n ≡ true → is_active n ≡ true)
      → At t
      → At (update_where k test change t).0
  unfolding update_where
  update_where-At k test change t active w = elim (Option-cases (t k)) [
    | inl miss ↦ rw (miss, update_where) w
    | inr (n, found) ↦ elim (Bool-cases (test n)) [
      | inr refused ↦ rw (found, update_where, refused) w
      | inl passed ↦ rw (found, update_where, passed) (written n found passed (Bool-cases (k == j)))
    ]
  ]
    where
      written :
          (n : Message)
          → t k ≡ some n
          → test n ≡ true
          → (((k == j) ≡ true) ⊎ ((k == j) ≡ false))
          → Walk c (cell (put_row k (some (change n)) t j))
      written n found passed (inr others) = rw others w
      written n found passed (inl own) =
          let row : t j ≡ some n = rw ((==_iff k j).0 own) at found in
          rw own (changed_row n (change n) (active n passed) (subst (λ r. Walk c (cell r)) row w))

  active-At :
      (k : ℕ) (change : Message → Message) (t t' : Messages)
      → updated_or_terminal (update_active_assistant_message k change t) ≡ ok t'
      → At t
      → At t'
  unfolding update_active_assistant_message
  active-At k change t t' e w =
      subst (λ p. At p.0) (or_terminal_ok (update_where k is_active change t) e)
        (update_where-At k is_active change t (λ n p. p) w)

  others_act-At : (acts : List (ℕ × ℕ)) (t : Messages) → At t → At (others_act acts t)
  unfolding fail_stale_active_assistant_message is_stale
  others_act-At [] t w = w
  others_act-At ((k, cutoff) ∷ rest) t w = others_act-At rest _ (
      update_where-At k (is_stale cutoff) (stale_failure failure_content) t
        (λ n p. ground (arith, p)) w)

  save_partial-At :
      (i : ℕ) (text : String) (sequence : ℕ) (t t' : Messages)
      → save_partial i text sequence t ≡ ok t'
      → At t
      → At t'
  unfolding save_partial
  save_partial-At i text sequence t t' e w = elim (Option-cases (t i)) [
    | inl miss ↦ absurd (cc (rw (miss, save_partial) at e))
    | inr (current, found) ↦
        active-At i
          (with_partial text (set_field "_content_sequence" (number sequence) current.metadata)) t
          t' (rw (found, save_partial) at e) w
  ]

  delete_replaced-At :
      (i thread : ℕ) (o : Option ℕ) (t : Messages) → At t → At (delete_replaced i thread o t)
  unfolding delete_message cell
  delete_replaced-At i thread none t w = w
  delete_replaced-At i thread (some k) t w = elim (Bool-cases (is_replaced i thread k (t k))) [
    | inr kept ↦ rw kept w
    | inl replaced ↦ rw replaced (elim (Bool-cases (k == j)) [
      | inr others ↦ rw others w
      | inl own ↦ rw own (more (cell (t j)) w drops)
    ])
  ]

  delete_all_replaced-At :
      (x : Library) (i thread : ℕ) (vs : Elements) (t : Messages)
      → At t
      → At (delete_all_replaced x i thread vs t)
  delete_all_replaced-At x i thread no_elements t w = w
  delete_all_replaced-At x i thread (element v vs) t w =
      delete_all_replaced-At x i thread vs _ (delete_replaced-At i thread (x.uuid (x.str v)) t w)

  save_completed-At :
      (x : Library) (i : ℕ) (text : String) (metadata : Fields) (t t' : Messages)
      → save_completed x i text metadata t ≡ ok t'
      → At t
      → At t'
  save_completed-At x i text metadata t t' e w =
      let (current, u, found, updated, replaced) = save_completed_done x i text metadata t t' e in
      subst At replaced (
        delete_all_replaced-At x i current.thread_id
          (elements_of (get "replaces_message_ids" metadata)) u
          (active-At i (with_completed text metadata) t u updated w))

  At-Stable : (x : Library) (i : ℕ) → Stable x i At
  unfolding save_status
  At-Stable x i = record {
    others = others_act-At;
    status = λ s text metadata t t' e w. active-At i (with_status s text metadata) t t' e w;
    partial = save_partial-At i;
    completion = save_completed-At x i;
  }

-- Whatever a run does, and others to stale messages meanwhile, each row of the table goes by the
-- machine of a message's life: from its cell before to its cell after there is a walk that closes what
-- is open at most once, never opens again or rewrites what is closed, and may end with its deletion.
pub run_agent_message-Walk :
    (x : Library) (job : Job) (threads : ℕ → Option ℕ) (acquire : Acquired) (ticks : List Tick)
    (late : Bool) (t : Messages) (j : ℕ)
    → Walk (cell (t j)) (cell ((run_agent_message x job threads acquire ticks late t).1.messages j))
run_agent_message-Walk x job threads acquire ticks late t j =
    run_agent_message-Stable x job (At (cell (t j)) j)
      (At-Stable (cell (t j)) j x job.assistant_message_id) threads acquire ticks late t stop

step_of_closed :
    (m : Message) (c : Cell) {d : Cell}
    → ((c ≡ closed m) ⊎ (c ≡ absent))
    → Next c d
    → (d ≡ closed m) ⊎ (d ≡ absent)
step_of_closed m c was drops = inr refl
step_of_closed m opened (inl is) (closes n) = cc
step_of_closed m opened (inr is) (closes n) = cc

-- A walk from a closed cell stays there, or ends in the deletion.
pub Walk-closed : (m : Message) {d : Cell} → Walk (closed m) d → (d ≡ closed m) ⊎ (d ≡ absent)
Walk-closed m stop = inl refl
Walk-closed m (more c w s) = step_of_closed m c (Walk-closed m w) s
