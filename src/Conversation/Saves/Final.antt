-- ===== src/Conversation/Saves/Final.antt =====
-- A message that is no longer active, and how the saves find or make it so.
use inuself.Base.{
  ℕ, String, ◌≡◌, refl, ◌∙◌, sym, ap, bind_err, bind_ok, or_fail_err, or_fail_ok, guard-then_err,
  guard-then_ok, Bool, true, false, ◌&&◌, String_eq, Option, none, some, ◌==◌, ℕ_eq, elem, ok, err,
  arith, inl, inr, Bool-cases, Option-cases, or_fail,
}
use inuself.Gateway.Json.{Fields, Elements, no_elements, element, get}
use inuself.Conversation.Fields.{Library, set_field}
use inuself.Conversation.Messages.{
  Message, Messages, is_active, active_assistant_statuses, update_where,
  update_active_assistant_message, delete_message, put_row,
}
use inuself.Conversation.Messages.Kept.{update_where-done}
use inuself.Conversation.Saves.{
  Failure, terminal, raised, save_status, save_partial, save_completed, updated_or_terminal,
  with_status, with_completed, with_partial, number, delete_replaced, delete_all_replaced,
  is_replaced, elements_of,
}

unfoldable pub active_at : ℕ → Messages → Bool
active_at i t = elim (t i) [ none ↦ false | some m ↦ is_active m ]

pub or_terminal_ok :
    (p : Messages × Bool) {t : Messages} → updated_or_terminal p ≡ ok t → p ≡ (t, true)
or_terminal_ok (t, true) e = cc
or_terminal_ok (t, false) e = cc

or_terminal_err :
    (p : Messages × Bool) {f : Failure}
    → updated_or_terminal p ≡ err f
    → (p.1 ≡ false) × (f ≡ terminal)
or_terminal_err (t, true) e = cc
or_terminal_err (t, false) e = (refl, cc)

-- A refused update found no active row.
pub refused_lem :
    (i : ℕ) (change : Message → Message) (t : Messages) (f : Failure)
    → updated_or_terminal (update_active_assistant_message i change t) ≡ err f
    → (active_at i t ≡ false) × (f ≡ terminal)
unfolding update_active_assistant_message update_where active_at
refused_lem i change t f e =
    let (same, is_terminal) = or_terminal_err (update_active_assistant_message i change t) e in
    elim (Option-cases (t i)) [
      | inl miss ↦ rw (miss, active_at) (refl, is_terminal)
      | inr (m, found) ↦ elim (Bool-cases (is_active m)) [
        | inr refused ↦ rw (found, active_at) (refused, is_terminal)
        | inl passed ↦ absurd (ground (arith, found, passed, same))
      ]
    ]

-- An update that is not refused changed the row.
pub updated_lem :
    (i : ℕ) (change : Message → Message) (t t' : Messages)
    → updated_or_terminal (update_active_assistant_message i change t) ≡ ok t'
    → (m : Message) × (t i ≡ some m) × (t' i ≡ some (change m))
unfolding update_active_assistant_message
updated_lem i change t t' e =
    let (m, found, passed, row) =
      update_where-done i is_active change t t'
        (or_terminal_ok (update_where i is_active change t) e) in
    (m, found, row)

pub save_status_refused :
    (i : ℕ) (status : String) (content : Option String) (metadata : Option Fields) (t : Messages)
    (f : Failure)
    → save_status i status content metadata t ≡ err f
    → (active_at i t ≡ false) × (f ≡ terminal)
unfolding save_status
save_status_refused i status content metadata t f e =
    refused_lem i (with_status status content metadata) t f e

pub save_status_done :
    (i : ℕ) (status : String) (content : Option String) (metadata : Option Fields) (t t' : Messages)
    → save_status i status content metadata t ≡ ok t'
    → (m : Message) × (t i ≡ some m) × (t' i ≡ some (with_status status content metadata m))
unfolding save_status
save_status_done i status content metadata t t' e =
    updated_lem i (with_status status content metadata) t t' e

pub save_partial_refused :
    (i : ℕ) (content : String) (sequence : ℕ) (t : Messages) (f : Failure)
    → save_partial i content sequence t ≡ err f
    → (active_at i t ≡ false) × (f ≡ terminal)
unfolding save_partial active_at
save_partial_refused i content sequence t f e = elim (Option-cases (t i)) [
  | inl miss ↦ rw (miss, active_at) (refl, ground (arith, miss))
  | inr (current, found) ↦
      refused_lem i
        (with_partial content (set_field "_content_sequence" (number sequence) current.metadata)) t
        f (rw (found, save_partial) at e)
]

-- The row that the deletions are made for is not deleted.
delete_replaced-own :
    (i thread : ℕ) (o : Option ℕ) (t : Messages) → delete_replaced i thread o t i ≡ t i
unfolding delete_message
delete_replaced-own i thread none t = refl
delete_replaced-own i thread (some j) t = elim (Bool-cases (is_replaced i thread j (t j))) [
  | inr e ↦ rw e refl
  | inl e ↦ rw e (deleted (t j) e)
]
  where
    deleted : (row : Option Message) → is_replaced i thread j row ≡ true → put_row j none t i ≡ t i
    deleted none e = cc
    deleted (some m) e = ground (arith, e)

delete_all_replaced-own :
    (x : Library) (i thread : ℕ) (vs : Elements) (t : Messages)
    → delete_all_replaced x i thread vs t i ≡ t i
delete_all_replaced-own x i thread no_elements t = refl
delete_all_replaced-own x i thread (element v vs) t =
    delete_all_replaced-own x i thread vs (delete_replaced i thread (x.uuid (x.str v)) t)
    ∙ delete_replaced-own i thread (x.uuid (x.str v)) t

-- The loop on the replaced messages.
abbrev replaced_by : Library → ℕ → Fields → Message → Messages → Messages
replaced_by x i metadata current t =
    delete_all_replaced x i current.thread_id (elements_of (get "replaces_message_ids" metadata)) t

-- A completion that ends in AgentMessageTerminal found no active row.
pub save_completed_refused :
    (x : Library) (i : ℕ) (content : String) (metadata : Fields) (t : Messages)
    → save_completed x i content metadata t ≡ err terminal
    → active_at i t ≡ false
unfolding save_completed
save_completed_refused x i content metadata t e = elim (bind_err (or_fail (t i) raised) _ e) [
  | inl missing ↦ absurd (cc ((or_fail_err (t i) raised missing).1))
  | inr (current, found, rest) ↦
      elim (bind_err
        (updated_or_terminal
          (update_active_assistant_message i (with_completed content metadata) t))
        _ rest) [
          | inl refused ↦ (refused_lem i (with_completed content metadata) t terminal refused).0
          | inr (t', updated, last) ↦
              absurd (cc (guard-then_err _ raised (replaced_by x i metadata current t') last))
        ]
]

-- One that succeeds is the update of the row and the deletions.
pub save_completed_done :
    (x : Library) (i : ℕ) (content : String) (metadata : Fields) (t t' : Messages)
    → save_completed x i content metadata t ≡ ok t'
    → (current : Message) × (u : Messages) × (t i ≡ some current)
      × (updated_or_terminal (update_active_assistant_message i (with_completed content metadata) t)
          ≡ ok u)
      × (replaced_by x i metadata current u ≡ t')
unfolding save_completed
save_completed_done x i content metadata t t' e =
    let (current, found, rest) = bind_ok (or_fail (t i) raised) _ e in
    let (u, updated, last) =
      bind_ok
        (updated_or_terminal
          (update_active_assistant_message i (with_completed content metadata) t))
        _ rest in
    let (kept, result) = guard-then_ok _ raised (ok (replaced_by x i metadata current u)) last in
    (current, u, or_fail_ok (t i) raised found, updated, cc)

-- It leaves the row completed with the content.
pub save_completed_row :
    (x : Library) (i : ℕ) (content : String) (metadata : Fields) (t t' : Messages)
    → save_completed x i content metadata t ≡ ok t'
    → (m : Message) × (t' i ≡ some m) × (m.status ≡ "completed") × (m.content ≡ content)
save_completed_row x i content metadata t t' e =
    let (current, u, found, updated, replaced) = save_completed_done x i content metadata t t' e in
    let (m, before, row) = updated_lem i (with_completed content metadata) t u updated in
    (
      with_completed content metadata m,
      ap (λ w. w i) (sym replaced)
          ∙ (delete_all_replaced-own x i current.thread_id
                (elements_of (get "replaces_message_ids" metadata)) u
              ∙ row),
      refl,
      refl,
    )

-- A row whose status is not among the active ones is not active.
pub final_row :
    (i : ℕ) (t : Messages) (m : Message)
    → t i ≡ some m
    → elem m.status active_assistant_statuses ≡ false
    → active_at i t ≡ false
unfolding active_at is_active
final_row i t m row final = rw (row, active_at) (last (m.role == "assistant") final)
  where
    last :
        (b : Bool)
        → elem m.status active_assistant_statuses ≡ false
        → (b && elem m.status active_assistant_statuses) ≡ false
    last true e = e
    last false e = refl
