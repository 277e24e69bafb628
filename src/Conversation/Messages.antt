-- ===== src/Conversation/Messages.antt =====
-- backend/app/repositories/thread_repository.py: the messages of the threads, and the statements on
-- an assistant's message that is being answered. The table is a function of the message's id; a
-- statement is one atomic update, and gives whether it changed a row.
pub mod Kept
use inuself.Base.{
  ℕ, String, Bool, true, false, not, ◌&&◌, Option, none, some, List, [], ◌∷◌, ◌==◌, ℕ_eq, String_eq,
  elem, ltb, if◌then◌else◌,
}
use inuself.Gateway.Json.{Fields}

pub record Message : Type 0 where
  pub thread_id : ℕ
  pub role : String
  pub content : String
  pub partial_content : Option String
  pub status : String
  pub created_at : ℕ
  pub metadata : Fields

abbrev pub Messages : Type 0
Messages = ℕ → Option Message

-- ACTIVE_ASSISTANT_STATUSES.
abbrev pub active_assistant_statuses : List String
active_assistant_statuses = "queued" ∷ "analyzing" ∷ "searching" ∷ "thinking" ∷ "generating" ∷ []

-- The condition on role and status that the statements share.
unfoldable pub is_active : Message → Bool
is_active m = m.role == "assistant" && elem m.status active_assistant_statuses

abbrev pub put_row : ℕ → Option Message → Messages → Messages
put_row i row t j = if i == j then row else t j

-- `UPDATE … WHERE id = i AND test`, with `rowcount == 1`.
unfoldable pub update_where :
    ℕ → (Message → Bool) → (Message → Message) → Messages → Messages × Bool
update_where i test change t = elim (t i) [
  | none ↦ (t, false)
  | some m ↦ if test m then (put_row i (some (change m)) t, true) else (t, false)
]

unfoldable pub update_active_assistant_message :
    ℕ → (Message → Message) → Messages → Messages × Bool
update_active_assistant_message i values t = update_where i is_active values t

unfoldable pub is_stale : ℕ → Message → Bool
is_stale created_before m = is_active m && ltb m.created_at created_before

-- The values that a stale message is given.
abbrev pub stale_failure : String → Message → Message
stale_failure content m = record m { status = "failed"; content = content; partial_content = none }

unfoldable pub fail_stale_active_assistant_message : ℕ → ℕ → String → Messages → Messages × Bool
fail_stale_active_assistant_message i created_before content t =
    update_where i (is_stale created_before) (stale_failure content) t

unfoldable pub delete_message : ℕ → Messages → Messages
delete_message i t = put_row i none t
