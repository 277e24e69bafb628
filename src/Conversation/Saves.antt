-- ===== src/Conversation/Saves.antt =====
-- backend/app/tasks/agent_task.py, `_load_run` and the saves. A session whose block raises is
-- rolled back, so a failed save leaves the table as it was. Ids are the parsed ones.
pub mod Final
pub mod Loads
use inuself.Base.{
  ℕ, ◌*◌, String, Bool, true, false, not, ◌&&◌, ◌||◌, Option, none, some, List, [], ◌∷◌, ◌==◌, ℕ_eq,
  String_eq, elem, Result, ok, err, or_fail, guard, ◌>>=◌, ◌>>◌, if◌then◌else◌, or_default,
}
use inuself.Gateway.Json.{
  Value, Fields, Elements, null, num, text, array, obj, no_fields, field, no_elements, element, get,
}
use inuself.Conversation.Fields.{Library, truthy, set_field, pop_field, update_fields}
use inuself.Conversation.Messages.{
  Message, Messages, update_active_assistant_message, delete_message,
}

-- The exceptions of a run: AgentMessageBusy, AgentMessageLockLost, AgentMessageTerminal, RedisError
-- and any other.
pub data Failure : Type 0 where
  busy lock_lost terminal unavailable raised : Failure

pub record Job : Type 0 where
  pub thread_id : ℕ
  pub user_id : ℕ
  pub user_message_id : ℕ
  pub assistant_message_id : ℕ

pub record Loaded : Type 0 where
  pub query : String
  pub mode : String
  pub context : Fields
  pub base_metadata : Fields

-- `value or default`.
abbrev pub or_value : Option Value → Value → Value
or_value none d = d
or_value (some v) d = if truthy v then v else d

abbrev pub run_ids : Library → Job → Fields
run_ids x job = field "thread_id" (text (x.uuid_text job.thread_id)) (
    field "user_id" (text (x.uuid_text job.user_id)) (
      field "user_message_id" (text (x.uuid_text job.user_message_id))
        (field "assistant_message_id" (text (x.uuid_text job.assistant_message_id)) no_fields)))

abbrev pub terminal_statuses : List String
terminal_statuses = "completed" ∷ "failed" ∷ "cancelled" ∷ []

abbrev pub base_metadata_of : Message → Fields
base_metadata_of m = pop_field "_content_sequence" (pop_field "_agent_job" m.metadata)

unfoldable pub loaded_of : Library → Job → Message → Message → Result Failure (Option Loaded)
loaded_of x job user_message assistant_message =
    if elem assistant_message.status terminal_statuses then ok none else do
      context ←
          or_fail
            (x.dict_of
              (or_value (get "context" (base_metadata_of assistant_message)) (obj no_fields)))
            raised
      ok (
          some (record {
            query = user_message.content;
            mode = x.str (or_value (get "mode" (base_metadata_of assistant_message)) (text "auto"));
            context = update_fields context (run_ids x job);
            base_metadata = base_metadata_of assistant_message;
          }))

-- A thread's row is its owner. `none` is a run whose message is final already.
unfoldable pub load_run : Library → Job → (ℕ → Option ℕ) → Messages → Result Failure (Option Loaded)
load_run x job threads t = do
  owner ← or_fail (threads job.thread_id) raised
  guard (owner == job.user_id) raised
  user_message ← or_fail (t job.user_message_id) raised
  assistant_message ← or_fail (t job.assistant_message_id) raised
  guard (user_message.thread_id == job.thread_id && assistant_message.thread_id == job.thread_id)
      raised
  guard (user_message.role == "user" && assistant_message.role == "assistant") raised
  loaded_of x job user_message assistant_message

-- `if not updated: raise AgentMessageTerminal`.
abbrev pub updated_or_terminal : Messages × Bool → Result Failure Messages
updated_or_terminal (t, true) = ok t
updated_or_terminal (t, false) = err terminal

abbrev pub with_status : String → Option String → Option Fields → Message → Message
with_status status content metadata m = record m {
  status = status;
  content = or_default content m.content;
  metadata = or_default metadata m.metadata;
}

unfoldable pub save_status :
    ℕ → String → Option String → Option Fields → Messages → Result Failure Messages
save_status message_id status content metadata t =
    updated_or_terminal
      (update_active_assistant_message message_id (with_status status content metadata) t)

abbrev pub with_partial : String → Fields → Message → Message
with_partial content metadata m = record m {
  partial_content = some content;
  status = "generating";
  metadata = metadata;
}

-- A number that is not negative.
abbrev pub number : ℕ → Value
number n = num true (n * 1000)

unfoldable pub save_partial : ℕ → String → ℕ → Messages → Result Failure Messages
save_partial message_id content content_sequence t = elim (t message_id) [
  | none ↦ err terminal
  | some current ↦ updated_or_terminal (
      update_active_assistant_message message_id
        (with_partial content
          (set_field "_content_sequence" (number content_sequence) current.metadata))
        t)
]

abbrev pub with_completed : String → Fields → Message → Message
with_completed content metadata m = record m {
  status = "completed";
  content = content;
  metadata = metadata;
  partial_content = some "";
}

-- The tests on a row that the message replaces.
abbrev pub is_replaced : ℕ → ℕ → ℕ → Option Message → Bool
is_replaced message_id thread j none = false
is_replaced message_id thread j (some m) =
    not (j == message_id) && m.thread_id == thread && m.role == "assistant"

abbrev pub delete_replaced : ℕ → ℕ → Option ℕ → Messages → Messages
delete_replaced message_id thread none t = t
delete_replaced message_id thread (some j) t =
    if is_replaced message_id thread j (t j) then delete_message j t else t

-- The loop on the replaced messages; an id that comes again finds no row. `dict.fromkeys` raises
-- on an element that is a list or a dictionary.
abbrev pub delete_all_replaced : Library → ℕ → ℕ → Elements → Messages → Messages
delete_all_replaced x message_id thread no_elements t = t
delete_all_replaced x message_id thread (element v vs) t =
    delete_all_replaced x message_id thread vs
      (delete_replaced message_id thread (x.uuid (x.str v)) t)

abbrev pub hashable : Value → Bool
hashable (array vs) = false
hashable (obj fs) = false
hashable v = true

abbrev pub all_hashable : Elements → Bool
all_hashable no_elements = true
all_hashable (element v vs) = hashable v && all_hashable vs

abbrev pub elements_of : Option Value → Elements
elements_of (some (array vs)) = vs
elements_of other = no_elements

unfoldable pub save_completed : Library → ℕ → String → Fields → Messages → Result Failure Messages
save_completed x message_id content metadata t = do
  current ← or_fail (t message_id) raised
  t' ←
      updated_or_terminal
        (update_active_assistant_message message_id (with_completed content metadata) t)
  guard (all_hashable (elements_of (get "replaces_message_ids" metadata))) raised
  ok (
      delete_all_replaced x message_id current.thread_id
        (elements_of (get "replaces_message_ids" metadata)) t')
