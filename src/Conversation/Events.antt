-- ===== src/Conversation/Events.antt =====
-- backend/app/tasks/agent_task.py, the loop of `run_agent_message`: what it does at each kind of
-- event of the agent's stream. A publication that Redis refuses is lost, and changes nothing else.
pub mod Notes
pub mod Post
use Prim.Native.String.{◌++◌ as append}
use inuself.Base.{
  ℕ, ◌+◌, String, Bool, true, false, not, ◌&&◌, Option, none, some, List, [], ◌∷◌, ◌==◌, String_eq,
  elem, Result, ok, err, or_default, if◌then◌else◌,
}
use inuself.Gateway.Json.{
  Value, Fields, Elements, null, bool, num, text, array, obj, no_fields, field, no_elements, get,
}
use inuself.Conversation.Fields.{Library, truthy, set_field, append_field, get_or}
use inuself.Conversation.Messages.{Messages}
use inuself.Conversation.Saves.{
  Failure, raised, save_status, save_partial, save_completed, or_value,
}

-- What `_publish` sends on the message's channel.
pub record Sent : Type 0 where
  pub event_type : String
  pub payload : Value
  pub content_sequence : Option ℕ

-- The variables of the loop, the table, and what was published, the latest first.
pub record Run : Type 0 where
  pub full_response : String
  pub content_sequence : ℕ
  pub current_status : String
  pub result_metadata : Fields
  pub messages : Messages
  pub published : List Sent

abbrev pub publish : String → Value → Option ℕ → Run → Run
publish event_type payload sequence r = record r {
  published =
      record { event_type = event_type; payload = payload; content_sequence = sequence }
      ∷ r.published;
}

-- How the body of the loop ends: with the next event, an exception, or `return`.
pub data Step : Type 0 where
  goes : Run → Step
  stops : Failure → Run → Step
  finishes : Run → Step

-- A save, and what follows it.
abbrev pub saved : Result Failure Messages → Run → (Run → Step) → Step
saved (err f) r next = stops f r
saved (ok t) r next = next (record r { messages = t })

abbrev pub set_metadata : String → Value → Run → Run
set_metadata key v r = record r { result_metadata = set_field key v r.result_metadata }

-- `if current_status != status: ...`.
unfoldable pub move_to : ℕ → String → Run → (Run → Step) → Step
move_to message_id status r next =
    if r.current_status == status
    then next r
    else saved (save_status message_id status none none r.messages) r
        (λ r'. next (publish "status" (text status) none (record r' { current_status = status })))

abbrev pub note_thinking : Value → Run → Run
note_thinking (obj fs) r = record r {
  result_metadata =
      set_field "search_retry_count"
        (get_or "search_retry_count" fs "search_retry_count" r.result_metadata)
        (set_field "mode" (get_or "mode" fs "mode" r.result_metadata)
          (append_field "thinking_steps" (obj fs) r.result_metadata));
}
note_thinking v r = r

unfoldable pub on_thinking : ℕ → Value → Run → Step
on_thinking message_id v r =
    move_to message_id "thinking" r
      (λ r'. goes (publish "thinking_step" v none (note_thinking v r')))

unfoldable pub on_query_analysis : Value → Run → Step
on_query_analysis v r = goes (publish "query_analysis" v none (set_metadata "intent" v r))

-- `data if isinstance(data, list) else []`.
abbrev pub list_or_empty : Value → Value
list_or_empty (array vs) = array vs
list_or_empty v = array no_elements

unfoldable pub on_search_queries : ℕ → Value → Run → Step
on_search_queries message_id v r = move_to message_id "searching" r (λ r'.
    goes (publish "search_queries" v none (set_metadata "search_queries" (list_or_empty v) r')))

unfoldable pub on_listed : String → Value → Run → Step
on_listed event_type v r =
    goes (publish event_type v none (set_metadata event_type (list_or_empty v) r))

abbrev pub note_failed_query : Option Value → Fields → Fields
note_failed_query none metadata = metadata
note_failed_query (some v) metadata =
    if truthy v then append_field "failed_queries" v metadata else metadata

abbrev pub note_retry : Value → Run → Run
note_retry (obj fs) r = record r {
  result_metadata = note_failed_query (get "failed_query" fs) (
      set_field "retry_reason" (get_or "reason" fs "retry_reason" r.result_metadata) (
        set_field "search_quality_score"
          (get_or "quality_score" fs "search_quality_score" r.result_metadata)
          (set_field "search_retry_count"
            (get_or "retry_count" fs "search_retry_count" r.result_metadata) r.result_metadata)));
}
note_retry v r = r

unfoldable pub on_search_retry : Value → Run → Step
on_search_retry v r = goes (publish "search_retry" v none (note_retry v r))

-- `data if isinstance(data, str) else str(data or "")`.
unfoldable pub text_of : Library → Value → String
text_of x (text s) = s
text_of x v = x.str (or_value (some v) (text ""))

abbrev pub add_token : String → Run → Run
add_token token r = publish "token" (text token) (some (r.content_sequence + 1)) (record r {
  full_response = append r.full_response token;
  content_sequence = r.content_sequence + 1;
})

abbrev pub publish_partial : Run → Run
publish_partial r =
    publish "partial_save" (bool true) none
      (publish "content" (text r.full_response) (some r.content_sequence) r)

-- `due`: PARTIAL_SAVE_INTERVAL_SECONDS have passed since the last save.
unfoldable pub save_if_due : ℕ → Bool → Run → Step
save_if_due message_id due r =
    if due
    then saved (save_partial message_id r.full_response r.content_sequence r.messages) r
        (λ r'. goes (publish_partial r'))
    else goes r

unfoldable pub on_token : Library → ℕ → Bool → Value → Run → Step
on_token x message_id due v r =
    move_to message_id "generating" r
      (λ r'. save_if_due message_id due (add_token (text_of x v) r'))

unfoldable pub on_content : Library → Value → Run → Step
on_content x v r = goes (
    publish "content" (text (text_of x v)) (some r.content_sequence)
      (record r { full_response = text_of x v }))

abbrev pub done_payload : Run → Value
done_payload r =
    obj
      (field "content" (text r.full_response) (field "metadata" (obj r.result_metadata) no_fields))

unfoldable pub on_done : Library → ℕ → Run → Step
on_done x message_id r =
    saved (save_completed x message_id r.full_response r.result_metadata r.messages) r
      (λ r'. finishes (publish "done" (done_payload r') none r'))

pub data Kind : Type 0 where
  thinking query_analysis search_queries listed search_retry token content done failure other : Kind

-- The tests of the loop on an event's type.
unfoldable pub kind_of : String → Kind
kind_of t =
    if t == "thinking"
    then thinking
    else if t == "query_analysis"
    then query_analysis
    else if t == "search_queries"
    then search_queries
    else if elem t ("search_results" ∷ "sources" ∷ "citations" ∷ [])
    then listed
    else if t == "search_retry"
    then search_retry
    else if t == "token"
    then token
    else if t == "content"
    then content
    else if t == "done"
    then done
    else if t == "error"
    then failure
    else other

pub record Event : Type 0 where
  pub event_type : String
  pub payload : Value

unfoldable pub on_kind : Library → ℕ → Bool → Kind → Event → Run → Step
on_kind x message_id due thinking e r = on_thinking message_id e.payload r
on_kind x message_id due query_analysis e r = on_query_analysis e.payload r
on_kind x message_id due search_queries e r = on_search_queries message_id e.payload r
on_kind x message_id due listed e r = on_listed e.event_type e.payload r
on_kind x message_id due search_retry e r = on_search_retry e.payload r
on_kind x message_id due token e r = on_token x message_id due e.payload r
on_kind x message_id due content e r = on_content x e.payload r
on_kind x message_id due done e r = on_done x message_id r
on_kind x message_id due failure e r = stops raised r
on_kind x message_id due other e r = goes (publish e.event_type e.payload none r)
