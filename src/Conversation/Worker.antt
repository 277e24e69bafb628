-- ===== src/Conversation/Worker.antt =====
-- backend/app/tasks/agent_task.py, `run_agent_message` and the task that calls it. The agent's
-- stream, the message lock, the clock and the other actors on the table are a script of arguments:
-- before each event, what others do to stale messages, and whether the lock is known to be lost.
pub mod Answers
pub mod Reading
pub mod Safe
pub mod Kept
pub mod Whole
pub mod Rows
pub mod Cells
pub mod Settled
use inuself.Base.{
  ℕ, ◌+◌, ◌≤◌, String, Bool, true, false, Option, none, some, List, [], ◌∷◌, Result, ok, err, leb,
  if◌then◌else◌,
}
use inuself.Gateway.Json.{Value, Fields, null, num, text, array, obj, no_fields, field, no_elements}
use inuself.Conversation.Fields.{Library, update_fields}
use inuself.Conversation.Messages.{Messages, fail_stale_active_assistant_message}
use inuself.Conversation.Saves.{
  Failure, busy, lock_lost, terminal, unavailable, raised, Job, Loaded, load_run, save_status,
  number,
}
use inuself.Conversation.Events.{
  Run, publish, Step, goes, stops, finishes, saved, Event, kind_of, on_kind,
}

-- AGENT_FAILURE_CONTENT.
abbrev pub failure_content : String
failure_content = "This response could not be completed. Please try again."

-- A statement of another actor: `fail_stale_active_assistant_message` on a message with a cutoff.
abbrev pub others_act : List (ℕ × ℕ) → Messages → Messages
others_act [] t = t
others_act ((message_id, cutoff) ∷ rest) t =
    others_act rest (fail_stale_active_assistant_message message_id cutoff failure_content t).0

-- What the stream does next: it yields an event, or raises, a RedisError or another exception.
pub data Arrival : Type 0 where
  yields : Event → Arrival
  breaks : Bool → Arrival

pub record Tick : Type 0 where
  pub elsewhere : List (ℕ × ℕ)
  pub lost : Bool
  pub due : Bool
  pub arrival : Arrival

unfoldable pub on_arrival : Library → ℕ → Tick → Arrival → Run → Step
on_arrival x message_id tick (breaks redis) r = stops (if redis then unavailable else raised) r
on_arrival x message_id tick (yields e) r =
    if tick.lost
    then stops lock_lost r
    else on_kind x message_id tick.due (kind_of e.event_type) e r

unfoldable pub step : Library → ℕ → Tick → Run → Step
step x message_id tick r =
    on_arrival x message_id tick tick.arrival
      (record r { messages = others_act tick.elsewhere r.messages })

-- The `async for`; a stream that ends is an error.
unfoldable pub run_events : Library → ℕ → List Tick → Run → Step
run_events x message_id [] r = stops raised r
run_events x message_id (tick ∷ ticks) r = elim (step x message_id tick r) [
  | goes r' ↦ run_events x message_id ticks r'
  | stops f r' ↦ stops f r'
  | finishes r' ↦ finishes r'
]

-- `result_metadata` before the first event.
abbrev pub initial_metadata : Loaded → Fields
initial_metadata loaded = update_fields loaded.base_metadata (
    field "mode" (text loaded.mode) (
      field "sources" (array no_elements) (
        field "citations" (array no_elements) (
          field "intent" null (
            field "search_queries" (array no_elements) (
              field "search_results" (array no_elements) (
                field "thinking_steps" (array no_elements) (
                  field "search_retry_count" (number 0) (
                    field "search_quality_score" (number 0) (
                      field "failed_queries" (array no_elements) (
                        field "retry_reason" (text "")
                          (field "context" (obj loaded.context) no_fields))))))))))))

abbrev pub fresh_run : Fields → Messages → Run
fresh_run metadata t = record {
  full_response = "";
  content_sequence = 0;
  current_status = "analyzing";
  result_metadata = metadata;
  messages = t;
  published = [];
}

-- The run under the lock. The run of a message that is final already ends like one whose message
-- another actor makes final.
unfoldable pub locked_run : Library → Job → (ℕ → Option ℕ) → List Tick → Messages → Step
locked_run x job threads ticks t = elim (load_run x job threads t) [
  | err f ↦ stops f (fresh_run no_fields t)
  | ok none ↦ stops terminal (fresh_run no_fields t)
  | ok (some loaded) ↦
      saved (save_status job.assistant_message_id "analyzing" none none t)
        (fresh_run (initial_metadata loaded) t)
        (λ r.
          run_events x job.assistant_message_id ticks (publish "status" (text "analyzing") none r))
]

-- How `run_agent_message` returns or raises.
pub data Outcome : Type 0 where
  completed already_terminal : Outcome
  fails : Failure → Outcome

-- The handlers of exceptions; `late` is whether the lock is lost by then. The save is tried, and
-- its own exception suppressed.
unfoldable pub handle : ℕ → Bool → Failure → Run → Outcome × Run
handle message_id late busy r = (fails busy, r)
handle message_id late lock_lost r = (fails lock_lost, r)
handle message_id late terminal r = (already_terminal, r)
handle message_id late unavailable r = (fails unavailable, r)
handle message_id late raised r = if late then (fails lock_lost, r) else (
  fails raised,
  publish "error" (text failure_content) none
      (elim (save_status message_id "failed" (some failure_content) none r.messages) [
        | err f ↦ r
        | ok t ↦ record r { messages = t }
      ]),
)

unfoldable pub concluded : ℕ → Bool → Step → Outcome × Run
concluded message_id late (goes r) = handle message_id late raised r
concluded message_id late (stops f r) = handle message_id late f r
concluded message_id late (finishes r) = (completed, r)

-- What `lock.acquire` and the deletion of the marker do.
pub data Acquired : Type 0 where
  acquired held redis_down : Acquired

unfoldable pub run_agent_message :
    Library → Job → (ℕ → Option ℕ) → Acquired → List Tick → Bool → Messages → Outcome × Run
run_agent_message x job threads acquired ticks late t =
    concluded job.assistant_message_id late (locked_run x job threads ticks t)
run_agent_message x job threads held ticks late t =
    handle job.assistant_message_id late busy (fresh_run no_fields t)
run_agent_message x job threads redis_down ticks late t =
    handle job.assistant_message_id late unavailable (fresh_run no_fields t)

-- What `process_agent_message` does with the outcome: `again` is a retry after so many seconds,
-- with the new count of lock retries.
pub data Delivery : Type 0 where
  settled : Outcome → Delivery
  lock_unresolved : Delivery
  again : ℕ → ℕ → Delivery

-- MESSAGE_LOCK_SECONDS is 90.
unfoldable pub process_agent_message : ℕ → Outcome → Delivery
process_agent_message lock_retry_count (fails busy) =
    if leb 1 lock_retry_count then lock_unresolved else again (90 + 1) 1
process_agent_message lock_retry_count (fails lock_lost) =
    if leb 1 lock_retry_count then lock_unresolved else again (90 + 1) 1
process_agent_message lock_retry_count (fails unavailable) = again 5 lock_retry_count
process_agent_message lock_retry_count outcome = settled outcome
