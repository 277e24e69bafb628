-- ===== src/Conversation/Tests.antt =====
-- A run of four messages in two threads, and a pass of the reconciler over them.
use inuself.Base.{
  ℕ, String, ◌≡◌, refl, Bool, true, false, Option, none, some, List, [], ◌∷◌, ◌==◌, ℕ_eq, String_eq,
  if◌then◌else◌, arith, lookup, length, ◌+◌,
}
use inuself.Gateway.Json.{Value, Fields, text, array, obj, no_fields, field, no_elements, element}
use inuself.Conversation.Fields.{Library}
use inuself.Conversation.Messages.{
  Message, Messages, is_active, is_stale, update_where, update_active_assistant_message,
  fail_stale_active_assistant_message, delete_message,
}
use inuself.Conversation.Saves.{
  Job, load_run, loaded_of, save_status, save_partial, save_completed, raised,
}
use inuself.Conversation.Saves.Final.{active_at}
use inuself.Conversation.Events.{
  kind_of, on_kind, on_thinking, on_token, on_content, on_done, save_if_due, text_of, move_to,
}
use inuself.Conversation.Worker.{
  Tick, yields, acquired, held, Acquired, completed, fails, run_agent_message, concluded, handle,
  locked_run, run_events, step, on_arrival,
}
use inuself.Conversation.Worker.Reading.{answer, heard}
use inuself.Conversation.Worker.Cells.{Walk, cell, run_agent_message-Walk}
use inuself.Conversation.Worker.Rows.{run_agent_message_kept}
use inuself.Conversation.Worker.Settled.{run_agent_message-answer, run_agent_message_settled}
use inuself.Conversation.Worker.Answers.{Answered}
use inuself.Conversation.Dispatch.{
  Redis, Try, AgentJob, dispatch_agent_job, reconcile_agent_jobs_once, is_queued_job,
  finalize_stale_active_agent_messages, get_stale_active_assistant_messages, finalize_one,
  put_claim, claim_after,
}
use inuself.Conversation.Dispatch.Abandoned.{
  Due, Finalized, finalize_stale_active_agent_messages_lem,
}
use inuself.Conversation.Dispatch.Publish.{dispatch_agent_job_once}
use inuself.Conversation.Dispatch.Published.{reconcile_agent_jobs_once_lem, Publishes}

abbrev text_value : Value → String
text_value (text s) = s
text_value v = ""

abbrev fields_of : Value → Option Fields
fields_of (obj fs) = some fs
fields_of v = none

abbrev library : Library
library = record {
  str = text_value;
  dict_of = fields_of;
  uuid = λ s. if s == "id-3" then some 3 else none;
  uuid_text = λ n. "id";
}

abbrev job_fields : Fields
job_fields =
    field "thread_id" (text "7")
      (field "user_id" (text "70") (field "user_message_id" (text "1") no_fields))

abbrev row : ℕ → String → String → ℕ → Fields → Message
row thread role status created metadata = record {
  thread_id = thread;
  role = role;
  content = "?";
  partial_content = none;
  status = status;
  created_at = created;
  metadata = metadata;
}

abbrev replacing : Fields
replacing =
    field "replaces_message_ids" (array (element (text "id-3") no_elements))
      (field "_agent_job" (obj job_fields) no_fields)

-- The question, its answer to be, the answer that it replaces, another thread's answer, and an
-- abandoned one.
abbrev table : Messages
table i = lookup i (
    (1, row 7 "user" "completed" 9000 no_fields)
    ∷ (2, row 7 "assistant" "queued" 9000 replacing)
    ∷ (3, row 7 "assistant" "completed" 9000 no_fields)
    ∷ (4, row 8 "assistant" "completed" 9000 no_fields)
    ∷ (5, row 8 "assistant" "generating" 5 no_fields)
    ∷ [])

abbrev job : Job
job = record { thread_id = 7; user_id = 70; user_message_id = 1; assistant_message_id = 2 }

abbrev owners : ℕ → Option ℕ
owners i = if i == 7 then some 70 else none

abbrev tick : Bool → String → String → Tick
tick due event_type s = record {
  elsewhere = (5, 10) ∷ [];
  lost = false;
  due = due;
  arrival = yields (record { event_type = event_type; payload = text s });
}

abbrev stream : List Tick
stream =
    tick false "thinking" ""
    ∷ tick true "token" "Hel"
    ∷ tick false "content" "Hi"
    ∷ tick false "token" "!"
    ∷ tick false "done" ""
    ∷ []

completes : (run_agent_message library job owners acquired stream false table).0 ≡ completed
unfolding run_agent_message concluded locked_run load_run loaded_of run_events step on_arrival
    kind_of on_kind on_thinking on_token on_content on_done move_to save_if_due text_of save_status
    save_partial save_completed update_active_assistant_message update_where is_active is_stale
    fail_stale_active_assistant_message delete_message
completes = refl

answers : answer library (heard stream) ≡ "Hi!"
unfolding kind_of text_of
answers = refl

-- The stream ends without "done".
fails_without_done :
    (run_agent_message library job owners acquired (tick false "token" "x" ∷ []) false table).0
    ≡ fails raised
unfolding run_agent_message concluded locked_run load_run loaded_of run_events step on_arrival
    kind_of on_kind on_token move_to save_if_due text_of save_status update_active_assistant_message
    update_where is_active is_stale fail_stale_active_assistant_message handle
fails_without_done = refl

run_agent_message-answer_example :
    Answered library 2
      (answer library (heard stream))
      (run_agent_message library job owners acquired stream false table).1
run_agent_message-answer_example =
    run_agent_message-answer library job owners acquired stream false table completes

run_agent_message_settled_example :
    active_at 2
      (run_agent_message library job owners acquired
        (tick false "token" "x" ∷ [])
        false
        table).1.messages
    ≡ false
run_agent_message_settled_example =
    run_agent_message_settled library job owners acquired (tick false "token" "x" ∷ []) false table
      (rw fails_without_done refl)

run_agent_message_kept_example :
    (run_agent_message library job owners acquired stream false table).1.messages 4
    ≡ some (row 8 "assistant" "completed" 9000 no_fields)
unfolding is_active
run_agent_message_kept_example =
    run_agent_message_kept library job owners acquired stream false table 4
      (row 8 "assistant" "completed" 9000 no_fields) refl refl refl

run_agent_message-Walk_example :
    Walk
      (cell (table 3))
      (cell ((run_agent_message library job owners acquired stream false table).1.messages 3))
run_agent_message-Walk_example =
    run_agent_message-Walk library job owners acquired stream false table 3

abbrev ids : List ℕ
ids = 5 ∷ 1 ∷ 2 ∷ 3 ∷ 4 ∷ []

abbrev locks : ℕ → Acquired
locks i = if i == 5 then acquired else held

abbrev tries : ℕ → Try
tries i = record { now = 9001; later = 9002; claim_id = 100 + i; taken = true; started = false }

abbrev empty : Redis
empty = record { claims = λ i. none; queue = [] }

finalize_stale_active_agent_messages_lem_example :
    Finalized 9001 locks ids table 5
      ((finalize_stale_active_agent_messages 9001 locks ids table).0 5)
finalize_stale_active_agent_messages_lem_example =
    finalize_stale_active_agent_messages_lem 9001 locks ids table 5

abandoned_five : Due 9001 locks ids table 5
abandoned_five = record {
  is_abandoned = refl;
  locked = refl;
  before = [];
  after = 1 ∷ 2 ∷ 3 ∷ 4 ∷ [];
  place = refl;
  early = omega arith;
}

reconciled :
    (reconcile_agent_jobs_once 9001 locks tries ids table empty).1.queue
    ≡ record { thread_id = "7"; user_id = "70"; user_message_id = "1"; assistant_message_id = 2 }
      ∷ []
unfolding reconcile_agent_jobs_once finalize_stale_active_agent_messages
    get_stale_active_assistant_messages is_stale is_active is_queued_job dispatch_agent_job
    update_where fail_stale_active_assistant_message finalize_one
reconciled = refl

reconcile_agent_jobs_once_lem_example :
    let (t', r', dispatched) = reconcile_agent_jobs_once 9001 locks tries ids table empty in
    (t' ≡ (finalize_stale_active_agent_messages 9001 locks ids table).0)
    × ((jobs : List AgentJob) × Publishes t' tries empty.claims ids jobs
        × (r'.queue ≡ jobs)
        × (dispatched ≡ length jobs))
reconcile_agent_jobs_once_lem_example =
    reconcile_agent_jobs_once_lem 9001 locks tries ids table empty
      (refl, (refl, (refl, (refl, (refl, tt)))))

abbrev one_job : AgentJob
one_job = record {
  thread_id = "7";
  user_id = "70";
  user_message_id = "1";
  assistant_message_id = 2;
}

abbrev again : Try
again = record { now = 9050; later = 9051; claim_id = 200; taken = true; started = false }

abbrev sent : Redis
sent = record { claims = put_claim 2 (claim_after (tries 2)) empty.claims; queue = one_job ∷ [] }

sends : dispatch_agent_job (tries 2) 2 one_job empty ≡ (sent, true)
unfolding dispatch_agent_job
sends = refl

dispatch_agent_job_once_example : dispatch_agent_job again 2 one_job sent ≡ (sent, false)
dispatch_agent_job_once_example =
    dispatch_agent_job_once (tries 2) again 2 one_job empty sent sends refl (omega arith)
      (omega arith)
