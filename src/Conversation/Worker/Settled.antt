-- ===== src/Conversation/Worker/Settled.antt =====
-- Where a run leaves its message: the answer of a completed run, and that the message is not left
-- active.
use mathlib.Core.Path.{subst}
use inuself.Base.{
  ℕ, String, ◌≡◌, ◌≢◌, refl, sym, Bool, true, false, Option, none, some, List, [], ◌∷◌, Result, ok,
  err, arith, inl, inr, Bool-cases, Result-cases, if◌then◌else◌,
}
use inuself.Gateway.Json.{text, no_fields}
use inuself.Conversation.Fields.{Library}
use inuself.Conversation.Messages.{Messages}
use inuself.Conversation.Saves.{
  Failure, busy, lock_lost, terminal, unavailable, raised, Job, Loaded, save_status, load_run,
  with_status,
}
use inuself.Conversation.Saves.Loads.{load_run-none, load_run_failed}
use inuself.Conversation.Saves.Final.{active_at, save_status_refused, save_status_done, final_row}
use inuself.Conversation.Events.{Run, publish, Step, goes, stops, finishes, saved, Event, kind_of}
use inuself.Conversation.Events.Post.{Post, saved-Post}
use inuself.Conversation.Worker.{
  Arrival, yields, breaks, Tick, on_arrival, step, run_events, initial_metadata, fresh_run,
  locked_run, Outcome, completed, already_terminal, fails, handle, concluded, Acquired, acquired,
  held, redis_down, run_agent_message, failure_content, others_act,
}
use inuself.Conversation.Worker.Reading.{
  heard, heard_from, answer, finally, finally-goes, finally-ends, finally-start,
}
use inuself.Conversation.Worker.Answers.{
  terminal-Stopped, Stopped, Answered, Follows, on_kind-Follows,
}

-- A completed run has the answer; one that ends because the message is final finds it so.
abbrev Read : Library → ℕ → String → Step → Type 0
Read x i s = Post (λ r. Unit) (Stopped x i) (Answered x i s)

step-Follows :
    (x : Library) (i : ℕ) (tick : Tick) (e : Event) (r : Run)
    → Follows x i
        (kind_of e.event_type)
        e.payload
        r.full_response
        (on_arrival x i tick (yields e) r)
unfolding on_arrival
step-Follows x i tick e r = elim (Bool-cases tick.lost) [
  | inl lost ↦ rw (lost, on_arrival) tt
  | inr kept ↦ rw (kept, on_arrival) (on_kind-Follows x i tick.due (kind_of e.event_type) e r)
]

after : Library → ℕ → List Tick → Step → Step
after x i ticks w = elim w [
  | goes r' ↦ run_events x i ticks r'
  | stops f r' ↦ stops f r'
  | finishes r' ↦ finishes r'
]

run_events-Read :
    (x : Library) (i : ℕ) (ticks : List Tick) (r : Run)
    → Read x i (finally x r.full_response (heard ticks)) (run_events x i ticks r)
unfolding run_events step on_arrival after
run_events-Read x i [] r = tt
run_events-Read x i (tick ∷ ticks) r = arrive (run_events-Read x i ticks) tick.arrival
  where
    others : Run
    others = record r { messages = others_act tick.elsewhere r.messages }

    broken : (redis : Bool) → Stopped x i (if redis then unavailable else raised) others
    broken true = tt
    broken false = tt

    Later : Type 0
    Later =
        (r' : Run) → Read x i (finally x r'.full_response (heard ticks)) (run_events x i ticks r')

    heard_step :
        Later
        → (e : Event) (w : Step) → Follows x i (kind_of e.event_type) e.payload r.full_response w
        → Read x i
            (finally x r.full_response (heard_from (yields e) (heard ticks)))
            (after x i ticks w)
    heard_step later e (goes r') (ongoing, same) =
        subst (λ s. Read x i s (run_events x i ticks r'))
          (finally-goes x r.full_response e (heard ticks) ongoing same) (later r')
    heard_step later e (stops f r') stopped = stopped
    heard_step later e (finishes r') (ended, answered) =
        subst (λ s. Answered x i s r') (finally-ends x r.full_response e (heard ticks) ended)
          answered

    arrive :
        Later
        → (a : Arrival)
        → Read x i
            (finally x r.full_response (heard_from a (heard ticks)))
            (after x i ticks (on_arrival x i tick a others))
    arrive later (breaks redis) = broken redis
    arrive later (yields e) = heard_step later e _ (step-Follows x i tick e others)

-- The ends of `run_agent_message` that leave the message to another: the lock is another's or lost,
-- or Redis is down.
abbrev pub left_to_others : Outcome → Bool
left_to_others completed = false
left_to_others already_terminal = false
left_to_others (fails busy) = true
left_to_others (fails lock_lost) = true
left_to_others (fails terminal) = true
left_to_others (fails unavailable) = true
left_to_others (fails raised) = false

handle-settled :
    (x : Library) (i : ℕ) (late : Bool) (f : Failure) (r : Run)
    → Stopped x i f r
    → left_to_others (handle i late f r).0 ≡ false
    → active_at i (handle i late f r).1.messages ≡ false
unfolding handle
handle-settled x i late busy r stopped e = absurd (cc)
handle-settled x i late lock_lost r stopped e = absurd (cc)
handle-settled x i late terminal r stopped e = stopped
handle-settled x i late unavailable r stopped e = absurd (cc)
handle-settled x i true raised r stopped e = absurd (cc)
handle-settled x i false raised r stopped e =
    elim (Result-cases (save_status i "failed" (some failure_content) none r.messages)) [
      | inl (f, refused) ↦
          rw (refused, handle)
            (save_status_refused i "failed" (some failure_content) none r.messages f refused).0
      | inr (t, saves) ↦
          let (m, found, row) =
            save_status_done i "failed" (some failure_content) none r.messages t saves in
          rw (saves, handle)
            (final_row i t (with_status "failed" (some failure_content) none m) row refl)
    ]

completed_final :
    (x : Library) (i : ℕ) (s : String) (r : Run) → Answered x i s r → active_at i r.messages ≡ false
completed_final x i s r (m, row, status, says) = final_row i r.messages m row (rw status refl)

concluded-settled :
    (x : Library) (i : ℕ) (late : Bool) (s : String) (w : Step)
    → Read x i s w
    → left_to_others (concluded i late w).0 ≡ false
    → active_at i (concluded i late w).1.messages ≡ false
unfolding concluded
concluded-settled x i late s (goes r) read e = handle-settled x i late raised r tt e
concluded-settled x i late s (stops f r) read e = handle-settled x i late f r read e
concluded-settled x i late s (finishes r) read e = completed_final x i s r read

locked_run-Read :
    (x : Library) (job : Job) (threads : ℕ → Option ℕ) (ticks : List Tick) (t : Messages)
    → Read x job.assistant_message_id (answer x (heard ticks)) (locked_run x job threads ticks t)
unfolding locked_run
locked_run-Read x job threads ticks t = begin (load_run x job threads t) refl
  where
    i : ℕ
    i = job.assistant_message_id

    run : Loaded → Run → Step
    run loaded r = run_events x i ticks (publish "status" (text "analyzing") none r)

    start : Loaded → Step
    start loaded =
        saved (save_status i "analyzing" none none t) (fresh_run (initial_metadata loaded) t)
          (run loaded)

    begin :
        (e : Result Failure (Option Loaded))
        → load_run x job threads t ≡ e
        → Read x i (answer x (heard ticks)) (elim e [
          | err f ↦ stops f (fresh_run no_fields t)
          | ok none ↦ stops terminal (fresh_run no_fields t)
          | ok (some loaded) ↦ start loaded
        ])
    begin (err f) e =
        subst (λ g. Stopped x i g (fresh_run no_fields t))
          (sym (load_run_failed x job threads t f e)) tt
    begin (ok none) e = load_run-none x job threads t e
    begin (ok (some loaded)) e =
        saved-Post (λ r. Unit) (Stopped x i) (Answered x i (answer x (heard ticks)))
          (save_status i "analyzing" none none t) (fresh_run (initial_metadata loaded) t)
          (run loaded)
          (λ f refused.
            terminal-Stopped x i f _ (save_status_refused i "analyzing" none none t f refused))
          (λ t' saves.
            subst
              (λ s.
                Read x i s
                  (run loaded (record (fresh_run (initial_metadata loaded) t) { messages = t' })))
              (finally-start x (heard ticks)) (run_events-Read x i ticks _))

handle-completed : (i : ℕ) (late : Bool) (f : Failure) (r : Run) → (handle i late f r).0 ≢ completed
unfolding handle
handle-completed i late busy r e = cc
handle-completed i late lock_lost r e = cc
handle-completed i late terminal r e = cc
handle-completed i late unavailable r e = cc
handle-completed i true raised r e = cc
handle-completed i false raised r e = cc

concluded-Read :
    (x : Library) (i : ℕ) (late : Bool) (s : String) (w : Step)
    → Read x i s w
    → (concluded i late w).0 ≡ completed
    → Answered x i s (concluded i late w).1
unfolding concluded handle
concluded-Read x i late s (goes r) read e = elim (Bool-cases late) [
  | inl lost ↦ absurd (ground (arith, lost))
  | inr kept ↦ absurd (ground (arith, kept))
]
concluded-Read x i late s (stops f r) read e = absurd (handle-completed i late f r e)
concluded-Read x i late s (finishes r) read e = read

-- A run that `run_agent_message` reports as completed leaves the message's row "completed", and its
-- content is the stream's answer: the text of the last "content" event before the first "done", and
-- of the tokens after it; with no such event, of all tokens. What others do meanwhile to stale
-- messages, and which partial saves are due, make no difference.
pub run_agent_message-answer :
    (x : Library) (job : Job) (threads : ℕ → Option ℕ) (acquire : Acquired) (ticks : List Tick)
    (late : Bool) (t : Messages)
    → (run_agent_message x job threads acquire ticks late t).0 ≡ completed
    → Answered x job.assistant_message_id
        (answer x (heard ticks))
        (run_agent_message x job threads acquire ticks late t).1
unfolding run_agent_message handle
run_agent_message-answer x job threads acquired ticks late t e =
    concluded-Read x job.assistant_message_id late (answer x (heard ticks)) _
      (locked_run-Read x job threads ticks t) e
run_agent_message-answer x job threads held ticks late t e = absurd (cc)
run_agent_message-answer x job threads redis_down ticks late t e = absurd (cc)

-- When `run_agent_message` ends, the message is not left active: unless the lock is another's or is
-- lost, or Redis is down, its row is absent or final.
pub run_agent_message_settled :
    (x : Library) (job : Job) (threads : ℕ → Option ℕ) (acquire : Acquired) (ticks : List Tick)
    (late : Bool) (t : Messages)
    → left_to_others (run_agent_message x job threads acquire ticks late t).0 ≡ false
    → active_at job.assistant_message_id
        (run_agent_message x job threads acquire ticks late t).1.messages
      ≡ false
unfolding run_agent_message handle
run_agent_message_settled x job threads acquired ticks late t e =
    concluded-settled x job.assistant_message_id late (answer x (heard ticks)) _
      (locked_run-Read x job threads ticks t) e
run_agent_message_settled x job threads held ticks late t e = absurd (cc)
run_agent_message_settled x job threads redis_down ticks late t e = absurd (cc)
