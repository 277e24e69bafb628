-- ===== src/Conversation/Worker/Whole.antt =====
-- A condition on the table that each statement of a run keeps, and those of others, holds after the
-- run, however it ends.
use inuself.Base.{
  ℕ, Bool, true, false, Option, none, some, List, Result, ok, err, inl, inr, Result-cases,
}
use inuself.Gateway.Json.{no_fields, text}
use inuself.Conversation.Fields.{Library}
use inuself.Conversation.Messages.{Messages}
use inuself.Conversation.Saves.{
  Failure, busy, lock_lost, terminal, unavailable, raised, Job, Loaded, save_status, load_run,
}
use inuself.Conversation.Events.{Run, publish, Step, goes, stops, finishes, saved}
use inuself.Conversation.Worker.{
  Tick, run_events, initial_metadata, fresh_run, locked_run, handle, concluded, Acquired, acquired,
  held, redis_down, run_agent_message, failure_content,
}
use inuself.Conversation.Worker.Kept.{
  Stable, StableRun, StableStep, saved-Stable, run_events-Stable,
}

module _ (x : Library) (job : Job) (Q : Messages → Type 0)
    (stable : Stable x job.assistant_message_id Q) where
  abbrev Row : Run → Type 0
  Row = StableRun x job.assistant_message_id Q stable

  abbrev Rows : Step → Type 0
  Rows = StableStep x job.assistant_message_id Q stable

  locked_run-Stable :
      (threads : ℕ → Option ℕ) (ticks : List Tick) (t : Messages)
      → Q t
      → Rows (locked_run x job threads ticks t)
  unfolding locked_run
  locked_run-Stable threads ticks t q = begin (load_run x job threads t)
    where
      run : Run → Step
      run r =
          run_events x job.assistant_message_id ticks (publish "status" (text "analyzing") none r)

      begin :
          (e : Result Failure (Option Loaded))
          → Rows (elim e [
            | err f ↦ stops f (fresh_run no_fields t)
            | ok none ↦ stops terminal (fresh_run no_fields t)
            | ok (some loaded) ↦
                saved
                  (save_status job.assistant_message_id "analyzing" none none t)
                  (fresh_run (initial_metadata loaded) t)
                  run
          ])
      begin (err f) = q
      begin (ok none) = q
      begin (ok (some loaded)) =
          saved-Stable x job.assistant_message_id Q stable
            (save_status job.assistant_message_id "analyzing" none none t)
            (fresh_run (initial_metadata loaded) t) run
            (λ t' saves.
              run_events-Stable x job.assistant_message_id Q stable ticks _
                (stable.status "analyzing" none none t t' saves q))
            q

  handle-Stable :
      (late : Bool) (f : Failure) (r : Run)
      → Row r
      → Row (handle job.assistant_message_id late f r).1
  unfolding handle
  handle-Stable late busy r q = q
  handle-Stable late lock_lost r q = q
  handle-Stable late terminal r q = q
  handle-Stable late unavailable r q = q
  handle-Stable true raised r q = q
  handle-Stable false raised r q =
      elim (Result-cases
        (save_status job.assistant_message_id "failed" (some failure_content) none r.messages)) [
          | inl (f, refused) ↦ rw (refused, handle) q
          | inr (t, saves) ↦
              rw (saves, handle)
                (stable.status "failed" (some failure_content) none r.messages t saves q)
        ]

  concluded-Stable :
      (late : Bool) (w : Step) → Rows w → Row (concluded job.assistant_message_id late w).1
  unfolding concluded
  concluded-Stable late (goes r) q = handle-Stable late raised r q
  concluded-Stable late (stops f r) q = handle-Stable late f r q
  concluded-Stable late (finishes r) q = q

  pub run_agent_message-Stable :
      (threads : ℕ → Option ℕ) (acquire : Acquired) (ticks : List Tick) (late : Bool) (t : Messages)
      → Q t
      → Row (run_agent_message x job threads acquire ticks late t).1
  unfolding run_agent_message
  run_agent_message-Stable threads acquired ticks late t q =
      (concluded-Stable late _ (locked_run-Stable threads ticks t q))
  run_agent_message-Stable threads held ticks late t q =
      (handle-Stable late busy (fresh_run no_fields t) q)
  run_agent_message-Stable threads redis_down ticks late t q =
      (handle-Stable late unavailable (fresh_run no_fields t) q)
