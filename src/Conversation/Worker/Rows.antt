-- ===== src/Conversation/Worker/Rows.antt =====
-- What a run leaves alone in the table, however it ends.
use inuself.Base.{
  ℕ, ◌≡◌, refl, sym, ap, ◌∙◌, Bool, true, false, ◌&&◌, Option, none, some, List, ◌==◌, ℕ_eq,
  String_eq, ==_iff, Result, ok, err, arith, inl, inr, Result-cases,
}
use inuself.Gateway.Json.{no_fields, text}
use inuself.Conversation.Fields.{Library}
use inuself.Conversation.Messages.{
  Message, Messages, is_active, update_where, update_active_assistant_message,
}
use inuself.Conversation.Messages.Kept.{update_where-kept}
use inuself.Conversation.Saves.{
  Failure, busy, lock_lost, terminal, unavailable, raised, Job, Loaded, save_status, with_status,
  load_run,
}
use inuself.Conversation.Saves.Final.{or_terminal_ok}
use inuself.Conversation.Saves.Loads.{load_run_checked}
use inuself.Conversation.Events.{Run, publish, Step, goes, stops, finishes, saved}
use inuself.Conversation.Events.Post.{Post}
use inuself.Conversation.Worker.{
  Tick, run_events, initial_metadata, fresh_run, locked_run, handle, concluded, Acquired, acquired,
  held, redis_down, run_agent_message, failure_content,
}
use inuself.Conversation.Worker.Safe.{
  Safe, others_act-Safe, save_status-Safe, save_partial-Safe, save_completed-Safe,
}
use inuself.Conversation.Worker.Kept.{Stable, saved-Stable, run_events-Stable}

handle-row :
    (i j : ℕ) (m : Message) (late : Bool) (f : Failure) (r : Run)
    → is_active m ≡ false
    → r.messages j ≡ some m
    → (handle i late f r).1.messages j ≡ some m
unfolding handle save_status update_active_assistant_message
handle-row i j m late busy r inactive row = row
handle-row i j m late lock_lost r inactive row = row
handle-row i j m late terminal r inactive row = row
handle-row i j m late unavailable r inactive row = row
handle-row i j m true raised r inactive row = row
handle-row i j m false raised r inactive row =
    elim (Result-cases (save_status i "failed" (some failure_content) none r.messages)) [
      | inl (f, refused) ↦ rw (refused, handle) row
      | inr (t, saves) ↦
          let change = with_status "failed" (some failure_content) none in
          rw (saves, handle)
            (ap (λ p. p.0 j)
                (sym (or_terminal_ok (update_where i is_active change r.messages) saves))
              ∙ update_where-kept i j is_active change r.messages m row (inr inactive))
    ]

concluded-row :
    (i j : ℕ) (m : Message) (late : Bool) (w : Step)
    → is_active m ≡ false
    → Post
        (λ r. r.messages j ≡ some m)
        (λ f r. r.messages j ≡ some m)
        (λ r. r.messages j ≡ some m)
        w
    → (concluded i late w).1.messages j ≡ some m
unfolding concluded
concluded-row i j m late (goes r) inactive row = handle-row i j m late raised r inactive row
concluded-row i j m late (stops f r) inactive row = handle-row i j m late f r inactive row
concluded-row i j m late (finishes r) inactive row = row

Safe-Stable :
    (x : Library) (i thread j : ℕ) (m : Message) (inactive : is_active m ≡ false)
    (spared : (m.role == "assistant" && m.thread_id == thread) ≡ false)
    → Stable x i (Safe i thread j m inactive spared)
Safe-Stable x i thread j m inactive spared = record {
  others = others_act-Safe i thread j m inactive spared;
  status = save_status-Safe i thread j m inactive spared;
  partial = save_partial-Safe i thread j m inactive spared;
  completion = save_completed-Safe i thread j m inactive spared x;
}

row_of :
    (i thread j : ℕ) (m : Message) (inactive : is_active m ≡ false)
    (spared : (m.role == "assistant" && m.thread_id == thread) ≡ false) (w : Step)
    → (let S = Safe i thread j m inactive spared in
        Post (λ r. S r.messages) (λ f r. S r.messages) (λ r. S r.messages) w)
    → Post
        (λ r. r.messages j ≡ some m)
        (λ f r. r.messages j ≡ some m)
        (λ r. r.messages j ≡ some m)
        w
row_of i thread j m inactive spared (goes r) safe = safe.0
row_of i thread j m inactive spared (stops f r) safe = safe.0
row_of i thread j m inactive spared (finishes r) safe = safe.0

loaded_home :
    (x : Library) (job : Job) (threads : ℕ → Option ℕ) (t : Messages) (loaded : Option Loaded)
    → load_run x job threads t ≡ ok loaded
    → (c : Message) → t job.assistant_message_id ≡ some c
    → c.thread_id ≡ job.thread_id
loaded_home x job threads t loaded e c row =
    let (u, n, found, same_thread, roles, last) = load_run_checked x job threads t loaded e in
    let same : n ≡ c = cc in
    let home : n.thread_id ≡ job.thread_id =
      (==_iff n.thread_id job.thread_id).0 (ground (arith, same_thread)) in
    cc

-- A run leaves a row of the table as it was when the row is not an active message of the assistant
-- and not an assistant's message of the run's thread: no other thread's final answer and no user's
-- message is changed or deleted, however the run ends and whatever others do to stale messages
-- meanwhile.
pub run_agent_message_kept :
    (x : Library) (job : Job) (threads : ℕ → Option ℕ) (acquire : Acquired) (ticks : List Tick)
    (late : Bool) (t : Messages) (j : ℕ) (m : Message)
    → t j ≡ some m
    → is_active m ≡ false
    → (m.role == "assistant" && m.thread_id == job.thread_id) ≡ false
    → (run_agent_message x job threads acquire ticks late t).1.messages j ≡ some m
unfolding run_agent_message locked_run
run_agent_message_kept x job threads held ticks late t j m row inactive spared =
    handle-row job.assistant_message_id j m late busy (fresh_run no_fields t) inactive row
run_agent_message_kept x job threads redis_down ticks late t j m row inactive spared =
    handle-row job.assistant_message_id j m late unavailable (fresh_run no_fields t) inactive row
run_agent_message_kept x job threads acquired ticks late t j m row inactive spared =
    concluded-row i j m late (locked_run x job threads ticks t) inactive
      (begin (load_run x job threads t) refl)
  where
    i : ℕ
    i = job.assistant_message_id

    Row : Step → Type 0
    Row =
        Post (λ r. r.messages j ≡ some m) (λ f r. r.messages j ≡ some m)
          (λ r. r.messages j ≡ some m)

    run : Run → Step
    run r = run_events x i ticks (publish "status" (text "analyzing") none r)

    begin :
        (e : Result Failure (Option Loaded))
        → load_run x job threads t ≡ e
        → Row (elim e [
          | err f ↦ stops f (fresh_run no_fields t)
          | ok none ↦ stops terminal (fresh_run no_fields t)
          | ok (some loaded) ↦
              saved
                (save_status i "analyzing" none none t)
                (fresh_run (initial_metadata loaded) t)
                run
        ])
    begin (err f) e = row
    begin (ok none) e = row
    begin (ok (some loaded)) e = row_of i job.thread_id j m inactive spared _ (
        saved-Stable x i safe stable (save_status i "analyzing" none none t)
          (fresh_run (initial_metadata loaded) t) run
          (λ t' saves.
            run_events-Stable x i safe stable ticks _
              (stable.status "analyzing" none none t t' saves at_home))
          at_home)
      where
        safe : Messages → Type 0
        safe = Safe i job.thread_id j m inactive spared

        stable : Stable x i safe
        stable = Safe-Stable x i job.thread_id j m inactive spared

        at_home : safe t
        at_home = (row, loaded_home x job threads t (some loaded) e)
