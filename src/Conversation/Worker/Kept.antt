-- ===== src/Conversation/Worker/Kept.antt =====
-- A condition on the table that each statement of a run keeps, and those of others, holds after the
-- events of the run.
use mathlib.Core.Path.{subst}
use inuself.Base.{
  ℕ, String, ◌≡◌, sym, Bool, true, false, Option, none, List, [], ◌∷◌, ℕ_eq, String_eq, Result, ok,
  inl, inr, Bool-cases,
}
use inuself.Gateway.Json.{Fields}
use inuself.Conversation.Fields.{Library}
use inuself.Conversation.Messages.{Messages}
use inuself.Conversation.Saves.{Failure, save_status, save_partial, save_completed}
use inuself.Conversation.Events.{
  Run, Step, goes, stops, finishes, saved, Event, Kind, thinking, query_analysis, search_queries,
  listed, search_retry, token, content, done, failure, other, kind_of, on_kind, move_to,
  on_thinking, on_query_analysis, on_search_queries, on_listed, on_search_retry, on_token,
  on_content, on_done, save_if_due, text_of, add_token, publish_partial, note_thinking, note_retry,
}
use inuself.Conversation.Events.Notes.{note_thinking-Same, note_retry-Same}
use inuself.Conversation.Events.Post.{Post, saved-Post, move_to-Post}
use inuself.Conversation.Worker.{
  Arrival, yields, breaks, Tick, on_arrival, step, run_events, others_act,
}

-- What the statements keep: those of others, and the saves of the message's run.
pub record Stable (x : Library) (i : ℕ) (Q : Messages → Type 0) : Type 0 where
  pub others : (acts : List (ℕ × ℕ)) (t : Messages) → Q t → Q (others_act acts t)
  pub status :
      (s : String) (text : Option String) (metadata : Option Fields) (t t' : Messages)
      → save_status i s text metadata t ≡ ok t'
      → Q t
      → Q t'
  pub partial :
      (text : String) (sequence : ℕ) (t t' : Messages)
      → save_partial i text sequence t ≡ ok t'
      → Q t
      → Q t'
  pub completion :
      (text : String) (metadata : Fields) (t t' : Messages)
      → save_completed x i text metadata t ≡ ok t'
      → Q t
      → Q t'

module _ (x : Library) (i : ℕ) (Q : Messages → Type 0) (stable : Stable x i Q) where
  abbrev pub StableRun : Run → Type 0
  StableRun r = Q r.messages

  abbrev pub StableStep : Step → Type 0
  StableStep = Post StableRun (λ f. StableRun) StableRun

  move_to-Stable :
      (status : String) (r : Run) (next : Run → Step)
      → ((r' : Run) → StableRun r' → StableStep (next r'))
      → StableRun r
      → StableStep (move_to i status r next)
  move_to-Stable status r next each safe =
      move_to-Post StableRun (λ f. StableRun) StableRun i status r next (each r safe) (λ f e. safe)
        (λ t e. each _ (stable.status status none none r.messages t e safe))

  pub saved-Stable :
      (e : Result Failure Messages) (r : Run) (next : Run → Step)
      → ((t : Messages) → e ≡ ok t → StableStep (next (record r { messages = t })))
      → StableRun r
      → StableStep (saved e r next)
  saved-Stable e r next each safe =
      saved-Post StableRun (λ f. StableRun) StableRun e r next (λ f refused. safe) each

  note-Stable : (r r' : Run) → r'.messages ≡ r.messages → StableRun r → StableRun r'
  note-Stable r r' same safe = subst Q (sym same) safe

  save_if_due-Stable : (due : Bool) (r : Run) → StableRun r → StableStep (save_if_due i due r)
  unfolding save_if_due
  save_if_due-Stable false r safe = safe
  save_if_due-Stable true r safe =
      saved-Stable (save_partial i r.full_response r.content_sequence r.messages) r
        (λ r'. goes (publish_partial r'))
        (λ t e. stable.partial r.full_response r.content_sequence r.messages t e safe) safe

  on_kind-Stable :
      (due : Bool) (k : Kind) (e : Event) (r : Run)
      → StableRun r
      → StableStep (on_kind x i due k e r)
  unfolding on_kind on_thinking on_query_analysis on_search_queries on_listed on_search_retry
      on_token on_content on_done
  on_kind-Stable due thinking e r safe =
      move_to-Stable "thinking" r _
        (λ r'. note-Stable r' (note_thinking e.payload r') ((note_thinking-Same e.payload r').1))
        safe
  on_kind-Stable due query_analysis e r safe = safe
  on_kind-Stable due search_queries e r safe = move_to-Stable "searching" r _ (λ r' s. s) safe
  on_kind-Stable due listed e r safe = safe
  on_kind-Stable due search_retry e r safe =
      note-Stable r (note_retry e.payload r) ((note_retry-Same e.payload r).1) safe
  on_kind-Stable due token e r safe =
      move_to-Stable "generating" r _
        (λ r'. save_if_due-Stable due (add_token (text_of x e.payload) r')) safe
  on_kind-Stable due content e r safe = safe
  on_kind-Stable due done e r safe =
      saved-Stable (save_completed x i r.full_response r.result_metadata r.messages) r _
        (λ t e. stable.completion r.full_response r.result_metadata r.messages t e safe) safe
  on_kind-Stable due failure e r safe = safe
  on_kind-Stable due other e r safe = safe

  on_arrival-Stable :
      (tick : Tick) (a : Arrival) (r : Run) → StableRun r → StableStep (on_arrival x i tick a r)
  unfolding on_arrival
  on_arrival-Stable tick (breaks redis) r safe = safe
  on_arrival-Stable tick (yields e) r safe = elim (Bool-cases tick.lost) [
    | inl lost ↦ rw (lost, on_arrival) safe
    | inr kept ↦ rw (kept, on_arrival) (on_kind-Stable tick.due (kind_of e.event_type) e r safe)
  ]

  pub run_events-Stable :
      (ticks : List Tick) (r : Run) → StableRun r → StableStep (run_events x i ticks r)
  unfolding run_events step
  run_events-Stable [] r safe = safe
  run_events-Stable (tick ∷ ticks) r safe = go (run_events-Stable ticks) _ (
      on_arrival-Stable tick tick.arrival
        (record r { messages = others_act tick.elsewhere r.messages })
        (stable.others tick.elsewhere r.messages safe))
    where
      go :
          ((r' : Run) → StableRun r' → StableStep (run_events x i ticks r'))
          → (w : Step) → StableStep w
          → StableStep (elim w [
            | goes r' ↦ run_events x i ticks r'
            | stops f r' ↦ stops f r'
            | finishes r' ↦ finishes r'
          ])
      go later (goes r') s = later r' s
      go later (stops f r') s = s
      go later (finishes r') s = s
