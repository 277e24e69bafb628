-- ===== src/Conversation/Worker/Answers.antt =====
-- How a run ends, and what its answer is.
use Prim.Native.String.{◌++◌ as append}
use inuself.Base.{ℕ, String, ◌≡◌, refl, ap, ◌∙◌, Bool, true, false, none, some, String_eq, err}
use inuself.Gateway.Json.{Value}
use inuself.Conversation.Fields.{Library}
use inuself.Conversation.Messages.{Message}
use inuself.Conversation.Saves.{
  Failure, busy, lock_lost, terminal, unavailable, raised, save_partial, save_completed,
}
use inuself.Conversation.Saves.Final.{
  active_at, save_status_refused, save_partial_refused, save_completed_refused, save_completed_row,
}
use inuself.Conversation.Events.{
  Run, Step, goes, Event, Kind, thinking, query_analysis, search_queries, listed, search_retry,
  token, content, done, failure, other, on_kind, move_to, on_thinking, on_query_analysis,
  on_search_queries, on_listed, on_search_retry, on_token, on_content, on_done, save_if_due,
  text_of, add_token, publish_partial,
}
use inuself.Conversation.Events.Notes.{note_thinking-Same, note_retry-Same}
use inuself.Conversation.Events.Post.{Post, saved-Post, move_to-Post}

-- The response after an event.
abbrev pub extend : Library → Kind → Value → String → String
extend x token v s = append s (text_of x v)
extend x content v s = text_of x v
extend x thinking v s = s
extend x query_analysis v s = s
extend x search_queries v s = s
extend x listed v s = s
extend x search_retry v s = s
extend x done v s = s
extend x failure v s = s
extend x other v s = s

abbrev pub is_done : Kind → Bool
is_done done = true
is_done thinking = false
is_done query_analysis = false
is_done search_queries = false
is_done listed = false
is_done search_retry = false
is_done token = false
is_done content = false
is_done failure = false
is_done other = false

module _ (x : Library) (i : ℕ) where
  -- A run that ends because the message is final finds no active row.
  abbrev pub Stopped : Failure → Run → Type 0
  Stopped busy r = Unit
  Stopped lock_lost r = Unit
  Stopped terminal r = active_at i r.messages ≡ false
  Stopped unavailable r = Unit
  Stopped raised r = Unit

  -- The row after a completed run.
  abbrev pub Answered : String → Run → Type 0
  Answered s r =
      (m : Message) × (r.messages i ≡ some m) × (m.status ≡ "completed") × (m.content ≡ s)

  abbrev pub Goes : Kind → Value → String → Run → Type 0
  Goes k v s r = (is_done k ≡ false) × (r.full_response ≡ extend x k v s)

  abbrev pub Finishes : Kind → String → Run → Type 0
  Finishes k s r = (is_done k ≡ true) × Answered s r

  abbrev pub Follows : Kind → Value → String → Step → Type 0
  Follows k v s = Post (Goes k v s) Stopped (Finishes k s)

  pub terminal-Stopped :
      (f : Failure) (r : Run) → (active_at i r.messages ≡ false) × (f ≡ terminal) → Stopped f r
  terminal-Stopped busy r (inactive, e) = absurd (cc)
  terminal-Stopped lock_lost r (inactive, e) = tt
  terminal-Stopped terminal r (inactive, e) = inactive
  terminal-Stopped unavailable r (inactive, e) = tt
  terminal-Stopped raised r (inactive, e) = tt

  pub move_to-Follows :
      (k : Kind) (v : Value) (s status : String) (r : Run) (next : Run → Step)
      → ((r' : Run) → r'.full_response ≡ r.full_response → Follows k v s (next r'))
      → Follows k v s (move_to i status r next)
  move_to-Follows k v s status r next each =
      move_to-Post (Goes k v s) Stopped (Finishes k s) i status r next (each r refl)
        (λ f e. terminal-Stopped f r (save_status_refused i status none none r.messages f e))
        (λ t e. each _ refl)

  save_if_due-Follows :
      (due : Bool) (v : Value) (s : String) (r : Run)
      → r.full_response ≡ extend x token v s
      → Follows token v s (save_if_due i due r)
  unfolding save_if_due
  save_if_due-Follows false v s r same = (refl, same)
  save_if_due-Follows true v s r same =
      saved-Post (Goes token v s) Stopped (Finishes token s)
        (save_partial i r.full_response r.content_sequence r.messages) r
        (λ r'. goes (publish_partial r'))
        (λ f e.
          terminal-Stopped f r
            (save_partial_refused i r.full_response r.content_sequence r.messages f e))
        (λ t e. (refl, same))

  completion-Stopped :
      (r : Run) (f : Failure)
      → save_completed x i r.full_response r.result_metadata r.messages ≡ err f
      → Stopped f r
  completion-Stopped r busy e = tt
  completion-Stopped r lock_lost e = tt
  completion-Stopped r terminal e =
      save_completed_refused x i r.full_response r.result_metadata r.messages e
  completion-Stopped r unavailable e = tt
  completion-Stopped r raised e = tt

  -- What each event does to the response, and how it ends the run.
  pub on_kind-Follows :
      (due : Bool) (k : Kind) (e : Event) (r : Run)
      → Follows k e.payload r.full_response (on_kind x i due k e r)
  unfolding on_kind on_thinking on_query_analysis on_search_queries on_listed on_search_retry
      on_token on_content on_done
  on_kind-Follows due thinking e r =
      move_to-Follows thinking e.payload r.full_response "thinking" r _
        (λ r' same. (refl, (note_thinking-Same e.payload r').0 ∙ same))
  on_kind-Follows due query_analysis e r = (refl, refl)
  on_kind-Follows due search_queries e r =
      move_to-Follows search_queries e.payload r.full_response "searching" r _
        (λ r' same. (refl, same))
  on_kind-Follows due listed e r = (refl, refl)
  on_kind-Follows due search_retry e r = (refl, (note_retry-Same e.payload r).0)
  on_kind-Follows due token e r =
      move_to-Follows token e.payload r.full_response "generating" r _ (λ r' same.
        save_if_due-Follows due e.payload r.full_response (add_token (text_of x e.payload) r')
          (ap (λ s. append s (text_of x e.payload)) same))
  on_kind-Follows due content e r = (refl, refl)
  on_kind-Follows due done e r =
      saved-Post (Goes done e.payload r.full_response) Stopped (Finishes done r.full_response)
        (save_completed x i r.full_response r.result_metadata r.messages) r _ (completion-Stopped r)
        (λ t e. (refl, save_completed_row x i r.full_response r.result_metadata r.messages t e))
  on_kind-Follows due failure e r = tt
  on_kind-Follows due other e r = (refl, refl)
