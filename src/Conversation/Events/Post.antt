-- ===== src/Conversation/Events/Post.antt =====
-- What holds after a step: a condition on each of its three ends, and the rules for a save and for
-- a change of status.
use inuself.Base.{
  ◌≡◌, refl, ℕ, String, none, ◌==◌, String_eq, Result, ok, err, inl, inr, Bool-cases,
}
use inuself.Gateway.Json.{text}
use inuself.Conversation.Messages.{Messages}
use inuself.Conversation.Saves.{Failure, save_status}
use inuself.Conversation.Events.{Run, Step, goes, stops, finishes, saved, publish, move_to}

abbrev pub Post : (Run → Type 0) → (Failure → Run → Type 0) → (Run → Type 0) → Step → Type 0
Post G S F (goes r) = G r
Post G S F (stops f r) = S f r
Post G S F (finishes r) = F r

module _ (G : Run → Type 0) (S : Failure → Run → Type 0) (F : Run → Type 0) where
  pub saved-Post :
      (e : Result Failure Messages) (r : Run) (next : Run → Step)
      → ((f : Failure) → e ≡ err f → S f r)
      → ((t : Messages) → e ≡ ok t → Post G S F (next (record r { messages = t })))
      → Post G S F (saved e r next)
  saved-Post (err f) r next refused done = refused f refl
  saved-Post (ok t) r next refused done = done t refl

  pub move_to-Post :
      (i : ℕ) (status : String) (r : Run) (next : Run → Step)
      → Post G S F (next r)
      → ((f : Failure) → save_status i status none none r.messages ≡ err f → S f r)
      → ((t : Messages)
          → save_status i status none none r.messages ≡ ok t
          → Post G S F (
              next (
                publish "status"
                  (text status)
                  none
                  (record r { messages = t; current_status = status }))))
      → Post G S F (move_to i status r next)
  unfolding move_to
  move_to-Post i status r next same refused done = elim (Bool-cases (r.current_status == status)) [
    | inl e ↦ rw (e, move_to) same
    | inr e ↦
        rw (e, move_to)
          (saved-Post (save_status i status none none r.messages) r
            (λ r'.
              next (publish "status" (text status) none (record r' { current_status = status })))
            refused done)
  ]
