-- ===== src/Conversation/Worker/Safe.antt =====
-- What the statements of a run and of others leave alone: a row that is not active, and no
-- assistant's message of the run's thread.
use mathlib.Core.Path.{subst}
use inuself.Base.{
  ℕ, String, ◌≡◌, refl, sym, Bool, true, false, ◌&&◌, Option, none, some, List, [], ◌∷◌, ◌==◌, ℕ_eq,
  String_eq, ==_iff, ok, arith, inl, inr, Bool-cases, Option-cases,
}
use inuself.Gateway.Json.{Fields, Elements, no_elements, element, get}
use inuself.Conversation.Fields.{Library, set_field}
use inuself.Conversation.Messages.{
  Message, Messages, is_active, is_stale, update_where, update_active_assistant_message,
  fail_stale_active_assistant_message, put_row, stale_failure, delete_message,
}
use inuself.Conversation.Messages.Kept.{update_where-kept}
use inuself.Conversation.Saves.{
  save_status, save_partial, save_completed, with_status, with_partial, with_completed, number,
  updated_or_terminal, delete_replaced, delete_all_replaced, is_replaced, elements_of,
}
use inuself.Conversation.Saves.Final.{or_terminal_ok, save_completed_done}
use inuself.Conversation.Worker.{others_act, failure_content}

module _ (i thread j : ℕ) (m : Message) (inactive : is_active m ≡ false)
    (spared : (m.role == "assistant" && m.thread_id == thread) ≡ false) where
  -- The row is as it was, and the run's own message is in the thread.
  abbrev pub Safe : Messages → Type 0
  Safe t = (t j ≡ some m) × ((c : Message) → t i ≡ some c → c.thread_id ≡ thread)

  update_where-Safe :
      (k : ℕ) (test : Message → Bool) (change : Message → Message) (t : Messages)
      → test m ≡ false
      → ((n : Message) → (change n).thread_id ≡ n.thread_id)
      → Safe t
      → Safe (update_where k test change t).0
  unfolding update_where
  update_where-Safe k test change t passes same (row, home) =
      (update_where-kept k j test change t m row (inr passes), home')
    where
      changed :
          (n c : Message)
          → t k ≡ some n
          → put_row k (some (change n)) t i ≡ some c
          → c.thread_id ≡ thread
      changed n c found e = elim (Bool-cases (k == i)) [
        | inr others ↦ home c (rw others at e)
        | inl own ↦
            let is_i : k ≡ i = (==_iff k i).0 own in
            let now : some (change n) ≡ some c = rw own at e in
            cc (same n, home n (rw is_i at found))
      ]

      home' : (c : Message) → (update_where k test change t).0 i ≡ some c → c.thread_id ≡ thread
      home' c e = elim (Option-cases (t k)) [
        | inl miss ↦ home c (rw (miss, update_where) at e)
        | inr (n, found) ↦ elim (Bool-cases (test n)) [
          | inr refused ↦ home c (rw (found, update_where, refused) at e)
          | inl passed ↦ changed n c found (rw (found, update_where, passed) at e)
        ]
      ]

  active-Safe :
      (k : ℕ) (change : Message → Message) (t t' : Messages)
      → ((n : Message) → (change n).thread_id ≡ n.thread_id)
      → updated_or_terminal (update_active_assistant_message k change t) ≡ ok t'
      → Safe t
      → Safe t'
  unfolding update_active_assistant_message
  active-Safe k change t t' same e safe =
      subst (λ p. Safe p.0) (or_terminal_ok (update_where k is_active change t) e)
        (update_where-Safe k is_active change t inactive same safe)

  stale_false : (cutoff : ℕ) → is_stale cutoff m ≡ false
  unfolding is_stale
  stale_false cutoff = rw inactive refl

  pub others_act-Safe : (acts : List (ℕ × ℕ)) (t : Messages) → Safe t → Safe (others_act acts t)
  unfolding fail_stale_active_assistant_message
  others_act-Safe [] t safe = safe
  others_act-Safe ((k, cutoff) ∷ rest) t safe = others_act-Safe rest _ (
      update_where-Safe k (is_stale cutoff) (stale_failure failure_content) t (stale_false cutoff)
        (λ n. refl) safe)

  pub save_status-Safe :
      (status : String) (content : Option String) (metadata : Option Fields) (t t' : Messages)
      → save_status i status content metadata t ≡ ok t'
      → Safe t
      → Safe t'
  unfolding save_status
  save_status-Safe status content metadata t t' e safe =
      active-Safe i (with_status status content metadata) t t' (λ n. refl) e safe

  pub save_partial-Safe :
      (content : String) (sequence : ℕ) (t t' : Messages)
      → save_partial i content sequence t ≡ ok t'
      → Safe t
      → Safe t'
  unfolding save_partial
  save_partial-Safe content sequence t t' e safe = elim (Option-cases (t i)) [
    | inl miss ↦ absurd (cc (rw (miss, save_partial) at e))
    | inr (current, found) ↦
        active-Safe i
          (with_partial content (set_field "_content_sequence" (number sequence) current.metadata))
          t t' (λ n. refl) (rw (found, save_partial) at e) safe
  ]

  delete_replaced-Safe :
      (o : Option ℕ) (t : Messages) → Safe t → Safe (delete_replaced i thread o t)
  unfolding delete_message
  delete_replaced-Safe none t safe = safe
  delete_replaced-Safe (some k) t (row, home) = elim (Bool-cases (is_replaced i thread k (t k))) [
    | inr e ↦ rw e (row, home)
    | inl e ↦ rw e (kept e, home')
  ]
    where
      home' : (c : Message) → put_row k none t i ≡ some c → c.thread_id ≡ thread
      home' c e = elim (Bool-cases (k == i)) [
        | inl own ↦ absurd (cc (rw own at e))
        | inr others ↦ home c (rw others at e)
      ]

      kept : is_replaced i thread k (t k) ≡ true → put_row k none t j ≡ some m
      kept e = elim (Bool-cases (k == j)) [
        | inr others ↦ rw others row
        | inl own ↦
            let is_j : k ≡ j = (==_iff k j).0 own in
            let test = rw (is_j, row) at e in absurd (ground (arith, test, spared))
      ]

  delete_all_replaced-Safe :
      (x : Library) (vs : Elements) (t : Messages)
      → Safe t
      → Safe (delete_all_replaced x i thread vs t)
  delete_all_replaced-Safe x no_elements t safe = safe
  delete_all_replaced-Safe x (element v vs) t safe =
      delete_all_replaced-Safe x vs _ (delete_replaced-Safe (x.uuid (x.str v)) t safe)

  pub save_completed-Safe :
      (x : Library) (content : String) (metadata : Fields) (t t' : Messages)
      → save_completed x i content metadata t ≡ ok t'
      → Safe t
      → Safe t'
  save_completed-Safe x content metadata t t' e safe =
      let (current, u, found, updated, replaced) =
        save_completed_done x i content metadata t t' e in
      let vs = elements_of (get "replaces_message_ids" metadata) in
      subst Safe replaced (
        subst (λ home. Safe (delete_all_replaced x i home vs u)) (sym (safe.1 current found))
          (delete_all_replaced-Safe x vs u
            (active-Safe i (with_completed content metadata) t u (λ n. refl) updated safe)))
