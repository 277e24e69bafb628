-- ===== src/Conversation/Saves/Loads.antt =====
-- What `_load_run` has checked when it returns.
use inuself.Base.{
  ℕ, String, ◌≡◌, refl, sym, Bool, true, false, ◌&&◌, Option, none, some, ◌==◌, ℕ_eq, String_eq,
  ==_iff, elem, Result, ok, err, or_fail, guard, ◌>>=◌, ◌>>◌, arith, inl, inr, Bool-cases, bind_ok,
  bind_err, or_fail_ok, or_fail_err, guard-then_ok,
}
use inuself.Gateway.Json.{obj, no_fields, get}
use inuself.Conversation.Fields.{Library}
use inuself.Conversation.Messages.{Message, Messages, active_assistant_statuses}
use inuself.Conversation.Saves.{
  Failure, raised, Job, Loaded, load_run, loaded_of, terminal_statuses, or_value, base_metadata_of,
}
use inuself.Conversation.Saves.Final.{active_at, final_row}

-- What follows the guards.
pub load_run_checked :
    (x : Library) (job : Job) (threads : ℕ → Option ℕ) (t : Messages) (result : Option Loaded)
    → load_run x job threads t ≡ ok result
    → (user_message : Message) × (m : Message) × (t job.assistant_message_id ≡ some m)
      × ((user_message.thread_id == job.thread_id && m.thread_id == job.thread_id) ≡ true)
      × ((user_message.role == "user" && m.role == "assistant") ≡ true)
      × (loaded_of x job user_message m ≡ ok result)
unfolding load_run
load_run_checked x job threads t result e =
    let (owner, known, e1) = bind_ok (or_fail (threads job.thread_id) raised) _ e in
    let (owned, e2) = guard-then_ok (owner == job.user_id) raised _ e1 in
    let (user_message, asked, e3) = bind_ok (or_fail (t job.user_message_id) raised) _ e2 in
    let (m, found, e4) = bind_ok (or_fail (t job.assistant_message_id) raised) _ e3 in
    let (same_thread, e5) = guard-then_ok _ raised _ e4 in
    let (roles, e6) = guard-then_ok _ raised _ e5 in
    (user_message, m, or_fail_ok (t job.assistant_message_id) raised found, same_thread, roles, e6)

-- A result that fails by the exception of a load only.
abbrev Only {ℓ} : {A : Type ℓ} → Result Failure A → Type ℓ
Only e = (f : Failure) → e ≡ err f → f ≡ raised

or_fail-Only {ℓ} : {A : Type ℓ} (o : Option A) → Only (or_fail o raised)
or_fail-Only o f e = sym ((or_fail_err o raised e).1)

bind-Only {ℓ κ} :
    {A : Type ℓ} {B : Type κ} (first : Result Failure A) (next : A → Result Failure B)
    → Only first
    → ((a : A) → Only (next a))
    → Only (first >>= next)
bind-Only first next one rest f e = elim (bind_err first next e) [
  | inl refused ↦ one f refused
  | inr (a, found, failed) ↦ rest a f failed
]

guard-Only {ℓ} :
    {B : Type ℓ} (test : Bool) (next : Result Failure B)
    → Only next
    → Only (guard test raised >> next)
guard-Only true next rest f e = rest f e
guard-Only false next rest f e = cc

loaded_of-Only : (x : Library) (job : Job) (u m : Message) → Only (loaded_of x job u m)
unfolding loaded_of
loaded_of-Only x job u m = elim (Bool-cases (elem m.status terminal_statuses)) [
  | inl final ↦ λ f e. absurd (cc (rw (final, loaded_of) at e))
  | inr ongoing ↦
      rw (ongoing, loaded_of)
        (bind-Only
          (or_fail (x.dict_of (or_value (get "context" (base_metadata_of m)) (obj no_fields)))
            raised)
          _ (or_fail-Only _) (λ context f e. absurd (cc e)))
]

pub load_run_failed :
    (x : Library) (job : Job) (threads : ℕ → Option ℕ) (t : Messages)
    → Only (load_run x job threads t)
unfolding load_run
load_run_failed x job threads t =
    bind-Only (or_fail (threads job.thread_id) raised) _ (or_fail-Only _) (λ owner.
      guard-Only (owner == job.user_id) _ (
        bind-Only (or_fail (t job.user_message_id) raised) _ (or_fail-Only _) (λ u.
          bind-Only (or_fail (t job.assistant_message_id) raised) _ (or_fail-Only _)
            (λ m. guard-Only _ _ (guard-Only _ _ (loaded_of-Only x job u m))))))

terminal_inactive :
    (s : String) → elem s terminal_statuses ≡ true → elem s active_assistant_statuses ≡ false
terminal_inactive s e = elim (Bool-cases ("completed" == s)) [
  | inl is ↦ rw (sym ((==_iff "completed" s).0 is)) refl
  | inr not_completed ↦ elim (Bool-cases ("failed" == s)) [
    | inl is ↦ rw (sym ((==_iff "failed" s).0 is)) refl
    | inr not_failed ↦ elim (Bool-cases ("cancelled" == s)) [
      | inl is ↦ rw (sym ((==_iff "cancelled" s).0 is)) refl
      | inr not_cancelled ↦ absurd (ground (arith, not_completed, not_failed, not_cancelled))
    ]
  ]
]

not_started :
    (x : Library) (job : Job) (u m : Message)
    → loaded_of x job u m ≡ ok none
    → elem m.status terminal_statuses ≡ true
unfolding loaded_of
not_started x job u m e = elim (Bool-cases (elem m.status terminal_statuses)) [
  | inl final ↦ final
  | inr ongoing ↦
      let (context, known, last) =
        bind_ok
          (or_fail (x.dict_of (or_value (get "context" (base_metadata_of m)) (obj no_fields)))
            raised)
          _ (rw (ongoing, loaded_of) at e) in
      absurd (cc last)
]

-- The status of a run that is not started.
pub load_run-none :
    (x : Library) (job : Job) (threads : ℕ → Option ℕ) (t : Messages)
    → load_run x job threads t ≡ ok none
    → active_at job.assistant_message_id t ≡ false
load_run-none x job threads t e =
    let (u, m, found, same_thread, roles, last) = load_run_checked x job threads t none e in
    final_row job.assistant_message_id t m found
      (terminal_inactive m.status (not_started x job u m last))
