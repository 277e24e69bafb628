-- ===== src/Conversation/Dispatch.antt =====
-- backend/app/services/agent_dispatcher.py: the reconciler that publishes the queued messages again
-- and finishes the abandoned ones. Redis keeps the dispatch markers with their expiry; the locks,
-- the task queue's answers and the clock are arguments.
pub mod Finalize
pub mod Abandoned
pub mod Publish
pub mod Published
use inuself.Base.{
  take, ℕ, zero, suc, ◌+◌, ◌-◌, String, Bool, true, false, not, ◌&&◌, Option, none, some, List, [],
  ◌∷◌, ◌++◌, ◌==◌, ℕ_eq, String_eq, ltb, filter, if◌then◌else◌, one_if,
}
use inuself.Gateway.Json.{Value, Fields, Elements, null, bool, num, text, array, obj, get}
use inuself.Conversation.Messages.{Message, Messages, is_stale, fail_stale_active_assistant_message}
use inuself.Conversation.Worker.{Acquired, acquired, held, redis_down, failure_content}

-- ACTIVE_JOB_TTL and AGENT_DISPATCH_CLAIM_SECONDS.
abbrev pub active_job_ttl : ℕ
active_job_ttl = 7200

abbrev pub claim_seconds : ℕ
claim_seconds = 60

abbrev pub row_test : (Message → Bool) → Messages → ℕ → Bool
row_test test t i = elim (t i) [ none ↦ false | some m ↦ test m ]

-- The ids of the rows in the order of their creation are an argument.
unfoldable pub get_stale_active_assistant_messages : ℕ → List ℕ → Messages → List ℕ
get_stale_active_assistant_messages cutoff ids t =
    take 100 (filter (row_test (is_stale cutoff) t) ids)

-- The body of the loop, under what the lock answers. (The lock is released at its end.)
unfoldable pub finalize_one : ℕ → Acquired → ℕ → Messages → Messages × ℕ
finalize_one cutoff acquired i t =
    let (t', updated) = fail_stale_active_assistant_message i cutoff failure_content t in
    (t', one_if updated)
finalize_one cutoff held i t = (t, 0)
finalize_one cutoff redis_down i t = (t, 0)

abbrev pub finalize_each : ℕ → (ℕ → Acquired) → List ℕ → Messages → Messages × ℕ
finalize_each cutoff locks [] t = (t, 0)
finalize_each cutoff locks (i ∷ is) t =
    let (t', n) = finalize_one cutoff (locks i) i t in
    let (t'', rest) = finalize_each cutoff locks is t' in (t'', n + rest)

unfoldable pub finalize_stale_active_agent_messages :
    ℕ → (ℕ → Acquired) → List ℕ → Messages → Messages × ℕ
finalize_stale_active_agent_messages now locks ids t =
    finalize_each (now - active_job_ttl) locks
      (get_stale_active_assistant_messages (now - active_job_ttl) ids t) t

pub record Claim : Type 0 where
  pub claim_id : ℕ
  pub expires : ℕ

pub record AgentJob : Type 0 where
  pub thread_id : String
  pub user_id : String
  pub user_message_id : String
  pub assistant_message_id : ℕ

-- The markers of the messages, and the jobs in the task queue, the latest last.
pub record Redis : Type 0 where
  pub claims : ℕ → Option Claim
  pub queue : List AgentJob

abbrev pub is_claimed : ℕ → Option Claim → Bool
is_claimed now none = false
is_claimed now (some c) = ltb now c.expires

abbrev pub put_claim : ℕ → Option Claim → (ℕ → Option Claim) → ℕ → Option Claim
put_claim i c claims j = if i == j then c else claims j

-- One call of `dispatch_agent_job`: its times before and after the publication, its fresh claim id,
-- whether the task queue takes the job, and whether a worker has started on it by then (a worker
-- deletes the marker).
pub record Try : Type 0 where
  pub now : ℕ
  pub later : ℕ
  pub claim_id : ℕ
  pub taken : Bool
  pub started : Bool

-- The script that extends the claim, if it is still this call's.
abbrev pub extended : Try → Option Claim → Option Claim
extended try none = none
extended try (some c) =
    if ltb try.later c.expires && c.claim_id == try.claim_id
    then some (record { claim_id = c.claim_id; expires = try.later + active_job_ttl })
    else some c

abbrev pub own_claim : Try → Claim
own_claim try = record { claim_id = try.claim_id; expires = try.now + claim_seconds }

abbrev pub claim_after : Try → Option Claim
claim_after try = if try.started then none else extended try (some (own_claim try))

-- Whether the job was published; an exception of the task queue leaves the claim.
unfoldable pub dispatch_agent_job : Try → ℕ → AgentJob → Redis → Redis × Bool
dispatch_agent_job try i job r =
    if is_claimed try.now (r.claims i)
    then (r, false)
    else if try.taken
    then (
      record r { claims = put_claim i (claim_after try) r.claims; queue = r.queue ++ (job ∷ []) },
      true,
    )
    else (record r { claims = put_claim i (some (own_claim try)) r.claims }, false)

abbrev pub as_text : Option Value → Option String
as_text (some (text s)) = some s
as_text v = none

abbrev pub job_of : ℕ → Option String → Option String → Option String → Option AgentJob
job_of i (some thread_id) (some user_id) (some user_message_id) = some (record {
  thread_id = thread_id;
  user_id = user_id;
  user_message_id = user_message_id;
  assistant_message_id = i;
})
job_of i thread_id user_id user_message_id = none

-- The job in a message's metadata, where its fields are texts.
abbrev pub job_in : ℕ → Option Value → Option AgentJob
job_in i (some (obj fs)) =
    job_of i (as_text (get "thread_id" fs)) (as_text (get "user_id" fs))
      (as_text (get "user_message_id" fs))
job_in i v = none

abbrev pub has_job : Option Value → Bool
has_job none = false
has_job (some v) = true

-- The condition of the scan.
unfoldable pub is_queued_job : Message → Bool
is_queued_job m =
    m.role == "assistant" && m.status == "queued" && has_job (get "_agent_job" m.metadata)

abbrev pub job_at : Messages → ℕ → Option AgentJob
job_at t i = elim (t i) [ none ↦ none | some m ↦ job_in i (get "_agent_job" m.metadata) ]

abbrev pub publish_one : (ℕ → Try) → ℕ → Option AgentJob → Redis → Redis × Bool
publish_one tries i none r = (r, false)
publish_one tries i (some job) r = dispatch_agent_job (tries i) i job r

abbrev pub publish_each : (ℕ → Try) → Messages → List ℕ → Redis → Redis × ℕ
publish_each tries t [] r = (r, 0)
publish_each tries t (i ∷ is) r =
    let (r', sent) = publish_one tries i (job_at t i) r in
    let (r'', rest) = publish_each tries t is r' in (r'', one_if sent + rest)

unfoldable pub reconcile_agent_jobs_once :
    ℕ → (ℕ → Acquired) → (ℕ → Try) → List ℕ → Messages → Redis → Messages × Redis × ℕ
reconcile_agent_jobs_once now locks tries ids t r =
    let t' = (finalize_stale_active_agent_messages now locks ids t).0 in
    let (r', dispatched) = publish_each tries t' (filter (row_test is_queued_job t') ids) r in
    (t', r', dispatched)
