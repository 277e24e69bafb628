-- ===== src/Conversation/Dispatch/Published.antt =====
-- Which jobs the reconciler publishes, said of the rows and the markers.
use inuself.Base.{
  ◌↔◌, sym, ℕ, ◌≤◌, String, ◌≡◌, refl, true, Option, none, some, List, [], ◌∷◌, ◌++◌, ℕ_eq,
  String_eq, ==_iff, filter, length, inl, inr, arith, Bool-cases, Option-cases,
}
use inuself.Gateway.Json.{Value, Fields, null, bool, num, text, array, obj, get}
use inuself.Conversation.Messages.{Message, Messages}
use inuself.Conversation.Worker.{Acquired}
use inuself.Conversation.Dispatch.{
  Claim, AgentJob, Try, Redis, as_text, job_of, job_in, is_queued_job, row_test, job_at,
  finalize_stale_active_agent_messages, reconcile_agent_jobs_once,
}
use inuself.Conversation.Dispatch.Publish.{Distinct, is_open, open_jobs, reconcile_queue}

-- The message `i` is an assistant's and queued, and its metadata has the job, with three texts.
pub record Ready (t : Messages) (i : ℕ) (job : AgentJob) : Type 0 where
  pub message : Message
  pub stored : t i ≡ some message
  pub role_is : message.role ≡ "assistant"
  pub status_is : message.status ≡ "queued"
  pub fields : Fields
  pub metadata_is : get "_agent_job" message.metadata ≡ some (obj fields)
  pub thread_is : get "thread_id" fields ≡ some (text job.thread_id)
  pub user_is : get "user_id" fields ≡ some (text job.user_id)
  pub question_is : get "user_message_id" fields ≡ some (text job.user_message_id)
  pub answer_is : job.assistant_message_id ≡ i

-- No marker of the message is in force, and the task queue takes its job.
abbrev pub Open : (ℕ → Try) → (ℕ → Option Claim) → ℕ → Type 0
Open tries claims i =
    ((c : Claim) → claims i ≡ some c → c.expires ≤ (tries i).now) × ((tries i).taken ≡ true)

-- The jobs of the messages `ids`, in their order: one for each that is ready and open.
pub data Publishes (t : Messages) (tries : ℕ → Try) (claims : ℕ → Option Claim)
    : List ℕ → List AgentJob → Type 0 where
  ends : Publishes t tries claims [] []
  sends :
      {i : ℕ} {job : AgentJob} {is : List ℕ} {jobs : List AgentJob}
      → Ready t i job
      → Open tries claims i
      → Publishes t tries claims is jobs
      → Publishes t tries claims (i ∷ is) (job ∷ jobs)
  skips :
      {i : ℕ} {is : List ℕ} {jobs : List AgentJob}
      → ((job : AgentJob) → Ready t i job → Open tries claims i → ⊥)
      → Publishes t tries claims is jobs
      → Publishes t tries claims (i ∷ is) jobs

as_text_iff : (o : Option Value) (s : String) → as_text o ≡ some s → o ≡ some (text s)
as_text_iff none s e = absurd (cc)
as_text_iff (some (text r)) s e = cc
as_text_iff (some null) s e = absurd (cc)
as_text_iff (some (bool b)) s e = absurd (cc)
as_text_iff (some (num sign n)) s e = absurd (cc)
as_text_iff (some (array _)) s e = absurd (cc)
as_text_iff (some (obj _)) s e = absurd (cc)

-- A job that is read from three texts has them.
job_of_texts :
    (i : ℕ) (thread user question : Option String) (job : AgentJob)
    → job_of i thread user question ≡ some job
    → (thread ≡ some job.thread_id)
      × (user ≡ some job.user_id)
      × (question ≡ some job.user_message_id)
      × (job.assistant_message_id ≡ i)
job_of_texts i (some a) (some b) (some c) job e = (cc, cc, cc, cc)
job_of_texts i none user question job e = absurd (cc)
job_of_texts i (some a) none question job e = absurd (cc)
job_of_texts i (some a) (some b) none job e = absurd (cc)

job_in-obj :
    (i : ℕ) (o : Option Value) (job : AgentJob)
    → job_in i o ≡ some job
    → (fields : Fields) × (o ≡ some (obj fields))
      × (get "thread_id" fields ≡ some (text job.thread_id))
      × (get "user_id" fields ≡ some (text job.user_id))
      × (get "user_message_id" fields ≡ some (text job.user_message_id))
      × (job.assistant_message_id ≡ i)
job_in-obj i (some (obj fs)) job e =
    let (thread, user, question, answer) = job_of_texts i _ _ _ job e in
    (
      fs,
      refl,
      as_text_iff (get "thread_id" fs) _ thread,
      as_text_iff (get "user_id" fs) _ user,
      as_text_iff (get "user_message_id" fs) _ question,
      answer,
    )
job_in-obj i none job e = absurd (cc)
job_in-obj i (some null) job e = absurd (cc)
job_in-obj i (some (bool b)) job e = absurd (cc)
job_in-obj i (some (num sign n)) job e = absurd (cc)
job_in-obj i (some (array _)) job e = absurd (cc)
job_in-obj i (some (text _)) job e = absurd (cc)

Ready-tests :
    (t : Messages) (i : ℕ) (job : AgentJob)
    → row_test is_queued_job t i ≡ true
    → job_at t i ≡ some job
    → Ready t i job
unfolding is_queued_job
Ready-tests t i job test at = elim (Option-cases (t i)) [
  | inl miss ↦ absurd (cc (rw (miss, row_test) at test))
  | inr (m, found) ↦
      let (fields, metadata, thread, user, question, answer) =
        job_in-obj i (get "_agent_job" m.metadata) job (rw (found, job_at) at at) in
      record {
        message = m;
        stored = found;
        role_is = (==_iff m.role "assistant").0 (ground (arith, found, test));
        status_is = (==_iff m.status "queued").0 (ground (arith, found, test));
        fields = fields;
        metadata_is = metadata;
        thread_is = thread;
        user_is = user;
        question_is = question;
        answer_is = answer;
      }
]

tests-Ready :
    (t : Messages) (i : ℕ) (job : AgentJob)
    → Ready t i job
    → (row_test is_queued_job t i ≡ true) × (job_at t i ≡ some job)
unfolding is_queued_job
tests-Ready t i job ready = (
  rw (ready.stored, row_test)
      (rw
        (
          (==_iff ready.message.role "assistant").1 ready.role_is,
          (==_iff ready.message.status "queued").1 ready.status_is,
          ready.metadata_is,
        )
        refl),
  rw (ready.stored, job_at)
      (rw ready.metadata_is
        (rw (ready.thread_is, ready.user_is, ready.question_is) (rw (sym ready.answer_is) refl))),
)

is_open-Open :
    (tries : ℕ → Try) (claims : ℕ → Option Claim) (i : ℕ)
    → (is_open tries claims i ≡ true) ↔ Open tries claims i
is_open-Open tries claims i = (
  λ e. (λ c at. ground (arith, at, e), ground (arith, e)),
  λ open_. elim (Option-cases (claims i)) [
    | inl miss ↦ ground (arith, miss, open_.1)
    | inr (c, at) ↦ ground (arith, at, open_.0 c at, open_.1)
  ],
)

-- The jobs that the code publishes from a scan are those of the messages that are ready and open.
open_jobs-Publishes :
    (t : Messages) (tries : ℕ → Try) (claims : ℕ → Option Claim) (ids : List ℕ)
    → Publishes t tries claims ids
        (open_jobs tries t claims (filter (row_test is_queued_job t) ids))
open_jobs-Publishes t tries claims [] = ends
open_jobs-Publishes t tries claims (i ∷ is) =
    let rest = open_jobs-Publishes t tries claims is in
    elim (Bool-cases (row_test is_queued_job t i)) [
      | inr other ↦
          rw other (skips (λ job ready free. cc (other, (tests-Ready t i job ready).0)) rest)
      | inl queued ↦ elim (Option-cases (job_at t i)) [
        | inl invalid ↦ rw (queued) (
            rw (invalid)
              (skips (λ job ready free. cc (invalid, (tests-Ready t i job ready).1)) rest))
        | inr (job, valid) ↦ elim (Bool-cases (is_open tries claims i)) [
          | inl free ↦ rw queued (
              rw valid (
                rw free (
                  sends (Ready-tests t i job queued valid) ((is_open-Open tries claims i).0 free)
                    rest)))
          | inr closed ↦ rw queued (
              rw valid (
                rw closed (
                  skips (λ job' ready free. cc (closed, (is_open-Open tries claims i).1 free))
                    rest)))
        ]
      ]
    ]

-- One pass of the reconciler appends to the task queue exactly one job for each message of its scan
-- that after the finalizer is an assistant's and queued, whose metadata has the job with three
-- texts, which no marker claims at its time and whose job the queue takes; the jobs have these
-- texts and the message's id, and stand in the scan's order; it returns their number, where the ids
-- of the scan are distinct.
pub reconcile_agent_jobs_once_lem :
    (now : ℕ) (locks : ℕ → Acquired) (tries : ℕ → Try) (ids : List ℕ) (t : Messages) (r : Redis)
    → Distinct ids
    → let (t', r', dispatched) = reconcile_agent_jobs_once now locks tries ids t r in
      (t' ≡ (finalize_stale_active_agent_messages now locks ids t).0)
      × ((jobs : List AgentJob) × Publishes t' tries r.claims ids jobs
          × (r'.queue ≡ r.queue ++ jobs)
          × (dispatched ≡ length jobs))
unfolding reconcile_agent_jobs_once
reconcile_agent_jobs_once_lem now locks tries ids t r distinct =
    let t' = (finalize_stale_active_agent_messages now locks ids t).0 in
    let (queue, number) = reconcile_queue now locks tries ids t r distinct in
    (
      refl,
      (
        open_jobs tries t' r.claims (filter (row_test is_queued_job t') ids),
        open_jobs-Publishes t' tries r.claims ids,
        queue,
        number,
      ),
    )
