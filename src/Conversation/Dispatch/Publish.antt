-- ===== src/Conversation/Dispatch/Publish.antt =====
-- Which jobs the reconciler publishes.
use mathlib.Core.List.{append_assoc, append-nil}
use inuself.Base.{
  ℕ, ◌+◌, ◌≡◌, refl, sym, ap, ◌∙◌, Bool, true, false, not, ◌&&◌, Option, none, some, List, [], ◌∷◌,
  ◌++◌, ◌==◌, ℕ_eq, ==_iff, ==_refl, lt→ltb, elem, elem-filter, filter, length, length-append, ltb,
  ◌<◌, ◌≤◌, arith, inl, inr, Bool-cases, if◌then◌else◌, one_if,
}
use inuself.Conversation.Messages.{Messages}
use inuself.Conversation.Worker.{Acquired}
use inuself.Conversation.Dispatch.{
  Claim, AgentJob, Redis, Try, is_claimed, dispatch_agent_job, job_at, publish_one, publish_each,
  row_test, is_queued_job, finalize_stale_active_agent_messages, reconcile_agent_jobs_once,
  put_claim, claim_after, own_claim, claim_seconds, active_job_ttl,
}

-- No element twice.
abbrev pub Distinct : List ℕ → Type 0
Distinct [] = Unit
Distinct (i ∷ is) = (elem i is ≡ false) × Distinct is

filter-Distinct : (p : ℕ → Bool) (is : List ℕ) → Distinct is → Distinct (filter p is)
filter-Distinct p [] d = tt
filter-Distinct p (i ∷ is) d = elim (Bool-cases (p i)) [
  | inl e ↦ rw e (elem-filter p i is d.0, filter-Distinct p is d.1)
  | inr e ↦ rw e (filter-Distinct p is d.1)
]

-- A job that can be published: no marker is there, and the task queue takes it.
abbrev pub is_open : (ℕ → Try) → (ℕ → Option Claim) → ℕ → Bool
is_open tries claims i = not (is_claimed (tries i).now (claims i)) && (tries i).taken

abbrev pub job_if : Bool → Option AgentJob → List AgentJob
job_if test none = []
job_if test (some job) = if test then job ∷ [] else []

-- The jobs of the messages, in their order, whose metadata is valid and which are open.
abbrev pub open_jobs : (ℕ → Try) → Messages → (ℕ → Option Claim) → List ℕ → List AgentJob
open_jobs tries t claims [] = []
open_jobs tries t claims (i ∷ is) =
    job_if (is_open tries claims i) (job_at t i) ++ open_jobs tries t claims is

publish_one_lem :
    (tries : ℕ → Try) (i : ℕ) (job : Option AgentJob) (r : Redis)
    → let after = publish_one tries i job r in
      let jobs = job_if (is_open tries r.claims i) job in
      (after.0.queue ≡ r.queue ++ jobs) × (one_if after.1 ≡ length jobs)
unfolding dispatch_agent_job
publish_one_lem tries i none r = (sym (append-nil r.queue), refl)
publish_one_lem tries i (some job) r = elim (Bool-cases (is_claimed (tries i).now (r.claims i))) [
  | inl claimed ↦ rw (claimed, dispatch_agent_job) (sym (append-nil r.queue), refl)
  | inr free ↦ elim (Bool-cases (tries i).taken) [
    | inl taken ↦ rw (free, dispatch_agent_job, taken) (refl, refl)
    | inr refused ↦ rw (free, dispatch_agent_job, refused) (sym (append-nil r.queue), refl)
  ]
]

put_claim-other :
    (i j : ℕ) (c : Option Claim) (claims : ℕ → Option Claim)
    → (i == j) ≡ false
    → put_claim i c claims j ≡ claims j
put_claim-other i j c claims other = rw other refl

-- The markers of the other messages stay.
publish_one_other :
    (tries : ℕ → Try) (i j : ℕ) (job : Option AgentJob) (r : Redis)
    → (i == j) ≡ false
    → (publish_one tries i job r).0.claims j ≡ r.claims j
unfolding dispatch_agent_job
publish_one_other tries i j none r other = refl
publish_one_other tries i j (some job) r other =
    elim (Bool-cases (is_claimed (tries i).now (r.claims i))) [
      | inl claimed ↦ rw (claimed, dispatch_agent_job) refl
      | inr free ↦ elim (Bool-cases (tries i).taken) [
        | inl taken ↦ rw (free, dispatch_agent_job, taken) (put_claim-other i j _ r.claims other)
        | inr refused ↦
            rw (free, dispatch_agent_job, refused) (put_claim-other i j _ r.claims other)
      ]
    ]

-- The open jobs of a list depend on its messages' markers only.
open_jobs-same :
    (tries : ℕ → Try) (t : Messages) (claims claims' : ℕ → Option Claim) (i : ℕ) (is : List ℕ)
    → elem i is ≡ false
    → ((j : ℕ) → (i == j) ≡ false → claims' j ≡ claims j)
    → open_jobs tries t claims' is ≡ open_jobs tries t claims is
open_jobs-same tries t claims claims' i [] fresh same = refl
open_jobs-same tries t claims claims' i (j ∷ is) fresh same =
    let (first, rest) : ((i == j) ≡ false) × (elem i is ≡ false) =
      ground (arith, fresh, ==_iff i j, ==_iff j i) in
    rw (same j first) (
      ap (λ jobs. job_if (is_open tries claims j) (job_at t j) ++ jobs)
        (open_jobs-same tries t claims claims' i is rest same))

publish_each_lem :
    (tries : ℕ → Try) (t : Messages) (is : List ℕ) (r : Redis)
    → Distinct is
    → let after = publish_each tries t is r in
      let jobs = open_jobs tries t r.claims is in
      (after.0.queue ≡ r.queue ++ jobs) × (after.1 ≡ length jobs)
publish_each_lem tries t [] r d = (sym (append-nil r.queue), refl)
publish_each_lem tries t (i ∷ is) r (fresh, d) =
    let here = publish_one_lem tries i (job_at t i) r in
    let r' = (publish_one tries i (job_at t i) r).0 in
    let there = publish_each_lem tries t is r' d in
    let same : open_jobs tries t r'.claims is ≡ open_jobs tries t r.claims is =
      open_jobs-same tries t r.claims r'.claims i is fresh
        (λ j other. publish_one_other tries i j (job_at t i) r other) in
    let first = job_if (is_open tries r.claims i) (job_at t i) in
    let rest = open_jobs tries t r.claims is in
    (
      there.0
          ∙ (ap (λ jobs. r'.queue ++ jobs) same
              ∙ (ap (λ q. q ++ rest) here.0 ∙ append_assoc r.queue first rest)),
      omega (arith, there.1, ap length same, here.1, length-append first rest),
    )

-- A pass of the reconciler, by the code's own tests of the messages.
pub reconcile_queue :
    (now : ℕ) (locks : ℕ → Acquired) (tries : ℕ → Try) (ids : List ℕ) (t : Messages) (r : Redis)
    → Distinct ids
    → let (t', r', dispatched) = reconcile_agent_jobs_once now locks tries ids t r in
      let jobs = open_jobs tries t' r.claims (filter (row_test is_queued_job t') ids) in
      (r'.queue ≡ r.queue ++ jobs) × (dispatched ≡ length jobs)
unfolding reconcile_agent_jobs_once
reconcile_queue now locks tries ids t r d =
    let t' = (finalize_stale_active_agent_messages now locks ids t).0 in
    publish_each_lem tries t' (filter (row_test is_queued_job t') ids) r
      (filter-Distinct (row_test is_queued_job t') ids d)

claimed_after :
    (try : Try) (now : ℕ)
    → try.started ≡ false
    → now < try.now + claim_seconds
    → try.now ≤ try.later
    → is_claimed now (claim_after try) ≡ true
claimed_after try now waiting soon order =
    rw waiting (go (ltb try.later (try.now + claim_seconds)) refl)
  where
    go :
        (kept : Bool)
        → ltb try.later (try.now + claim_seconds) ≡ kept
        → is_claimed now (
            if kept && try.claim_id == try.claim_id
            then some (record { claim_id = try.claim_id; expires = try.later + active_job_ttl })
            else some (own_claim try))
          ≡ true
    go true e =
        rw (==_refl try.claim_id)
          (lt→ltb now (try.later + active_job_ttl) (omega (arith, soon, order)))
    go false e = lt→ltb now (try.now + claim_seconds) soon

published :
    (try : Try) (i : ℕ) (job : AgentJob) (r r' : Redis)
    → dispatch_agent_job try i job r ≡ (r', true)
    → r'.claims i ≡ claim_after try
unfolding dispatch_agent_job
published try i job r r' e = elim (Bool-cases (is_claimed try.now (r.claims i))) [
  | inl claimed ↦ absurd (cc (ap (λ p. p.1) (rw (claimed, dispatch_agent_job) at e)))
  | inr free ↦ elim (Bool-cases try.taken) [
    | inl taken ↦
        ap (λ p. p.0.claims i) (sym (rw (free, dispatch_agent_job, taken) at e))
        ∙ rw (==_refl i) refl
    | inr refused ↦ absurd (cc (ap (λ p. p.1) (rw (free, dispatch_agent_job, refused) at e)))
  ]
]

-- A message that the reconciler publishes is claimed for a minute, unless a worker starts on it: a
-- second call in that time publishes nothing, whatever its claim id.
pub dispatch_agent_job_once :
    (try again : Try) (i : ℕ) (job : AgentJob) (r r' : Redis)
    → dispatch_agent_job try i job r ≡ (r', true)
    → try.started ≡ false
    → again.now < try.now + claim_seconds
    → try.now ≤ try.later
    → dispatch_agent_job again i job r' ≡ (r', false)
unfolding dispatch_agent_job
dispatch_agent_job_once try again i job r r' e waiting soon order =
    let marked : is_claimed again.now (r'.claims i) ≡ true =
      ap (is_claimed again.now) (published try i job r r' e)
      ∙ claimed_after try again.now waiting soon order in
    rw (marked, dispatch_agent_job) refl
