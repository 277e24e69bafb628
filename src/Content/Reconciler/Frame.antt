-- ===== src/Content/Reconciler/Frame.antt =====
-- What the reconciler leaves alone: the rows of all files but the one of a finding, and that of a
-- file in a terminal status.
use inuself.Base.{
  ℕ, ap, ◌∙◌, String, ◌≡◌, ◌⊎◌, refl, Bool, true, false, Option, some, List, [], ◌∷◌, map, ◌==◌,
  ℕ_eq, String_eq, ==_iff, elem, ok, err, if◌then◌else◌, leb, inl, inr, arith, Bool-cases,
  Option-cases,
}
use inuself.Content.Machine.{FileStatus, FileStatus_eq, summary_queued, is_terminal_state}
use inuself.Content.Files.{Content}
use inuself.Content.Reconciler.{
  Finding, Session, Summary, Handled, get_retry_count, forced, mark_as_failed, requeue_llm_job,
  stuck_below, handle_stuck, handle_no_job, handle_job_mismatch, dispatch, handle_finding, skipped,
  max_retry_count, settle, reconcile, failure_state,
}
use inuself.Content.Reconciler.Elsewhere.{Keeps, forced-Keeps, requeue-Keeps, stuck_below-Keeps}

-- A call on the session that keeps the row.
record After (g : ℕ) (row : Option Content) (h : Handled) : Type 0 where
  kept : Keeps g row h.0

if-After :
    (g : ℕ) (row : Option Content) (b : Bool) (x y : Handled)
    → After g row x
    → After g row y
    → After g row (if b then x else y)
if-After g row true x y kx ky = kx
if-After g row false x y kx ky = ky

dispatch-After :
    (now g : ℕ) (row : Option Content) (t : FileStatus) (n : ℕ) (execute : String → Summary)
    (finding : Finding) (s : Session)
    → (finding.file_id == g) ≡ false
    → Keeps g row s
    → After g row (dispatch now t n execute finding s)
unfolding skipped dispatch handle_stuck handle_no_job handle_job_mismatch mark_as_failed
dispatch-After now g row t n execute finding s other k =
    let f = finding.file_id in
    let same : After g row (skipped f false s) = record { kept = k } in
    let failed : After g row (mark_as_failed now f t s) = record {
      kept =
          forced-Keeps now f g row other (failure_state t) "reconciler_marked_failed"
            "marked_failed" s k;
    } in
    let fixed : After g row
        (forced now f (failure_state t) "reconciler_status_fix" "fixed_status" s) =
      record {
        kept =
            forced-Keeps now f g row other (failure_state t) "reconciler_status_fix" "fixed_status"
              s k;
      } in
    let requeued : After g row (requeue_llm_job now f t execute s) = record {
      kept = requeue-Keeps now f g row other t execute s k;
    } in
    let below : After g row (stuck_below now f t execute s) = record {
      kept = stuck_below-Keeps now f g row other t execute s k;
    } in
    let stuck : After g row (handle_stuck now f t n execute s) =
      if-After g row (leb max_retry_count n) _ _ failed below in
    let no_job : After g row (handle_no_job now f t n execute s) =
      if-After g row (leb max_retry_count n) _ _ failed
        (if-After g row (t == summary_queued) _ _ requeued same) in
    let mismatch : After g row (handle_job_mismatch now f t finding.mentions_failed s) =
      if-After g row finding.mentions_failed _ _ fixed same in
    if-After g row (finding.issue_type == "stuck") _ _ stuck (
      if-After g row (finding.issue_type == "no_job") _ _ no_job (
        if-After g row (finding.issue_type == "job_mismatch") _ _ mismatch
          (if-After g row (finding.issue_type == "job_failed") _ _ failed same)))

-- A finding that is about another file, or about one that is in a terminal status.
Spared : Finding → ℕ → Content → Type 0
Spared finding g c = (is_terminal_state c.status ≡ true) ⊎ ((finding.file_id == g) ≡ false)

handle_finding-After :
    (now g : ℕ) (c : Content) (execute : String → Summary) (finding : Finding) (s : Session)
    → Spared finding g c
    → Keeps g (some c) s
    → After g (some c) (handle_finding now execute finding s)
unfolding handle_finding skipped Spared
handle_finding-After now g c execute finding s spared k =
    elim (Option-cases (s.current.files finding.file_id)) [
      | inl miss ↦ rw (miss, handle_finding) (record { kept = k })
      | inr (file, found) ↦ elim (Option-cases (s.current.contents finding.file_id)) [
        | inl miss ↦ rw (found, miss, handle_finding) (record { kept = k })
        | inr (d, row_is) ↦ rw (found, row_is, handle_finding) (go d row_is spared)
      ]
    ]
  where
    elsewhere :
        (d : Content)
        → (finding.file_id == g) ≡ false
        → After g (some c) (
            if is_terminal_state d.status
            then skipped finding.file_id true s
            else dispatch now d.status
                (get_retry_count s.current finding.file_id)
                execute
                finding
                s)
    elsewhere d other =
        if-After g (some c) (is_terminal_state d.status) _ _ (record { kept = k })
          (dispatch-After now g (some c) d.status _ execute finding s other k)

    go :
        (d : Content)
        → s.current.contents finding.file_id ≡ some d
        → Spared finding g c
        → After g (some c) (
            if is_terminal_state d.status
            then skipped finding.file_id true s
            else dispatch now d.status
                (get_retry_count s.current finding.file_id)
                execute
                finding
                s)
    go d row_is (inr other) = elsewhere d other
    go d row_is (inl ended) = elim (Bool-cases (finding.file_id == g)) [
      | inr other ↦ elsewhere d other
      | inl this ↦
          let is_g : finding.file_id ≡ g = (==_iff finding.file_id g).0 this in
          let there : s.current.contents finding.file_id ≡ some c = rw is_g k.in_current in
          let same : d ≡ c = cc in
          let ended' : is_terminal_state d.status ≡ true =
            ap (λ x. is_terminal_state x.status) same ∙ ended in
          rw ended' (record { kept = k })
    ]

settle-Keeps :
    (g : ℕ) (row : Option Content) (finding : Finding) (h : Handled)
    → After g row h
    → Keeps g row (settle finding h).0
settle-Keeps g row finding (s, ok a) after = record {
  in_committed = after.kept.in_current;
  in_current = after.kept.in_current;
}
settle-Keeps g row finding (s, err e) after = record {
  in_committed = after.kept.in_committed;
  in_current = after.kept.in_committed;
}

settle-settled :
    (finding : Finding) (h : Handled)
    → (settle finding h).0.current ≡ (settle finding h).0.committed
settle-settled finding (s, ok a) = refl
settle-settled finding (s, err e) = refl

-- Reconciling leaves the row of a file as it is, committed and seen, if the file is in a terminal
-- status or none of the findings is about it; and of a session with nothing pending it leaves
-- nothing pending.
pub reconcile-Keeps :
    (now g : ℕ) (c : Content) (execute : String → Summary) (findings : List Finding) (s : Session)
    → ((is_terminal_state c.status ≡ true) ⊎ (elem g (map (λ x. x.file_id) findings) ≡ false))
    → Keeps g (some c) s
    → s.current ≡ s.committed
    → Keeps g (some c) (reconcile now execute findings s).0
      × ((reconcile now execute findings s).0.current
          ≡ (reconcile now execute findings s).0.committed)
unfolding reconcile Spared
reconcile-Keeps now g c execute [] s spared k settled = (k, settled)
reconcile-Keeps now g c execute (finding ∷ findings) s spared k settled =
    let h = handle_finding now execute finding s in
    let here : Spared finding g c = elim spared [
      | inl ended ↦ inl ended
      | inr away ↦ inr (ground (arith, away))
    ] in
    let later : (is_terminal_state c.status ≡ true)
        ⊎ (elem g (map (λ x. x.file_id) findings) ≡ false) =
      elim spared [ inl ended ↦ inl ended | inr away ↦ inr (ground (arith, away)) ] in
    reconcile-Keeps now g c execute findings (settle finding h).0 later
      (settle-Keeps g (some c) finding h (handle_finding-After now g c execute finding s here k))
      (settle-settled finding h)
