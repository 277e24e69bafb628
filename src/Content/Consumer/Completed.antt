-- ===== src/Content/Consumer/Completed.antt =====
-- The result of a completed recognition: the file that waits for it ends.
use inuself.Base.{
  ℕ, String, ◌≡◌, refl, true, false, not, ◌&&◌, some, List, [], ◌∷◌, ◌==◌, ℕ_eq, String_eq, ◌⊎◌,
  inl, inr, any, filter, ok, err, Bool-cases,
}
use inuself.Content.Machine.{
  FileStatus, queued, processing, ocr_processing, summary_queued, is_terminal_state,
}
use inuself.Content.Files.{Content}
use inuself.Content.Consumer.{
  World, Message, Stored, Outside, Outcome, asr_completed_event, ocr_completed_event,
  clear_active_job,
}
use inuself.Content.Consumer.Handling.{stored_text, text_to_summarize, asr_completed, ocr_completed}
use inuself.Content.Consumer.Entries.{Entry, handle_result, handle_message}
use inuself.Content.Consumer.Pending.{asr-handle_result, ocr-handle_result, handle_message-Raises}
use inuself.Content.Consumer.Reached.{At, store_transcription-Gives, store_document-Gives}
use inuself.Content.Consumer.Summed.{
  Ensures, and_then-Ensures, transaction-Ensures, Ended, Undisturbed, with_summary-Ended,
}

-- The end of a job, whose key is gone.
abbrev pub Settled : ℕ → String → World → Type 0
Settled f kind w = Ended f w × (any (λ job. job.0 == kind && job.1 == f) w.active_jobs ≡ false)

module _ (o : Outside) (f : ℕ) (undisturbed : Undisturbed o f) where
  clear-Settled :
      (kind : String) (w : World) → Ended f w → Ensures (Settled f kind) (clear_active_job kind f w)
  unfolding clear_active_job
  clear-Settled kind w ended = (_, refl, (ended, gone w.active_jobs))
    where
      gone :
          (jobs : List (String × ℕ))
          → any
              (λ job. job.0 == kind && job.1 == f)
              (filter (λ job. not (job.0 == kind && job.1 == f)) jobs)
            ≡ false
      gone [] = refl
      gone (job ∷ jobs) = elim (Bool-cases (job.0 == kind && job.1 == f)) [
        | inl it ↦ rw it (gone jobs)
        | inr other ↦ rw (other, other) (gone jobs)
      ]

  asr_completed-Settled :
      (m : Message) (s : FileStatus) (r : Stored) (w : World)
      → m.file_id ≡ f
      → (s ≡ queued) ⊎ (s ≡ processing)
      → o.download_json m.result_s3_key ≡ ok r
      → At f s w.db
      → Ensures (Settled f "asr") (asr_completed o m w)
  unfolding asr_completed asr_completed_event
  asr_completed-Settled m s r w file from found at_ =
      rw (asr_completed, found, file)
        (transaction-Ensures (Settled f "asr") f summary_queued w _ _
          (store_transcription-Gives o.now f s (stored_text r.transcription) w.db from at_)
          (λ w at_.
            and_then-Ensures (Ended f) (Settled f "asr") _ (clear_active_job "asr" f)
              (with_summary-Ended o f undisturbed (text_to_summarize r.transcription) _ at_)
              (clear-Settled "asr")))

  ocr_completed-Settled :
      (m : Message) (s : FileStatus) (r : Stored) (w : World)
      → m.file_id ≡ f
      → (s ≡ queued) ⊎ (s ≡ ocr_processing)
      → o.download_json m.result_s3_key ≡ ok r
      → At f s w.db
      → Ensures (Settled f "ocr") (ocr_completed o m w)
  unfolding ocr_completed ocr_completed_event
  ocr_completed-Settled m s r w file from found at_ =
      rw (ocr_completed, found, file)
        (transaction-Ensures (Settled f "ocr") f summary_queued w _ _
          (store_document-Gives o.now f s r.ocr_text w.db from at_)
          (λ w at_.
            and_then-Ensures (Ended f) (Settled f "ocr") _ (clear_active_job "ocr" f)
              (with_summary-Ended o f undisturbed r.ocr_text _ at_) (clear-Settled "ocr")))

-- The kinds of recognition, each with the status of a file that its worker is at.
abbrev pub Recognition : String → FileStatus → Type 0
Recognition kind working =
    ((kind ≡ "asr") × (working ≡ processing)) ⊎ ((kind ≡ "ocr") × (working ≡ ocr_processing))

gone_as :
    (f : ℕ) (kind kind' : String) (out : Outcome)
    → kind ≡ kind'
    → Ensures (Settled f kind') out
    → Ensures (Settled f kind) out
gone_as f kind kind' out same h = rw same h

handle_result-Settled :
    (o : Outside) (m : Message) (s working : FileStatus) (r : Stored) (w : World)
    → Recognition m.type_ working
    → m.event ≡ "completed"
    → (s ≡ queued) ⊎ (s ≡ working)
    → o.download_json m.result_s3_key ≡ ok r
    → At m.file_id s w.db
    → Undisturbed o m.file_id
    → Ensures (Settled m.file_id m.type_) (handle_result o m w)
handle_result-Settled o m s working r w (inl (asr, at_asr)) event from found at_ calm =
    rw (asr-handle_result o m w asr event) (
      gone_as m.file_id m.type_ "asr" _ asr
        (asr_completed-Settled o m.file_id calm m s r w refl (rw at_asr at from) found at_))
handle_result-Settled o m s working r w (inr (ocr, at_ocr)) event from found at_ calm =
    rw (ocr-handle_result o m w ocr event) (
      gone_as m.file_id m.type_ "ocr" _ ocr
        (ocr_completed-Settled o m.file_id calm m s r w refl (rw at_ocr at from) found at_))

kind_of :
    {kind : String} {working : FileStatus}
    → Recognition kind working
    → (kind ≡ "asr") ⊎ (kind ≡ "ocr")
kind_of (inl (asr, h)) = inl asr
kind_of (inr (ocr, h)) = inr ocr

Ended-Spent :
    (f : ℕ) (w : World)
    → Ended f w
    → (c : Content) × (w.db.contents f ≡ some c) × (is_terminal_state c.status ≡ true)
unfolding is_terminal_state
Ended-Spent f w (inl ((c, there, is), shown)) = (c, there, rw is refl)
Ended-Spent f w (inr ((c, there, is), shown)) = (c, there, rw is refl)

-- The result of a completed recognition, of a file that is QUEUED or at its worker, is handled
-- without an exception, where it can be downloaded and the file is SUMMARIZING or SUMMARY_FAILED
-- after others wrote during the summary. The file is COMPLETED or SUMMARY_FAILED then, this is what
-- was published last for it, and its job is no longer active. When the entry comes again it raises
-- and changes nothing, whatever the rest of the program is then.
pub handle_message-Settled :
    (o again : Outside) (e : Entry) (m : Message) (s working : FileStatus) (r : Stored) (w : World)
    → e.loaded ≡ ok (some m)
    → Recognition m.type_ working
    → m.event ≡ "completed"
    → (s ≡ queued) ⊎ (s ≡ working)
    → o.download_json m.result_s3_key ≡ ok r
    → At m.file_id s w.db
    → Undisturbed o m.file_id
    → (w' : World) × (handle_message o e w ≡ (w', ok tt))
      × Settled m.file_id m.type_ w'
      × ((x : String) × (handle_message again e w' ≡ (w', err x)))
unfolding handle_message
handle_message-Settled o again e m s working r w loaded kind event from found at_ calm =
    let (w', made, settled) =
      handle_result-Settled o m s working r w kind event from found at_ calm in
    let (c, there, terminal) = Ended-Spent m.file_id w' settled.0 in
    (
      w',
      rw (handle_message, loaded) made,
      settled,
      handle_message-Raises again e w' (m, c, loaded, kind_of kind, event, there, terminal),
    )
