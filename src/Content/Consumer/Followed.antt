-- ===== src/Content/Consumer/Followed.antt =====
-- The statuses of the files while the consumer handles results: each change is a step of the
-- transition table, as long as what others do during a summary is.
use inuself.Base.{
  ℕ, String, ◌≡◌, refl, Bool, true, false, some, List, [], ◌∷◌, ◌==◌, String_eq, inl, inr, Result,
  ok, err, arith, Option-cases, Result-cases, if◌then◌else◌,
}
use inuself.Content.Machine.{
  processing, ocr_processing, summarizing, completed, asr_failed, ocr_failed, summary_failed,
}
use inuself.Content.Machine.Graph.{◌⟶*◌, here}
use inuself.Content.Files.{Db, Content}
use inuself.Content.Consumer.{
  World, Message, Stored, Summary, Outside, Outcome, and_then, except, transaction,
  asr_started_event, asr_completed_event, asr_failed_event, ocr_started_event, ocr_completed_event,
  ocr_failed_event, llm_started_event, llm_completed_event, llm_failed_event, completed_empty_event,
  clear_active_job,
}
use inuself.Content.Consumer.Handling.{
  finish_summary, fail_summary, after_summary, summarize_text, complete_empty, with_summary,
  stored_text, text_to_summarize, asr_completed, ocr_completed, started, handle_asr_result,
  handle_ocr_result, llm_replied, handle_llm_result,
}
use inuself.Content.Consumer.Entries.{Entry, handle_result, handle_message, settle, process_entries}
use inuself.Content.Consumer.Writes.{
  Forward, Writes, update-Writes, update-log-Writes, logged-Writes, store_transcription-Writes,
  store_document-Writes, save_summary-Writes, complete_empty-Writes,
}

-- Others write to the database during a summary by steps of the table only.
abbrev pub Orderly : Outside → Type 0
Orderly o = (f : ℕ) (text : String) (db : Db) → Forward db (o.summarize f text db).0

-- However it ends.
Ends : World → Outcome → Type 0
Ends w out = Forward w.db out.0.db

-- What leaves the database alone.
still : (w : World) (out : Outcome) → out.0.db ≡ w.db → Ends w out
unfolding Ends
still w out same s g h c there = h c (rw same at there)

and_then-Ends :
    (w : World) (out : Outcome) (next : World → Outcome)
    → Ends w out
    → ((w : World) → Ends w (next w))
    → Ends w (and_then out next)
unfolding Ends
and_then-Ends w (w', err e) next h k = h
and_then-Ends w (w', ok u) next h k = λ s g f. k w' s g (h s g f)

except-Ends :
    (w : World) (out : Outcome) (handler : World → Outcome)
    → Ends w out
    → ((w : World) → Ends w (handler w))
    → Ends w (except out handler)
unfolding Ends
except-Ends w (w', err e) handler h k = λ s g f. k w' s g (h s g f)
except-Ends w (w', ok u) handler h k = h

-- A transaction, and then what follows it.
commits :
    (w : World) (r : Result String Db) (next : World → Outcome)
    → Writes w.db r
    → ((w : World) → Ends w (next w))
    → Ends w (and_then (transaction w r) next)
unfolding Ends
commits w (err e) next h k = λ s g f. f
commits w (ok db) next h k = λ s g f. k (record w { db = db }) s g (h s g f)

choose-Ends :
    (w : World) (b : Bool) (yes_ no_ : Outcome)
    → Ends w yes_
    → Ends w no_
    → Ends w (if b then yes_ else no_)
choose-Ends w true yes_ no_ h k = h
choose-Ends w false yes_ no_ h k = k

clear-Ends : (kind : String) (f : ℕ) (w : World) → Ends w (clear_active_job kind f w)
unfolding clear_active_job
clear-Ends kind f w = still w _ refl

finish_summary-Ends :
    (o : Outside) (f : ℕ) (r : Result String Summary) (w : World) → Ends w (finish_summary o f r w)
unfolding finish_summary llm_completed_event llm_failed_event
finish_summary-Ends o f (err e) w = still w _ refl
finish_summary-Ends o f (ok s) w =
    commits w _ _ (save_summary-Writes o.later f s w.db)
      (λ w. choose-Ends w s.success _ _ (still w _ refl) (still w _ refl))

fail_summary-Ends : (now f : ℕ) (w : World) → Ends w (fail_summary now f w)
unfolding fail_summary llm_failed_event
fail_summary-Ends now f w =
    commits w _ _ (update-log-Writes now f summary_failed "llm_failed" w.db) (λ w. still w _ refl)

complete_empty-Ends : (now f : ℕ) (w : World) → Ends w (complete_empty now f w)
unfolding complete_empty completed_empty_event
complete_empty-Ends now f w =
    commits w _ _ (complete_empty-Writes now f (w.db.files f) w.db) (λ w. still w _ refl)

module _ (o : Outside) (orderly : Orderly o) where
  after_summary-Ends :
      (f : ℕ) (text : String) (w : World) → Ends w (after_summary o f (o.summarize f text w.db) w)
  unfolding Ends
  after_summary-Ends f text w s g h =
      let others = record w { db = (o.summarize f text w.db).0 } in
      except-Ends others (finish_summary o f (o.summarize f text w.db).1 others) _
        (finish_summary-Ends o f (o.summarize f text w.db).1 others) (fail_summary-Ends o.later f) s
        g (orderly f text w.db s g h)

  with_summary-Ends : (f : ℕ) (text : String) (w : World) → Ends w (with_summary o f text w)
  unfolding summarize_text llm_started_event
  with_summary-Ends f text w = choose-Ends w (text == "") _ _ (complete_empty-Ends o.now f w) (
      commits w _ _ (update-Writes o.now f summarizing w.db) (λ w.
        and_then-Ends w (llm_started_event f w) _ (still w _ refl) (after_summary-Ends f text)))

  asr_completed-Ends : (m : Message) (w : World) → Ends w (asr_completed o m w)
  unfolding asr_completed asr_completed_event
  asr_completed-Ends m w = elim (Result-cases (o.download_json m.result_s3_key)) [
    | inl (e, failed) ↦ rw (asr_completed, failed) (still w _ refl)
    | inr (r, found) ↦
        rw (asr_completed, found)
          (commits w _ _
            (store_transcription-Writes o.now m.file_id (stored_text r.transcription) w.db)
            (λ w. and_then-Ends w (asr_completed_event m.file_id w) _ (still w _ refl) (λ w.
              and_then-Ends w _ _
                (with_summary-Ends m.file_id (text_to_summarize r.transcription) w)
                (clear-Ends "asr" m.file_id))))
  ]

  ocr_completed-Ends : (m : Message) (w : World) → Ends w (ocr_completed o m w)
  unfolding ocr_completed ocr_completed_event
  ocr_completed-Ends m w = elim (Result-cases (o.download_json m.result_s3_key)) [
    | inl (e, failed) ↦ rw (ocr_completed, failed) (still w _ refl)
    | inr (r, found) ↦
        rw (ocr_completed, found)
          (commits w _ _ (store_document-Writes o.now m.file_id r.ocr_text w.db) (λ w.
            and_then-Ends w (ocr_completed_event m.file_id w) _ (still w _ refl) (λ w.
              and_then-Ends w _ _ (with_summary-Ends m.file_id r.ocr_text w)
                (clear-Ends "ocr" m.file_id))))
  ]

  handle_asr_result-Ends : (m : Message) (w : World) → Ends w (handle_asr_result o m w)
  unfolding handle_asr_result asr_started_event asr_failed_event
  handle_asr_result-Ends m w =
      choose-Ends w (started m.event) _ _
        (commits w _ _ (logged-Writes o.now m.file_id processing "asr_started" w.db)
          (λ w. still w _ refl))
        (choose-Ends w (m.event == "completed") _ _ (asr_completed-Ends m w) (
          choose-Ends w (m.event == "failed") _ _
            (commits w _ _ (logged-Writes o.now m.file_id asr_failed "asr_failed" w.db) (λ w.
              and_then-Ends w (asr_failed_event m.file_id w) _ (still w _ refl)
                (clear-Ends "asr" m.file_id)))
            (still w _ refl)))

  handle_ocr_result-Ends : (m : Message) (w : World) → Ends w (handle_ocr_result o m w)
  unfolding handle_ocr_result ocr_started_event ocr_failed_event
  handle_ocr_result-Ends m w =
      choose-Ends w (started m.event) _ _
        (commits w _ _ (update-Writes o.now m.file_id ocr_processing w.db) (λ w. still w _ refl))
        (choose-Ends w (m.event == "completed") _ _ (ocr_completed-Ends m w) (
          choose-Ends w (m.event == "failed") _ _
            (commits w _ _ (logged-Writes o.now m.file_id ocr_failed "ocr_failed" w.db) (λ w.
              and_then-Ends w (ocr_failed_event m.file_id w) _ (still w _ refl)
                (clear-Ends "ocr" m.file_id)))
            (still w _ refl)))

  llm_replied-Ends : (f : ℕ) (r : Stored) (w : World) → Ends w (llm_replied o f r w)
  unfolding llm_replied completed_empty_event llm_failed_event llm_completed_event
  llm_replied-Ends f r w =
      choose-Ends w r.skipped _ _
        (commits w _ _ (update-Writes o.now f completed w.db) (λ w. still w _ refl))
        (elim (Result-cases (o.parse_llm_response r.raw_response)) [
          | inl (e, failed) ↦
              rw failed
                (commits w _ _ (update-Writes o.now f summary_failed w.db) (λ w. still w _ refl))
          | inr (parsed, found) ↦ rw found (
              commits w _ _ (save_summary-Writes o.now f _ w.db) (λ w.
                and_then-Ends w (llm_completed_event f w) _ (still w _ refl) (clear-Ends "llm" f)))
        ])

  handle_llm_result-Ends : (m : Message) (w : World) → Ends w (handle_llm_result o m w)
  unfolding handle_llm_result llm_started_event
  handle_llm_result-Ends m w =
      choose-Ends w (m.event == "started") _ _
        (commits w _ _ (update-Writes o.now m.file_id summarizing w.db) (λ w. still w _ refl))
        (choose-Ends w (m.event == "completed") _ _
          (elim (Result-cases (o.download_json m.result_s3_key)) [
            | inl (e, failed) ↦ rw failed (still w _ refl)
            | inr (r, found) ↦ rw found (llm_replied-Ends m.file_id r w)
          ])
          (choose-Ends w (m.event == "failed") _ _
            (and_then-Ends w _ _ (fail_summary-Ends o.now m.file_id w) (clear-Ends "llm" m.file_id))
            (still w _ refl)))

  handle_message-Ends : (e : Entry) (w : World) → Ends w (handle_message o e w)
  unfolding handle_message handle_result
  handle_message-Ends e w = elim (Result-cases e.loaded) [
    | inl (x, failed) ↦ rw (handle_message, failed) (still w _ refl)
    | inr (loaded, found) ↦ elim (Option-cases loaded) [
      | inl empty ↦ rw (handle_message, found, empty) (still w _ refl)
      | inr (m, there) ↦
          rw (handle_message, found, there)
            (choose-Ends w (m.type_ == "asr") _ _ (handle_asr_result-Ends m w) (
              choose-Ends w (m.type_ == "llm") _ _ (handle_llm_result-Ends m w) (
                choose-Ends w (m.type_ == "ocr") _ _ (handle_ocr_result-Ends m w)
                  (still w _ refl))))
    ]
  ]

settle-Forward :
    (w : World) (e : Entry) (out : Outcome) (rest : World → World × List Entry)
    → Ends w out
    → ((w : World) → Forward w.db (rest w).0.db)
    → Forward w.db (settle e out rest).0.db
unfolding Ends
settle-Forward w e (w', err x) rest h k = λ s g f. k w' s g (h s g f)
settle-Forward w e (w', ok u) rest h k = λ s g f. k w' s g (h s g f)

process_entries-Forward :
    (o : ℕ → Outside)
    → ((n : ℕ) → Orderly (o n))
    → (es : List Entry) (w : World) → Forward w.db (process_entries o es w).0.db
unfolding process_entries
process_entries-Forward o orderly [] w = λ s g f. f
process_entries-Forward o orderly (e ∷ es) w =
    settle-Forward w e (handle_message (o e.id) e w) (process_entries o es)
      (handle_message-Ends (o e.id) (orderly e.id) e w) (process_entries-Forward o orderly es)

-- Whatever entries the consumer handles, however each of them ends, the status that a file has
-- afterwards is one that the steps of the transition table lead to from its status before, where
-- what others write during a summary keeps to that.
pub process_entries-Follows :
    (o : ℕ → Outside)
    → ((n : ℕ) → Orderly (o n))
    → (es : List Entry) (w : World) (g : ℕ) (c c' : Content) → w.db.contents g ≡ some c
    → (process_entries o es w).0.db.contents g ≡ some c'
    → c.status ⟶* c'.status
process_entries-Follows o orderly es w g c c' before after =
    process_entries-Forward o orderly es w c.status g
      (λ row there. let same : row.status ≡ c.status = ground arith in rw same here) c' after
