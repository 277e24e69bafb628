-- ===== src/Content/Consumer/Pending.antt =====
-- Results that come again for a file that has ended, and the recovery of pending entries.
use inuself.Base.{
  ℕ, zero, suc, String, ◌≡◌, refl, ap, true, false, some, List, [], ◌∷◌, ◌++◌, ◌==◌, ℕ_eq,
  String_eq, ◌⊎◌, inl, inr, Result, ok, err, ◌>>=◌, arith, Result-cases, All, take, drop,
}
use inuself.Content.Machine.{
  FileStatus-discrete, FileStatus, FileStatus_eq, queued, processing, ocr_processing,
  summary_queued, is_terminal_state, can_transition,
}
use inuself.Content.Files.{Db, Content, put, update_file_status}
use inuself.Content.Consumer.{World, Message, Outside, Outcome, and_then, transaction}
use inuself.Content.Consumer.Handling.{
  update, save_transcription, save_document, queue_summary, store_transcription, store_document,
  stored_text, asr_completed, ocr_completed, handle_asr_result, handle_ocr_result,
}
use inuself.Content.Consumer.Entries.{
  Entry, handle_result, handle_message, process_entries, claim_pending_messages,
}

-- A status that has ended is not QUEUED or SUMMARY_QUEUED, and the table refuses to queue it.
terminal_refuses :
    (s : FileStatus)
    → is_terminal_state s ≡ true
    → ((s == queued) ≡ false)
      × ((s == summary_queued) ≡ false)
      × ((can_transition s summary_queued).0 ≡ false)
unfolding is_terminal_state can_transition FileStatus-discrete
terminal_refuses queued h = cc
terminal_refuses _ h = ground (arith, h)

Fails : {A : Type 0} → Result String A → Type 0
Fails r = (x : String) × (r ≡ err x)

queue_summary-Fails :
    (now f : ℕ) (working : FileStatus) (db : Db) (c : Content)
    → db.contents f ≡ some c
    → is_terminal_state c.status ≡ true
    → Fails (queue_summary now f working db)
unfolding queue_summary update update_file_status Fails
queue_summary-Fails now f working db c there ended =
    let (a, b, d) = terminal_refuses c.status ended in
    (
      (can_transition c.status summary_queued).1,
      rw (queue_summary, update, update_file_status, there, a, there, b, d),
    )

Fails-bind :
    {A B : Type 0} (r : Result String A) (next : A → Result String B) → Fails r → Fails (r >>= next)
unfolding Fails
Fails-bind (err e) next h = (e, refl)
Fails-bind (ok a) next (x, e) = cc

store_transcription-Fails :
    (now f : ℕ) (t : String) (db : Db) (c : Content)
    → db.contents f ≡ some c
    → is_terminal_state c.status ≡ true
    → Fails (store_transcription now f t db)
unfolding store_transcription save_transcription
store_transcription-Fails now f t db c there ended =
    rw (store_transcription, save_transcription, there)
      (Fails-bind _ _ (
        queue_summary-Fails now f processing
          (record db { transcriptions = put f t db.transcriptions }) c there ended))

store_document-Fails :
    (now f : ℕ) (t : String) (db : Db) (c : Content)
    → db.contents f ≡ some c
    → is_terminal_state c.status ≡ true
    → Fails (store_document now f t db)
unfolding store_document save_document
store_document-Fails now f t db c there ended =
    rw (store_document, save_document, there)
      (Fails-bind _ _ (
        queue_summary-Fails now f ocr_processing (record db { documents = put f t db.documents }) c
          there ended))

-- An outcome that raises and leaves the world as it was.
abbrev pub Raises : World → Outcome → Type 0
Raises w out = (x : String) × (out ≡ (w, err x))

transaction-Raises :
    (w : World) (r : Result String Db) (next : World → Outcome)
    → Fails r
    → Raises w (and_then (transaction w r) next)
unfolding Fails
transaction-Raises w (err e) next h = (e, refl)
transaction-Raises w (ok db) next (x, e) = cc

asr_completed-Raises :
    (o : Outside) (m : Message) (w : World) (c : Content)
    → w.db.contents m.file_id ≡ some c
    → is_terminal_state c.status ≡ true
    → Raises w (asr_completed o m w)
unfolding asr_completed
asr_completed-Raises o m w c there ended = elim (Result-cases (o.download_json m.result_s3_key)) [
  | inl (e, failed) ↦ rw (asr_completed, failed) (e, refl)
  | inr (r, found) ↦
      rw (asr_completed, found)
        (transaction-Raises w _ _ (
          store_transcription-Fails o.now m.file_id (stored_text r.transcription) w.db c there
            ended))
]

ocr_completed-Raises :
    (o : Outside) (m : Message) (w : World) (c : Content)
    → w.db.contents m.file_id ≡ some c
    → is_terminal_state c.status ≡ true
    → Raises w (ocr_completed o m w)
unfolding ocr_completed
ocr_completed-Raises o m w c there ended = elim (Result-cases (o.download_json m.result_s3_key)) [
  | inl (e, failed) ↦ rw (ocr_completed, failed) (e, refl)
  | inr (r, found) ↦
      rw (ocr_completed, found)
        (transaction-Raises w _ _
          (store_document-Fails o.now m.file_id r.ocr_text w.db c there ended))
]

-- The result of a completed recognition, for a file that has ended.
abbrev pub Spent : World → Entry → Type 0
Spent w e =
    (m : Message) × (c : Content) × (e.loaded ≡ ok (some m))
    × ((m.type_ ≡ "asr") ⊎ (m.type_ ≡ "ocr"))
    × (m.event ≡ "completed")
    × (w.db.contents m.file_id ≡ some c)
    × (is_terminal_state c.status ≡ true)

pub asr-handle_result :
    (o : Outside) (m : Message) (w : World)
    → m.type_ ≡ "asr"
    → m.event ≡ "completed"
    → handle_result o m w ≡ asr_completed o m w
unfolding handle_result handle_asr_result handle_ocr_result asr_completed ocr_completed
asr-handle_result o m w asr event = rw (handle_result, asr, handle_asr_result, event)

pub ocr-handle_result :
    (o : Outside) (m : Message) (w : World)
    → m.type_ ≡ "ocr"
    → m.event ≡ "completed"
    → handle_result o m w ≡ ocr_completed o m w
unfolding handle_result handle_asr_result handle_ocr_result asr_completed ocr_completed
ocr-handle_result o m w ocr event = rw (handle_result, ocr, handle_ocr_result, event)

handle_result-Raises :
    (o : Outside) (m : Message) (w : World) (c : Content)
    → (m.type_ ≡ "asr") ⊎ (m.type_ ≡ "ocr")
    → m.event ≡ "completed"
    → w.db.contents m.file_id ≡ some c
    → is_terminal_state c.status ≡ true
    → Raises w (handle_result o m w)
handle_result-Raises o m w c (inl asr) event there ended =
    rw (asr-handle_result o m w asr event) (asr_completed-Raises o m w c there ended)
handle_result-Raises o m w c (inr ocr) event there ended =
    rw (ocr-handle_result o m w ocr event) (ocr_completed-Raises o m w c there ended)

pub handle_message-Raises :
    (o : Outside) (e : Entry) (w : World) → Spent w e → Raises w (handle_message o e w)
unfolding handle_message
handle_message-Raises o e w (m, c, loaded, kind, event, there, ended) =
    rw (handle_message, loaded) (handle_result-Raises o m w c kind event there ended)

process_entries-Spent :
    (o : ℕ → Outside) (es : List Entry) (w : World)
    → All (Spent w) es
    → process_entries o es w ≡ (w, es)
unfolding process_entries
process_entries-Spent o [] w h = refl
process_entries-Spent o (e ∷ es) w h =
    let (x, raised) = handle_message-Raises (o e.id) e w h.0 in
    rw (process_entries, raised, process_entries-Spent o es w h.1)

take-drop {ℓ} : {A : Type ℓ} (n : ℕ) (xs : List A) → take n xs ++ drop n xs ≡ xs
take-drop n [] = refl
take-drop zero (x ∷ xs) = refl
take-drop (suc n) (x ∷ xs) = ap (λ ys. x ∷ ys) (take-drop n xs)

-- Where the oldest hundred of the pending entries are results of completed recognitions for files
-- that have ended, the recovery changes nothing: it acknowledges none of them, and does not come to
-- the entries after them.
pub claim_pending_messages-Spent :
    (o : ℕ → Outside) (pending : List Entry) (w : World)
    → All (Spent w) (take 100 pending)
    → claim_pending_messages o (w, pending) ≡ (w, pending)
unfolding claim_pending_messages
claim_pending_messages-Spent o pending w h =
    rw (claim_pending_messages, process_entries-Spent o (take 100 pending) w h)
      (ap (λ es. (w, es)) (take-drop 100 pending))
