-- ===== src/Content/Consumer/Entries.antt =====
-- backend/app/services/stream_consumer.py: the entries of the stream, which stay pending until they
-- are acknowledged. Each is handled with what the rest of the program is then; one whose JSON cannot
-- be read is its exception, and an empty one has no message.
use inuself.Base.{
  ℕ, String, Option, none, some, List, [], ◌∷◌, ◌++◌, ◌==◌, String_eq, Result, ok, err, take, drop,
  if◌then◌else◌,
}
use inuself.Content.Consumer.{World, Message, Outside, Outcome}
use inuself.Content.Consumer.Handling.{handle_asr_result, handle_llm_result, handle_ocr_result}

unfoldable pub handle_result : Outside → Message → World → Outcome
handle_result o m w =
    if m.type_ == "asr"
    then handle_asr_result o m w
    else if m.type_ == "llm"
    then handle_llm_result o m w
    else if m.type_ == "ocr"
    then handle_ocr_result o m w
    else (w, ok tt)

pub record Entry : Type 0 where
  pub id : ℕ
  pub loaded : Result String (Option Message)

unfoldable pub handle_message : Outside → Entry → World → Outcome
handle_message o e w = elim e.loaded [
  | err x ↦ (w, err x)
  | ok none ↦ (w, ok tt)
  | ok (some m) ↦ handle_result o m w
]

-- An entry that is handled is acknowledged; one that raises is logged, and stays.
abbrev pub settle : Entry → Outcome → (World → World × List Entry) → World × List Entry
settle e (w, ok u) rest = rest w
settle e (w, err x) rest = let (last, kept) = rest w in (last, e ∷ kept)

-- The loop over the entries that were read: the world after it, and those that stay pending.
unfoldable pub process_entries : (ℕ → Outside) → List Entry → World → World × List Entry
process_entries o [] w = (w, [])
process_entries o (e ∷ es) w = settle e (handle_message (o e.id) e w) (process_entries o es)

-- One turn of the loop of `start`: new entries are delivered, and pending from then on.
unfoldable pub read_new : (ℕ → Outside) → List Entry → World × List Entry → World × List Entry
read_new o entries (w, pending) =
    let (last, kept) = process_entries o entries w in (last, pending ++ kept)

-- `_claim_pending_messages`: the oldest hundred of the pending entries.
unfoldable pub claim_pending_messages : (ℕ → Outside) → World × List Entry → World × List Entry
claim_pending_messages o (w, pending) =
    let (last, kept) = process_entries o (take 100 pending) w in (last, kept ++ drop 100 pending)
