-- ===== src/Conversation/Events/Notes.antt =====
-- What a note in the metadata leaves alone: the response, the table, the count of tokens and what
-- was published.
use inuself.Base.{◌≡◌, refl}
use inuself.Gateway.Json.{Value, null, bool, num, text, array, obj}
use inuself.Conversation.Events.{Run, note_thinking, note_retry}

abbrev pub Same : Run → Run → Type 0
Same r' r =
    (r'.full_response ≡ r.full_response)
    × (r'.messages ≡ r.messages)
    × (r'.content_sequence ≡ r.content_sequence)
    × (r'.published ≡ r.published)

pub note_thinking-Same : (v : Value) (r : Run) → Same (note_thinking v r) r
note_thinking-Same null r = (refl, refl, refl, refl)
note_thinking-Same (bool b) r = (refl, refl, refl, refl)
note_thinking-Same (num sign n) r = (refl, refl, refl, refl)
note_thinking-Same (text s) r = (refl, refl, refl, refl)
note_thinking-Same (array vs) r = (refl, refl, refl, refl)
note_thinking-Same (obj fs) r = (refl, refl, refl, refl)

pub note_retry-Same : (v : Value) (r : Run) → Same (note_retry v r) r
note_retry-Same null r = (refl, refl, refl, refl)
note_retry-Same (bool b) r = (refl, refl, refl, refl)
note_retry-Same (num sign n) r = (refl, refl, refl, refl)
note_retry-Same (text s) r = (refl, refl, refl, refl)
note_retry-Same (array vs) r = (refl, refl, refl, refl)
note_retry-Same (obj fs) r = (refl, refl, refl, refl)
