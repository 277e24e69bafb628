-- ===== src/Conversation/Worker/Reading.antt =====
-- The answer that a stream's events give, and how it grows with them.
use package.text.Mathlib.TextLemmas.{append_assoc, nil-append, append-nil}
use Prim.Native.String.{◌++◌ as append}
use inuself.Base.{
  String, ◌≡◌, refl, sym, ap, ◌∙◌, Bool, true, false, ◌||◌, List, [], ◌∷◌, inl, inr, Bool-cases,
  any, if◌then◌else◌,
}
use inuself.Gateway.Json.{Value, text}
use inuself.Conversation.Fields.{Library}
use inuself.Conversation.Events.{
  Event, Kind, thinking, query_analysis, search_queries, listed, search_retry, token, content, done,
  failure, other, kind_of, text_of,
}
use inuself.Conversation.Worker.{Arrival, yields, breaks, Tick}
use inuself.Conversation.Worker.Answers.{extend, is_done}

abbrev pub heard_from : Arrival → List Event → List Event
heard_from (breaks redis) es = []
heard_from (yields e) es = if is_done (kind_of e.event_type) then [] else e ∷ es

-- The events before the first "done" or the first exception.
abbrev pub heard : List Tick → List Event
heard [] = []
heard (tick ∷ ticks) = heard_from tick.arrival (heard ticks)

abbrev pub is_content : Kind → Bool
is_content k = elim k [ content ↦ true | _ ↦ false ]

-- The text that an event adds.
abbrev pub said : Library → Kind → Value → String
said x k v = elim k [ token ↦ text_of x v | content ↦ text_of x v | _ ↦ "" ]

abbrev pub replaces : Event → Bool
replaces e = is_content (kind_of e.event_type)

-- The answer of a stream: its last "content", and the tokens after it.
abbrev pub answer : Library → List Event → String
answer x [] = ""
answer x (e ∷ es) =
    let rest = answer x es in
    if any replaces es then rest else append (said x (kind_of e.event_type) e.payload) rest

-- The response at the end of the events, from the response so far.
abbrev pub finally : Library → String → List Event → String
finally x s es = if any replaces es then answer x es else append s (answer x es)

-- An event does not change the final response.
finally-extend :
    (x : Library) (s : String) (e : Event) (es : List Event)
    → finally x s (e ∷ es) ≡ finally x (extend x (kind_of e.event_type) e.payload s) es
finally-extend x s e es = go (kind_of e.event_type) (any replaces es)
  where
    rest : String
    rest = answer x es

    quiet :
        (later : Bool)
        → (if later
            then (if later then rest else append "" rest)
            else append s (if later then rest else append "" rest))
          ≡ (if later then rest else append s rest)
    quiet true = refl
    quiet false = ap (append s) (nil-append rest)

    go :
        (k : Kind) (later : Bool)
        → (let here = if later then rest else append (said x k e.payload) rest in
            if is_content k || later then here else append s here)
          ≡ (if later then rest else append (extend x k e.payload s) rest)
    go content true = refl
    go content false = refl
    go token true = refl
    go token false = sym (append_assoc s (text_of x e.payload) rest)
    go thinking later = quiet later
    go query_analysis later = quiet later
    go search_queries later = quiet later
    go listed later = quiet later
    go search_retry later = quiet later
    go done later = quiet later
    go failure later = quiet later
    go other later = quiet later

pub finally-goes :
    (x : Library) (s : String) (e : Event) (es : List Event) {s' : String}
    → is_done (kind_of e.event_type) ≡ false
    → s' ≡ extend x (kind_of e.event_type) e.payload s
    → finally x s' es ≡ finally x s (heard_from (yields e) es)
finally-goes x s e es ongoing same =
    rw ongoing (ap (λ u. finally x u es) same ∙ sym (finally-extend x s e es))

pub finally-ends :
    (x : Library) (s : String) (e : Event) (es : List Event)
    → is_done (kind_of e.event_type) ≡ true
    → s ≡ finally x s (heard_from (yields e) es)
finally-ends x s e es ended = rw ended (sym (append-nil s))

pub finally-start : (x : Library) (es : List Event) → finally x "" es ≡ answer x es
finally-start x es = elim (Bool-cases (any replaces es)) [
  | inl later ↦ rw later refl
  | inr last ↦ rw last (nil-append (answer x es))
]
