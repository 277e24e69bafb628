-- ===== src/Content/Transcript.antt =====
-- backend/app/services/transcription_postprocess.py: the text and the speakers of a transcription,
-- from its segments. A segment is a dictionary of JSON values; its times are thousandths of a second
-- with a sign.
pub mod Speakers
pub mod Tests
use Prim.Native.String.{◌++◌ as append}
use inuself.Base.{
  ℕ, ◌+◌, ◌-◌, ◌*◌, ◌/◌, ◌%◌, String, Bool, true, false, Option, none, some, List, [], ◌∷◌, ◌==◌,
  ℕ_eq, String_eq, Dict, lookup, insert, or_default, ltb, if◌then◌else◌,
}
use inuself.Gateway.Json.{Value, Fields, null, bool, num, text, array, obj, get}
use inuself.Content.Texts.{str, strip, split, join}

abbrev pub unknown_speaker : String
unknown_speaker = "UNKNOWN"

abbrev pub speaker_separator : String
speaker_separator = " & "

-- A time: whether it is negative, and its thousandths.
abbrev pub Seconds : Type 0
Seconds = Bool × ℕ

-- `float(value)` for a value that is an `int` or a `float`, as a `bool` is.
abbrev pub number_of : Option Value → Seconds
number_of (some (num negative n)) = (negative, n)
number_of (some (bool true)) = (false, 1000)
number_of _ = (false, 0)

unfoldable pub seg_float : Fields → String → Seconds
seg_float segment key = number_of (get key segment)

abbrev pub string_of : Option Value → String
string_of (some (text s)) = s
string_of _ = ""

unfoldable pub seg_str : Fields → String → String
seg_str segment key = string_of (get key segment)

-- `max(0.0, end - start)`.
unfoldable pub elapsed : Seconds → Seconds → ℕ
elapsed (false, start) (false, end_) = end_ - start
elapsed (false, start) (true, end_) = 0
elapsed (true, start) (false, end_) = end_ + start
elapsed (true, start) (true, end_) = start - end_

-- `_seg_str(segment, "speaker") or UNKNOWN_SPEAKER`.
unfoldable pub speaker_label : Fields → String
speaker_label segment =
    let label = seg_str segment "speaker" in if label == "" then unknown_speaker else label

-- Splitting a text without the separator gives the text alone.
unfoldable pub speakers_of : Fields → List String
speakers_of segment = split speaker_separator (speaker_label segment)

unfoldable pub duration_of : Fields → ℕ
duration_of segment = elapsed (seg_float segment "start") (seg_float segment "end")

pub record SpeakerStats : Type 0 where
  pub count : ℕ
  pub duration : ℕ

abbrev pub zero_stats : SpeakerStats
zero_stats = record { count = 0; duration = 0 }

abbrev pub spoken : ℕ → SpeakerStats → SpeakerStats
spoken duration entry = record { count = entry.count + 1; duration = entry.duration + duration }

-- The loop over the speakers of one segment.
unfoldable pub add_speakers : ℕ → List String → Dict String SpeakerStats → Dict String SpeakerStats
add_speakers duration [] stats = stats
add_speakers duration (speaker ∷ speakers) stats =
    add_speakers duration speakers
      (insert speaker (spoken duration (or_default (lookup speaker stats) zero_stats)) stats)

unfoldable pub add_segments : List Fields → Dict String SpeakerStats → Dict String SpeakerStats
add_segments [] stats = stats
add_segments (segment ∷ segments) stats =
    add_segments segments (add_speakers (duration_of segment) (speakers_of segment) stats)

unfoldable pub rebuild_speaker_stats : List Fields → Dict String SpeakerStats
rebuild_speaker_stats segments = add_segments segments []

-- The texts of the segments that are not blank.
unfoldable pub parts : List Fields → List String
parts [] = []
parts (segment ∷ segments) =
    let part = strip (seg_str segment "text") in
    let rest = parts segments in if part == "" then rest else part ∷ rest

unfoldable pub rebuild_transcription_text : List Fields → String
rebuild_transcription_text segments = strip (join " " (parts segments))

-- `int(seconds // 60)`, as text; the division rounds down.
unfoldable pub whole_minutes : Seconds → String
whole_minutes (false, n) = str (n / 60000)
whole_minutes (true, n) =
    let minutes = (n + 59999) / 60000 in if minutes == 0 then "0" else append "-" (str minutes)

-- `int(seconds % 60)`.
unfoldable pub rest_seconds : Seconds → ℕ
rest_seconds (false, n) = (n % 60000) / 1000
rest_seconds (true, n) = ((60000 - n % 60000) % 60000) / 1000

abbrev pub two_digits : ℕ → String
two_digits n = if ltb n 10 then append "0" (str n) else str n

unfoldable pub format_time : Seconds → String
unfolding whole_minutes rest_seconds
format_time seconds = join ":" (whole_minutes seconds ∷ two_digits (rest_seconds seconds) ∷ [])

-- `[SPEAKER] (M:SS-M:SS) text`.
unfoldable pub line_of : Fields → String → String
line_of segment part = join "" (
    "["
    ∷ speaker_label segment
    ∷ "] ("
    ∷ format_time (seg_float segment "start")
    ∷ "-"
    ∷ format_time (seg_float segment "end")
    ∷ ") "
    ∷ part
    ∷ [])

unfoldable pub lines_of : List Fields → List String
lines_of [] = []
lines_of (segment ∷ segments) =
    let part = strip (seg_str segment "text") in
    let rest = lines_of segments in if part == "" then rest else line_of segment part ∷ rest

unfoldable pub segments_to_text_with_metadata : List Fields → String
segments_to_text_with_metadata segments = join "\n\n" (lines_of segments)
