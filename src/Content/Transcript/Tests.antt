-- ===== src/Content/Transcript/Tests.antt =====
-- A talk of two speakers, of whom both speak at once in the second segment.
use inuself.Base.{ℕ, String, String_eq, ◌≡◌, refl, false, some, List, [], ◌∷◌, lookup}
use inuself.Gateway.Json.{Fields, num, text, field, no_fields}
use inuself.Content.Texts.{strip, split, split_at, base_name}
use inuself.Content.Transcript.{
  seg_str, seg_float, elapsed, speaker_label, speakers_of, duration_of, parts, lines_of, line_of,
  format_time, whole_minutes, rest_seconds, rebuild_speaker_stats, rebuild_transcription_text,
  segments_to_text_with_metadata,
}
use inuself.Content.Transcript.Speakers.{rebuild_speaker_stats-times_of, times_of, times_in}

abbrev segment : String → ℕ → ℕ → String → Fields
segment speaker start end_ words = field "speaker" (text speaker) (
    field "start" (num false start)
      (field "end" (num false end_) (field "text" (text words) no_fields)))

abbrev talk : List Fields
talk =
    segment "A" 0 61500 " Hello. "
    ∷ segment "A & B" 61000 64000 "Hi"
    ∷ segment "" 64000 70000 " "
    ∷ []

whole_text : rebuild_transcription_text talk ≡ "Hello. Hi"
unfolding rebuild_transcription_text parts strip seg_str
whole_text = refl

with_metadata :
    segments_to_text_with_metadata talk ≡ "[A] (0:00-1:01) Hello.\n\n[A & B] (1:01-1:04) Hi"
unfolding segments_to_text_with_metadata lines_of line_of format_time whole_minutes rest_seconds
    speaker_label seg_str seg_float strip
with_metadata = refl

names :
    (base_name "a.b.mp3" ≡ "a.b")
    × (base_name "talk" ≡ "talk")
    × (split " & " "A & B & C" ≡ "A" ∷ "B" ∷ "C" ∷ [])
unfolding base_name split split_at
names = (refl, refl, refl)

rebuild_speaker_stats-times_of_example :
    lookup "A" (rebuild_speaker_stats talk) ≡ some (record { count = 2; duration = 64500 })
unfolding times_of times_in duration_of speakers_of seg_float seg_str elapsed speaker_label split
    split_at
rebuild_speaker_stats-times_of_example = rebuild_speaker_stats-times_of "A" talk
