-- ===== src/Content/Transcript/Speakers.antt =====
-- The statistics of the speakers against the list of all that is spoken.
use inuself.Base.{
  ℕ, ◌+◌, String, ◌≡◌, refl, ◌∙◌, Option, none, some, List, [], ◌∷◌, ◌==◌, ==_iff, String_eq,
  length, inl, inr, Dict, lookup, insert, lookup-insert, or_default, arith, ap, if◌then◌else◌,
  Bool-cases,
}
use inuself.Gateway.Json.{Fields}
use inuself.Content.Transcript.{
  SpeakerStats, speakers_of, duration_of, add_speakers, add_segments, rebuild_speaker_stats, spoken,
  zero_stats,
}

-- The durations of the speaker's turns in segments of that duration and those speakers, before others.
unfoldable pub times_in : String → ℕ → List String → List ℕ → List ℕ
times_in speaker duration [] rest = rest
times_in speaker duration (s ∷ speakers) rest =
    let times = times_in speaker duration speakers rest in
    if s == speaker then duration ∷ times else times

-- The durations of all segments that name the speaker, as often as they do.
unfoldable pub times_of : String → List Fields → List ℕ
times_of speaker [] = []
times_of speaker (segment ∷ segments) =
    times_in speaker (duration_of segment) (speakers_of segment) (times_of speaker segments)

abbrev sum : List ℕ → ℕ
sum [] = 0
sum (n ∷ ns) = n + sum ns

abbrev more : Option SpeakerStats → List ℕ → Option SpeakerStats
more entry [] = entry
more entry (t ∷ ts) = some (record {
  count = (or_default entry zero_stats).count + length (t ∷ ts);
  duration = (or_default entry zero_stats).duration + sum (t ∷ ts);
})

-- The entry for a list of durations: none for the empty one, and its length and sum otherwise.
abbrev pub stats_of : List ℕ → Option SpeakerStats
stats_of ts = more none ts

same_stats :
    {i j m n : ℕ}
    → i ≡ j
    → m ≡ n
    → ◌≡◌ {A = SpeakerStats}
        (record { count = i; duration = m })
        (record { count = j; duration = n })
same_stats h k = cc

more_again :
    (entry : Option SpeakerStats) (d : ℕ) (ts : List ℕ)
    → more (some (spoken d (or_default entry zero_stats))) ts ≡ more entry (d ∷ ts)
more_again entry d [] = ap some (same_stats (omega arith) (omega arith))
more_again entry d (t ∷ ts) = ap some (same_stats (omega arith) (omega arith))

add_speakers-times_in :
    (speaker : String) (d : ℕ) (speakers : List String) (stats : Dict String SpeakerStats)
    (ts : List ℕ)
    → more (lookup speaker (add_speakers d speakers stats)) ts
      ≡ more (lookup speaker stats) (times_in speaker d speakers ts)
unfolding add_speakers times_in
add_speakers-times_in speaker d [] stats ts = refl
add_speakers-times_in speaker d (s ∷ speakers) stats ts =
    let entry = spoken d (or_default (lookup s stats) zero_stats) in
    let rest = add_speakers-times_in speaker d speakers (insert s entry stats) ts in
    elim (Bool-cases (s == speaker)) [
      | inl same ↦
          rw (same, rest, lookup-insert s speaker entry stats, same, (==_iff s speaker).0 same)
            (more_again (lookup speaker stats) d (times_in speaker d speakers ts))
      | inr other ↦ rw (other, rest, lookup-insert s speaker entry stats, other)
    ]

add_segments-times_of :
    (speaker : String) (segments : List Fields) (stats : Dict String SpeakerStats)
    → lookup speaker (add_segments segments stats)
      ≡ more (lookup speaker stats) (times_of speaker segments)
unfolding add_segments times_of
add_segments-times_of speaker [] stats = refl
add_segments-times_of speaker (segment ∷ segments) stats =
    add_segments-times_of speaker segments
      (add_speakers (duration_of segment) (speakers_of segment) stats)
    ∙ add_speakers-times_in speaker (duration_of segment) (speakers_of segment) stats
        (times_of speaker segments)

-- The entry of a speaker in the statistics is the number and the sum of the durations of all the
-- segments that name it, as often as they do, and there is none for one that is not named.
pub rebuild_speaker_stats-times_of :
    (speaker : String) (segments : List Fields)
    → lookup speaker (rebuild_speaker_stats segments) ≡ stats_of (times_of speaker segments)
unfolding rebuild_speaker_stats
rebuild_speaker_stats-times_of speaker segments = add_segments-times_of speaker segments []
