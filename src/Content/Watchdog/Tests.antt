-- ===== src/Content/Watchdog/Tests.antt =====
-- The watchdog at a file without activity.
use inuself.Base.{◌≡◌, refl, inr, true, false, some, [], ◌∷◌, ℕ_eq, String_eq}
use inuself.Content.Machine.{
  FileStatus_eq, FileStatus-discrete, is_terminal_state, is_processing_state, get_timeout,
}
use inuself.Content.Files.{Content, audio, File}
use inuself.Content.Reconciler.{reconcile}
use inuself.Content.Reconciler.Tests.{waiting, two_files, session, sums_up}
use inuself.Content.Watchdog.{
  check_file, timed_out, stuck_time, get_last_activity_time, stuck_finding, other_findings,
  check_llm_job_queued,
}
use inuself.Content.Watchdog.Found.{timed_out_ends}

abbrev audio_file : File
audio_file = record { filename = "talk.mp3"; content_type = audio; created_at = 1 }

-- After an hour in the queue for the summary, with no log at all.
two_findings :
    check_file 3600001 two_files 1 audio_file
    ≡ stuck_finding 1 ∷ record { file_id = 1; issue_type = "no_job"; mentions_failed = false } ∷ []
unfolding check_file timed_out stuck_time get_last_activity_time get_timeout other_findings
    check_llm_job_queued FileStatus-discrete
two_findings = refl

timed_out_ends_example :
    (row : Content) × ((reconcile 9 sums_up
          (check_file 3600001 two_files 1 audio_file)
          session).0.committed.contents
        1
      ≡ some row)
    × (is_terminal_state row.status ≡ true)
unfolding is_processing_state FileStatus-discrete timed_out stuck_time get_last_activity_time
    get_timeout
timed_out_ends_example =
    timed_out_ends 3600001 9 1 sums_up two_files audio_file waiting refl refl refl (λ e. cc) refl
      (λ text. inr ("title", text, refl))
