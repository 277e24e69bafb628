-- ===== src/Content/Files/Tests.antt =====
-- The file repository at a database with one file.
use inuself.Base.{ℕ, ◌≡◌, refl, true, false, none, some, List, [], ◌∷◌}
use inuself.Gateway.Json.{no_fields}
use inuself.Content.Machine.{
  FileStatus, FileStatus_eq, FileStatus-discrete, queued, processing, summary_queued, summarizing,
  completed,
}
use inuself.Content.Files.{
  Db, Content, audio, create_file, update_file_status, try_acquire_summarizing_lock, put,
}
use inuself.Content.Files.History.{Walk, created_history-Walk}
use inuself.Content.Files.Laws.{Updates, update_file_status-Updates, run_updates, lock_exclusive}

abbrev no_rows : Db
no_rows = record {
  files = λ f. none;
  contents = λ f. none;
  stt_logs = [];
  llm_logs = [];
  transcriptions = λ f. none;
  documents = λ f. none;
}

abbrev done_row : Content
done_row = record {
  id = 7;
  status = completed;
  title = some "t";
  summary_md = none;
  user_id = 2;
  summary_sections = no_fields;
  updated_at = 3;
  completed_at = some 3;
}

abbrev done : Db
done = record no_rows { contents = put 1 done_row (λ f. none) }

abbrev locked : Db
locked = record done {
  contents = put 1 (record done_row { status = summarizing; updated_at = 9 }) done.contents;
}

update_file_status-Updates_example :
    Updates 5 1 queued done (update_file_status 5 1 queued true done)
update_file_status-Updates_example = update_file_status-Updates 5 1 queued done

abbrev asr_history : List (ℕ × ℕ × FileStatus)
asr_history =
    (1, 4, processing) ∷ (2, 4, completed) ∷ (3, 4, summary_queued) ∷ (4, 4, summarizing) ∷ []

created_history-Walk_example :
    (c : Content) × ((run_updates
          (create_file 0 4 9 "talk.mp3" audio 2 none no_rows)
          asr_history).contents
        4
      ≡ some c)
    × Walk 4 asr_history queued none c.status c.completed_at
created_history-Walk_example = created_history-Walk 0 4 9 "talk.mp3" audio 2 no_rows asr_history

lock_exclusive_example : try_acquire_summarizing_lock 10 1 none locked ≡ (locked, false)
unfolding try_acquire_summarizing_lock FileStatus-discrete
lock_exclusive_example = (lock_exclusive 9 10 1 none none done locked refl refl).1
