-- ===== src/Content/Consumer/Tests.antt =====
-- A talk that waits, and the results of its recognition, which come twice.
use inuself.Base.{
  ℕ, String, ◌≡◌, refl, true, false, none, some, List, [], ◌∷◌, ◌==◌, ℕ_eq, String_eq, inl, ok, err,
  if◌then◌else◌,
}
use inuself.Gateway.Json.{no_fields}
use inuself.Content.Machine.{
  FileStatus, FileStatus-discrete, queued, processing, completed, can_transition, is_terminal_state,
  get_valid_transitions,
}
use inuself.Content.Machine.Graph.{◌⟶*◌}
use inuself.Content.Files.{
  Content, audio, update_file_status, update_title, update_summary_markdown, add_log, add_llm_log,
}
use inuself.Content.Consumer.{
  World, Message, Stored, Outside, clear_active_job, asr_completed_event, llm_started_event,
  llm_completed_event,
}
use inuself.Content.Consumer.Handling.{
  update, save_transcription, queue_summary, save_summary, finish_summary, summarize_text,
  store_transcription, asr_completed, handle_asr_result,
}
use inuself.Content.Consumer.Entries.{
  Entry, handle_result, handle_message, process_entries, claim_pending_messages,
}
use inuself.Content.Consumer.Followed.{process_entries-Follows}
use inuself.Content.Consumer.Pending.{claim_pending_messages-Spent}
use inuself.Content.Consumer.Completed.{Settled, handle_message-Settled}

abbrev row : FileStatus → Content
row status = record {
  id = 40;
  status = status;
  title = none;
  summary_md = none;
  user_id = 2;
  summary_sections = no_fields;
  updated_at = 1;
  completed_at = none;
}

abbrev waiting : World
waiting = record {
  db = record {
    files = λ f. some (record { filename = "talk.mp3"; content_type = audio; created_at = 1 });
    contents = λ f. if f == 4 then some (row queued) else none;
    stt_logs = [];
    llm_logs = [];
    transcriptions = λ f. none;
    documents = λ f. none;
  };
  active_jobs = ("asr", 4) ∷ ("ocr", 5) ∷ [];
  emitted = [];
}

abbrev stored : Stored
stored = record {
  transcription = record { text = "Hello."; segments = [] };
  ocr_text = "";
  raw_response = "";
  skipped = false;
}

-- Nobody else writes during the summary, which succeeds.
abbrev calm : Outside
calm = record {
  now = 7;
  later = 9;
  download_json = λ key. if key == "result" then ok stored else err "NoSuchKey";
  summarize = λ f text db. (db, ok (record { title = "T"; summary_md = "# T"; success = true }));
  parse_llm_response = λ raw. err "unparsed";
}

abbrev result : Message
result = record { type_ = "asr"; event = "completed"; file_id = 4; result_s3_key = "result" }

abbrev entry : ℕ → Entry
entry n = record { id = n; loaded = ok (some result) }

abbrev unread : Entry
unread = record { id = 3; loaded = err "JSONDecodeError" }

abbrev after_all : World × List Entry
after_all = process_entries (λ n. calm) (entry 1 ∷ unread ∷ entry 2 ∷ []) waiting

-- The first of the three is acknowledged.
abbrev ids : List Entry → List ℕ
ids [] = []
ids (e ∷ es) = e.id ∷ ids es

kept_pending : ids after_all.1 ≡ 3 ∷ 2 ∷ []
unfolding process_entries handle_message handle_result handle_asr_result asr_completed
    store_transcription save_transcription queue_summary update update_file_status summarize_text
    finish_summary save_summary clear_active_job asr_completed_event llm_started_event
    llm_completed_event can_transition is_terminal_state get_valid_transitions FileStatus-discrete
    update_title update_summary_markdown add_log add_llm_log
kept_pending = refl

-- The row at the end.
abbrev ended_row : Content
ended_row = record {
  id = 40;
  status = completed;
  title = some "T";
  summary_md = some "# T";
  user_id = 2;
  summary_sections = no_fields;
  updated_at = 9;
  completed_at = some 9;
}

process_entries-Follows_example : queued ⟶* completed
unfolding process_entries handle_message handle_result handle_asr_result asr_completed
    store_transcription save_transcription queue_summary update update_file_status summarize_text
    finish_summary save_summary clear_active_job asr_completed_event llm_started_event
    llm_completed_event can_transition is_terminal_state get_valid_transitions FileStatus-discrete
    update_title update_summary_markdown add_log add_llm_log
process_entries-Follows_example =
    process_entries-Follows (λ n. calm) (λ n f text db s g h. h) (entry 1 ∷ unread ∷ entry 2 ∷ [])
      waiting 4 (row queued) ended_row refl refl

handle_message-Settled_example :
    (w' : World) × (handle_message calm (entry 1) waiting ≡ (w', ok tt))
    × Settled 4 "asr" w'
    × ((x : String) × (handle_message calm (entry 1) w' ≡ (w', err x)))
handle_message-Settled_example =
    handle_message-Settled calm calm (entry 1) result queued processing stored waiting refl
      (inl (refl, refl)) refl (inl refl) refl (row queued, refl, refl) (λ text db h. inl h)

abbrev over : World
over = record waiting {
  db = record waiting.db { contents = λ f. if f == 4 then some ended_row else none };
}

-- Of the two pending entries the one result has come before.
claim_pending_messages-Spent_example :
    claim_pending_messages (λ n. calm) (over, entry 1 ∷ entry 2 ∷ [])
    ≡ (over, entry 1 ∷ entry 2 ∷ [])
unfolding is_terminal_state get_valid_transitions
claim_pending_messages-Spent_example =
    claim_pending_messages-Spent (λ n. calm) (entry 1 ∷ entry 2 ∷ []) over
      (
        (result, ended_row, refl, inl refl, refl, refl, refl),
        ((result, ended_row, refl, inl refl, refl, refl, refl), tt),
      )
