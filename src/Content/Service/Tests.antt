-- ===== src/Content/Service/Tests.antt =====
-- A finished document, a block of which is made anew and whose summary is tried again.
use inuself.Base.{
  ℕ, String, ◌≡◌, refl, true, false, none, some, [], ◌==◌, ℕ_eq, String_eq, ◌⊎◌, elem, inl, ok, err,
  if◌then◌else◌,
}
use inuself.Gateway.Json.{text, field, no_fields}
use inuself.Content.Machine.{FileStatus_eq, FileStatus-discrete, queued, completed}
use inuself.Content.Files.{
  Db, Content, document, lockable, update_file_status, add_log, get_content_status,
}
use inuself.Content.Consumer.Reached.{At}
use inuself.Content.Service.{
  Outside, Retry, stripped_text, regenerate_summary_block, retry_summary, retry_processing,
  retry_ocr, requeue, with_job,
}
use inuself.Content.Service.Restored.{regenerate_summary_block-At}
use inuself.Content.Service.Retried.{Retried, retry_summary-Retried}

abbrev row : Content
row = record {
  id = 40;
  status = completed;
  title = some "T";
  summary_md = some "# T";
  user_id = 2;
  summary_sections = field "template_id" (text "default") no_fields;
  updated_at = 1;
  completed_at = some 1;
}

abbrev finished : Db
finished = record {
  files = λ f. some (record { filename = "scan.pdf"; content_type = document; created_at = 1 });
  contents = λ f. if f == 4 then some row else none;
  stt_logs = [];
  llm_logs = [];
  transcriptions = λ f. none;
  documents = λ f. some " a text ";
}

-- The new block succeeds, the summary is refused by another one.
abbrev outside : Outside
outside = record {
  now = 7;
  later = 9;
  summarize = λ f text db. (db, err "Another summarization is already in progress");
  regenerate_block =
      λ f key text db. (db, ok (record { title = "U"; summary_md = "# U"; success = true }));
  enqueue = λ kind f. ok (if kind == "ocr" then some "job" else none);
}

regenerate_summary_block-At_example :
    At 4 completed (regenerate_summary_block outside 4 "title" (some 2) finished).0
regenerate_summary_block-At_example =
    regenerate_summary_block-At outside 4 (λ key text db h. h) "title" (some 2) completed finished
      (row, refl, refl)

retry_summary-Retried_example :
    (((stripped_text finished 4 ≡ "") ⊎ (elem completed lockable ≡ false))
      × ((x : String) × (retry_summary outside 4 finished ≡ (finished, err x))))
    ⊎ ((elem completed lockable ≡ true) × Retried 4 (retry_summary outside 4 finished))
retry_summary-Retried_example =
    retry_summary-Retried outside 4 finished row refl (λ text db h. inl h)

-- A finished document is recognized again, and a stranger may not ask for it.
abbrev ocr_again : ℕ → Retry
ocr_again user = record {
  retry_type = "ocr";
  user_id = some user;
  min_speakers = none;
  max_speakers = none;
  ocr_mode = "document";
}

owners_only :
    ((retry_processing outside 4 (ocr_again 2) finished).1
      ≡ ok (record { success = true; job_id = some "job" }))
    × (get_content_status (retry_processing outside 4 (ocr_again 2) finished).0 4 ≡ some queued)
    × (retry_processing outside 4 (ocr_again 3) finished
        ≡ (finished, err "You don't have permission to retry this content"))
unfolding retry_processing retry_ocr requeue with_job update_file_status add_log FileStatus-discrete
    get_content_status
owners_only = (refl, refl, refl)
