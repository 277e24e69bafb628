-- ===== src/Lib.antt =====
-- inuself takes audio files and documents through a pipeline (speech recognition or OCR, then a
-- summary), and answers questions over them through a gateway to several model servers. This
-- library models the parts whose rules are hardest to keep: the status of a file as it moves
-- through the pipeline and the rounds of its summary, the admission of requests to model servers,
-- and the answers to messages by workers that may be lost. The Python is translated by hand into
-- functions by clauses; an operation on shared state takes the state and gives the new one.
--
-- Content.Machine: backend/app/state_machines/machines/content_machine.py and
--   state_machines/base.py, the statuses and the tables (TRANSITIONS, TIMEOUTS, STATE_INFO,
--   RETRY_MAPPING) with the queries on them. Machine/Graph has the walks of the transition table.
-- Content.Files: backend/app/repositories/file_repository.py on the rows of
--   backend/app/db/models.py. A table is a function of the id, a time is a number, a statement is
--   one atomic update.
-- Content.Reconciler: backend/app/services/state_reconciler.py, on a session with the committed
--   database and the one that it sees. Reconciler/Elsewhere and Reconciler/Frame are about what it
--   leaves alone, Reconciler/Rows and Reconciler/Stuck about what it ends.
-- Content.Watchdog: backend/app/services/state_watchdog.py, the check of one file; Watchdog/Found
--   joins it with the reconciler.
-- Content.Blocks, Content.Generator: backend/app/services/block_generator.py, with the templates
--   of backend/app/services/summary_templates and regenerate_block of
--   backend/app/services/summary_runner.py. Blocks has the state with its JSON, Generator the
--   rounds; Generator/Rounds is the induction over them, Generator/Kept what they leave alone,
--   Generator/Keys and Generator/Total their end.
-- Content.Consumer: backend/app/services/stream_consumer.py, with PipelineProgress of
--   backend/app/utils/progress_tracker.py: the state and the published events; Consumer/Handling
--   has the handlers, Consumer/Entries the loop over the entries of the stream. Consumer/Writes
--   and Consumer/Followed follow the statuses along the transition table, Consumer/Reached,
--   Consumer/Summed and Consumer/Completed the result of a recognition to its end,
--   Consumer/Pending the entries that come again.
-- Content.Transcript, Content.Texts: backend/app/services/transcription_postprocess.py, and the
--   methods of texts that it uses; Transcript/Speakers has the statistics of the speakers.
-- Content.Service: backend/app/services/content_service.py, the retries of recognition and summary
--   and the regeneration of a block; Service/Restored and Service/Retried have the status that
--   they leave.
-- Content.Progress: backend/app/utils/progress_tracker.py, the tracker; the ends of phases are
--   whole per cents, raw values hundredths and positions ten thousandths of a per cent, and the
--   rounding of a number to one decimal is an argument, with the documented order and the whole
--   numbers kept.
-- Gateway.Policy: _parse_policy of infra/ai-gateway/services/provider_pool.py, over JSON with
--   numbers in thousandths; Policy/Valid has its settings and providers, Policy/Routes its routes
--   and the pool that is made of it.
-- Gateway.Specs, Gateway.Pool, Gateway.World: infra/ai-gateway/services/provider_pool.py. Pool has
--   the state of the providers and each operation as a step under the condition of the pool;
--   Pool/Scan, Pool/Waiting and Pool/Admission follow one turn of the loop in _acquire_from,
--   Pool/Outcomes and Pool/Granting say it of the states of the providers, Pool/Circuit the
--   failures and probes, Pool/Eligible the choice of providers. World adds the leases that are
--   out, and interleaves all operations as a list of calls; World/Marked, World/Probing and
--   World/HalfOpen follow the probe of a half-open circuit. Readiness has what the pool tells of
--   its providers and routes.
-- Gateway.Chat: infra/ai-gateway/routes/chat.py, the checks of a routing profile and the loop of
--   _handle_local over the providers, which works on the pool through leases. Chat/Leases follows
--   the lease that a request holds, Chat/Untried and Chat/Ends the length of its loop,
--   Chat/Routing the profiles.
-- Gateway.Serverless: _handle_serverless of the same file, with the providers of
--   infra/ai-gateway/services/routing.py; Serverless/Order follows the order of its tries,
--   Serverless/Answers says it of the answers of the upstream servers.
-- Conversation.Messages, Conversation.Saves, Conversation.Events, Conversation.Worker:
--   backend/app/tasks/agent_task.py over the messages of
--   backend/app/repositories/thread_repository.py. Messages has the guarded updates, Fields the
--   metadata, Saves the load and the saves of a run (Saves/Final and Saves/Loads what they find),
--   Events the handling of each event, Worker the run with its exceptions and the task around it.
--   Worker/Answers, Worker/Reading and Worker/Settled follow the answer and the status of the
--   message, Worker/Kept and Worker/Whole carry a condition on the table through a run;
--   Worker/Safe and Worker/Rows use them for the other rows, Worker/Cells for the abstract life of
--   a message.
-- Conversation.Dispatch: backend/app/services/agent_dispatcher.py, on the messages and on the
--   markers in Redis; Dispatch/Finalize and Dispatch/Publish follow its two halves,
--   Dispatch/Abandoned and Dispatch/Published say them of the rows.
-- Conversation.Graph: backend/app/agents/graph.py, create_ai_graph_with_retry, over the fields of
--   the state that its routes read; Graph/Answered has its runs.
-- Conversation.Citations: backend/app/utils/citation_manager.py, from the numbers that the regular
--   expression finds; Citations/Listed has which citations there are.
-- Speech.Turns: worker/pipelines/asr/diarization_utils.py, _split_overlapping_segments;
--   Turns/Points has the points of the cuts, Turns/Spoken who speaks.
-- Speech.Segments: worker/pipelines/asr/vad_utils.py, merge_speech_segments over whole times;
--   Segments/Bounds and Segments/Kept have the lengths and the speech of its chunks.
-- Base: lists, dictionaries (association lists in the order of insertion), equality as an
--   instance, and results with an error value, which stand for exceptions.
--
-- The parts meet in a few places. The repository asks the state machine before it writes a status,
-- the consumer of results writes statuses through the repository in transactions, and the
-- reconciler marks failures through the repository with that test off. The chat route takes leases
-- from the pool, so that its loop ends because the pool excludes the providers that it names. The
-- pool reads JSON only in the answers to probes. The worker and the reconciler of the conversation
-- share the table of messages, where each update asks for an active status, and the message lock.
--
-- Bounds. Times are whole numbers of one unit, where the source has floats of seconds and
-- timestamps, so nothing here is about the rounding of times; the one number that a callback is
-- given rounded is rounded by an argument. The loop of _acquire_from runs over the turns that it
-- is given, each with the pool as others left it; a turn at the deadline is its last. The loop of
-- _handle_local runs over a list of visits; two more than the providers of the route are enough,
-- as it asks each of them at most once. The run of an agent goes over the list of its stream's
-- events, which says for each what others did before it. A forced split of a segment, with a
-- positive maximum, takes as many steps as the segment is long at most, since each piece is at
-- least one unit long. The rounds of a summary are ten, as in the source, and each takes the
-- model's replies from a script. The graph of the agent runs on steps, of which seven and three
-- for each retry are enough. No other definition needs fuel, but for the digits of a number, of
-- which there are no more than the number plus one.
--
-- Not modelled: the servers behind the gateway, whose answers are arguments; asyncio, of which
-- only the atomicity of a block under the condition is used; the metrics and log messages; the
-- model check of the chat route; the listing and deletion of files, the translation and the new
-- clustering of speakers; the nodes of the conversation agent (their decisions, and the stream of
-- events, are arguments), the rest of the workers for speech and documents, the parsing of the
-- model's replies and the Markdown of a summary, the inference servers, and the frontend. The
-- database is read and written as if each operation of the repository were alone, and does not
-- fail; so too a lease is marked as released and given back in one step.
pub mod Base
pub mod Content
pub mod Conversation
pub mod Gateway
pub mod Speech
