-- ===== src/Content.antt =====
-- The content pipeline of the backend: the state machine of a file's processing, the file
-- repository, the watchdog that finds stuck files and the reconciler that repairs them; the blocks of
-- a summary with their rounds, and the progress of a task.
pub mod Machine
pub mod Files
pub mod Reconciler
pub mod Watchdog
pub mod Blocks
pub mod Generator
pub mod Progress
pub mod Texts
pub mod Transcript
pub mod Consumer
pub mod Service
