-- ===== src/Conversation.antt =====
-- The conversation with the agent: its persisted messages, the worker that answers one, the
-- dispatch of jobs to the workers, and the citations of an answer.
pub mod Graph
pub mod Fields
pub mod Messages
pub mod Saves
pub mod Events
pub mod Worker
pub mod Dispatch
pub mod Citations
pub mod Tests
