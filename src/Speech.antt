-- ===== src/Speech.antt =====
-- The workers that recognise speech.
pub mod Segments
pub mod Turns
