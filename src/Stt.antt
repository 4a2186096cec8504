-- ===== src/Stt.antt =====
-- internal/server/stt_refine.go: the repair of a transcript of streaming speech recognition.
pub mod Runes
pub mod Spaces
pub mod Marks
pub mod Words
pub mod Repeats
pub mod Clauses
pub mod Slips
pub mod Refine
pub mod Tests
