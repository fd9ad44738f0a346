-- ===== src/Store.antt =====
-- internal/store/worker.go: the transcripts of the sessions.
pub mod Lines
pub mod Transcripts
pub mod RoundTrip
