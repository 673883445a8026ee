-- ===== src/Repository.antt =====
-- api/internal/repository/postgres: the repositories of documents, tasks, events and chunks.
pub mod Rows
pub mod Outbox
pub mod Tasks
pub mod Documents
pub mod Chunks
pub mod Runs
pub mod Moves
pub mod Subjects
