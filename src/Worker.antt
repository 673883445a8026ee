-- ===== src/Worker.antt =====
-- api/internal/worker/manager.go: the workers that parse, chunk, embed and delete documents.
pub mod Services
pub mod Retry
pub mod Handlers
pub mod Run
pub mod Conduct
pub mod Steps
pub mod Progress
pub mod Announced
pub mod Retries
pub mod Duplicates
pub mod Deletion
pub mod Embedding
pub mod Relay
