-- ===== src/Tests.antt =====
-- The theorems and the operations at concrete inputs: `Samples` holds the rows and services.
pub mod Samples
pub mod Statuses
pub mod Workers
pub mod Runs
pub mod Chunks
pub mod Users
pub mod Deliveries
pub mod Indexing
mod Searches
mod Retrieval
mod Ratelimit
mod Subjects
mod Uploads
mod Relay
mod Configs
