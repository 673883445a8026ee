-- ===== src/Retrieval.antt =====
-- api/internal/service/retrieval: the search for the chunks that answer a query.
pub mod Scores
pub mod Plan
pub mod Scoring
pub mod Citations
pub mod Matches
pub mod Recall
pub mod Search
