-- ===== src/Retrieval/Recall.antt =====
-- api/internal/service/retrieval: how many of the expected chunks and documents were found
-- (citations.go), and whether a search is good enough (evaluation.go).
use enterprise_rag.Prelude.{
  ℕ, ◌+◌, String, Bool, false, not, ◌&&◌, List, [], map, Text, codes, ◌==◌, ltb, length, any_of,
  keep_if, if◌then◌else◌,
}
use enterprise_rag.Prelude.Int.{ℤ, int_less}
use enterprise_rag.Runes.{trim_space, text_eq}
use enterprise_rag.Retrieval.Scores.{Scores, RetrievalChunk}
use enterprise_rag.Retrieval.Scoring.{distinct_from}
use enterprise_rag.Retrieval.Citations.{normalize_id_set}

pub record RetrievalMetrics (S : Type 0) : Type 0 where
  pub original_query : Text
  pub search_query : Text
  pub query_rewritten : Bool
  pub reranked : Bool
  pub top_k : ℕ
  pub candidate_count : ℕ
  pub returned_count : ℕ
  pub sub_query_count : ℕ
  pub expected_count : ℕ
  pub recall_hit_count : ℕ
  pub recall : S
  pub route_correct : Bool
  pub latency_ms : ℤ
  pub evaluation_passed : Bool

pub record EvaluationConf (S : Type 0) : Type 0 where
  pub min_recall_at_k : S
  pub max_latency_ms : ℤ

-- The ids of a set.
abbrev pub id_set : List String → List Text
id_set ids = distinct_from [] (normalize_id_set ids)

-- The ids that are expected, each once.
abbrev pub hits : List Text → List Text → List Text
hits ids expected = distinct_from [] (keep_if (λ id. any_of (text_eq id) expected) ids)

module _ {S : Type 0} (n : Scores S) where
  -- How many are expected, how many were found, and the share.
  unfoldable pub recall_at_k : List (RetrievalChunk S) → List String → List String → ℕ × ℕ × S
  unfolding normalize_id_set distinct_from
  recall_at_k chunks expected_doc_ids expected_chunk_ids =
      let chunk_set = id_set expected_chunk_ids in
      let doc_set = id_set expected_doc_ids in
      let expected = length chunk_set + length doc_set in
      let chunk_ids = map (λ (c : RetrievalChunk S). codes c.id) chunks in
      let doc_ids = map (λ (c : RetrievalChunk S). codes c.doc_id) chunks in
      let found = length (hits chunk_ids chunk_set) + length (hits doc_ids doc_set) in
      if expected == 0
      then (0, 0, n.of_int 0)
      else (expected, found, n.over (n.of_int found) (n.of_int expected))

  unfoldable pub evaluate_retrieval : RetrievalMetrics S → Text → EvaluationConf S → Bool
  evaluate_retrieval metrics expected_route thresholds =
      let routed = not (text_eq (trim_space expected_route) []) in
      if ltb 0 metrics.expected_count
        && (n.less (n.of_int 0) thresholds.min_recall_at_k
            && n.less metrics.recall thresholds.min_recall_at_k)
      then false
      else if routed && not metrics.route_correct
      then false
      else not (
          int_less (ℤ.pos 0) thresholds.max_latency_ms
          && int_less thresholds.max_latency_ms metrics.latency_ms)
