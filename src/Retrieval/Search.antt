-- ===== src/Retrieval/Search.antt =====
-- api/internal/service/retrieval/search.go: `SearchWithOptions`, from the query to its citations.
-- Its metrics are what it returns beside the chunks; those beside an error are not used.
pub mod Origin
pub mod Candidates
pub mod Results
pub mod Refusals
pub mod Answers
use Prim.Native.Nat.{min}
use enterprise_rag.Prelude.{
  ℕ, zero, suc, ◌*◌, String, Bool, true, false, ◌&&◌, ◌||◌, not, Option, none, some, List, [], ◌∷◌,
  Text, codes, ◌==◌, ltb, length, str_eq, if◌then◌else◌,
}
use enterprise_rag.Prelude.Int.{ℤ, to_ℕ, int64}
use enterprise_rag.Runes.{trim_space, trim_id, text_eq, join}
use enterprise_rag.Exec.{
  Error, Result, ok, err, other, Exec, pure, raise, lift, attempt, ◌>>=◌, ◌>>◌,
}
use enterprise_rag.Repository.Subjects
use enterprise_rag.Repository.Subjects.{User}
use enterprise_rag.Retrieval.Scores.{RetrievalChunk}
use enterprise_rag.Retrieval.Plan.{QueryPlan, build_query_plan}
use enterprise_rag.Retrieval.Scoring.{
  merge_chunks, limit_candidates, normalize_scores, rerank_chunks,
}
use enterprise_rag.Retrieval.Citations.{
  CitationPolicy, trim_effective_chunks, normalize_top_k, normalize_multiplier,
  normalize_candidate_limit, normalize_max_citations,
}
use enterprise_rag.Retrieval.Recall.{
  RetrievalMetrics, EvaluationConf, recall_at_k, evaluate_retrieval,
}
use enterprise_rag.Retrieval.Matches.{Engine, match_vectors, vector_chunks, keyword_search}

pub record RetrievalConf (S : Type 0) : Type 0 where
  pub top_k : ℤ
  pub candidate_multiplier : ℤ
  pub candidate_limit : ℤ
  pub similarity_threshold : S
  pub relative_score_threshold : S
  pub max_citations : ℤ
  pub max_chunks_per_document : ℤ
  pub rerank : Bool
  pub max_query_runes : ℤ
  pub max_sub_queries : ℤ
  pub evaluation : EvaluationConf S

pub record SearchOptions : Type 0 where
  pub top_k : ℤ
  pub expected_doc_ids : List String
  pub expected_chunk_ids : List String
  pub expected_route : Text
  pub search_query : Text
  pub on_stage : Option (String → Result (Unit {0}))

unfoldable pub notify_stage : Option (String → Result (Unit {0})) → String → Exec (Unit {0})
notify_stage none message = pure tt
notify_stage (some callback) message = lift (callback message)

module _ {S : Type 0} (e : Engine S) (conf : RetrievalConf S) (options : SearchOptions) where
  abbrev notify : String → Exec (Unit {0})
  notify = notify_stage options.on_stage

  unfoldable pub final_top_k : ℕ
  unfolding normalize_top_k
  final_top_k = normalize_top_k options.top_k conf.top_k

  -- A product that wraps around to a negative number acts like 0 wherever it is used.
  unfoldable pub candidate_top_k : ℕ
  unfolding final_top_k normalize_multiplier normalize_candidate_limit
  candidate_top_k =
      let wanted =
        if conf.rerank
        then to_ℕ (int64 (final_top_k * normalize_multiplier conf.candidate_multiplier))
        else final_top_k in
      min wanted (normalize_candidate_limit conf.candidate_limit)

  abbrev pub policy : CitationPolicy S
  policy = record {
    limit = min final_top_k (normalize_max_citations conf.max_citations);
    absolute_threshold = conf.similarity_threshold;
    relative_threshold = conf.relative_score_threshold;
    max_chunks_per_document = conf.max_chunks_per_document;
  }

  -- The query for the search: the one that the options give, or the question.
  abbrev pub chosen_query : Text → Text
  chosen_query query =
      if text_eq (trim_space options.search_query) []
      then query
      else trim_space options.search_query

  abbrev pub plan_of : Text → QueryPlan
  plan_of query =
      build_query_plan e.letters query (chosen_query query) conf.max_query_runes
        conf.max_sub_queries

  -- From the vectors of the queries to the candidates.
  unfoldable pub candidates : User → String → QueryPlan → List ℕ → Exec (List (RetrievalChunk S))
  candidates user subject plan vectors = do
    notify "retrieval.vector.start"
    matches ← lift (match_vectors e user.tenant_id subject candidate_top_k vectors [])
    found ← vector_chunks e conf.similarity_threshold (e.map_order matches)
    notify "retrieval.keyword.start"
    keywords ←
        keyword_search e user.tenant_id subject (join plan.queries (codes " ")) candidate_top_k
    notify "retrieval.merge.start"
    pure (
        limit_candidates e.scores
          (merge_chunks e.scores (normalize_scores e.scores keywords)
            (normalize_scores e.scores found))
          candidate_top_k)

  unfoldable pub ranked : Text → List (RetrievalChunk S) → Exec (List (RetrievalChunk S))
  ranked query merged =
      if conf.rerank
      then notify "retrieval.rerank.start" >> pure (rerank_chunks e.scores e.letters query merged)
      else notify "retrieval.rerank.skipped" >> pure merged

  abbrev route_correct : Bool
  route_correct =
      let route = trim_space options.expected_route in
      text_eq route [] || e.letters.equal_fold route (codes "rag")

  -- The metrics of a search that succeeds.
  unfoldable pub metrics_of : Text → QueryPlan → ℕ → List (RetrievalChunk S) → RetrievalMetrics S
  unfolding recall_at_k evaluate_retrieval
  metrics_of query plan candidate_count filtered =
      let recall =
        recall_at_k e.scores filtered options.expected_doc_ids options.expected_chunk_ids in
      let chosen = trim_space options.search_query in
      let metrics : RetrievalMetrics S = record {
        original_query = query;
        search_query = chosen_query query;
        query_rewritten = not (text_eq chosen []) && not (e.letters.equal_fold chosen query);
        reranked = conf.rerank;
        top_k = final_top_k;
        candidate_count = candidate_count;
        returned_count = length filtered;
        sub_query_count = length plan.queries;
        expected_count = recall.0;
        recall_hit_count = recall.1;
        recall = recall.2;
        route_correct = route_correct;
        latency_ms = e.latency_ms;
        evaluation_passed = false;
      } in
      record metrics {
        evaluation_passed =
            evaluate_retrieval e.scores metrics options.expected_route conf.evaluation;
      }

  -- From the vectors to the citations.
  unfoldable pub search_vectors :
      User
      → String
      → Text
      → QueryPlan
      → List ℕ
      → Exec (List (RetrievalChunk S) × RetrievalMetrics S)
  unfolding metrics_of
  search_vectors user subject query plan [] = raise (other (codes "query embedding is empty"))
  search_vectors user subject query plan (v ∷ vectors) = do
    merged ← candidates user subject plan (v ∷ vectors)
    chunks ← ranked query merged
    notify "retrieval.citations.trim"
    let filtered = trim_effective_chunks e.scores e.letters policy chunks
    pure (filtered, metrics_of query plan (length merged) filtered)

  abbrev notify_split : QueryPlan → Exec (Unit {0})
  notify_split plan =
      if ltb 1 (length plan.queries) then notify "retrieval.query.split" else pure tt

  -- The search of a knowledge base that the user may read.
  unfoldable pub search_subject :
      User → String → Text → Exec (List (RetrievalChunk S) × RetrievalMetrics S)
  search_subject user subject query = do
    notify (
        if text_eq (trim_space options.search_query) []
        then "retrieval.query.original"
        else "retrieval.query.ready")
    let plan = plan_of query
    notify_split plan
    notify "retrieval.embedding.start"
    vectors ← lift (e.embed user.tenant_id plan.queries)
    search_vectors user subject query plan vectors

  abbrev pub search_if :
      User → String → Text → Bool → Exec (List (RetrievalChunk S) × RetrievalMetrics S)
  search_if user subject query true = search_subject user subject query
  search_if user subject query false = raise (other (codes "knowledge base not found"))

  abbrev pub search_present :
      User → String → Text → Exec (List (RetrievalChunk S) × RetrievalMetrics S)
  search_present user subject query =
      Subjects.exists_accessible user subject >>= search_if user subject query

  unfoldable pub search_with_options :
      User → String → Text → Exec (List (RetrievalChunk S) × RetrievalMetrics S)
  search_with_options user subject query =
      if str_eq (trim_id subject) "" || text_eq (trim_space query) []
      then raise (other (codes "subject_id and query are required"))
      else search_present user (trim_id subject) (trim_space query)
