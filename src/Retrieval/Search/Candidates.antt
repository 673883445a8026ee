-- ===== src/Retrieval/Search/Candidates.antt =====
-- The candidates and their order: each belongs to the tenant and the knowledge base of the search.
use enterprise_rag.Prelude.{
  ℕ, String, true, List, [], ◌∷◌, All, map, Text, codes, ◌≡◌, inl, inr, Bool-cases, All-reordered,
}
use enterprise_rag.Prelude.Int.{int_less}
use enterprise_rag.Runes.{join}
use enterprise_rag.Exec.Returns.{
  Returns, Returns-pure, Returns-lift, Returns-if, Returns-bind, Returns-then,
}
use enterprise_rag.Repository.Subjects.{User}
use enterprise_rag.Retrieval.Scores.{RetrievalChunk}
use enterprise_rag.Retrieval.Plan.{QueryPlan}
use enterprise_rag.Retrieval.Scoring.{
  normalize_scores, merged_with, rescored, ranks_before, rerank_chunks, merge_chunks,
  limit_candidates,
}
use enterprise_rag.Retrieval.Scoring.Merging.{All-merge_chunks}
use enterprise_rag.Retrieval.Scoring.Sorting.{All-sort_stable, All-limit_candidates}
use enterprise_rag.Retrieval.Citations.{joined}
use enterprise_rag.Retrieval.Matches.{Match, Engine}
use enterprise_rag.Retrieval.Search.{
  RetrievalConf, SearchOptions, candidate_top_k, candidates, ranked,
}
use enterprise_rag.Retrieval.Search.Origin.{
  Trusted, From, in_place, match_vectors-Of, vector_chunks-From, keyword_search-From,
}

-- What does not look at the scores, the source, the text and the index holds on.
module _ {S : Type 0} (e : Engine S) (tenant subject : String) where
  pub All-map_chunks :
      (f : RetrievalChunk S → RetrievalChunk S)
      → ((c : RetrievalChunk S) → From e tenant subject c → From e tenant subject (f c))
      → (cs : List (RetrievalChunk S)) → All (From e tenant subject) cs
      → All (From e tenant subject) (map f cs)
  All-map_chunks f h [] k = tt
  All-map_chunks f h (c ∷ cs) k = (h c k.0, All-map_chunks f h cs k.1)

  pub normalize_scores-From :
      (cs : List (RetrievalChunk S))
      → All (From e tenant subject) cs
      → All (From e tenant subject) (normalize_scores e.scores cs)
  unfolding normalize_scores
  normalize_scores-From [] h = tt
  normalize_scores-From (c ∷ cs) h = All-map_chunks _ (λ x k. k) (c ∷ cs) h

  pub merged-From :
      (keywords found : List (RetrievalChunk S)) (limit : ℕ)
      → All (From e tenant subject) keywords
      → All (From e tenant subject) found
      → All (From e tenant subject) (
          limit_candidates e.scores
            (merge_chunks e.scores
              (normalize_scores e.scores keywords)
              (normalize_scores e.scores found))
            limit)
  merged-From keywords found limit h k =
      All-limit_candidates e.scores (From e tenant subject) _ limit (
        All-merge_chunks e.scores (From e tenant subject) (λ c old g. unfold merged_with in g)
          (normalize_scores e.scores keywords) (normalize_scores e.scores found)
          (normalize_scores-From keywords h) (normalize_scores-From found k))

  pub rerank_chunks-From :
      (query : Text) (cs : List (RetrievalChunk S))
      → All (From e tenant subject) cs
      → All (From e tenant subject) (rerank_chunks e.scores e.letters query cs)
  unfolding rerank_chunks rescored
  rerank_chunks-From query cs h =
      All-sort_stable (ranks_before e.scores) (From e tenant subject) _
        (All-map_chunks (rescored e.scores e.letters query) (λ x k. k) cs h)

  pub joined-From :
      (c old : RetrievalChunk S)
      → From e tenant subject c
      → From e tenant subject old
      → From e tenant subject (joined e.scores c old)
  unfolding joined
  joined-From c old h k = elim (Bool-cases (int_less c.chunk_index old.chunk_index)) [
    | inl first ↦ rw first k
    | inr later ↦ rw later k
  ]

module _ {S : Type 0} (e : Engine S) (conf : RetrievalConf S) (options : SearchOptions) where
  module _ (t : Trusted e) (user : User) (subject : String) where
    pub candidates-From :
        (plan : QueryPlan) (vectors : List ℕ)
        → Returns
            (All (From e user.tenant_id subject))
            (candidates e conf options user subject plan vectors)
    unfolding candidates
    candidates-From plan vectors =
        let F = All (From e user.tenant_id subject) in
        let Of = λ (m : Match S). in_place user.tenant_id subject m.tenant_id m.subject_id ≡ true in
        let limit = candidate_top_k e conf options in
        Returns-then F _ _ (λ u.
          Returns-bind (All Of) F _ _
            (Returns-lift (All Of) _
              (match_vectors-Of e user.tenant_id subject t limit vectors [] tt))
            (λ ms h.
              Returns-bind F F _ _
                (vector_chunks-From e user.tenant_id subject conf.similarity_threshold
                  (e.map_order ms)
                  (All-reordered
                    (λ (m : Match S). in_place user.tenant_id subject m.tenant_id m.subject_id) ms
                    (e.map_order ms) (t.visits _ ms) h))
                (λ found k. Returns-then F _ _ (λ v.
                  Returns-bind F F _ _
                    (keyword_search-From e user.tenant_id subject (join plan.queries (codes " "))
                      limit)
                    (λ keywords g. Returns-then F _ _ (λ x.
                      Returns-pure F _
                        (merged-From e user.tenant_id subject keywords found limit g k)))))))

    pub ranked-From :
        (query : Text) (cs : List (RetrievalChunk S))
        → All (From e user.tenant_id subject) cs
        → Returns (All (From e user.tenant_id subject)) (ranked e conf options query cs)
    unfolding ranked
    ranked-From query cs h =
        let F = All (From e user.tenant_id subject) in
        Returns-if F conf.rerank _ _
          (Returns-then F _ _
            (λ u. Returns-pure F _ (rerank_chunks-From e user.tenant_id subject query cs h)))
          (Returns-then F _ _ (λ u. Returns-pure F cs h))
