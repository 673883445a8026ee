-- ===== src/Retrieval/Search/Results.antt =====
-- What a search returns.
use Prim.Native.Nat.{min}
use enterprise_rag.Prelude.{
  ℕ, ◌≤◌, String, Bool, true, false, ◌||◌, ◌==◌, List, [], ◌∷◌, All, All-map, Text, ◌≡◌, refl,
  arith, length, count_of, str_eq, str_eq_iff, if◌then◌else◌,
}
use enterprise_rag.Prelude.Int.{ℤ, to_ℕ}
use enterprise_rag.Runes.{trim_space, trim_id, text_eq}
use enterprise_rag.Exec.{ok, World}
use enterprise_rag.Exec.Returns.{
  Returns, Returns-pure, Returns-raise, Returns-if, Returns-bind, Returns-then,
}
use enterprise_rag.Repository.Subjects
use enterprise_rag.Repository.Subjects.{User}
use enterprise_rag.Retrieval.Scores.{RetrievalChunk}
use enterprise_rag.Retrieval.Plan.{QueryPlan}
use enterprise_rag.Retrieval.Citations.{
  normalize_top_k, normalize_max_citations, normalize_citation_policy, trim_effective_chunks,
}
use enterprise_rag.Retrieval.Citations.Selection.{of_doc}
use enterprise_rag.Retrieval.Citations.Joining.{trim_effective_chunks-IsCited}
use enterprise_rag.Retrieval.Recall.{RetrievalMetrics}
use enterprise_rag.Retrieval.Matches.{Engine}
use enterprise_rag.Retrieval.Search.{
  RetrievalConf, SearchOptions, final_top_k, policy, plan_of, metrics_of, search_vectors,
  search_subject, search_if, search_with_options,
}
use enterprise_rag.Retrieval.Search.Origin.{Trusted, From}
use enterprise_rag.Retrieval.Search.Candidates.{joined-From, candidates-From, ranked-From}

-- Citations of the tenant and the knowledge base, within the limits.
pub record IsResult {S : Type 0} (e : Engine S) (conf : RetrievalConf S) (options : SearchOptions)
    (tenant subject : String) (r : List (RetrievalChunk S) × RetrievalMetrics S) : Type 0 where
  pub of_place :
      All (λ (c : RetrievalChunk S). (c.tenant_id ≡ tenant) × (c.subject_id ≡ subject)) r.0
  pub few : length r.0 ≤ min (final_top_k e conf options) 10
  pub few_each :
      (id : String)
      → count_of (of_doc id) r.0
        ≤ to_ℕ (normalize_citation_policy e.scores (policy e conf options)).max_chunks_per_document
  pub counted : r.1.returned_count ≡ length r.0

top_k_positive : (requested fallback : ℤ) → 1 ≤ normalize_top_k requested fallback
unfolding normalize_top_k
top_k_positive (ℤ.pos a) (ℤ.pos b) = ground arith
top_k_positive (ℤ.pos a) (ℤ.negsuc b) = ground arith
top_k_positive (ℤ.negsuc a) (ℤ.pos b) = ground arith
top_k_positive (ℤ.negsuc a) (ℤ.negsuc b) = omega arith

max_citations_bounds :
    (value : ℤ) → (1 ≤ normalize_max_citations value) × (normalize_max_citations value ≤ 10)
unfolding normalize_max_citations
max_citations_bounds (ℤ.pos a) = (ground arith, ground arith)
max_citations_bounds (ℤ.negsuc a) = (omega arith, omega arith)

limit_bound : (f m : ℕ) → 1 ≤ f → 1 ≤ m → m ≤ 10 → (if min f m == 0 then 5 else min f m) ≤ min f 10
limit_bound f m h k l = ground arith

module _ {S : Type 0} (e : Engine S) (conf : RetrievalConf S) (options : SearchOptions) where
  policy_limit :
      (normalize_citation_policy e.scores (policy e conf options)).limit
      ≤ min (final_top_k e conf options) 10
  unfolding normalize_citation_policy final_top_k
  policy_limit =
      let (some_one, ten) = max_citations_bounds conf.max_citations in
      limit_bound _ _ (top_k_positive options.top_k conf.top_k) some_one ten

  place :
      (tenant subject : String) (c : RetrievalChunk S)
      → From e tenant subject c
      → (c.tenant_id ≡ tenant) × (c.subject_id ≡ subject)
  place tenant subject c h = (
    (str_eq_iff c.tenant_id tenant).0 (ground arith),
    (str_eq_iff c.subject_id subject).0 (ground arith),
  )

  module _ (t : Trusted e) (user : User) (subject : String) where
    trimmed-IsResult :
        (query : Text) (plan : QueryPlan) (n : ℕ) (chunks : List (RetrievalChunk S))
        → All (From e user.tenant_id subject) chunks
        → let filtered = trim_effective_chunks e.scores e.letters (policy e conf options) chunks in
          IsResult e conf options user.tenant_id subject
            (filtered, metrics_of e conf options query plan n filtered)
    unfolding metrics_of
    trimmed-IsResult query plan n chunks h =
        let cited =
          trim_effective_chunks-IsCited e.scores e.letters (From e user.tenant_id subject)
            (joined-From e user.tenant_id subject) (policy e conf options) chunks h in
        record {
          of_place = All-map _ _ (place user.tenant_id subject) _ cited.each;
          few = omega (arith, cited.few, policy_limit);
          few_each = cited.few_each;
          counted = refl;
        }

    search_vectors-IsResult :
        (query : Text) (plan : QueryPlan) (vectors : List ℕ)
        → Returns
            (IsResult e conf options user.tenant_id subject)
            (search_vectors e conf options user subject query plan vectors)
    unfolding search_vectors
    search_vectors-IsResult query plan [] = Returns-raise _ _
    search_vectors-IsResult query plan (v ∷ vectors) =
        let F = All (From e user.tenant_id subject) in
        let R = IsResult e conf options user.tenant_id subject in
        Returns-bind F R _ _ (candidates-From e conf options t user subject plan (v ∷ vectors))
          (λ merged h.
            Returns-bind F R _ _ (ranked-From e conf options t user subject query merged h)
              (λ chunks k.
                Returns-then R _ _
                  (λ u. Returns-pure R _ (trimmed-IsResult query plan (length merged) chunks k))))

    search_subject-IsResult :
        (query : Text)
        → Returns
            (IsResult e conf options user.tenant_id subject)
            (search_subject e conf options user subject query)
    unfolding search_subject
    search_subject-IsResult query =
        let R = IsResult e conf options user.tenant_id subject in
        Returns-then R _ _ (λ u. Returns-then R _ _ (λ v. Returns-then R _ _ (λ x.
          Returns-then R _ _
            (λ vectors. search_vectors-IsResult query (plan_of e conf options query) vectors))))

    search_if-IsResult :
        (query : Text) (b : Bool)
        → Returns
            (IsResult e conf options user.tenant_id subject)
            (search_if e conf options user subject query b)
    search_if-IsResult query true = search_subject-IsResult query
    search_if-IsResult query false = Returns-raise _ _

  -- If Milvus applies the filter and a map is gone through once, then whatever fails and whatever
  -- other processes do, the chunks that a search returns belong to the user's tenant and the
  -- knowledge base that was asked, are at most as many as asked and at most ten, and no more of
  -- one document than the policy allows; the metrics tell their number.
  pub search_with_options-IsResult :
      Trusted e
      → (user : User) (subject : String) (query : Text) (w : World)
      → (r : List (RetrievalChunk S) × RetrievalMetrics S)
      → (search_with_options e conf options user subject query w).0 ≡ ok r
      → IsResult e conf options user.tenant_id (trim_id subject) r
  unfolding search_with_options
  search_with_options-IsResult t user subject query =
      let R = IsResult e conf options user.tenant_id (trim_id subject) in
      Returns-if R (str_eq (trim_id subject) "" || text_eq (trim_space query) []) _ _
        (Returns-raise R _)
        (Returns-then R (Subjects.exists_accessible user (trim_id subject)) _
          (search_if-IsResult t user (trim_id subject) (trim_space query)))
