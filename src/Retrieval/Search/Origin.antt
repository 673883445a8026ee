-- ===== src/Retrieval/Search/Origin.antt =====
-- Where the candidates come from: each belongs to the tenant and the knowledge base of the search.
use enterprise_rag.Prelude.{
  ℕ, String, Bool, true, ◌&&◌, List, [], ◌∷◌, All, All-map, All-kept, Text, ◌≡◌, refl, inl, inr,
  arith, count_of, ltb, keep_if, str_eq, Bool-cases,
}
use enterprise_rag.Store.{Document, DocumentChunk}
use enterprise_rag.Exec.{Result, ok, err, Exec, raise, attempt}
use enterprise_rag.Exec.Returns.{
  Returns, Holds, ok-injective, Returns-pure, Returns-raise, Returns-statement, Returns-if,
  Returns-bind, Returns-then,
}
use enterprise_rag.Repository.Documents
use enterprise_rag.Repository.Chunks
use enterprise_rag.Retrieval.Scores.{RetrievalChunk}
use enterprise_rag.Retrieval.Scoring.{keyword_score}
use enterprise_rag.Retrieval.Scoring.Sorting.{All-sort_stable, All-take}
use enterprise_rag.Retrieval.Matches.{
  Match, Engine, add_match, add_matches, after_vector, match_vectors, from_match, join_document,
  too_low, vector_chunks, from_chunk, scored_chunks, keyword_chunks, keyword_search,
}

-- The row of a tenant and a knowledge base.
abbrev pub in_place : String → String → String → String → Bool
in_place tenant subject row_tenant row_subject =
    str_eq row_tenant tenant && str_eq row_subject subject

-- What the code relies on: Milvus applies the filter, and a map is gone through once.
pub record Trusted {S : Type 0} (e : Engine S) : Type 0 where
  pub filters :
      (tenant subject : String) (v limit : ℕ) (ms : List (Match S))
      → e.search_vectors tenant subject v limit ≡ ok ms
      → All (λ (m : Match S). in_place tenant subject m.tenant_id m.subject_id ≡ true) ms
  pub visits :
      (p : Match S → Bool) (ms : List (Match S)) → count_of p (e.map_order ms) ≡ count_of p ms

module _ {S : Type 0} (e : Engine S) (tenant subject : String) where
  abbrev Of : Match S → Type 0
  Of m = in_place tenant subject m.tenant_id m.subject_id ≡ true

  abbrev pub From : RetrievalChunk S → Type 0
  From c = in_place tenant subject c.tenant_id c.subject_id ≡ true

  abbrev FromRow : DocumentChunk → Type 0
  FromRow c = in_place tenant subject c.tenant_id c.subject_id ≡ true

  All-add_match : (c : Match S) (ms : List (Match S)) → Of c → All Of ms → All Of (add_match e c ms)
  unfolding add_match
  All-add_match c [] h k = (h, tt)
  All-add_match c (old ∷ ms) h k = elim (Bool-cases (str_eq old.id c.id)) [
    | inl same ↦ rw same (elim (Bool-cases (e.scores.less old.score c.score)) [
      | inl better ↦ rw better (h, k.1)
      | inr worse ↦ rw worse k
    ])
    | inr new ↦ rw new (k.0, All-add_match c ms h k.1)
  ]

  All-add_matches : (ms cs : List (Match S)) → All Of ms → All Of cs → All Of (add_matches e ms cs)
  unfolding add_matches
  All-add_matches ms [] h k = h
  All-add_matches ms (c ∷ cs) h k =
      All-add_matches (add_match e c ms) cs (All-add_match c ms k.0 h) k.1

  pub match_vectors-Of :
      Trusted e
      → (limit : ℕ) (vs : List ℕ) (ms : List (Match S)) → All Of ms
      → Holds (All Of) (match_vectors e tenant subject limit vs ms)
  unfolding match_vectors
  match_vectors-Of t limit [] ms h a k = rw (← ok-injective ms a k) h
  match_vectors-Of t limit (v ∷ vs) ms h a k =
      go (e.search_vectors tenant subject v limit) (t.filters tenant subject v limit)
        (λ cs g. match_vectors-Of t limit vs (add_matches e ms cs) (All-add_matches ms cs h g) a) k
    where
      go :
          (r : Result (List (Match S)))
          → ((cs : List (Match S)) → r ≡ ok cs → All Of cs)
          → ((cs : List (Match S))
              → All Of cs
              → match_vectors e tenant subject limit vs (add_matches e ms cs) ≡ ok a
              → All Of a)
          → after_vector e r ms (match_vectors e tenant subject limit vs) ≡ ok a
          → All Of a
      go (ok cs) g rest k = rest cs (g cs refl) k
      go (err x) g rest k = cc

  module _ {A : Type 0} (make : A → Document → RetrievalChunk S) where
    join_document-From :
        (m : A) (rest : Exec (List (RetrievalChunk S))) (r : Result Document)
        → ((d : Document) → From (make m d))
        → Returns (All From) rest
        → Returns (All From) (join_document e make m rest r)
    join_document-From m rest (ok d) h k =
        Returns-bind (All From) (All From) rest _ k
          (λ cs g. Returns-pure (All From) (make m d ∷ cs) (h d, g))
    join_document-From m rest (err x) h k =
        Returns-if (All From) (e.is_sql_no_rows x) rest (raise x) k (Returns-raise (All From) x)

  pub vector_chunks-From :
      (threshold : S) (ms : List (Match S))
      → All Of ms
      → Returns (All From) (vector_chunks e threshold ms)
  unfolding vector_chunks from_match
  vector_chunks-From threshold [] h = Returns-pure (All From) [] tt
  vector_chunks-From threshold (m ∷ ms) h =
      let rest = vector_chunks-From threshold ms h.1 in
      Returns-if (All From) (too_low e threshold m) _ _ rest (
        Returns-then (All From) (attempt (Documents.get_by_id m.doc_id)) _
          (λ r. join_document-From (from_match e) m _ r (λ d. h.0) rest))

  scored_chunks-From :
      (query : Text) (cs : List DocumentChunk)
      → All FromRow cs
      → All (λ (item : DocumentChunk × S). FromRow item.0) (scored_chunks e query cs)
  unfolding scored_chunks
  scored_chunks-From query [] h = tt
  scored_chunks-From query (c ∷ cs) h =
      let score = keyword_score e.scores e.letters query c in
      elim (Bool-cases (e.scores.at_most score (e.scores.of_int 0))) [
        | inl low ↦ rw low (scored_chunks-From query cs h.1)
        | inr high ↦ rw high (h.0, scored_chunks-From query cs h.1)
      ]

  keyword_chunks-From :
      (items : List (DocumentChunk × S))
      → All (λ (item : DocumentChunk × S). FromRow item.0) items
      → Returns (All From) (keyword_chunks e items)
  unfolding keyword_chunks from_chunk
  keyword_chunks-From [] h = Returns-pure (All From) [] tt
  keyword_chunks-From (item ∷ items) h =
      Returns-then (All From) (attempt (Documents.get_by_id item.0.doc_id)) _
        (λ r. join_document-From (from_chunk e) item _ r (λ d. h.0) (keyword_chunks-From items h.1))

  by_index-From : (cs : List DocumentChunk) → All FromRow cs → All FromRow (Chunks.by_index cs)
  unfolding Chunks.by_index
  by_index-From [] h = tt
  by_index-From (c ∷ cs) h = insert c (Chunks.by_index cs) h.0 (by_index-From cs h.1)
    where
      insert :
          (c : DocumentChunk) (cs : List DocumentChunk)
          → FromRow c
          → All FromRow cs
          → All FromRow (Chunks.insert_by_index c cs)
      insert c [] h k = (h, tt)
      insert c (x ∷ cs) h k = elim (Bool-cases (ltb x.chunk_index c.chunk_index)) [
        | inl later ↦ rw later (k.0, insert c cs h k.1)
        | inr here ↦ rw here (h, k)
      ]

  list_by_subject-From : Returns (All FromRow) (Chunks.list_by_subject tenant subject)
  unfolding Chunks.list_by_subject Chunks.in_subject
  list_by_subject-From = Returns-statement (All FromRow) _ (λ now d a h.
      let kept = keep_if (Chunks.in_subject tenant subject) d.chunks in
      rw (← ok-injective (Chunks.by_index kept) a h) (
        by_index-From kept (
          All-map _ FromRow (λ c k. placed c k) _
            (All-kept (Chunks.in_subject tenant subject) d.chunks))))
    where
      placed : (c : DocumentChunk) → Chunks.in_subject tenant subject c ≡ true → FromRow c
      placed c h = ground arith

  pub keyword_search-From :
      (query : Text) (top_k : ℕ) → Returns (All From) (keyword_search e tenant subject query top_k)
  unfolding keyword_search
  keyword_search-From query top_k =
      let FromItem = λ (item : DocumentChunk × S). FromRow item.0 in
      Returns-bind (All FromRow) (All From) (Chunks.list_by_subject tenant subject) _
        list_by_subject-From
        (λ cs h. keyword_chunks-From _ (
          All-take FromItem _ _ (
            All-sort_stable _ FromItem (scored_chunks e query cs) (scored_chunks-From query cs h))))
