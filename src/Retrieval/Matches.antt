-- ===== src/Retrieval/Matches.antt =====
-- api/internal/service/retrieval/search.go: the matches of the vectors and of the keywords.
--
-- A number stands for an embedding vector. The embedding model, Milvus, the order in which Go goes
-- through a map, and `errors.Is(err, sql.ErrNoRows)` are parameters.
use enterprise_rag.Prelude.{
  ℕ, String, Bool, ◌&&◌, List, [], ◌∷◌, Text, ◌==◌, take, str_eq, if◌then◌else◌,
}
use enterprise_rag.Prelude.Int.{ℤ}
use enterprise_rag.Store.{Document, DocumentChunk}
use enterprise_rag.Exec.{Error, Result, ok, err, Exec, pure, raise, attempt, ◌>>=◌}
use enterprise_rag.Repository.Documents
use enterprise_rag.Repository.Chunks
use enterprise_rag.Retrieval.Scores.{Scores, Letters, vector, keyword, RetrievalChunk}
use enterprise_rag.Retrieval.Scoring.{keyword_score, sort_stable}

-- `model.RetrievalChunk`, what Milvus finds.
pub record Match (S : Type 0) : Type 0 where
  pub id : String
  pub tenant_id : String
  pub doc_id : String
  pub subject_id : String
  pub user_id : String
  pub chunk_index : ℤ
  pub page : ℤ
  pub section : Text
  pub content : Text
  pub document_version : ℕ
  pub content_hash : String
  pub score : S

pub record Engine (S : Type 0) : Type 0 where
  pub scores : Scores S
  pub letters : Letters
  pub embed : String → List Text → Result (List ℕ)
  -- The tenant, the subject, the vector and the limit.
  pub search_vectors : String → String → ℕ → ℕ → Result (List (Match S))
  pub map_order : List (Match S) → List (Match S)
  pub is_sql_no_rows : Error → Bool
  -- `time.Since(startedAt)`.
  pub latency_ms : ℤ

module _ {S : Type 0} (e : Engine S) where
  -- `vectorMatches[chunk.ID] = chunk` where the chunk is new or better.
  unfoldable pub add_match : Match S → List (Match S) → List (Match S)
  add_match chunk [] = chunk ∷ []
  add_match chunk (old ∷ matches) =
      let rest = add_match chunk matches in
      if str_eq old.id chunk.id
      then if e.scores.less old.score chunk.score then chunk ∷ matches else old ∷ matches
      else old ∷ rest

  unfoldable pub add_matches : List (Match S) → List (Match S) → List (Match S)
  unfolding add_match
  add_matches matches [] = matches
  add_matches matches (chunk ∷ chunks) = add_matches (add_match chunk matches) chunks

  abbrev pub after_vector :
      Result (List (Match S))
      → List (Match S)
      → (List (Match S) → Result (List (Match S)))
      → Result (List (Match S))
  after_vector (ok chunks) matches next = next (add_matches matches chunks)
  after_vector (err x) matches next = err x

  -- The loop over the vectors.
  unfoldable pub match_vectors :
      String → String → ℕ → List ℕ → List (Match S) → Result (List (Match S))
  unfolding add_matches
  match_vectors tenant subject limit [] matches = ok matches
  match_vectors tenant subject limit (v ∷ vectors) matches =
      after_vector (e.search_vectors tenant subject v limit) matches
        (match_vectors tenant subject limit vectors)

  -- The result that a match of a document makes.
  unfoldable pub from_match : Match S → Document → RetrievalChunk S
  from_match m document = record {
    id = m.id;
    evidence_id = m.id;
    tenant_id = m.tenant_id;
    doc_id = m.doc_id;
    doc_name = document.filename;
    subject_id = m.subject_id;
    user_id = m.user_id;
    chunk_index = m.chunk_index;
    page = m.page;
    section = m.section;
    content = m.content;
    document_version = m.document_version;
    content_hash = m.content_hash;
    score = m.score;
    raw_score = m.score;
    source = vector;
  }

  -- A document that is not found is skipped, and another error ends the loop.
  abbrev pub join_document :
      {A : Type 0}
      → (A → Document → RetrievalChunk S)
      → A
      → Exec (List (RetrievalChunk S))
      → Result Document
      → Exec (List (RetrievalChunk S))
  join_document make m rest (ok document) = do chunks ← rest; pure (make m document ∷ chunks)
  join_document make m rest (err x) = if e.is_sql_no_rows x then rest else raise x

  unfoldable pub too_low : S → Match S → Bool
  too_low threshold m =
      e.scores.less (e.scores.of_int 0) threshold && e.scores.less m.score threshold

  -- The loop over the matches.
  unfoldable pub vector_chunks : S → List (Match S) → Exec (List (RetrievalChunk S))
  unfolding from_match too_low
  vector_chunks threshold [] = pure []
  vector_chunks threshold (m ∷ matches) =
      let rest = vector_chunks threshold matches in
      if too_low threshold m
      then rest
      else attempt (Documents.get_by_id m.doc_id) >>= join_document from_match m rest

  unfoldable pub from_chunk : DocumentChunk × S → Document → RetrievalChunk S
  from_chunk (chunk, score) document = record {
    id = chunk.id;
    evidence_id = chunk.id;
    tenant_id = chunk.tenant_id;
    doc_id = chunk.doc_id;
    doc_name = document.filename;
    subject_id = chunk.subject_id;
    user_id = chunk.user_id;
    chunk_index = ℤ.pos chunk.chunk_index;
    page = chunk.page;
    section = chunk.section;
    content = chunk.content;
    document_version = chunk.stamp.document_version;
    content_hash = chunk.stamp.content_hash;
    score = score;
    raw_score = score;
    source = keyword;
  }

  -- The chunks that have a score.
  unfoldable pub scored_chunks : Text → List DocumentChunk → List (DocumentChunk × S)
  unfolding keyword_score
  scored_chunks query [] = []
  scored_chunks query (chunk ∷ chunks) =
      let rest = scored_chunks query chunks in
      let score = keyword_score e.scores e.letters query chunk in
      if e.scores.at_most score (e.scores.of_int 0) then rest else (chunk, score) ∷ rest

  unfoldable pub keyword_chunks : List (DocumentChunk × S) → Exec (List (RetrievalChunk S))
  unfolding from_chunk
  keyword_chunks [] = pure []
  keyword_chunks (item ∷ scored) =
      let rest = keyword_chunks scored in
      attempt (Documents.get_by_id item.0.doc_id) >>= join_document from_chunk item rest

  unfoldable pub keyword_search : String → String → Text → ℕ → Exec (List (RetrievalChunk S))
  unfolding scored_chunks sort_stable
  keyword_search tenant subject query top_k = do
    chunks ← Chunks.list_by_subject tenant subject
    let limit = if top_k == 0 then 5 else top_k
    let better = λ (a b : DocumentChunk × S). e.scores.less b.1 a.1
    keyword_chunks (take limit (sort_stable better (scored_chunks query chunks)))
