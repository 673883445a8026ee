-- ===== src/Repository/Chunks.antt =====
-- api/internal/repository/postgres/chunkrepo.go: the chunks of a document.
use enterprise_rag.Prelude.{
  ℕ, String, Bool, not, ◌&&◌, ◌||◌, ◌==◌, List, [], ◌∷◌, ◌++◌, str_eq, any_of, keep_if, ltb,
  if◌then◌else◌,
}
use enterprise_rag.Store.{Db, DocumentChunk}
use enterprise_rag.Exec.{Result, ok, err, Exec, pure, statement, inside, transaction, ◌>>◌}
use enterprise_rag.Repository.Rows.{is_null, duplicate_key}

unfoldable pub remove_chunks : String → ℕ → Db → Result (Unit {0}) × Db
remove_chunks doc_id now d =
    (ok tt, record d { chunks = keep_if (λ row. not (str_eq row.doc_id doc_id)) d.chunks })

-- The unique index of `doc_id`, `document_version`, `content_hash` and `chunk_index` over the rows
-- that are not deleted.
unfoldable pub same_place : DocumentChunk → DocumentChunk → Bool
same_place chunk row =
    str_eq row.doc_id chunk.doc_id
    && (row.stamp.document_version == chunk.stamp.document_version
        && (str_eq row.stamp.content_hash chunk.stamp.content_hash
            && (row.chunk_index == chunk.chunk_index && is_null row.deleted_at)))

-- A row of the same id, or of the same place, is a duplicate.
unfoldable pub insert_chunk : DocumentChunk → ℕ → Db → Result (Unit {0}) × Db
unfolding same_place
insert_chunk chunk now d =
    if any_of (λ row. str_eq row.id chunk.id || same_place chunk row) d.chunks
    then (err duplicate_key, d)
    else (ok tt, record d { chunks = d.chunks ++ chunk ∷ [] })

unfoldable pub insert_chunks : List DocumentChunk → Exec (Unit {0})
insert_chunks [] = pure tt
insert_chunks (chunk ∷ chunks) = inside (insert_chunk chunk) >> insert_chunks chunks

unfoldable pub replace_by_document : List DocumentChunk → Exec (Unit {0})
replace_by_document [] = pure tt
replace_by_document (chunk ∷ chunks) =
    transaction (inside (remove_chunks chunk.doc_id) >> insert_chunks (chunk ∷ chunks))

-- A chunk goes behind those of a smaller index, so that those of the same index stay in the order
-- of the rows.
unfoldable pub insert_by_index : DocumentChunk → List DocumentChunk → List DocumentChunk
insert_by_index chunk [] = chunk ∷ []
insert_by_index chunk (c ∷ chunks) =
    let later = insert_by_index chunk chunks in
    if ltb c.chunk_index chunk.chunk_index then c ∷ later else chunk ∷ c ∷ chunks

-- `ORDER BY chunk_index ASC`.
unfoldable pub by_index : List DocumentChunk → List DocumentChunk
unfolding insert_by_index
by_index [] = []
by_index (chunk ∷ chunks) = insert_by_index chunk (by_index chunks)

unfoldable pub list_by_document : String → Exec (List DocumentChunk)
unfolding by_index
list_by_document doc_id = statement λ now d. (
  ok (by_index (keep_if (λ row. str_eq row.doc_id doc_id && is_null row.deleted_at) d.chunks)),
  d,
)

unfoldable pub in_subject : String → String → DocumentChunk → Bool
in_subject tenant_id subject_id row =
    str_eq row.tenant_id tenant_id && (str_eq row.subject_id subject_id && is_null row.deleted_at)

unfoldable pub list_by_subject : String → String → Exec (List DocumentChunk)
unfolding by_index in_subject
list_by_subject tenant_id subject_id =
    statement λ now d. (ok (by_index (keep_if (in_subject tenant_id subject_id) d.chunks)), d)
