-- ===== src/Tests/Indexing.antt =====
-- The last stage of indexing for a document of two chunks, whose rows are not in their order.
use enterprise_rag.Prelude.{none, [], ◌∷◌, ◌≡◌, ◌&&◌, refl, codes, keep_if, str_eq}
use enterprise_rag.Repository.Rows.{is_null}
use enterprise_rag.Repository.Chunks.{by_index, insert_by_index}
use enterprise_rag.Prelude.Int.{ℤ}
use enterprise_rag.Status.{chunked, indexed}
use enterprise_rag.Store.{Document, DocumentChunk, Message}
use enterprise_rag.Exec.{ok, World, quiet}
use enterprise_rag.Worker.Services.{Services}
use enterprise_rag.Worker.Handlers.{embed_document}
use enterprise_rag.Worker.Embedding.{embed_document-indexed}
use enterprise_rag.Tests.Samples.{empty_db, stamp, uploaded_document, world, services}

abbrev pub chunk : DocumentChunk
chunk = record {
  id = "chunk";
  tenant_id = "tenant";
  doc_id = "doc";
  subject_id = "subject";
  user_id = "user";
  chunk_index = 0;
  content = codes "Some text.";
  page = ℤ.pos 1;
  section = [];
  metadata = none;
  token_count = 10;
  stamp = stamp;
  deleted_at = none;
}

abbrev chunked_document : Document
chunked_document = record uploaded_document { status = chunked }

abbrev other_document : Document
other_document = record uploaded_document { id = "other" }

abbrev second_chunk : DocumentChunk
second_chunk = record chunk { id = "second"; chunk_index = 1; content = codes "More text." }

abbrev start : World
start =
    world
      (record empty_db {
        documents = other_document ∷ chunked_document ∷ [];
        chunks = second_chunk ∷ chunk ∷ [];
      })
      []

abbrev two_vectors : Services
two_vectors = record services { embed = λ tenant texts. ok (7 ∷ 8 ∷ []) }

abbrev message : Message
message = record { task_id = "task"; doc_id = "doc"; processing_mode = "" }

in_order :
    by_index (keep_if (λ row. str_eq row.doc_id "doc" && is_null row.deleted_at) start.db.chunks)
    ≡ chunk ∷ second_chunk ∷ []
unfolding by_index insert_by_index
in_order = refl

embed_document-indexed_example : embed_document two_vectors message (quiet start) ≡ (
  ok tt,
  quiet (record start {
    db = record start.db {
      documents =
          other_document ∷ record chunked_document { status = indexed; error_message = none } ∷ [];
    };
  }),
)
embed_document-indexed_example =
    embed_document-indexed two_vectors message chunked_document (other_document ∷ []) [] start refl
      refl (record { live = refl; first = (refl, tt); last = tt }) refl
      (record {
        chunk = chunk;
        chunks = second_chunk ∷ [];
        vectors = 7 ∷ 8 ∷ [];
        listed = in_order;
        embedded = refl;
        same_length = refl;
        upserted = refl;
      })
