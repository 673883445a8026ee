-- ===== src/Worker/Handlers.antt =====
-- The four handlers of api/internal/worker/manager.go, one for each type of task.
use Prim.Native.String.{◌++◌ as append}
use enterprise_rag.Prelude.{
  ℕ, zero, suc, String, Bool, true, false, ◌&&◌, not, Option, none, some, List, [], ◌∷◌, ◌++◌, map,
  Text, codes, ◌==◌, leb, length, if◌then◌else◌,
}
use enterprise_rag.Status.{
  DocumentStatus, parsing, parsed, chunking, chunked, embedding, indexed, TaskType, TaskStatus,
  same_document,
}
use enterprise_rag.Store.{Document, DocumentChunk, ChunkMetadata, IndexTask, Message}
use enterprise_rag.Runes.{trim_space, text_eq, has_prefix, join}
use enterprise_rag.Exec.{
  Error, other, no_rows, error_text, wrapped, Result, ok, err, Exec, pure, raise, attempt, lift,
  ◌>>=◌, ◌>>◌,
}
use enterprise_rag.Repository.Tasks
use enterprise_rag.Repository.Documents
use enterprise_rag.Repository.Chunks
use enterprise_rag.Worker.Services.{Services}

abbrev rank : DocumentStatus → Option ℕ
rank DocumentStatus.uploaded = some 0
rank parsing = some 1
rank parsed = some 2
rank chunking = some 3
rank chunked = some 4
rank embedding = some 5
rank indexed = some 6
rank _ = none

abbrev both_ranked : Option ℕ → Option ℕ → Bool
both_ranked (some current) (some target) = leb target current
both_ranked _ _ = false

unfoldable pub document_at_or_beyond : DocumentStatus → DocumentStatus → Bool
document_at_or_beyond current target = both_ranked (rank current) (rank target)

abbrev type_name : TaskType → String
type_name TaskType.parse = "document.parse"
type_name TaskType.chunk = "document.chunk"
type_name TaskType.embed = "document.embedding"
type_name TaskType.delete = "document.delete"

unfoldable pub deterministic_id : (String → String) → String → TaskType → String
deterministic_id new_sha1 parent purpose = new_sha1 (append parent (append ":" (type_name purpose)))

unfoldable pub next_task : (String → String) → Message → Document → TaskType → IndexTask
unfolding deterministic_id
next_task new_sha1 current document next = record {
  id = deterministic_id new_sha1 current.task_id next;
  tenant_id = document.tenant_id;
  doc_id = document.id;
  subject_id = document.subject_id;
  user_id = document.user_id;
  task_type = next;
  status = TaskStatus.pending;
  retry_count = 0;
  error_message = some [];
  processing_mode = none;
  stamp = document.stamp;
  lease_expires_at = none;
  cleared_at = none;
}

unfoldable pub enqueue_next : Services → Message → Document → TaskType → Exec (Unit {0})
enqueue_next svc current document next =
    Tasks.create svc.new_sha1 (next_task svc.new_sha1 current document next)

-- The path is cut at its first slash.
unfoldable pub cut_slash : Text → Option (Text × Text)
cut_slash [] = none
cut_slash (c ∷ s) =
    if c == b'/'
    then some ([], s)
    else elim (cut_slash s) [ none ↦ none | some (bucket, object) ↦ some (c ∷ bucket, object) ]

abbrev invalid_url : Error
invalid_url = other (codes "invalid minio file url")

unfoldable pub strip_scheme : Text → Option Text
unfolding has_prefix
strip_scheme url =
    if has_prefix url (codes "minio://") then some (enterprise_rag.Prelude.drop 8 url) else none

abbrev bucket_and_object : Option (Text × Text) → Result (Text × Text)
bucket_and_object none = err invalid_url
bucket_and_object (some parts) = ok parts

unfoldable pub parse_file_url : Text → Result (Text × Text)
unfolding cut_slash strip_scheme
parse_file_url url = elim (strip_scheme url) [
  | none ↦ err invalid_url
  | some path ↦ bucket_and_object (cut_slash path)
]

-- A stage that the document has not begun is begun.
unfoldable pub begin_stage : Document → DocumentStatus → Exec (Unit {0})
begin_stage document stage =
    if same_document document.status stage
    then pure tt
    else Documents.update_status document.id stage []

unfoldable pub finish_parse : Services → Message → Document → Result (Text × Text) → Exec (Unit {0})
finish_parse svc message document (err e) = do
  attempt (
      Documents.add_parse_log (record {
        doc_id = document.id;
        status = TaskStatus.failed;
        message = none;
        error = some (error_text e);
      }))
  raise e
finish_parse svc message document (ok (plain_text, metadata)) = do
  Documents.add_parse_log (record {
    doc_id = document.id;
    status = TaskStatus.success;
    message = some (codes "document parsed");
    error = none;
  })
  Documents.complete_parse document.id plain_text metadata
  enqueue_next svc message document TaskType.chunk

unfoldable pub parse_stage : Services → Message → Document → Exec (Unit {0})
parse_stage svc message document = do
  begin_stage document parsing
  place ← lift (parse_file_url document.file_url)
  let parsed_file = svc.parse_file place.0 place.1 document.file_type message.processing_mode
  finish_parse svc message document parsed_file

unfoldable pub parse_document : Services → Message → Exec (Unit {0})
parse_document svc message = do
  document ← Documents.get_by_id message.doc_id
  if document_at_or_beyond document.status parsed
      then enqueue_next svc message document TaskType.chunk
      else parse_stage svc message document

unfoldable pub chunk_stage : Services → Message → Document → Exec (Unit {0})
chunk_stage svc message document = do
  begin_stage document chunking
  chunks ← lift (svc.build_chunks document)
  Chunks.replace_by_document chunks
  Documents.update_status document.id chunked []
  enqueue_next svc message document TaskType.embed

unfoldable pub chunk_document : Services → Message → Exec (Unit {0})
chunk_document svc message = do
  document ← Documents.get_by_id message.doc_id
  if document_at_or_beyond document.status chunked
      then enqueue_next svc message document TaskType.embed
      else chunk_stage svc message document

abbrev section_part : Text → List Text
section_part [] = []
section_part (c ∷ s) = if text_eq (c ∷ s) (codes "text") then [] else (c ∷ s) ∷ []

abbrev keyword_part : List Text → List Text
keyword_part [] = []
keyword_part (k ∷ ks) = join (k ∷ ks) (codes " ") ∷ []

abbrev summary_part : Text → Text → List Text
summary_part [] content = []
summary_part (c ∷ s) content = if text_eq (c ∷ s) content then [] else (c ∷ s) ∷ []

abbrev metadata_parts : Option ChunkMetadata → Text → List Text
metadata_parts none content = []
metadata_parts (some m) content = keyword_part m.keywords ++ summary_part m.summary content

unfoldable pub build_embedding_text : DocumentChunk → Text
build_embedding_text chunk =
    let content = trim_space chunk.content in
    join
      (section_part (trim_space chunk.section)
        ++ (metadata_parts chunk.metadata content ++ content ∷ []))
      (codes "\n")

unfoldable pub embed_chunks : Services → Document → List DocumentChunk → Exec (Unit {0})
embed_chunks svc document [] = raise (other (codes "no document chunks found"))
embed_chunks svc document (chunk ∷ chunks) = do
  vectors ← lift (svc.embed document.tenant_id (map build_embedding_text (chunk ∷ chunks)))
  if length vectors == length (chunk ∷ chunks)
      then lift (svc.upsert_chunks (chunk ∷ chunks) vectors)
        >> Documents.update_status document.id indexed []
      else raise (other (codes "embedding vector count mismatch"))

unfoldable pub embed_stage : Services → Message → Document → Exec (Unit {0})
embed_stage svc message document = do
  begin_stage document embedding
  chunks ← Chunks.list_by_document document.id
  embed_chunks svc document chunks

unfoldable pub embed_document : Services → Message → Exec (Unit {0})
embed_document svc message = do
  document ← Documents.get_by_id message.doc_id
  if document_at_or_beyond document.status indexed
      then pure tt
      else embed_stage svc message document

unfoldable pub remove_document : Services → Document → Exec (Unit {0})
remove_document svc document = do
  place ← lift (parse_file_url document.file_url)
  lift (wrapped (codes "delete MinIO object: ") (svc.remove_object place.0 place.1))
  ended ← attempt (Documents.complete_delete document.id)
  lift (wrapped (codes "soft delete document: ") ended)

unfoldable pub delete_stage : Services → Document → Exec (Unit {0})
delete_stage svc document = do
  lift (
      wrapped (codes "delete Milvus vectors: ")
        (svc.delete_by_doc_ids document.user_id (document.id ∷ [])))
  residual ←
      lift (
        wrapped (codes "verify Milvus vectors: ")
          (svc.has_doc_vectors document.user_id document.id))
  if residual
      then raise (other (codes "milvus vectors still exist after delete"))
      else remove_document svc document

-- A document that is gone already is deleted.
unfoldable pub delete_found : Services → Result Document → Exec (Unit {0})
delete_found svc (ok document) = delete_stage svc document
delete_found svc (err no_rows) = pure tt
delete_found svc (err e) = raise e

unfoldable pub delete_document : Services → Message → Exec (Unit {0})
delete_document svc message = attempt (Documents.get_by_id message.doc_id) >>= delete_found svc

unfoldable pub handle : TaskType → Services → Message → Exec (Unit {0})
handle TaskType.parse = parse_document
handle TaskType.chunk = chunk_document
handle TaskType.embed = embed_document
handle TaskType.delete = delete_document
