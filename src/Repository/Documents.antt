-- ===== src/Repository/Documents.antt =====
-- api/internal/repository/postgres/documentrepo.go: the operations on `documents`.
use enterprise_rag.Prelude.{
  ℕ, String, Bool, false, ◌&&◌, Option, none, some, List, [], ◌∷◌, ◌++◌, Text, str_eq, any_of,
  count_of, find_first, keep_if, map, if◌then◌else◌,
}
use enterprise_rag.Status.{
  DocumentStatus, failed, deleting, same_document, document_any, document_previous_statuses,
  document_retry_previous_statuses,
}
use enterprise_rag.Store.{Db, Subject, Document, DocumentParseLog, IndexTask, update_rows}
use enterprise_rag.Exec.{
  Result, ok, err, document_state_conflict, sql_no_rows, Exec, raise, pure, statement, inside,
  transaction, ◌>>=◌, ◌>>◌,
}
use enterprise_rag.Repository.Rows.{is_null, null_text, or_no_rows, unless_none, duplicate_key}
use enterprise_rag.Repository.Outbox.{enqueue_outbox}
use enterprise_rag.Repository.Tasks.{insert_task}

unfoldable pub update_documents : (Document → Bool) → (Document → Document) → Db → Db
update_documents test set d = record d { documents = update_rows test set d.documents }

-- The row that an upload makes: the columns that it does not give are NULL.
abbrev pub stored : Document → Document
stored document = record document {
  plain_text = none;
  metadata = none;
  error_message = none;
  deleted_at = none;
}

-- The row that a request for deletion makes.
abbrev pub stored_delete : IndexTask → IndexTask
stored_delete task = record task { retry_count = 0; error_message = none; processing_mode = none }

unfoldable pub insert_document : Document → ℕ → Db → Result (Unit {0}) × Db
insert_document row now d =
    if any_of (λ old. str_eq old.id row.id) d.documents
    then (err duplicate_key, d)
    else (ok tt, record d { documents = d.documents ++ stored row ∷ [] })

unfoldable pub create_with_index_task : (String → String) → Document → IndexTask → Exec (Unit {0})
create_with_index_task new_sha1 document task = transaction do
  inside (insert_document document)
  inside (insert_task task)
  enqueue_outbox new_sha1 task false

-- A document that is not deleted has the file's name, in a knowledge base that is not deleted.
unfoldable pub has_filename : Db → String → String → String → Document → Bool
has_filename d user_id subject_id filename row =
    str_eq row.user_id user_id
    && (str_eq row.subject_id subject_id
        && (str_eq row.filename filename
            && (is_null row.deleted_at
                && any_of (λ (s : Subject). str_eq s.id row.subject_id && is_null s.deleted_at)
                    d.subjects)))

unfoldable pub exists_active_filename : String → String → String → Exec Bool
unfolding has_filename
exists_active_filename user_id subject_id filename =
    statement λ now d. (ok (any_of (has_filename d user_id subject_id filename) d.documents), d)

unfoldable pub is_live : String → Document → Bool
is_live id row = str_eq row.id id && is_null row.deleted_at

unfoldable pub get_by_id : String → Exec Document
unfolding is_live
get_by_id id = statement λ now d. (or_no_rows (find_first (is_live id) d.documents), d)

unfoldable pub get_by_id_for_user : String → String → Exec Document
get_by_id_for_user id user_id = do
  document ← get_by_id id
  if str_eq document.user_id user_id then pure document else raise sql_no_rows

unfoldable pub live_with_status : String → List DocumentStatus → Document → Bool
unfolding is_live
live_with_status id previous row = is_live id row && document_any row.status previous

unfoldable pub parse_completed : Text → Text → Document → Document
parse_completed plain_text metadata row = record row {
  status = DocumentStatus.parsed;
  plain_text = null_text plain_text;
  metadata = some metadata;
  error_message = none;
}

unfoldable pub complete_parse : String → Text → Text → Exec (Unit {0})
unfolding update_documents live_with_status parse_completed
complete_parse id plain_text metadata =
    let test = live_with_status id (DocumentStatus.parsing ∷ []) in
    statement λ now d. (
      unless_none (count_of test d.documents) document_state_conflict,
      update_documents test (parse_completed plain_text metadata) d,
    )

unfoldable pub status_set : DocumentStatus → Option Text → Document → Document
status_set status message row = record row { status = status; error_message = message }

-- The statement that `UpdateStatus` and `ResetStatusForRetry` share.
unfoldable pub write_status :
    Option (List DocumentStatus) → String → DocumentStatus → Option Text → Exec (Unit {0})
unfolding update_documents live_with_status status_set
write_status none id status message = raise document_state_conflict
write_status (some previous) id status message = statement λ now d. (
  unless_none (count_of (live_with_status id previous) d.documents) document_state_conflict,
  update_documents (live_with_status id previous) (status_set status message) d,
)

unfoldable pub update_status : String → DocumentStatus → Text → Exec (Unit {0})
unfolding write_status
update_status id status message =
    write_status (document_previous_statuses status) id status (null_text message)

unfoldable pub reset_status_for_retry : String → DocumentStatus → Exec (Unit {0})
unfolding write_status
reset_status_for_retry id status =
    write_status (document_retry_previous_statuses status) id status none

unfoldable pub add_parse_log : DocumentParseLog → Exec (Unit {0})
add_parse_log log = statement λ now d. (ok tt, record d { parse_logs = d.parse_logs ++ log ∷ [] })

unfoldable pub owned_with_status : String → String → List DocumentStatus → Document → Bool
unfolding live_with_status
owned_with_status id user_id previous row =
    str_eq row.user_id user_id && live_with_status id previous row

unfoldable pub start_delete :
    String → String → List DocumentStatus → ℕ → Db → Result (Unit {0}) × Db
unfolding update_documents owned_with_status status_set
start_delete id user_id previous now d = (
  unless_none (count_of (owned_with_status id user_id previous) d.documents) sql_no_rows,
  update_documents (owned_with_status id user_id previous) (status_set deleting none) d,
)

unfoldable pub delete_steps :
    (String → String) → Option (List DocumentStatus) → String → String → IndexTask → Exec (Unit {0})
unfolding start_delete
delete_steps new_sha1 none id user_id task = raise document_state_conflict
delete_steps new_sha1 (some previous) id user_id task = transaction do
  inside (start_delete id user_id previous)
  inside (insert_task (stored_delete task))
  enqueue_outbox new_sha1 task false

unfoldable pub create_delete_task :
    (String → String) → String → String → IndexTask → Exec (Unit {0})
unfolding delete_steps
create_delete_task new_sha1 id user_id task =
    delete_steps new_sha1 (document_previous_statuses deleting) id user_id task

unfoldable pub delete_chunks : (String → Bool) → ℕ → Db → Result (Unit {0}) × Db
delete_chunks of_document now d = (
  ok tt,
  record d {
    chunks =
        update_rows (λ row. of_document row.doc_id && is_null row.deleted_at)
          (λ row. record row { deleted_at = some now }) d.chunks;
  },
)

unfoldable pub end_delete : String → ℕ → Db → Result (Unit {0}) × Db
unfolding update_documents live_with_status
end_delete id now d =
    let test = live_with_status id (deleting ∷ []) in
    (
      unless_none (count_of test d.documents) document_state_conflict,
      update_documents test (λ row. record row { deleted_at = some now }) d,
    )

unfoldable pub complete_delete : String → Exec (Unit {0})
unfolding delete_chunks end_delete
complete_delete id =
    transaction do inside (delete_chunks (λ doc_id. str_eq doc_id id)); inside (end_delete id)

unfoldable pub active_failed : String → Document → Bool
active_failed user_id row =
    str_eq row.user_id user_id && (same_document row.status failed && is_null row.deleted_at)

unfoldable pub list_active_failed_ids : String → Exec (List String)
unfolding active_failed
list_active_failed_ids user_id =
    statement λ now d. (ok (map (λ row. row.id) (keep_if (active_failed user_id) d.documents)), d)

unfoldable pub chunks_of_failed : String → ℕ → Db → Result (Unit {0}) × Db
unfolding active_failed delete_chunks
chunks_of_failed user_id now d =
    delete_chunks
      (λ doc_id. any_of (λ row. str_eq row.id doc_id) (keep_if (active_failed user_id) d.documents))
      now d

unfoldable pub documents_of_failed : String → ℕ → Db → Result ℕ × Db
unfolding update_documents active_failed
documents_of_failed user_id now d = (
  ok (count_of (active_failed user_id) d.documents),
  update_documents (active_failed user_id) (λ row. record row { deleted_at = some now }) d,
)

unfoldable pub clear_failed_by_user : String → Exec ℕ
unfolding chunks_of_failed documents_of_failed
clear_failed_by_user user_id =
    transaction do inside (chunks_of_failed user_id); inside (documents_of_failed user_id)
