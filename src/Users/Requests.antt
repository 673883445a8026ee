-- ===== src/Users/Requests.antt =====
-- api/internal/logic/document: the requests to delete a document, to clear the failed ones, and to
-- retry a task. `CurrentUser`, `uuid` and Milvus are parameters.
use enterprise_rag.Prelude.{ℕ, String, List, [], ◌∷◌, codes, none}
use enterprise_rag.Runes.{trim_id}
use enterprise_rag.Status.{TaskType, TaskStatus}
use enterprise_rag.Store.{Document, IndexTask}
use enterprise_rag.Exec.{
  Result, ok, err, other, task_not_retryable, World, Exec, pure, lift, attempt, ◌>>=◌, ◌>>◌,
}
use enterprise_rag.Repository.Documents
use enterprise_rag.Repository.Tasks
use enterprise_rag.Repository.Subjects.{User}

pub record Desk : Type 0 where
  pub current_user : Result User
  pub new_task_id : String
  pub new_sha1 : String → String
  pub delete_by_doc_ids : String → List String → Result (Unit {0})

unfoldable pub delete_task_of : Desk → User → Document → IndexTask
delete_task_of desk user document = record {
  id = desk.new_task_id;
  tenant_id = user.tenant_id;
  doc_id = document.id;
  subject_id = document.subject_id;
  user_id = user.id;
  task_type = TaskType.delete;
  status = TaskStatus.pending;
  retry_count = 0;
  error_message = none;
  processing_mode = none;
  stamp = document.stamp;
  lease_expires_at = none;
  cleared_at = none;
}

unfoldable pub document_delete : Desk → String → Exec IndexTask
document_delete desk id = do
  user ← lift desk.current_user
  document ← Documents.get_by_id_for_user (trim_id id) user.id
  let task = delete_task_of desk user document
  Documents.create_delete_task desk.new_sha1 document.id user.id task
  pure task

-- The vectors are deleted before the rows, where there are any.
abbrev pub delete_vectors : Desk → User → List String → Result (Unit {0})
delete_vectors desk user [] = ok tt
delete_vectors desk user (id ∷ ids) = desk.delete_by_doc_ids user.id (id ∷ ids)

unfoldable pub document_clear_failed : Desk → Exec ℕ
document_clear_failed desk = do
  user ← lift desk.current_user
  ids ← Documents.list_active_failed_ids user.id
  lift (delete_vectors desk user ids)
  Documents.clear_failed_by_user user.id

abbrev pub retry_error : Result IndexTask → Result IndexTask
retry_error (err task_not_retryable) = err (other (codes "task is no longer retryable"))
retry_error r = r

unfoldable pub index_task_retry : Desk → String → Exec IndexTask
index_task_retry desk id = do
  user ← lift desk.current_user
  r ← attempt (Tasks.retry desk.new_sha1 (trim_id id) user.id)
  lift (retry_error r)

pub data DocumentRequest : Type 0 where
  delete_document retry_task : String → DocumentRequest
  clear_failed : DocumentRequest

-- The tables after a request.
abbrev pub request : Desk → DocumentRequest → World → World
request desk (delete_document id) w = (document_delete desk id w).1
request desk (retry_task id) w = (index_task_retry desk id w).1
request desk clear_failed w = (document_clear_failed desk w).1
