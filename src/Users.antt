-- ===== src/Users.antt =====
-- What users ask of documents and tasks: the operations of the repositories that the requests of
-- api/internal/logic/document and api/internal/logic/admin call.
pub mod Steps
pub mod Events
pub mod Requests
pub mod Foreign
use enterprise_rag.Prelude.{String}
use enterprise_rag.Store.{Document, IndexTask}
use enterprise_rag.Exec.{World}
use enterprise_rag.Repository.Tasks
use enterprise_rag.Repository.Documents

pub data UserAction : Type 0 where
  upload : Document → IndexTask → UserAction
  -- The document, the user, and the new task to delete it.
  request_delete : String → String → IndexTask → UserAction
  -- The task and the user.
  retry_task : String → String → UserAction
  clear_failed clear_tasks : String → UserAction

-- The tables after it.
abbrev pub act : (String → String) → UserAction → World → World
act new_sha1 (upload document task) w =
    (Documents.create_with_index_task new_sha1 document task w).1
act new_sha1 (request_delete id user_id task) w =
    (Documents.create_delete_task new_sha1 id user_id task w).1
act new_sha1 (retry_task id user_id) w = (Tasks.retry new_sha1 id user_id w).1
act new_sha1 (clear_failed user_id) w = (Documents.clear_failed_by_user user_id w).1
act new_sha1 (clear_tasks user_id) w = (Tasks.clear_terminal_by_user user_id w).1
