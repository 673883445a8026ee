-- ===== src/Status.antt =====
-- api/internal/model/status.go: the statuses of documents and tasks, and the tables of the
-- statuses from which each may be entered. A string constant is a constructor.
pub mod Diagram
pub mod Stages
use enterprise_rag.Prelude.{ℕ, Bool, List, [], ◌∷◌, Option, none, some, ◌==◌, any_of}

pub data DocumentStatus : Type 0 where
  uploaded parsing parsed chunking chunked embedding indexed : DocumentStatus
  failed deleting delete_failed : DocumentStatus

abbrev document_code : DocumentStatus → ℕ
document_code uploaded = 0
document_code parsing = 1
document_code parsed = 2
document_code chunking = 3
document_code chunked = 4
document_code embedding = 5
document_code indexed = 6
document_code failed = 7
document_code deleting = 8
document_code delete_failed = 9

-- `==` on the strings.
unfoldable pub same_document : DocumentStatus → DocumentStatus → Bool
same_document a b = document_code a == document_code b

unfoldable pub document_previous_statuses : DocumentStatus → Option (List DocumentStatus)
document_previous_statuses uploaded = none
document_previous_statuses parsing = some (uploaded ∷ [])
document_previous_statuses parsed = some (parsing ∷ [])
document_previous_statuses chunking = some (parsed ∷ [])
document_previous_statuses chunked = some (chunking ∷ [])
document_previous_statuses embedding = some (chunked ∷ [])
document_previous_statuses indexed = some (embedding ∷ [])
document_previous_statuses failed =
    some (uploaded ∷ parsing ∷ parsed ∷ chunking ∷ chunked ∷ embedding ∷ [])
document_previous_statuses deleting = some (
    uploaded ∷ parsing ∷ parsed ∷ chunking ∷ chunked ∷ embedding ∷ indexed ∷ failed ∷ delete_failed
    ∷ [])
document_previous_statuses delete_failed = some (deleting ∷ [])

unfoldable pub document_retry_previous_statuses : DocumentStatus → Option (List DocumentStatus)
document_retry_previous_statuses uploaded = some (failed ∷ parsing ∷ [])
document_retry_previous_statuses parsed = some (failed ∷ chunking ∷ [])
document_retry_previous_statuses chunked = some (failed ∷ embedding ∷ [])
document_retry_previous_statuses deleting = some (delete_failed ∷ [])
document_retry_previous_statuses _ = none

pub data TaskType : Type 0 where
  parse chunk embed delete : TaskType

pub data TaskStatus : Type 0 where
  pending running success failed : TaskStatus

abbrev task_code : TaskStatus → ℕ
task_code pending = 0
task_code running = 1
task_code success = 2
task_code failed = 3

unfoldable pub same_task : TaskStatus → TaskStatus → Bool
same_task a b = task_code a == task_code b

unfoldable pub task_previous_statuses : TaskStatus → Option (List TaskStatus)
task_previous_statuses pending = none
task_previous_statuses running = some (pending ∷ [])
task_previous_statuses success = some (running ∷ [])
task_previous_statuses failed = some (pending ∷ running ∷ [])

-- `status = ANY(previous)`.
unfoldable pub document_any : DocumentStatus → List DocumentStatus → Bool
unfolding same_document
document_any s = any_of (same_document s)

unfoldable pub task_any : TaskStatus → List TaskStatus → Bool
unfolding same_task
task_any s = any_of (same_task s)
