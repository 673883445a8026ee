-- ===== src/Worker/Retry.antt =====
-- The part of api/internal/worker/manager.go that deals with a failed task: which errors are
-- worth another try, scheduling it, and recording a failure for good.
use enterprise_rag.Prelude.{
  ℕ, Bool, true, false, Option, none, some, List, [], ◌∷◌, ◌++◌, map, Text, codes, any_of,
  if◌then◌else◌,
}
use enterprise_rag.Status.{DocumentStatus, TaskType, TaskStatus}
use enterprise_rag.Store.{IndexTask, Message}
use enterprise_rag.Runes.{trim_space, contains, decimal}
use enterprise_rag.Exec.{
  Error, publish, error_text, Result, ok, err, Exec, pure, attempt, lift, wrapped, ◌>>=◌, ◌>>◌,
}
use enterprise_rag.Repository.Tasks
use enterprise_rag.Repository.Documents
use enterprise_rag.Worker.Services.{Services}

abbrev pub max_automatic_retries : ℕ
max_automatic_retries = 3

-- Seconds.
abbrev pub automatic_retry_delay : ℕ
automatic_retry_delay = 2

abbrev permanent_phrases : List Text
permanent_phrases =
    codes "invalid api"
    ∷ codes "incorrect api key"
    ∷ codes "unsupported document type"
    ∷ codes "not supported"
    ∷ codes "encryption version"
    ∷ codes "暂不支持"
    ∷ codes "no document chunks found"
    ∷ codes "vector count mismatch"
    ∷ []

abbrev transient_phrases : List Text
transient_phrases =
    codes "timeout"
    ∷ codes "deadline exceeded"
    ∷ codes "tempor"
    ∷ codes "connection reset"
    ∷ codes "connection refused"
    ∷ codes "unexpected eof"
    ∷ codes "broken pipe"
    ∷ codes "try again"
    ∷ []

classify : Text → Bool
classify [] = false
classify (c ∷ s) =
    if any_of (contains (c ∷ s)) permanent_phrases
    then false
    else any_of (contains (c ∷ s)) transient_phrases

unfoldable pub should_auto_retry : (ℕ → ℕ) → Error → Bool
unfolding classify
should_auto_retry lower (publish text) = true
should_auto_retry lower e = classify (map lower (trim_space (error_text e)))

unfoldable pub retry_pending_document_status : TaskType → Option DocumentStatus
retry_pending_document_status TaskType.parse = some DocumentStatus.uploaded
retry_pending_document_status TaskType.chunk = some DocumentStatus.parsed
retry_pending_document_status TaskType.embed = some DocumentStatus.chunked
retry_pending_document_status TaskType.delete = none

abbrev is_publish : Error → Bool
is_publish (publish text) = true
is_publish _ = false

-- "parse retry scheduled (%d/%d)".
abbrev retry_text : ℕ → Text
retry_text count =
    codes "parse retry scheduled ("
    ++ (decimal count ++ (codes "/" ++ (decimal max_automatic_retries ++ codes ")")))

unfoldable pub note_retry : TaskType → Message → ℕ → Exec (Unit {0})
note_retry TaskType.parse message count = do
  attempt (
      Documents.add_parse_log (record {
        doc_id = message.doc_id;
        status = TaskStatus.pending;
        message = some (retry_text count);
        error = none;
      }))
  pure tt
note_retry _ message count = pure tt

-- The document goes back to the status before the stage.
unfoldable pub after_reset : TaskType → Message → ℕ → Result (Unit {0}) → Exec Bool
after_reset type message count (ok u) = note_retry type message count >> pure true
after_reset type message count (err e) = do
  attempt (Tasks.update_status message.task_id TaskStatus.failed (error_text e))
  pure false

unfoldable pub reset_document : TaskType → Message → Error → ℕ → Option DocumentStatus → Exec Bool
reset_document type message e count none = note_retry type message count >> pure true
reset_document type message e count (some status) =
    if is_publish e
    then note_retry type message count >> pure true
    else attempt (Documents.reset_status_for_retry message.doc_id status)
      >>= after_reset type message count

unfoldable pub after_schedule : TaskType → Message → Error → Result (Option IndexTask) → Exec Bool
after_schedule type message e (ok (some task)) =
    reset_document type message e task.retry_count (retry_pending_document_status type)
after_schedule type message e (ok none) = pure false
after_schedule type message e (err e') = pure false

unfoldable pub schedule_retry : Services → TaskType → Message → Error → Exec Bool
schedule_retry svc type message e =
    if should_auto_retry svc.lower e
    then attempt (Tasks.schedule_retry message.task_id max_automatic_retries)
      >>= after_schedule type message e
    else pure false

abbrev failure_status : TaskType → DocumentStatus
failure_status TaskType.delete = DocumentStatus.delete_failed
failure_status _ = DocumentStatus.failed

unfoldable pub persist_failure : TaskType → Message → Error → Exec (Unit {0})
persist_failure type message e = do
  set ← attempt (Documents.update_status message.doc_id (failure_status type) (error_text e))
  lift (wrapped (codes "persist failed document state: ") set)
  ended ← attempt (Tasks.update_status message.task_id TaskStatus.failed (error_text e))
  lift (wrapped (codes "persist failed task state: ") ended)
