-- ===== src/Repository/Tasks.antt =====
-- api/internal/repository/postgres/indextaskrepo.go: the operations on `index_tasks`.
use Prim.Native.Nat.{max}
use enterprise_rag.Prelude.{
  ℕ, ◌+◌, String, Bool, true, false, ◌&&◌, ◌||◌, Option, none, some, List, [], ◌∷◌, ◌++◌, Text,
  str_eq, ltb, leb, any_of, count_of, find_first, if◌then◌else◌,
}
use enterprise_rag.Status.{
  DocumentStatus, TaskType, TaskStatus, same_task, task_any, document_any, task_previous_statuses,
  document_retry_previous_statuses,
}
use enterprise_rag.Store.{Db, Document, IndexTask, update_rows}
use enterprise_rag.Exec.{
  Result, ok, err, task_state_conflict, task_not_retryable, Exec, raise, pure, statement, inside,
  transaction, ◌>>=◌, ◌>>◌,
}
use enterprise_rag.Repository.Rows.{is_null, or_no_rows, unless_none, duplicate_key}
use enterprise_rag.Repository.Outbox.{enqueue_outbox}

-- The row that an insertion of a task makes: the columns that it does not give are NULL.
abbrev pub stored : IndexTask → IndexTask
stored task = record task { lease_expires_at = none; cleared_at = none }

unfoldable pub insert_task : IndexTask → ℕ → Db → Result (Unit {0}) × Db
insert_task task now d =
    if any_of (λ row. str_eq row.id task.id) d.tasks
    then (err duplicate_key, d)
    else (ok tt, record d { tasks = d.tasks ++ stored task ∷ [] })

-- An insertion reports whether a row was inserted: `ON CONFLICT (id) DO NOTHING`.
unfoldable pub insert_new : IndexTask → ℕ → Db → Result Bool × Db
insert_new task now d =
    if any_of (λ row. str_eq row.id task.id) d.tasks
    then (ok false, d)
    else (ok true, record d { tasks = d.tasks ++ stored task ∷ [] })

unfoldable pub announce_if : (String → String) → IndexTask → Bool → Exec (Unit {0})
announce_if new_sha1 task true = enqueue_outbox new_sha1 task false
announce_if new_sha1 task false = pure tt

unfoldable pub create : (String → String) → IndexTask → Exec (Unit {0})
create new_sha1 task = transaction (inside (insert_new task) >>= announce_if new_sha1 task)

unfoldable pub get_by_id : String → Exec IndexTask
get_by_id id = statement λ now d. (or_no_rows (find_first (λ row. str_eq row.id id) d.tasks), d)

-- One `UPDATE index_tasks`: how many rows met the test is what the code looks at.
unfoldable pub update_tasks : (IndexTask → Bool) → (IndexTask → IndexTask) → Db → Db
update_tasks test set d = record d { tasks = update_rows test set d.tasks }

unfoldable pub status_set : TaskStatus → Text → IndexTask → IndexTask
status_set status message row = record row {
  status = status;
  error_message = some message;
  lease_expires_at = none;
}

unfoldable pub has_status_in : String → List TaskStatus → IndexTask → Bool
has_status_in id previous row = str_eq row.id id && task_any row.status previous

unfoldable pub write_status :
    Option (List TaskStatus) → String → TaskStatus → Text → Exec (Unit {0})
unfolding update_tasks status_set has_status_in
write_status none id status message = raise task_state_conflict
write_status (some previous) id status message = statement λ now d. (
  unless_none (count_of (has_status_in id previous) d.tasks) task_state_conflict,
  update_tasks (has_status_in id previous) (status_set status message) d,
)

unfoldable pub update_status : String → TaskStatus → Text → Exec (Unit {0})
unfolding write_status
update_status id status message = write_status (task_previous_statuses status) id status message

-- `COALESCE(lease_expires_at, '-infinity') <= now()`.
abbrev pub lease_over : ℕ → Option ℕ → Bool
lease_over now none = true
lease_over now (some at) = leb at now

unfoldable pub can_claim : String → ℕ → IndexTask → Bool
can_claim id now row =
    str_eq row.id id
    && (same_task row.status TaskStatus.pending
        || (same_task row.status TaskStatus.running && lease_over now row.lease_expires_at))

unfoldable pub claimed : ℕ → ℕ → IndexTask → IndexTask
claimed lease now row = record row {
  status = TaskStatus.running;
  error_message = none;
  lease_expires_at = some (now + max lease 1);
}

-- `lease` is in whole seconds.
unfoldable pub claim : String → ℕ → Exec Bool
unfolding update_tasks can_claim claimed
claim id lease = statement λ now d. (
  ok (leb 1 (count_of (can_claim id now) d.tasks) && leb (count_of (can_claim id now) d.tasks) 1),
  update_tasks (can_claim id now) (claimed lease now) d,
)

unfoldable pub can_reschedule : String → ℕ → IndexTask → Bool
can_reschedule id max_retries row =
    str_eq row.id id
    && (ltb row.retry_count max_retries
        && (same_task row.status TaskStatus.running || same_task row.status TaskStatus.failed))

unfoldable pub rescheduled : IndexTask → IndexTask
rescheduled row = record row {
  status = TaskStatus.pending;
  retry_count = row.retry_count + 1;
  lease_expires_at = none;
}

-- The task as it was written, or `none` where no row met the test.
unfoldable pub schedule_retry : String → ℕ → Exec (Option IndexTask)
unfolding update_tasks can_reschedule rescheduled
schedule_retry id max_retries = statement λ now d.
    let found = find_first (can_reschedule id max_retries) d.tasks in
    (
      ok (elim found [ none ↦ none | some row ↦ some (rescheduled row) ]),
      update_tasks (can_reschedule id max_retries) rescheduled d,
    )

unfoldable pub can_revive : String → String → IndexTask → Bool
can_revive id user_id row =
    str_eq row.id id && (str_eq row.user_id user_id && same_task row.status TaskStatus.failed)

unfoldable pub revived : IndexTask → IndexTask
revived row = record row {
  status = TaskStatus.pending;
  retry_count = row.retry_count + 1;
  error_message = none;
  lease_expires_at = none;
}

unfoldable pub revive_task : String → String → ℕ → Db → Result IndexTask × Db
unfolding update_tasks can_revive revived
revive_task id user_id now d =
    let found = find_first (can_revive id user_id) d.tasks in
    (
      elim found [ none ↦ err task_not_retryable | some row ↦ ok (revived row) ],
      update_tasks (can_revive id user_id) revived d,
    )

unfoldable pub retry_document_status : TaskType → DocumentStatus
retry_document_status TaskType.parse = DocumentStatus.uploaded
retry_document_status TaskType.chunk = DocumentStatus.parsed
retry_document_status TaskType.embed = DocumentStatus.chunked
retry_document_status TaskType.delete = DocumentStatus.deleting

unfoldable pub can_reopen : String → String → List DocumentStatus → Document → Bool
can_reopen doc_id user_id previous row =
    str_eq row.id doc_id
    && (str_eq row.user_id user_id && (is_null row.deleted_at && document_any row.status previous))

unfoldable pub reopened : DocumentStatus → Document → Document
reopened status row = record row { status = status; error_message = none }

unfoldable pub reopen_document :
    String → String → List DocumentStatus → DocumentStatus → ℕ → Db → Result (Unit {0}) × Db
unfolding can_reopen reopened
reopen_document doc_id user_id previous status now d = (
  unless_none (count_of (can_reopen doc_id user_id previous) d.documents) task_not_retryable,
  record d {
    documents = update_rows (can_reopen doc_id user_id previous) (reopened status) d.documents;
  },
)

unfoldable pub reopen :
    Option (List DocumentStatus) → String → IndexTask → DocumentStatus → Exec (Unit {0})
unfolding reopen_document
reopen none user_id task status = raise task_not_retryable
reopen (some previous) user_id task status =
    inside (reopen_document task.doc_id user_id previous status)

-- `Retry`, which a user asks for: the task, its document and its event in one transaction.
unfoldable pub retry_steps : (String → String) → String → String → Exec IndexTask
unfolding revive_task reopen
retry_steps new_sha1 id user_id = do
  task ← inside (revive_task id user_id)
  let status = retry_document_status task.task_type
  reopen (document_retry_previous_statuses status) user_id task status
  enqueue_outbox new_sha1 task true
  pure task

unfoldable pub retry : (String → String) → String → String → Exec IndexTask
unfolding retry_steps
retry new_sha1 id user_id = transaction (retry_steps new_sha1 id user_id)

unfoldable pub is_terminal_of : String → IndexTask → Bool
is_terminal_of user_id row =
    str_eq row.user_id user_id
    && (is_null row.cleared_at
        && (same_task row.status TaskStatus.success || same_task row.status TaskStatus.failed))

unfoldable pub clear_terminal_by_user : String → Exec ℕ
unfolding update_tasks is_terminal_of
clear_terminal_by_user user_id = statement λ now d. (
  ok (count_of (is_terminal_of user_id) d.tasks),
  update_tasks (is_terminal_of user_id) (λ row. record row { cleared_at = some now }) d,
)
