-- ===== src/Worker/Run.antt =====
-- `Manager.run` of api/internal/worker/manager.go: one delivery of a message to a worker.
--
-- `status` is what the metrics are told; spans and durations are left out. A message whose JSON
-- does not decode is `none`.
use enterprise_rag.Prelude.{ℕ, String, Bool, true, false, ◌||◌, [], codes, str_eq, if◌then◌else◌}
use enterprise_rag.Status.{TaskType, TaskStatus, same_task}
use enterprise_rag.Store.{IndexTask, Message}
use enterprise_rag.Exec.{
  Error, other, Result, ok, err, Exec, term, nak, DeadLetter, pure, attempt, ◌>>=◌, ◌>>◌,
}
use enterprise_rag.Repository.Tasks
use enterprise_rag.Worker.Services.{Services, settle, ack_message, bury}
use enterprise_rag.Worker.Retry.{schedule_retry, persist_failure, automatic_retry_delay}
use enterprise_rag.Worker.Handlers.{handle}

pub data WorkerStatus : Type 0 where
  error invalid retry duplicate success : WorkerStatus

unfoldable pub nak_later : ℕ → Exec WorkerStatus
nak_later delay = settle (nak delay) >> pure retry

unfoldable pub letter : TaskType → String → Error → DeadLetter
letter type id e = record { task_type = type; task_id = id; reason = e }

unfoldable pub after_invalid : Result (Unit {0}) → Exec WorkerStatus
after_invalid (ok u) = settle term >> pure invalid
after_invalid (err e) = settle (nak automatic_retry_delay) >> pure invalid

unfoldable pub reject : Services → TaskType → String → Error → Exec WorkerStatus
reject svc type id e = attempt (bury svc (letter type id e)) >>= after_invalid

abbrev pub is_over : TaskStatus → Bool
is_over s = same_task s TaskStatus.success || same_task s TaskStatus.failed

unfoldable pub after_existing : Services → Result IndexTask → Exec WorkerStatus
after_existing svc (ok existing) =
    if is_over existing.status
    then attempt (ack_message svc) >> pure duplicate
    else nak_later svc.task_timeout_seconds
after_existing svc (err e) = nak_later svc.task_timeout_seconds

unfoldable pub after_bury : Services → Result (Unit {0}) → Exec WorkerStatus
after_bury svc (ok u) = attempt (ack_message svc) >> pure error
after_bury svc (err e) = nak_later automatic_retry_delay

unfoldable pub after_persist :
    Services → TaskType → Message → Error → Result (Unit {0}) → Exec WorkerStatus
after_persist svc type message e (ok u) =
    attempt (bury svc (letter type message.task_id e)) >>= after_bury svc
after_persist svc type message e (err e') = nak_later automatic_retry_delay

unfoldable pub give_up : Services → TaskType → Message → Error → Exec WorkerStatus
give_up svc type message e =
    attempt (persist_failure type message e) >>= after_persist svc type message e

unfoldable pub after_failure : Services → TaskType → Message → Error → Bool → Exec WorkerStatus
after_failure svc type message e true = nak_later automatic_retry_delay
after_failure svc type message e false = give_up svc type message e

unfoldable pub after_ack : Result (Unit {0}) → Exec WorkerStatus
after_ack (ok u) = pure success
after_ack (err e) = pure error

unfoldable pub after_update : Services → Result (Unit {0}) → Exec WorkerStatus
after_update svc (ok u) = attempt (ack_message svc) >>= after_ack
after_update svc (err e) = nak_later automatic_retry_delay

unfoldable pub after_handler : Services → TaskType → Message → Result (Unit {0}) → Exec WorkerStatus
after_handler svc type message (err e) =
    schedule_retry svc type message e >>= after_failure svc type message e
after_handler svc type message (ok u) =
    attempt (Tasks.update_status message.task_id TaskStatus.success []) >>= after_update svc

unfoldable pub after_claim : Services → TaskType → Message → Result Bool → Exec WorkerStatus
after_claim svc type message (err e) = nak_later automatic_retry_delay
after_claim svc type message (ok false) =
    attempt (Tasks.get_by_id message.task_id) >>= after_existing svc
after_claim svc type message (ok true) =
    attempt (handle type svc message) >>= after_handler svc type message

unfoldable pub process : Services → TaskType → Message → Exec WorkerStatus
process svc type message =
    if str_eq message.task_id "" || str_eq message.doc_id ""
    then reject svc type message.task_id (other (codes "task_id and doc_id are required"))
    else attempt (Tasks.claim message.task_id svc.task_timeout_seconds)
      >>= after_claim svc type message

-- A delivery. `none` is a payload that does not decode, with the error of the decoder.
unfoldable pub run : Services → TaskType → Result Message → Exec WorkerStatus
run svc type (ok message) = process svc type message
run svc type (err e) = reject svc type "" e
