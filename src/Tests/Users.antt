-- ===== src/Tests/Users.antt =====
-- A retry and an upload that users ask for, with faults.
use enterprise_rag.Prelude.{none, some, refl, [], ◌∷◌}
use enterprise_rag.Status.{DocumentStatus, TaskType, TaskStatus}
use enterprise_rag.Store.{Db}
use enterprise_rag.Exec.{done, unheard, ok, World}
use enterprise_rag.Repository.Moves.{Progress, Progress-order}
use enterprise_rag.Users.{UserAction, act}
use enterprise_rag.Users.Requests.{Desk, DocumentRequest, request}
use enterprise_rag.Users.Foreign.{KeepsForeign, KeepsForeign-order, request-KeepsForeign}
use enterprise_rag.Users.Steps.{act-Progress}
use enterprise_rag.Users.Events.{act-Announced}
use enterprise_rag.Worker.Announced.{Announced, KeepsAnnounced-order}
use enterprise_rag.Tests.Samples.{empty_db, uploaded_document, parse_task, turn, world}

abbrev failed_db : Db
failed_db = record empty_db {
  documents = record uploaded_document { status = DocumentStatus.failed } ∷ [];
  tasks = record parse_task { status = TaskStatus.failed } ∷ [];
}

-- The reply to the commit is lost.
abbrev start : World
start = world failed_db (turn done ∷ turn done ∷ turn done ∷ turn done ∷ turn unheard ∷ [])

act-Progress_example :
    Progress failed_db (act (λ s. s) (UserAction.retry_task "task" "user") start).db
act-Progress_example =
    act-Progress (λ s. s) (UserAction.retry_task "task" "user") start
      (
        Progress-order.reflexive,
        (
          Progress-order.reflexive,
          (Progress-order.reflexive, (Progress-order.reflexive, (Progress-order.reflexive, tt))),
        ),
      )

-- The task that failed was announced.
abbrev announced_db : Db
announced_db = record failed_db {
  outbox =
      record {
        id = "event";
        task_id = "task";
        subject = TaskType.parse;
        payload = record { task_id = "task"; doc_id = "doc"; processing_mode = "standard" };
        attempts = 1;
        next_attempt_at = 90;
        locked_at = none;
        published_at = some 95;
        last_error = none;
      }
      ∷ [];
}

-- A second document is uploaded, and the reply to the commit is lost.
abbrev upload_start : World
upload_start =
    world announced_db (turn done ∷ turn done ∷ turn done ∷ turn done ∷ turn unheard ∷ [])

abbrev second_upload : UserAction
second_upload =
    UserAction.upload (record uploaded_document { id = "second" })
      (record parse_task { id = "second_task"; doc_id = "second" })

act-Announced_example : Announced (act (λ s. s) second_upload upload_start).db
act-Announced_example =
    act-Announced (λ s. s) second_upload upload_start
      (
        KeepsAnnounced-order.reflexive,
        (
          KeepsAnnounced-order.reflexive,
          (
            KeepsAnnounced-order.reflexive,
            (KeepsAnnounced-order.reflexive, (KeepsAnnounced-order.reflexive, tt)),
          ),
        ),
      )
      (refl, tt)

abbrev desk : Desk
desk = record {
  current_user = ok (record { id = "user"; tenant_id = "tenant" });
  new_task_id = "delete";
  new_sha1 = λ s. s;
  delete_by_doc_ids = λ user ids. ok tt;
}

-- Two failed documents, of which the second is another user's.
abbrev two_failed : Db
two_failed = record announced_db {
  documents =
      record uploaded_document { status = DocumentStatus.failed }
      ∷ record uploaded_document { id = "theirs"; user_id = "them"; status = DocumentStatus.failed }
      ∷ [];
}

abbrev asked_clear : World
asked_clear = world two_failed (turn done ∷ turn done ∷ turn done ∷ turn done ∷ turn unheard ∷ [])

request-KeepsForeign_example :
    KeepsForeign "user" two_failed (request desk DocumentRequest.clear_failed asked_clear).db
request-KeepsForeign_example =
    let same = (KeepsForeign-order "user").reflexive in
    request-KeepsForeign desk (record { id = "user"; tenant_id = "tenant" }) refl
      DocumentRequest.clear_failed asked_clear (same, (same, (same, (same, (same, tt)))))
