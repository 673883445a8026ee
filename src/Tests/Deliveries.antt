-- ===== src/Tests/Deliveries.antt =====
-- A message that is delivered again, and a deletion whose vectors are still there.
use enterprise_rag.Prelude.{[], ◌∷◌, ◌++◌, ◌≡◌, true, refl, inl}
use enterprise_rag.Status.{DocumentStatus, TaskType, TaskStatus, same_task}
use enterprise_rag.Store.{Db, IndexTask, Message}
use enterprise_rag.Exec.{ok, done, unheard, World, quiet}
use enterprise_rag.Worker.Services.{Services}
use enterprise_rag.Worker.Handlers.{handle}
use enterprise_rag.Worker.Run.{run, duplicate, is_over}
use enterprise_rag.Worker.Duplicates.{acks, run-duplicate}
use enterprise_rag.Worker.Deletion.{KeepsLive, KeepsLive-order, delete_document-KeepsLive}
use enterprise_rag.Tests.Indexing.{chunk}
use enterprise_rag.Tests.Samples.{empty_db, uploaded_document, parse_task, turn, world, services}

abbrev message : Message
message = record { task_id = "task"; doc_id = "doc"; processing_mode = "standard" }

abbrev failed_task : IndexTask
failed_task = record parse_task { status = TaskStatus.failed }

abbrev ended : World
ended = world (record empty_db { tasks = failed_task ∷ [] }) []

failed_over : is_over TaskStatus.failed ≡ true
unfolding same_task
failed_over = refl

run-duplicate_example :
    run services TaskType.parse (ok message) (quiet ended)
    ≡ (ok duplicate, record (quiet ended) { settlements = [] ++ acks services.ack_sync })
run-duplicate_example =
    run-duplicate services TaskType.parse message ended refl refl
      (record { row = failed_task; found = refl; all_over = (λ h. failed_over, tt) })

abbrev deleting_db : Db
deleting_db = record empty_db {
  documents = record uploaded_document { status = DocumentStatus.deleting } ∷ [];
  chunks = chunk ∷ [];
}

abbrev vectors_left : Services
vectors_left = record services { has_doc_vectors = λ user id. ok true }

abbrev start : World
start = world deleting_db (turn done ∷ turn unheard ∷ [])

delete_document-KeepsLive_example :
    KeepsLive deleting_db (handle TaskType.delete vectors_left message start).1.db
delete_document-KeepsLive_example =
    delete_document-KeepsLive vectors_left message start (inl (λ user e. cc e))
      (KeepsLive-order.reflexive, (KeepsLive-order.reflexive, tt))
