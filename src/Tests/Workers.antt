-- ===== src/Tests/Workers.antt =====
-- Deliveries of a task to parse a document, with faults.
use enterprise_rag.Prelude.{[], ◌∷◌, ◌≡◌, refl, true}
use enterprise_rag.Status.{TaskType}
use enterprise_rag.Store.{Db}
use enterprise_rag.Exec.{done, unheard, World}
use enterprise_rag.Repository.Outbox
use enterprise_rag.Worker.Run.{run}
use enterprise_rag.Repository.Moves.{Progress, Progress-order}
use enterprise_rag.Worker.Progress.{run-Progress}
use enterprise_rag.Worker.Announced.{has_event, Announced, KeepsAnnounced-order, run-Announced}
use enterprise_rag.Worker.Retries.{Bounded, Bounded-order, run-Bounded}
use enterprise_rag.Tests.Samples.{
  empty_db, uploaded_document, parse_task, turn, world, services, delivery,
}

abbrev announced_db : Db
announced_db = record empty_db {
  documents = uploaded_document ∷ [];
  tasks = parse_task ∷ [];
  outbox = Outbox.event_of (λ s. s) 1 parse_task ∷ [];
}

-- The connection is lost when the document is read.
abbrev start : World
start = world announced_db (turn done ∷ turn unheard ∷ turn done ∷ [])

run-Progress_example : Progress announced_db (run services TaskType.parse delivery start).1.db
run-Progress_example =
    run-Progress services TaskType.parse delivery start
      (Progress-order.reflexive, (Progress-order.reflexive, (Progress-order.reflexive, tt)))

run-Announced_example : Announced (run services TaskType.parse delivery start).1.db
run-Announced_example =
    run-Announced services TaskType.parse delivery start
      (
        KeepsAnnounced-order.reflexive,
        (KeepsAnnounced-order.reflexive, (KeepsAnnounced-order.reflexive, tt)),
      )
      (known, tt)
  where
    known : has_event announced_db.outbox "task" ≡ true
    known = unfold Outbox.event_of in refl

run-Bounded_example : Bounded announced_db (run services TaskType.parse delivery start).1.db
run-Bounded_example =
    run-Bounded services TaskType.parse delivery start
      (Bounded-order.reflexive, (Bounded-order.reflexive, (Bounded-order.reflexive, tt)))
