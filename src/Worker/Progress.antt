-- ===== src/Worker/Progress.antt =====
-- How documents and tasks may change while a delivery is processed: along the diagrams.
use enterprise_rag.Prelude.{
  ℕ, String, Bool, true, false, some, List, [], ◌∷◌, ◌++◌, ◌≡◌, refl, All, any_of, str_eq, inl, inr,
  arith, if◌then◌else◌,
}
use enterprise_rag.Status.{
  DocumentStatus, parsing, TaskType, document_previous_statuses, document_any,
}
use enterprise_rag.Status.Diagram.{◌⟶◌, previous-⟶, retry_previous-⟶}
use enterprise_rag.Store.{Db, IndexTask, Message}
use enterprise_rag.Store.Evolution.{Evolves-append, Evolves-update}
use enterprise_rag.Exec.{Result, ok, World}
use enterprise_rag.Exec.Guards.{
  Guards, Guards-pure, Guards-bind, Guards-inside, Guards-transaction, Rely,
}
use enterprise_rag.Repository.Moves.{
  DocumentMoves, TaskMoves, DocumentMoves-refl, TaskMoves-refl, Progress, Progress-order,
  live_moves, deleted_moves, task_moves, status_edge, claim_edge, requeue_edge, with_documents,
  with_tasks, untouched,
}
use enterprise_rag.Repository.Outbox
use enterprise_rag.Repository.Tasks
use enterprise_rag.Repository.Documents
use enterprise_rag.Worker.Retry.{max_automatic_retries}
use enterprise_rag.Worker.Services.{Services}
use enterprise_rag.Worker.Run.{run}
use enterprise_rag.Worker.Conduct.{Guards-run}
use enterprise_rag.Worker.Steps.{IsPrevious, Steps, Conduct-Steps}

edge_of :
    (s next : DocumentStatus) (previous : List DocumentStatus)
    → IsPrevious next previous
    → document_any s previous ≡ true
    → s ⟶ next
edge_of s next previous (inl e) = previous-⟶ s next previous e
edge_of s next previous (inr e) = retry_previous-⟶ s next previous e

insert_progress : (task : IndexTask) (now : ℕ) (d : Db) → Progress d (Tasks.insert_new task now d).1
unfolding Tasks.insert_new
insert_progress task now d = go (any_of (λ row. str_eq row.id task.id) d.tasks)
  where
    go :
        (known : Bool)
        → let r : Result Bool × Db =
            if known
            then (ok false, d)
            else (ok true, record d { tasks = d.tasks ++ Tasks.stored task ∷ [] }) in
          Progress d r.1
    go true = Progress-order.reflexive d
    go false = with_tasks d _ (Evolves-append TaskMoves TaskMoves-refl d.tasks _)

Guards-create :
    (new_sha1 : String → String) (task : IndexTask)
    → Guards Progress Progress-order (Tasks.create new_sha1 task)
unfolding Tasks.create Outbox.enqueue_outbox
Guards-create new_sha1 task =
    Guards-transaction Progress Progress-order _
      (Guards-bind _ _ (Guards-inside Progress Progress-order _ (insert_progress task)) announce)
  where
    announce : (b : Bool) → Guards Progress Progress-order (Tasks.announce_if new_sha1 task b)
    announce true =
        unfold Tasks.announce_if in
        Guards-inside Progress Progress-order _
          (λ now d. unfold Outbox.enqueue in untouched _ _ refl refl)
    announce false = unfold Tasks.announce_if in Guards-pure _

pub Progress-Steps : Steps Progress Progress-order
unfolding Documents.update_documents Documents.status_set Documents.parse_completed
    Tasks.update_tasks Tasks.status_set Tasks.claimed Tasks.rescheduled
Progress-Steps = record {
  status = λ id previous next message d e. with_documents d _ (
      Evolves-update DocumentMoves DocumentMoves-refl _ _
        (λ x h. live_moves id previous x _ h (edge_of _ next previous e) refl refl refl)
        d.documents);
  parsed = λ id t m d. with_documents d _ (
      Evolves-update DocumentMoves DocumentMoves-refl _ _
        (λ x h.
          live_moves id _ x _ h (previous-⟶ _ DocumentStatus.parsed _ parsing_before) refl refl
            refl)
        d.documents);
  deleted = λ id now d.
      with_documents d _
        (Evolves-update DocumentMoves DocumentMoves-refl _ _ (deleted_moves id _ now) d.documents);
  logs = λ d ls. untouched _ _ refl refl;
  chunks = λ d cs. untouched _ _ refl refl;
  task_status = λ id previous next message d e. with_tasks d _ (
      Evolves-update TaskMoves TaskMoves-refl _ _
        (λ x h.
          task_moves x _ (status_edge id previous next x e h) refl refl refl refl (omega arith))
        d.tasks);
  claimed = λ id lease now d. with_tasks d _ (
      Evolves-update TaskMoves TaskMoves-refl _ _
        (λ x h. task_moves x _ (claim_edge id now x h) refl refl refl refl (omega arith)) d.tasks);
  rescheduled = λ id d. with_tasks d _ (
      Evolves-update TaskMoves TaskMoves-refl (Tasks.can_reschedule id max_automatic_retries)
        Tasks.rescheduled
        (λ x h.
          task_moves x (Tasks.rescheduled x) (requeue_edge id _ x h) refl refl refl refl
            (omega arith))
        d.tasks);
  create = Guards-create;
}
  where
    parsing_before : document_previous_statuses DocumentStatus.parsed ≡ some (parsing ∷ [])
    parsing_before = unfold document_previous_statuses in refl

-- Whatever fails in a delivery and whatever the other processes do, so long as they too keep to
-- the diagrams, every document and every task moves along its diagram and keeps its owner, a
-- deleted document does not change, and no row is lost.
pub run-Progress :
    (svc : Services) (t : TaskType) (r : Result Message) (w : World)
    → All (Rely Progress) w.turns
    → Progress w.db (run svc t r w).1.db
run-Progress svc t r w h = ((Guards-run (Conduct-Steps Progress-Steps) svc t r).at w h).0
