-- ===== src/Users/Steps.antt =====
-- What the requests of users do to documents and tasks, statement by statement.
use enterprise_rag.Prelude.{
  ℕ, String, Bool, true, false, Option, none, some, List, [], ◌∷◌, ◌++◌, All, ◌≡◌, refl, arith,
  any_of, str_eq, if◌then◌else◌,
}
use enterprise_rag.Status.{
  DocumentStatus, deleting, TaskStatus, same_task, document_previous_statuses,
  document_retry_previous_statuses,
}
use enterprise_rag.Status.Diagram
use enterprise_rag.Status.Diagram.{◌⟹◌, previous-⟶, retry_previous-⟶}
use enterprise_rag.Store.{Db, Document, IndexTask}
use enterprise_rag.Store.Evolution.{Evolves-append, Evolves-update}
use enterprise_rag.Exec.{Result, ok, err, World}
use enterprise_rag.Exec.Guards.{
  Rely, Guards, Guards-pure, Guards-raise, Guards-bind, Guards-statement, Guards-inside,
  Guards-transaction,
}
use enterprise_rag.Repository.Rows.{duplicate_key}
use enterprise_rag.Repository.Outbox
use enterprise_rag.Repository.Tasks
use enterprise_rag.Repository.Documents
use enterprise_rag.Repository.Moves.{
  DocumentMoves, TaskMoves, DocumentMoves-refl, TaskMoves-refl, Progress, Progress-order,
  live_moves, ended_moves, task_moves, with_documents, with_tasks, untouched,
}
use enterprise_rag.Users.{UserAction, act}

insert_task_progress :
    (task : IndexTask) (now : ℕ) (d : Db) → Progress d (Tasks.insert_task task now d).1
unfolding Tasks.insert_task
insert_task_progress task now d = go (any_of (λ row. str_eq row.id task.id) d.tasks)
  where
    go :
        (known : Bool)
        → let r : Result (Unit {0}) × Db =
            if known
            then (err duplicate_key, d)
            else (ok tt, record d { tasks = d.tasks ++ Tasks.stored task ∷ [] }) in
          Progress d r.1
    go true = Progress-order.reflexive d
    go false = with_tasks d _ (Evolves-append TaskMoves TaskMoves-refl d.tasks _)

insert_document_progress :
    (row : Document) (now : ℕ) (d : Db) → Progress d (Documents.insert_document row now d).1
unfolding Documents.insert_document
insert_document_progress row now d = go (any_of (λ old. str_eq old.id row.id) d.documents)
  where
    go :
        (known : Bool)
        → let r : Result (Unit {0}) × Db =
            if known
            then (err duplicate_key, d)
            else (ok tt, record d { documents = d.documents ++ Documents.stored row ∷ [] }) in
          Progress d r.1
    go true = Progress-order.reflexive d
    go false = with_documents d _ (Evolves-append DocumentMoves DocumentMoves-refl d.documents _)

Guards-announce :
    (f : String → String) (task : IndexTask) (reset : Bool)
    → Guards Progress Progress-order (Outbox.enqueue_outbox f task reset)
unfolding Outbox.enqueue_outbox Outbox.enqueue
Guards-announce f task reset = Guards-inside _ _ _ (λ now d. untouched _ _ refl refl)

pub Guards-upload :
    (f : String → String) (document : Document) (task : IndexTask)
    → Guards Progress Progress-order (Documents.create_with_index_task f document task)
unfolding Documents.create_with_index_task
Guards-upload f document task = Guards-transaction _ _ _ (
    Guards-bind _ _ (Guards-inside _ _ _ (insert_document_progress document)) (λ u.
      Guards-bind _ _ (Guards-inside _ _ _ (insert_task_progress task))
        (λ v. Guards-announce f task false)))

-- A document of the user that is marked for deletion.
start_delete_moves :
    (id user_id : String) (previous : List DocumentStatus) (x : Document)
    → document_previous_statuses deleting ≡ some previous
    → Documents.owned_with_status id user_id previous x ≡ true
    → DocumentMoves x (Documents.status_set deleting none x)
unfolding Documents.owned_with_status Documents.status_set
start_delete_moves id user_id previous x e h =
    live_moves id previous x _ (ground arith) (previous-⟶ _ deleting previous e) refl refl refl

Guards-delete :
    (f : String → String) (o : Option (List DocumentStatus)) (id user_id : String)
    (task : IndexTask)
    → ((previous : List DocumentStatus)
        → o ≡ some previous
        → document_previous_statuses deleting ≡ some previous)
    → Guards Progress Progress-order (Documents.delete_steps f o id user_id task)
unfolding Documents.delete_steps Documents.start_delete Documents.update_documents
Guards-delete f none id user_id task h = Guards-raise _
Guards-delete f (some previous) id user_id task h = Guards-transaction _ _ _ (
    Guards-bind _ _
      (Guards-inside _ _ _ (λ now d. with_documents d _ (
        Evolves-update DocumentMoves DocumentMoves-refl _ _
          (λ x k. start_delete_moves id user_id previous x (h previous refl) k) d.documents)))
      (λ u.
        Guards-bind _ _ (Guards-inside _ _ _ (insert_task_progress _))
          (λ v. Guards-announce f task false)))

pub Guards-request_delete :
    (f : String → String) (id user_id : String) (task : IndexTask)
    → Guards Progress Progress-order (Documents.create_delete_task f id user_id task)
unfolding Documents.create_delete_task
Guards-request_delete f id user_id task = Guards-delete f _ id user_id task (λ previous e. e)

revive_moves :
    (id user_id : String) (t : IndexTask)
    → Tasks.can_revive id user_id t ≡ true
    → TaskMoves t (Tasks.revived t)
unfolding Tasks.can_revive Tasks.revived same_task
revive_moves id user_id t h =
    task_moves t _ (from t.status (ground arith)) refl refl refl refl (omega arith)
  where
    from : (s : TaskStatus) → s ≡ TaskStatus.failed → s ⟹ TaskStatus.pending
    from TaskStatus.failed e = Diagram.◌⟹◌.revive
    from s e = absurd (ground arith)

reopen_moves :
    (doc_id user_id : String) (previous : List DocumentStatus) (s : DocumentStatus) (x : Document)
    → document_retry_previous_statuses s ≡ some previous
    → Tasks.can_reopen doc_id user_id previous x ≡ true
    → DocumentMoves x (Tasks.reopened s x)
unfolding Tasks.can_reopen Tasks.reopened Documents.live_with_status
reopen_moves doc_id user_id previous s x e h =
    live_moves doc_id previous x _ (ground arith) (retry_previous-⟶ _ s previous e) refl refl refl

Guards-reopen :
    (o : Option (List DocumentStatus)) (user_id : String) (task : IndexTask) (s : DocumentStatus)
    → ((previous : List DocumentStatus)
        → o ≡ some previous
        → document_retry_previous_statuses s ≡ some previous)
    → Guards Progress Progress-order (Tasks.reopen o user_id task s)
unfolding Tasks.reopen Tasks.reopen_document
Guards-reopen none user_id task s h = Guards-raise _
Guards-reopen (some previous) user_id task s h = Guards-inside _ _ _ (λ now d. with_documents d _ (
    Evolves-update DocumentMoves DocumentMoves-refl _ _
      (λ x k. reopen_moves task.doc_id user_id previous s x (h previous refl) k) d.documents))

pub Guards-retry :
    (f : String → String) (id user_id : String)
    → Guards Progress Progress-order (Tasks.retry f id user_id)
unfolding Tasks.retry Tasks.retry_steps Tasks.revive_task Tasks.update_tasks
Guards-retry f id user_id = Guards-transaction _ _ _ (
    Guards-bind _ _
      (Guards-inside _ _ _ (λ now d.
        with_tasks d _
          (Evolves-update TaskMoves TaskMoves-refl _ _ (revive_moves id user_id) d.tasks)))
      (λ task.
        Guards-bind _ _ (Guards-reopen _ user_id task _ (λ previous e. e))
          (λ u. Guards-bind _ _ (Guards-announce f task true) (λ v. Guards-pure _))))

-- A failed document of the user that is deleted.
clear_moves :
    (user_id : String) (now : ℕ) (x : Document)
    → Documents.active_failed user_id x ≡ true
    → DocumentMoves x (record x { deleted_at = some now })
unfolding Documents.active_failed
clear_moves user_id now x h = ended_moves now x (ground arith)

pub Guards-clear_failed :
    (user_id : String) → Guards Progress Progress-order (Documents.clear_failed_by_user user_id)
unfolding Documents.clear_failed_by_user Documents.chunks_of_failed Documents.delete_chunks
    Documents.documents_of_failed Documents.update_documents
Guards-clear_failed user_id = Guards-transaction _ _ _ (
    Guards-bind _ _ (Guards-inside _ _ _ (λ now d. untouched _ _ refl refl)) (λ u.
      Guards-inside _ _ _ (λ now d. with_documents d _ (
        Evolves-update DocumentMoves DocumentMoves-refl _ _ (clear_moves user_id now)
          d.documents))))

cleared_moves : (now : ℕ) (t : IndexTask) → TaskMoves t (record t { cleared_at = some now })
cleared_moves now t = record {
  same_id = refl;
  same_document = refl;
  same_tenant = refl;
  same_user = refl;
  path = Diagram.◌⟹*◌.here;
  retries_grow = omega arith;
}

Guards-clear_tasks :
    (user_id : String) → Guards Progress Progress-order (Tasks.clear_terminal_by_user user_id)
unfolding Tasks.clear_terminal_by_user Tasks.update_tasks
Guards-clear_tasks user_id = Guards-statement _ _ _ (λ now d.
    with_tasks d _
      (Evolves-update TaskMoves TaskMoves-refl _ _ (λ t h. cleared_moves now t) d.tasks))

-- Whatever fails when a user uploads or deletes a document, retries a task, or clears documents or
-- tasks, every document and task moves along its diagram and keeps its owner, a deleted document
-- does not change, and no row is lost, as long as the other processes keep to the same.
pub act-Progress :
    (new_sha1 : String → String) (a : UserAction) (w : World)
    → All (Rely Progress) w.turns
    → Progress w.db (act new_sha1 a w).db
act-Progress f (UserAction.upload document task) w h = ((Guards-upload f document task).at w h).0
act-Progress f (UserAction.request_delete id user_id task) w h =
    ((Guards-request_delete f id user_id task).at w h).0
act-Progress f (UserAction.retry_task id user_id) w h = ((Guards-retry f id user_id).at w h).0
act-Progress f (UserAction.clear_failed user_id) w h = ((Guards-clear_failed user_id).at w h).0
act-Progress f (UserAction.clear_tasks user_id) w h = ((Guards-clear_tasks user_id).at w h).0
