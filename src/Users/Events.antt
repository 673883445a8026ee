-- ===== src/Users/Events.antt =====
-- The events of the outbox when users upload and delete documents and retry tasks.
use enterprise_rag.Prelude.{
  ℕ, String, Bool, true, false, Option, none, some, List, [], ◌∷◌, ◌++◌, All, All-map, ◌≡◌, refl,
  ap, ◌∙◌, arith, any_of, str_eq, if◌then◌else◌, Bool-cases, inl, inr,
}
use enterprise_rag.Status.{DocumentStatus}
use enterprise_rag.Store.{Db, Document, IndexTask, TaskOutbox, update_rows}
use enterprise_rag.Exec.{Result, ok, err, World, inside, ◌>>◌}
use enterprise_rag.Exec.Guards.{
  Rely, Guards, Guards-pure, Guards-raise, Guards-bind, Guards-statement, Guards-inside,
  Guards-transaction,
}
use enterprise_rag.Exec.Atomic.{
  inside_ok, >>=_ok, LeavesTurns, LeavesTurns-inside, LeavesTurns-bind, Guards-whole,
}
use enterprise_rag.Repository.Rows.{duplicate_key}
use enterprise_rag.Repository.Outbox
use enterprise_rag.Repository.Tasks
use enterprise_rag.Repository.Documents
use enterprise_rag.Worker.Announced.{
  has_event, Announced, KeepsAnnounced, KeepsAnnounced-order, All-update, any_of-append,
  insert-Announced, event_inserted,
}
use enterprise_rag.Users.{UserAction, act}

has_event-update :
    (new : TaskOutbox) (test : TaskOutbox → Bool) (id : String) (rows : List TaskOutbox)
    → has_event (update_rows test (Outbox.reset_event new) rows) id ≡ has_event rows id
unfolding Outbox.reset_event
has_event-update new test id [] = refl
has_event-update new test id (x ∷ rows) = elim (Bool-cases (test x)) [
  | inl hit ↦
      rw hit (ap (λ r. if str_eq x.task_id id then true else r) (has_event-update new test id rows))
  | inr miss ↦
      rw miss
        (ap (λ r. if str_eq x.task_id id then true else r) (has_event-update new test id rows))
]

insert_event_grows :
    (reset : Bool) (new : TaskOutbox) (rows : List TaskOutbox) (id : String)
    → has_event rows id ≡ true
    → has_event (Outbox.insert_event reset new rows).1 id ≡ true
unfolding Outbox.insert_event
insert_event_grows reset new rows id h =
    elim (Bool-cases (any_of (λ row. str_eq row.task_id new.task_id) rows)) [
      | inl known ↦ rw known (choose reset)
      | inr fresh ↦ elim (Bool-cases (any_of (λ row. str_eq row.id new.id) rows)) [
        | inl taken ↦ rw (fresh, taken) h
        | inr free ↦ rw (fresh, free) (any_of-append id rows (new ∷ []) h)
      ]
    ]
  where
    choose :
        (b : Bool)
        → has_event
            (if b
              then update_rows (λ row. str_eq row.task_id new.task_id) (Outbox.reset_event new) rows
              else rows)
            id
          ≡ true
    choose true = has_event-update new _ id rows ∙ h
    choose false = h

enqueue_keeps :
    (f : String → String) (reset : Bool) (task : IndexTask) (now : ℕ) (d : Db)
    → KeepsAnnounced d (Outbox.enqueue f reset task now d).1
unfolding Outbox.enqueue
enqueue_keeps f reset task now d h =
    All-map _ _ (λ t. insert_event_grows reset _ d.outbox t.id) d.tasks h

Guards-announce_again :
    (f : String → String) (task : IndexTask) (reset : Bool)
    → Guards KeepsAnnounced KeepsAnnounced-order (Outbox.enqueue_outbox f task reset)
unfolding Outbox.enqueue_outbox
Guards-announce_again f task reset = Guards-inside _ _ _ (enqueue_keeps f reset task)

Guards-reopen_document :
    (o : Option (List DocumentStatus)) (user_id : String) (task : IndexTask) (s : DocumentStatus)
    → Guards KeepsAnnounced KeepsAnnounced-order (Tasks.reopen o user_id task s)
unfolding Tasks.reopen Tasks.reopen_document
Guards-reopen_document none user_id task s = Guards-raise _
Guards-reopen_document (some previous) user_id task s = Guards-inside _ _ _ (λ now d h. h)

Guards-retry_task :
    (f : String → String) (id user_id : String)
    → Guards KeepsAnnounced KeepsAnnounced-order (Tasks.retry f id user_id)
unfolding Tasks.retry Tasks.retry_steps Tasks.revive_task Tasks.update_tasks Tasks.revived
Guards-retry_task f id user_id = Guards-transaction _ _ _ (
    Guards-bind _ _
      (Guards-inside _ _ _
        (λ now d h. All-update _ (Tasks.can_revive id user_id) Tasks.revived (λ t k. k) d.tasks h))
      (λ task.
        Guards-bind _ _ (Guards-reopen_document _ user_id task _)
          (λ u. Guards-bind _ _ (Guards-announce_again f task true) (λ v. Guards-pure _))))

-- A task is inserted with its event, behind a statement that changes neither table.
row_added :
    (row : IndexTask) (now : ℕ) (d d' : Db) (u : Unit {0})
    → Tasks.insert_task row now d ≡ (ok u, d')
    → d' ≡ record d { tasks = d.tasks ++ Tasks.stored row ∷ [] }
unfolding Tasks.insert_task
row_added row now d d' u h = ground arith

both_added :
    (f : String → String) (now now' : ℕ) (row task : IndexTask) (d d' d'' : Db) (u v : Unit {0})
    → row.id ≡ task.id
    → Tasks.insert_task row now d ≡ (ok u, d')
    → Outbox.enqueue f false task now' d' ≡ (ok v, d'')
    → KeepsAnnounced d d''
both_added f now now' row task d d' d'' u v same_id added h a =
    let e = row_added row now d d' u added in
    let (same, own, grow) = event_inserted f now' task d' d'' h in
    let rows : d''.tasks ≡ d.tasks ++ Tasks.stored row ∷ [] = same ∙ ap (λ (x : Db). x.tasks) e in
    let own' : has_event d''.outbox row.id ≡ true = ap (has_event d''.outbox) same_id ∙ own in
    rw rows (insert-Announced d (Tasks.stored row) d''.outbox (λ id k. grow id (rw e k)) own' a)

chain_ok :
    (pre : ℕ → Db → Result (Unit {0}) × Db) (f : String → String) (row task : IndexTask) (w : World)
    (u : Unit {0})
    → ((now : ℕ) (d : Db) → KeepsAnnounced d (pre now d).1)
    → row.id ≡ task.id
    → ((inside pre >> (inside (Tasks.insert_task row) >> Outbox.enqueue_outbox f task false)) w).0
      ≡ ok u
    → KeepsAnnounced w.db
        ((inside pre >> (inside (Tasks.insert_task row) >> Outbox.enqueue_outbox f task false))
          w).1.db
unfolding Outbox.enqueue_outbox
chain_ok pre f row task w u keeps same_id h a =
    let rest = inside (Tasks.insert_task row) >> inside (Outbox.enqueue f false task) in
    let (p, first, second, e) = >>=_ok (inside pre) (λ _. rest) w u h in
    let (now, before) = inside_ok pre w p first in
    let w1 = (inside pre w).1 in
    let a1 : Announced w1.db =
      rw (← ap (λ (x : Result (Unit {0}) × Db). x.1) before) (keeps now w.db a) in
    let (b, third, fourth, e') =
      >>=_ok (inside (Tasks.insert_task row)) (λ _. inside (Outbox.enqueue f false task)) w1 u
        second in
    let (now', added) = inside_ok (Tasks.insert_task row) w1 b third in
    let (now'', sent) =
      inside_ok (Outbox.enqueue f false task) (inside (Tasks.insert_task row) w1).1 u fourth in
    rw e (rw e' (both_added f now' now'' row task w1.db _ _ b u same_id added sent a1))

chain_leaves :
    (pre : ℕ → Db → Result (Unit {0}) × Db) (f : String → String) (row task : IndexTask)
    → LeavesTurns
        (Rely KeepsAnnounced)
        (inside pre >> (inside (Tasks.insert_task row) >> Outbox.enqueue_outbox f task false))
unfolding Outbox.enqueue_outbox
chain_leaves pre f row task =
    LeavesTurns-bind _ _ _ (LeavesTurns-inside _ _)
      (λ u. LeavesTurns-bind _ _ _ (LeavesTurns-inside _ _) (λ v. LeavesTurns-inside _ _))

document_added :
    (row : Document) (now : ℕ) (d : Db) → KeepsAnnounced d (Documents.insert_document row now d).1
unfolding Documents.insert_document
document_added row now d = go (any_of (λ old. str_eq old.id row.id) d.documents)
  where
    go :
        (known : Bool)
        → let r : Result (Unit {0}) × Db =
            if known
            then (err duplicate_key, d)
            else (ok tt, record d { documents = d.documents ++ Documents.stored row ∷ [] }) in
          KeepsAnnounced d r.1
    go true h = h
    go false h = h

Guards-upload_document :
    (f : String → String) (document : Document) (task : IndexTask)
    → Guards KeepsAnnounced KeepsAnnounced-order (Documents.create_with_index_task f document task)
unfolding Documents.create_with_index_task
Guards-upload_document f document task =
    let pre = Documents.insert_document document in
    Guards-whole KeepsAnnounced KeepsAnnounced-order _ (chain_leaves pre f task task)
      (λ w u. chain_ok pre f task task w u (document_added document) refl)

Guards-delete_document :
    (f : String → String) (o : Option (List DocumentStatus)) (id user_id : String)
    (task : IndexTask)
    → Guards KeepsAnnounced KeepsAnnounced-order (Documents.delete_steps f o id user_id task)
unfolding Documents.delete_steps
Guards-delete_document f none id user_id task = Guards-raise _
Guards-delete_document f (some previous) id user_id task =
    let pre = Documents.start_delete id user_id previous in
    let row = Documents.stored_delete task in
    Guards-whole KeepsAnnounced KeepsAnnounced-order _ (chain_leaves pre f row task) (λ w u.
      chain_ok pre f row task w u
        (λ now d h. unfold Documents.start_delete Documents.update_documents in h) refl)

Guards-request_deletion :
    (f : String → String) (id user_id : String) (task : IndexTask)
    → Guards KeepsAnnounced KeepsAnnounced-order (Documents.create_delete_task f id user_id task)
unfolding Documents.create_delete_task
Guards-request_deletion f id user_id task = Guards-delete_document f _ id user_id task

Guards-clear_documents :
    (user_id : String)
    → Guards KeepsAnnounced KeepsAnnounced-order (Documents.clear_failed_by_user user_id)
unfolding Documents.clear_failed_by_user Documents.chunks_of_failed Documents.delete_chunks
    Documents.documents_of_failed Documents.update_documents
Guards-clear_documents user_id =
    Guards-transaction _ _ _ (
      Guards-bind _ _ (Guards-inside _ _ _ (λ now d h. h))
        (λ u. Guards-inside _ _ _ (λ now d h. h)))

Guards-clear_terminal :
    (user_id : String)
    → Guards KeepsAnnounced KeepsAnnounced-order (Tasks.clear_terminal_by_user user_id)
unfolding Tasks.clear_terminal_by_user Tasks.update_tasks
Guards-clear_terminal user_id = Guards-statement _ _ _ (λ now d h.
    All-update _ (Tasks.is_terminal_of user_id) (λ row. record row { cleared_at = some now })
      (λ t k. k) d.tasks h)

-- If every task has an event in the outbox before a user uploads or deletes a document, retries a
-- task, or clears documents or tasks, every task has one after it, whatever fails, as long as the
-- other processes keep this.
pub act-Announced :
    (new_sha1 : String → String) (a : UserAction) (w : World)
    → All (Rely KeepsAnnounced) w.turns
    → Announced w.db
    → Announced (act new_sha1 a w).db
act-Announced f (UserAction.upload document task) w h =
    ((Guards-upload_document f document task).at w h).0
act-Announced f (UserAction.request_delete id user_id task) w h =
    ((Guards-request_deletion f id user_id task).at w h).0
act-Announced f (UserAction.retry_task id user_id) w h = ((Guards-retry_task f id user_id).at w h).0
act-Announced f (UserAction.clear_failed user_id) w h = ((Guards-clear_documents user_id).at w h).0
act-Announced f (UserAction.clear_tasks user_id) w h = ((Guards-clear_terminal user_id).at w h).0
