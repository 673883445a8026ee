-- ===== src/Worker/Duplicates.antt =====
-- A message that is delivered again after its task has ended.
use enterprise_rag.Prelude.{
  ℕ, String, true, false, some, List, [], ◌∷◌, ◌++◌, All, ◌≡◌, append-nil, refl, arith, str_eq,
  find_first,
}
use enterprise_rag.Status.{TaskType, same_task}
use enterprise_rag.Store.{IndexTask, Message}
use enterprise_rag.Store.Lookup.{count_of-none, update_rows-none, find_first-All}
use enterprise_rag.Exec.{
  Result, ok, err, World, quiet, Settlement, ack, ◌>>◌, pure, attempt, ◌>>=◌, statement,
}
use enterprise_rag.Repository.Tasks
use enterprise_rag.Worker.Services.{Services, settle_if, ack_message}
use enterprise_rag.Worker.Run.{duplicate, run, process, after_claim, after_existing, is_over}

-- The rows of the task with the id, of which there is one at least, have ended.
pub record IsEnded (id : String) (rows : List IndexTask) : Type 0 where
  pub row : IndexTask
  pub found : find_first (λ t. str_eq t.id id) rows ≡ some row
  pub all_over : All (λ t. str_eq t.id id ≡ true → is_over t.status ≡ true) rows

not_claimable :
    (id : String) (now : ℕ) (rows : List IndexTask)
    → All (λ t. str_eq t.id id ≡ true → is_over t.status ≡ true) rows
    → All (λ t. Tasks.can_claim id now t ≡ false) rows
unfolding Tasks.can_claim same_task
not_claimable id now [] h = tt
not_claimable id now (t ∷ rows) h = (one, not_claimable id now rows h.1)
  where
    one : Tasks.can_claim id now t ≡ false
    one = grind (arith, h)

-- Nothing is claimed.
claim-quiet :
    (id : String) (lease : ℕ) (w : World)
    → All (λ t. str_eq t.id id ≡ true → is_over t.status ≡ true) w.db.tasks
    → Tasks.claim id lease (quiet w) ≡ (ok false, quiet w)
unfolding Tasks.claim Tasks.update_tasks statement
claim-quiet id lease w h =
    let none_open = not_claimable id w.now w.db.tasks h in
    rw
      (
        count_of-none _ w.db.tasks none_open,
        update_rows-none _ (Tasks.claimed lease w.now) w.db.tasks none_open,
      )
      refl

get-quiet :
    (id : String) (t : IndexTask) (w : World)
    → find_first (λ row. str_eq row.id id) w.db.tasks ≡ some t
    → Tasks.get_by_id id (quiet w) ≡ (ok t, quiet w)
unfolding Tasks.get_by_id statement
get-quiet id t w h = rw h refl

-- What JetStream hears, if its reply to the acknowledgement arrives.
abbrev pub acks : Result (Unit {0}) → List Settlement
acks (ok u) = ack ∷ []
acks (err e) = []

after_ended :
    (svc : Services) (t : IndexTask) (w : World)
    → is_over t.status ≡ true
    → after_existing svc (ok t) w
      ≡ (ok duplicate, record w { settlements = w.settlements ++ acks svc.ack_sync })
unfolding after_existing attempt pure ◌>>=◌ ack_message
after_ended svc t w h = rw h (answer svc.ack_sync)
  where
    answer :
        (r : Result (Unit {0}))
        → (attempt (settle_if r ack) >> pure duplicate) w
          ≡ (ok duplicate, record w { settlements = w.settlements ++ acks r })
    answer (ok u) = refl
    answer (err e) = rw (append-nil w.settlements) refl

after_claim-ended :
    (svc : Services) (type : TaskType) (m : Message) (t : IndexTask) (w : World)
    → find_first (λ row. str_eq row.id m.task_id) w.db.tasks ≡ some t
    → is_over t.status ≡ true
    → after_claim svc type m (ok false) (quiet w)
      ≡ (ok duplicate, record (quiet w) { settlements = w.settlements ++ acks svc.ack_sync })
unfolding after_claim attempt ◌>>=◌
after_claim-ended svc type m t w e h =
    rw (get-quiet m.task_id t w e) (after_ended svc t (quiet w) h)

-- A message whose task has ended, by success or by failure, is acknowledged as a duplicate when it
-- is delivered again and nothing fails: the tables and the dead letters stay as they are.
pub run-duplicate :
    (svc : Services) (type : TaskType) (m : Message) (w : World)
    → str_eq m.task_id "" ≡ false
    → str_eq m.doc_id "" ≡ false
    → IsEnded m.task_id w.db.tasks
    → run svc type (ok m) (quiet w)
      ≡ (ok duplicate, record (quiet w) { settlements = w.settlements ++ acks svc.ack_sync })
unfolding run process attempt ◌>>=◌
run-duplicate svc type m w task doc ended =
    let over =
      find_first-All _ (λ t. is_over t.status ≡ true) w.db.tasks ended.row ended.all_over
        ended.found in
    rw (task, doc, claim-quiet m.task_id svc.task_timeout_seconds w ended.all_over)
      (after_claim-ended svc type m ended.row w ended.found over)
