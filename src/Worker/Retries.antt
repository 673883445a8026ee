-- ===== src/Worker/Retries.antt =====
-- The bound on automatic retries.
use Prim.Native.Nat.{max}
use enterprise_rag.Prelude.{
  ℕ, ◌≤◌, ◌<◌, String, Bool, true, [], ◌∷◌, ◌++◌, All, ◌≡◌, arith, any_of, str_eq, false,
  if◌then◌else◌,
}
use enterprise_rag.Store.{Db, IndexTask, Message}
use enterprise_rag.Store.Evolution.{
  Evolves, Evolves-refl, Evolves-append, Evolves-update, Evolves-trans,
}
use enterprise_rag.Status.{TaskType}
use enterprise_rag.Exec.{Result, ok, World}
use enterprise_rag.Exec.Guards.{
  IsPreorder, Guards, Guards-pure, Guards-bind, Guards-inside, Guards-transaction, Rely,
}
use enterprise_rag.Repository.Outbox
use enterprise_rag.Repository.Tasks
use enterprise_rag.Repository.Documents
use enterprise_rag.Worker.Services.{Services}
use enterprise_rag.Worker.Retry.{max_automatic_retries}
use enterprise_rag.Worker.Run.{run}
use enterprise_rag.Worker.Conduct.{Guards-run}
use enterprise_rag.Worker.Steps.{Steps, Conduct-Steps}

-- A task is retried at most to the limit; one that a user has retried further stays where it is.
-- A retry that a user asks for, `Tasks.retry`, does not keep to it.
abbrev pub RetriesBounded : IndexTask → IndexTask → Type 0
RetriesBounded t t' = t'.retry_count ≤ max t.retry_count max_automatic_retries

abbrev pub Bounded : Db → Db → Type 0
Bounded d d' = Evolves RetriesBounded d.tasks d'.tasks

RetriesBounded-refl : (t : IndexTask) → RetriesBounded t t
RetriesBounded-refl t = omega arith

pub Bounded-order : IsPreorder Bounded
Bounded-order = record {
  reflexive = λ d. Evolves-refl RetriesBounded RetriesBounded-refl d.tasks;
  transitive = λ a b c p q.
      Evolves-trans RetriesBounded (λ x y z g h. omega arith) a.tasks b.tasks c.tasks p q;
}

reschedule_bounded :
    (id : String) (t : IndexTask)
    → Tasks.can_reschedule id max_automatic_retries t ≡ true
    → RetriesBounded t (Tasks.rescheduled t)
unfolding Tasks.can_reschedule Tasks.rescheduled
reschedule_bounded id t h = omega (arith, below)
  where
    below : t.retry_count < max_automatic_retries
    below = ground arith

insert_bounded : (task : IndexTask) (now : ℕ) (d : Db) → Bounded d (Tasks.insert_new task now d).1
unfolding Tasks.insert_new
insert_bounded task now d = go (any_of (λ row. str_eq row.id task.id) d.tasks)
  where
    go :
        (known : Bool)
        → let r : Result Bool × Db =
            if known
            then (ok false, d)
            else (ok true, record d { tasks = d.tasks ++ Tasks.stored task ∷ [] }) in
          Bounded d r.1
    go true = Bounded-order.reflexive d
    go false = Evolves-append RetriesBounded RetriesBounded-refl d.tasks _

Guards-create :
    (f : String → String) (task : IndexTask) → Guards Bounded Bounded-order (Tasks.create f task)
unfolding Tasks.create Outbox.enqueue_outbox
Guards-create f task =
    Guards-transaction Bounded Bounded-order _
      (Guards-bind _ _ (Guards-inside Bounded Bounded-order _ (insert_bounded task)) announce)
  where
    announce : (b : Bool) → Guards Bounded Bounded-order (Tasks.announce_if f task b)
    announce true =
        unfold Tasks.announce_if in
        Guards-inside Bounded Bounded-order _
          (λ now d. unfold Outbox.enqueue in Bounded-order.reflexive d)
    announce false = unfold Tasks.announce_if in Guards-pure _

pub Bounded-Steps : Steps Bounded Bounded-order
unfolding Documents.update_documents Tasks.update_tasks Tasks.status_set Tasks.claimed
Bounded-Steps = record {
  status = λ id previous next message d e. Bounded-order.reflexive d;
  parsed = λ id t m d. Bounded-order.reflexive d;
  deleted = λ id now d. Bounded-order.reflexive d;
  logs = λ d ls. Bounded-order.reflexive d;
  chunks = λ d cs. Bounded-order.reflexive d;
  task_status = λ id previous next message d e.
      Evolves-update RetriesBounded RetriesBounded-refl (Tasks.has_status_in id previous)
        (Tasks.status_set next message) (λ t h. RetriesBounded-refl t) d.tasks;
  claimed = λ id lease now d.
      Evolves-update RetriesBounded RetriesBounded-refl (Tasks.can_claim id now)
        (Tasks.claimed lease now) (λ t h. RetriesBounded-refl t) d.tasks;
  rescheduled = λ id d.
      Evolves-update RetriesBounded RetriesBounded-refl
        (Tasks.can_reschedule id max_automatic_retries) Tasks.rescheduled (reschedule_bounded id)
        d.tasks;
  create = Guards-create;
}

-- Whatever fails in a delivery, no task's number of retries passes the limit of three, or what it
-- was before if that is more, as long as the other processes keep to this bound.
pub run-Bounded :
    (svc : Services) (t : TaskType) (r : Result Message) (w : World)
    → All (Rely Bounded) w.turns
    → Bounded w.db (run svc t r w).1.db
run-Bounded svc t r w h = ((Guards-run (Conduct-Steps Bounded-Steps) svc t r).at w h).0
