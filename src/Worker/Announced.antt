-- ===== src/Worker/Announced.antt =====
-- The events of the outbox that announce tasks, in a delivery.
use enterprise_rag.Prelude.{
  ℕ, String, Bool, true, false, List, [], ◌∷◌, ◌++◌, All, ◌≡◌, refl, sym, ap, ◌∙◌, ◌⊎◌, arith,
  any_of, str_eq, str_eq_iff, if◌then◌else◌, inl, inr, All-append, All-map,
}
use enterprise_rag.Store.{Db, IndexTask, TaskOutbox, Message, update_rows}
use enterprise_rag.Status.{TaskType}
use enterprise_rag.Exec.{Result, ok, World, pure, inside, ◌>>=◌}
use enterprise_rag.Exec.Guards.{IsPreorder, Rely}
use enterprise_rag.Worker.Retry.{max_automatic_retries}
use enterprise_rag.Exec.Atomic.{
  LeavesTurns, LeavesTurns-inside, LeavesTurns-pure, LeavesTurns-bind, inside_ok, >>=_ok,
  Guards-whole,
}
use enterprise_rag.Repository.Outbox
use enterprise_rag.Repository.Tasks
use enterprise_rag.Repository.Documents
use enterprise_rag.Worker.Services.{Services}
use enterprise_rag.Worker.Run.{run}
use enterprise_rag.Worker.Conduct.{Guards-run}
use enterprise_rag.Worker.Steps.{Steps, Conduct-Steps}

abbrev pub has_event : List TaskOutbox → String → Bool
has_event rows id = any_of (λ row. str_eq row.task_id id) rows

-- Each task has an event that names it.
abbrev pub Announced : Db → Type 0
Announced d = All (λ t. has_event d.outbox t.id ≡ true) d.tasks

-- An update that leaves the ids alone.
pub All-update :
    (P : IndexTask → Type 0) (test : IndexTask → Bool) (set : IndexTask → IndexTask)
    → ((t : IndexTask) → P t → P (set t))
    → (rows : List IndexTask) → All P rows
    → All P (update_rows test set rows)
All-update P test set keep [] h = tt
All-update P test set keep (t ∷ rows) h = (choose (test t), All-update P test set keep rows h.1)
  where
    choose : (b : Bool) → P (if b then set t else t)
    choose true = keep t h.0
    choose false = h.0

pub any_of-append :
    (id : String) (xs ys : List TaskOutbox)
    → has_event xs id ≡ true
    → has_event (xs ++ ys) id ≡ true
any_of-append id [] ys h = cc
any_of-append id (x ∷ xs) ys h = ground (arith, any_of-append id xs ys)

any_of-append_last :
    (id : String) (xs : List TaskOutbox) (y : TaskOutbox)
    → str_eq y.task_id id ≡ true
    → has_event (xs ++ y ∷ []) id ≡ true
any_of-append_last id [] y h = ground arith
any_of-append_last id (x ∷ xs) y h = ground (arith, any_of-append_last id xs y h)

-- A task that is inserted with its event.
pub insert-Announced :
    (d : Db) (task : IndexTask) (rows : List TaskOutbox)
    → ((id : String) → has_event d.outbox id ≡ true → has_event rows id ≡ true)
    → has_event rows task.id ≡ true
    → Announced d
    → All (λ t. has_event rows t.id ≡ true) (d.tasks ++ task ∷ [])
insert-Announced d task rows grow own h =
    All-append _ d.tasks (task ∷ []) (weaken d.tasks h) (own, tt)
  where
    weaken :
        (ts : List IndexTask)
        → All (λ t. has_event d.outbox t.id ≡ true) ts
        → All (λ t. has_event rows t.id ≡ true) ts
    weaken = All-map _ _ (λ t. grow t.id)

inserted_cases :
    (new : TaskOutbox) (rows : List TaskOutbox)
    → (Outbox.insert_event false new rows).0 ≡ ok tt
    → ((has_event rows new.task_id ≡ true) × ((Outbox.insert_event false new rows).1 ≡ rows))
      ⊎ ((Outbox.insert_event false new rows).1 ≡ rows ++ new ∷ [])
unfolding Outbox.insert_event
inserted_cases new rows h = ground arith

inserted :
    (new : TaskOutbox) (rows rows' : List TaskOutbox)
    → ((has_event rows new.task_id ≡ true) × (rows' ≡ rows)) ⊎ (rows' ≡ rows ++ new ∷ [])
    → (has_event rows' new.task_id ≡ true)
      × ((id : String) → has_event rows id ≡ true → has_event rows' id ≡ true)
inserted new rows rows' (inl (known, e)) = (rw e known, λ id h. rw e h)
inserted new rows rows' (inr e) = (
  rw e (any_of-append_last new.task_id rows new ((str_eq_iff _ _).1 refl)),
  λ id h. rw e (any_of-append id rows _ h),
)

-- What `enqueue` leaves when it reports no error: the task has an event, no event is lost, and the
-- tasks are as before.
pub event_inserted :
    (f : String → String) (now : ℕ) (task : IndexTask) (d d' : Db)
    → Outbox.enqueue f false task now d ≡ (ok tt, d')
    → (d'.tasks ≡ d.tasks)
      × (has_event d'.outbox task.id ≡ true)
      × ((id : String) → has_event d.outbox id ≡ true → has_event d'.outbox id ≡ true)
unfolding Outbox.enqueue Outbox.event_of
event_inserted f now task d d' h =
    let new = Outbox.event_of f now task in
    let at : (Outbox.insert_event false new d.outbox).0 ≡ ok tt = λ i. (h i).0 in
    let rows : (Outbox.insert_event false new d.outbox).1 ≡ d'.outbox = λ i. (h i).1.outbox in
    let (own, grow) = inserted new d.outbox _ (inserted_cases new d.outbox at) in
    (λ i. (sym h i).1.tasks, rw (← rows) own, λ id e. rw (← rows) (grow id e))

-- A task that was known already changes nothing; a new one is appended.
row_inserted :
    (task : IndexTask) (now : ℕ) (d d' : Db) (b : Bool)
    → Tasks.insert_new task now d ≡ (ok b, d')
    → ((b ≡ false) × (d' ≡ d))
      ⊎ ((b ≡ true) × (d' ≡ record d { tasks = d.tasks ++ Tasks.stored task ∷ [] }))
unfolding Tasks.insert_new
row_inserted task now d d' b h = ground arith

-- The other tables do not count.
abbrev pub KeepsAnnounced : Db → Db → Type 0
KeepsAnnounced d d' = Announced d → Announced d'

pub KeepsAnnounced-order : IsPreorder KeepsAnnounced
KeepsAnnounced-order = record { reflexive = λ d h. h; transitive = λ a b c f g h. g (f h) }

both_inserted :
    (f : String → String) (now : ℕ) (task : IndexTask) (d d' d'' : Db)
    → d' ≡ record d { tasks = d.tasks ++ Tasks.stored task ∷ [] }
    → Outbox.enqueue f false task now d' ≡ (ok tt, d'')
    → KeepsAnnounced d d''
both_inserted f now task d d' d'' e h a =
    let (same, own, grow) = event_inserted f now task d' d'' h in
    let rows : d''.tasks ≡ d.tasks ++ Tasks.stored task ∷ [] = same ∙ ap (λ (x : Db). x.tasks) e in
    rw rows (insert-Announced d (Tasks.stored task) d''.outbox (λ id k. grow id (rw e k)) own a)

announce_ok :
    (f : String → String) (task : IndexTask) (b : Bool) (d : Db) (w : World) (u : Unit {0})
    → ((b ≡ false) × (w.db ≡ d))
      ⊎ ((b ≡ true) × (w.db ≡ record d { tasks = d.tasks ++ Tasks.stored task ∷ [] }))
    → (Tasks.announce_if f task b w).0 ≡ ok u
    → KeepsAnnounced d (Tasks.announce_if f task b w).1.db
unfolding Tasks.announce_if Outbox.enqueue_outbox pure
announce_ok f task false d w u (inl (x, e)) h a = rw e a
announce_ok f task false d w u (inr (x, e)) h a = cc
announce_ok f task true d w u (inl (x, e)) h a = cc
announce_ok f task true d w u (inr (x, e)) h a =
    let (now, done) = inside_ok (Outbox.enqueue f false task) w u h in
    both_inserted f now task d w.db _ e done a

create_ok :
    (f : String → String) (task : IndexTask) (w : World) (u : Unit {0})
    → ((inside (Tasks.insert_new task) >>= Tasks.announce_if f task) w).0 ≡ ok u
    → KeepsAnnounced w.db ((inside (Tasks.insert_new task) >>= Tasks.announce_if f task) w).1.db
create_ok f task w u h a =
    let (b, first, second, e) =
      >>=_ok (inside (Tasks.insert_new task)) (Tasks.announce_if f task) w u h in
    let (now, inserted_row) = inside_ok (Tasks.insert_new task) w b first in
    rw e (
      announce_ok f task b w.db (inside (Tasks.insert_new task) w).1 u
        (row_inserted task now w.db _ b inserted_row) second a)

announce_leaves :
    (f : String → String) (task : IndexTask) (b : Bool)
    → LeavesTurns (Rely KeepsAnnounced) (Tasks.announce_if f task b)
unfolding Tasks.announce_if Outbox.enqueue_outbox
announce_leaves f task true = LeavesTurns-inside _ _
announce_leaves f task false = LeavesTurns-pure _ _

pub Announced-Steps : Steps KeepsAnnounced KeepsAnnounced-order
unfolding Documents.update_documents Tasks.update_tasks Tasks.status_set Tasks.claimed
    Tasks.rescheduled Tasks.create
Announced-Steps = record {
  status = λ id previous next message d e h. h;
  parsed = λ id t m d h. h;
  deleted = λ id now d h. h;
  logs = λ d ls h. h;
  chunks = λ d cs h. h;
  task_status = λ id previous next message d e h.
      All-update _ (Tasks.has_status_in id previous) (Tasks.status_set next message) (λ t k. k)
        d.tasks h;
  claimed = λ id lease now d h.
      All-update _ (Tasks.can_claim id now) (Tasks.claimed lease now) (λ t k. k) d.tasks h;
  rescheduled = λ id d h.
      All-update _ (Tasks.can_reschedule id max_automatic_retries) Tasks.rescheduled (λ t k. k)
        d.tasks h;
  create = λ f task.
      Guards-whole KeepsAnnounced KeepsAnnounced-order _
        (LeavesTurns-bind _ _ _ (LeavesTurns-inside _ _) (announce_leaves f task))
        (λ w u. create_ok f task w u);
}

-- If every task has an event in the outbox before a delivery, every task has one after it, those
-- that the delivery creates too, whatever fails in it, as long as the other processes keep this.
pub run-Announced :
    (svc : Services) (t : TaskType) (r : Result Message) (w : World)
    → All (Rely KeepsAnnounced) w.turns
    → Announced w.db
    → Announced (run svc t r w).1.db
run-Announced svc t r w h = ((Guards-run (Conduct-Steps Announced-Steps) svc t r).at w h).0
