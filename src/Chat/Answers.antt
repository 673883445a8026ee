-- ===== src/Chat/Answers.antt =====
-- A question that is answered: what is left when nothing fails.
use Prim.Native.Nat.{max}
use enterprise_rag.Prelude.{
  ℕ, ◌||◌, true, false, none, some, List, [], ◌∷◌, ◌++◌, Text, ◌≡◌, refl, ap, ◌∙◌, arith, any_of,
  str_eq, str_eq_refl, All, ◌+◌, Bool-cases, inl, inr, String, append_assoc,
}
use enterprise_rag.Store.{
  Db, running, completed, ChatRun, ChatRunEvent, RunEventType, run_running, run_completed,
}
use enterprise_rag.Store.Lookup.{count_of-one, update_rows-one}
use enterprise_rag.Exec.{
  Result, ok, World, quiet, pure, attempt, lift, ◌>>=◌, statement, inside, transaction,
}
use enterprise_rag.Exec.Atomic.{bind_eq}
use enterprise_rag.Repository.Rows.{null_text}
use enterprise_rag.Repository.Runs
use enterprise_rag.Repository.Runs.{RunKey}
use enterprise_rag.Chat.Lifecycle.{
  Request, append_run_event, create_if, begin_run, complete_run, after_completion, after_persist,
  after_invoke, ask, is_blank,
}

-- The tables with one more event of a run.
record_event : RunKey → RunEventType → Db → Db
record_event k type d = (Runs.insert_event k.id k.tenant_id type 0 d).1

-- The run after `markRunning`.
running_run : Request → ℕ → ChatRun
running_run q now = Runs.status_set running [] false now (Runs.new_run q.key q.body)

not_owned :
    (k : RunKey) (rows : List ChatRun)
    → any_of (λ row. str_eq row.id k.id) rows ≡ false
    → All (λ r. Runs.owns k r ≡ false) rows
unfolding Runs.owns
not_owned k [] h = tt
not_owned k (r ∷ rows) h = (ground arith, not_owned k rows (ground arith))

not_active :
    (k : RunKey) (rows : List ChatRun)
    → All (λ r. Runs.owns k r ≡ false) rows
    → All (λ r. Runs.active k r ≡ false) rows
unfolding Runs.active
not_active k [] h = tt
not_active k (r ∷ rows) h = (rw h.0 refl, not_active k rows h.1)

not_completable :
    (k : RunKey) (rows : List ChatRun)
    → All (λ r. Runs.owns k r ≡ false) rows
    → All (λ r. Runs.completable k r ≡ false) rows
unfolding Runs.completable
not_completable k [] h = tt
not_completable k (r ∷ rows) h = (rw h.0 refl, not_completable k rows h.1)

active-new : (q : Request) → Runs.active q.key (Runs.new_run q.key q.body) ≡ true
unfolding Runs.active Runs.new_run
active-new q =
    rw (str_eq_refl q.key.id, str_eq_refl q.key.tenant_id, str_eq_refl q.key.user_id) refl

completable-running : (q : Request) (now : ℕ) → Runs.completable q.key (running_run q now) ≡ true
unfolding Runs.completable running_run Runs.status_set Runs.new_run
completable-running q now =
    rw (str_eq_refl q.key.id, str_eq_refl q.key.tenant_id, str_eq_refl q.key.user_id) refl

create-quiet :
    (q : Request) (w : World)
    → any_of (λ row. str_eq row.id q.key.id) w.db.runs ≡ false
    → Runs.create q.key q.body (quiet w) ≡ (
      ok tt,
      quiet (record w { db = record w.db { runs = w.db.runs ++ Runs.new_run q.key q.body ∷ [] } }),
    )
unfolding Runs.create Runs.new_run statement
create-quiet q w h = rw h refl

mark_running-quiet :
    (q : Request) (w : World) (rows : List ChatRun)
    → All (λ r. Runs.owns q.key r ≡ false) rows
    → w.db.runs ≡ rows ++ Runs.new_run q.key q.body ∷ []
    → Runs.mark_running q.key (quiet w)
      ≡ (ok tt, quiet (record w { db = record w.db { runs = rows ++ running_run q w.now ∷ [] } }))
unfolding Runs.mark_running statement running_run
mark_running-quiet q w rows h e =
    let new = Runs.new_run q.key q.body in
    let refused = not_active q.key rows h in
    let one = count_of-one (Runs.active q.key) rows new [] refused tt (active-new q) in
    let set = Runs.status_set running [] false w.now in
    let rows' = update_rows-one (Runs.active q.key) set rows new [] refused tt (active-new q) in
    rw (e, one, rows') refl

complete-quiet :
    (q : Request) (output : Text) (w : World) (rows : List ChatRun) (now : ℕ)
    → All (λ r. Runs.owns q.key r ≡ false) rows
    → w.db.runs ≡ rows ++ running_run q now ∷ []
    → Runs.complete q.key output (quiet w) ≡ (
      ok tt,
      quiet (record w {
        db = record w.db {
          runs = rows ++ Runs.completed_with output w.now (running_run q now) ∷ [];
        };
      }),
    )
unfolding Runs.complete Runs.complete_rows Runs.after_complete statement ◌>>=◌
complete-quiet q output w rows now h e =
    let old = running_run q now in
    let refused = not_completable q.key rows h in
    let one =
      count_of-one (Runs.completable q.key) rows old [] refused tt (completable-running q now) in
    let set = Runs.completed_with output w.now in
    let rows' =
      update_rows-one (Runs.completable q.key) set rows old [] refused tt
        (completable-running q now) in
    rw (e, one, rows') refl

event-quiet :
    (k : RunKey) (type : RunEventType) (w : World)
    → attempt (append_run_event k type) (quiet w)
      ≡ (ok (ok tt), quiet (record w { db = record_event k type w.db }))
unfolding attempt append_run_event ◌>>=◌ Runs.append_event transaction statement inside record_event
event-quiet k type w = refl

-- The tables when the run has begun, and when it is completed.
abbrev begun_db : Request → World → Db
begun_db q w =
    record_event q.key run_running (record w.db { runs = w.db.runs ++ running_run q w.now ∷ [] })

abbrev ended_db : Request → Text → List ChatRun → ℕ → World → Db
ended_db q output rows now w =
    record_event q.key run_completed
      (record w.db { runs = rows ++ Runs.completed_with output w.now (running_run q now) ∷ [] })

begin_run-quiet :
    (q : Request) (w : World)
    → q.marshal_body ≡ ok tt
    → any_of (λ row. str_eq row.id q.key.id) w.db.runs ≡ false
    → begin_run q true (quiet w) ≡ (ok tt, quiet (record w { db = begun_db q w }))
unfolding begin_run create_if pure lift
begin_run-quiet q w encoded h =
    let new = Runs.new_run q.key q.body in
    let w1 : World = record w { db = record w.db { runs = w.db.runs ++ new ∷ [] } } in
    let w2 : World = record w {
      db = record w.db { runs = w.db.runs ++ running_run q w.now ∷ [] };
    } in
    bind_eq (create_if true q) _ tt (quiet w) (quiet w1) (
      bind_eq (lift q.marshal_body) _ tt (quiet w) (quiet w) (ap (λ r. (r, quiet w)) encoded)
      ∙ create-quiet q w h)
    ∙ bind_eq _ _ tt (quiet w1) _
        (mark_running-quiet q w1 w.db.runs (not_owned q.key w.db.runs h) refl)
    ∙ bind_eq _ _ (ok tt) (quiet w2) _ (event-quiet q.key run_running w2)

complete_run-quiet :
    (q : Request) (output : Text) (w : World) (rows : List ChatRun) (now : ℕ)
    → q.marshal_output output ≡ ok tt
    → All (λ r. Runs.owns q.key r ≡ false) rows
    → w.db.runs ≡ rows ++ running_run q now ∷ []
    → complete_run q output (quiet w)
      ≡ (ok tt, quiet (record w { db = ended_db q output rows now w }))
unfolding complete_run pure lift
complete_run-quiet q output w rows now encoded h e =
    let run = Runs.completed_with output w.now (running_run q now) in
    let w1 : World = record w { db = record w.db { runs = rows ++ run ∷ [] } } in
    bind_eq (lift (q.marshal_output output)) _ tt (quiet w) (quiet w)
      (ap (λ r. (r, quiet w)) encoded)
    ∙ bind_eq _ _ tt (quiet w) _ (complete-quiet q output w rows now h e)
    ∙ bind_eq _ _ (ok tt) (quiet w1) _ (event-quiet q.key run_completed w1)

answer-quiet :
    (q : Request) (output : Text) (w : World) (rows : List ChatRun) (now : ℕ)
    → q.invoke ≡ ok output
    → q.persist_turn output ≡ ok tt
    → q.marshal_output output ≡ ok tt
    → All (λ r. Runs.owns q.key r ≡ false) rows
    → w.db.runs ≡ rows ++ running_run q now ∷ []
    → after_invoke q q.invoke (quiet w)
      ≡ (ok output, quiet (record w { db = ended_db q output rows now w }))
unfolding after_invoke after_persist after_completion attempt ◌>>=◌ pure
answer-quiet q output w rows now invoked persisted encoded h e =
    let rest = complete_run-quiet q output w rows now encoded h e in
    ap (λ r. after_invoke q r (quiet w)) invoked
    ∙ ap (λ r. after_persist q output r (quiet w)) persisted
    ∙ ap (λ (p : Result (Unit {0}) × World). after_completion q output p.0 p.1) rest

abbrev event_of : RunKey → ℕ → RunEventType → ChatRunEvent
event_of k n type = record {
  run_id = k.id;
  sequence = n;
  tenant_id = k.tenant_id;
  event_type = type;
}

last_sequence-append :
    (id : String) (es : List ChatRunEvent) (e : ChatRunEvent)
    → str_eq e.run_id id ≡ true
    → Runs.last_sequence id (es ++ e ∷ []) ≡ max (Runs.last_sequence id es) e.sequence
unfolding Runs.last_sequence
last_sequence-append id [] e h = rw h (omega arith)
last_sequence-append id (x ∷ es) e h =
    let rest = last_sequence-append id es e h in
    elim (Bool-cases (str_eq x.run_id id)) [
      | inl own ↦ rw own (omega (arith, rest))
      | inr other ↦ rw other rest
    ]

-- Two events, one behind the other.
record_twice :
    (k : RunKey) (s t : RunEventType) (d : Db)
    → record_event k t (record_event k s d) ≡ (
        let last = Runs.last_sequence k.id d.run_events in
        record d {
          run_events = d.run_events ++ event_of k (last + 1) s ∷ event_of k (last + 2) t ∷ [];
        })
unfolding record_event Runs.insert_event
record_twice k s t d =
    let last = Runs.last_sequence k.id d.run_events in
    let first = event_of k (last + 1) s in
    let next : Runs.last_sequence k.id (d.run_events ++ first ∷ []) + 1 ≡ last + 2 =
      omega (arith, last_sequence-append k.id d.run_events first (str_eq_refl k.id)) in
    rw next (
      ap (λ es. record d { run_events = es })
        (append_assoc d.run_events (first ∷ []) (event_of k (last + 2) t ∷ [])))

-- The tables after a question that is answered, written out: one more run, completed at `now` with
-- the answer and no error, and its two events behind those of before, numbered on from them.
abbrev pub answered_db : Request → Text → ℕ → Db → Db
answered_db q output now d =
    let last = Runs.last_sequence q.key.id d.run_events in
    record d {
      runs =
          d.runs
          ++ record {
            id = q.key.id;
            tenant_id = q.key.tenant_id;
            user_id = q.key.user_id;
            status = completed;
            request = q.body;
            result = null_text output;
            error_message = none;
            cancel_requested = false;
            completed_at = some now;
          }
            ∷ [];
      run_events =
          d.run_events
          ++ event_of q.key (last + 1) run_running ∷ event_of q.key (last + 2) run_completed ∷ [];
    }

ended_written :
    (q : Request) (output : Text) (w : World)
    → ended_db q output w.db.runs w.now (record w { db = begun_db q w })
      ≡ answered_db q output w.now w.db
unfolding Runs.completed_with running_run Runs.status_set Runs.new_run record_event
    Runs.insert_event
ended_written q output w = record_twice q.key run_running run_completed (record w.db {
  runs = w.db.runs ++ Runs.completed_with output w.now (running_run q w.now) ∷ [];
})

-- When nothing fails, the question is not blank, the run's id is new, the agent answers, the turn is
-- recorded, and request and answer can be encoded, the request returns the answer. One run of the
-- user is added: its status is completed, its result the answer, or none for an empty one, it has
-- no error, and no cancellation is requested. Two events of the run are added, that it is running
-- and that it is completed, with the next two numbers. No other row of any table changes.
pub ask-quiet :
    (q : Request) (output : Text) (w : World)
    → (is_blank q.subject_id || is_blank q.query) ≡ false
    → q.current_user ≡ ok tt
    → q.invoke ≡ ok output
    → q.persist_turn output ≡ ok tt
    → q.marshal_body ≡ ok tt
    → q.marshal_output output ≡ ok tt
    → any_of (λ row. str_eq row.id q.key.id) w.db.runs ≡ false
    → ask q (quiet w) ≡ (ok output, quiet (record w { db = answered_db q output w.now w.db }))
unfolding ask lift record_event Runs.insert_event
ask-quiet q output w filled user invoked persisted body_encoded encoded new =
    let w1 : World = record w { db = begun_db q w } in
    let known : lift q.current_user (quiet w) ≡ (ok tt, quiet w) = ap (λ r. (r, quiet w)) user in
    let begun =
      bind_eq _ (λ _. begin_run q true) tt (quiet w) (quiet w) known
      ∙ begin_run-quiet q w body_encoded new in
    let answered =
      answer-quiet q output w1 w.db.runs w.now invoked persisted encoded
        (not_owned q.key w.db.runs new) refl in
    rw filled (bind_eq _ (λ _. after_invoke q q.invoke) tt (quiet w) (quiet w1) begun ∙ answered)
    ∙ ap (λ (d : Db). (ok output, quiet (record w { db = d }))) (ended_written q output w)
