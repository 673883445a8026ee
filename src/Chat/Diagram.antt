-- ===== src/Chat/Diagram.antt =====
-- What a request may do to the runs: steps along the diagram.
use enterprise_rag.Prelude.{
  ℕ, zero, suc, String, Bool, true, false, [], ◌∷◌, ◌++◌, All, Text, ◌≡◌, refl, ◌⊎◌, inl, inr,
  arith, any_of, str_eq, if◌then◌else◌,
}
use enterprise_rag.Store.{RunEventType, Db, RunStatus, running, failed, cancelled, ChatRun}
use enterprise_rag.Store.Evolution.{Evolves-append, Evolves-update}
use enterprise_rag.Exec.{Result, ok, err, World}
use enterprise_rag.Exec.Guards.{
  Rely, Guards, Guards-pure, Guards-raise, Guards-bind, Guards-statement, Guards-inside,
  Guards-transaction,
}
use enterprise_rag.Repository.Rows.{duplicate_key}
use enterprise_rag.Chat.Lifecycle
use enterprise_rag.Chat.Lifecycle.{Request}
use enterprise_rag.Chat.Moves.{
  RunMoves, RunMoves-refl, RunProgress, RunProgress-order, write_status_moves, complete_moves,
  cancel_moves, request_moves, reset_moves,
}
use enterprise_rag.Chat.Conduct.{RunConduct, Guards-ask, Guards-resume, Guards-cancel}
use enterprise_rag.Repository.Runs
use enterprise_rag.Repository.Runs.{RunKey}

insert_moves : (run : ChatRun) (now : ℕ) (d : Db) → RunProgress d (Runs.insert_run run now d).1
unfolding Runs.insert_run
insert_moves run now d = go (any_of (λ row. str_eq row.id run.id) d.runs)
  where
    go :
        (known : Bool)
        → let r : Result (Unit {0}) × Db =
            if known
            then (err duplicate_key, d)
            else (ok tt, record d { runs = d.runs ++ run ∷ [] }) in
          RunProgress d r.1
    go true = RunProgress-order.reflexive d
    go false = Evolves-append RunMoves RunMoves-refl d.runs _

step :
    (test : ChatRun → Bool) (set : ChatRun → ChatRun)
    → ((r : ChatRun) → test r ≡ true → RunMoves r (set r))
    → (d : Db) → RunProgress d (Runs.update_runs test set d)
unfolding Runs.update_runs
step test set h d = Evolves-update RunMoves RunMoves-refl test set h d.runs

terminal_end :
    (s : RunStatus) → (Runs.terminal_status s ≡ failed) ⊎ (Runs.terminal_status s ≡ cancelled)
unfolding Runs.terminal_status
terminal_end s = ground arith

Guards-create : (k : RunKey) (q : Text) → Guards RunProgress RunProgress-order (Runs.create k q)
unfolding Runs.create
Guards-create k q = Guards-statement _ _ _ (λ now d. insert_moves _ now d)

Guards-write_status :
    (k : RunKey) (s : RunStatus) (message : Text) (terminal : Bool)
    → (s ≡ running) ⊎ ((s ≡ failed) ⊎ (s ≡ cancelled))
    → Guards RunProgress RunProgress-order (Runs.write_status k s message terminal)
unfolding Runs.write_status
Guards-write_status k s message terminal c =
    Guards-statement _ _ _ (λ now. step _ _ (λ r. write_status_moves k s message terminal now r c))

Guards-mark_running : (k : RunKey) → Guards RunProgress RunProgress-order (Runs.mark_running k)
unfolding Runs.mark_running
Guards-mark_running k = Guards-write_status k running [] false (inl refl)

Guards-fail :
    (k : RunKey) (s : RunStatus) (message : Text)
    → Guards RunProgress RunProgress-order (Runs.fail k s message)
unfolding Runs.fail
Guards-fail k s message = Guards-write_status k _ message true (inr (terminal_end s))

Guards-complete :
    (k : RunKey) (result : Text) → Guards RunProgress RunProgress-order (Runs.complete k result)
unfolding Runs.complete Runs.complete_rows
Guards-complete k result =
    Guards-bind _ _ (Guards-statement _ _ _ (λ now. step _ _ (complete_moves k result now))) rest
  where
    ended : (n : ℕ) → Guards RunProgress RunProgress-order (Runs.after_cancel n)
    ended zero = unfold Runs.after_cancel in Guards-raise _
    ended (suc n) = unfold Runs.after_cancel in Guards-raise _

    rest : (n : ℕ) → Guards RunProgress RunProgress-order (Runs.after_complete k n)
    rest zero =
        unfold Runs.after_complete Runs.cancel_rows in
        Guards-bind _ _ (Guards-statement _ _ _ (λ now. step _ _ (cancel_moves k now))) ended
    rest (suc n) = unfold Runs.after_complete in Guards-pure _

Guards-request_cancel : (k : RunKey) → Guards RunProgress RunProgress-order (Runs.request_cancel k)
unfolding Runs.request_cancel
Guards-request_cancel k = Guards-statement _ _ _ (λ now. step _ _ (request_moves k))

Guards-reset : (k : RunKey) → Guards RunProgress RunProgress-order (Runs.reset_for_resume k)
unfolding Runs.reset_for_resume
Guards-reset k = Guards-statement _ _ _ (λ now. step _ _ (reset_moves k))

Guards-get : (k : RunKey) → Guards RunProgress RunProgress-order (Runs.get_for_user k)
unfolding Runs.get_for_user
Guards-get k = Guards-statement _ _ _ (λ now. RunProgress-order.reflexive)

Guards-append :
    (id tenant : String) (t : RunEventType)
    → Guards RunProgress RunProgress-order (Runs.append_event id tenant t)
unfolding Runs.append_event Runs.insert_event
Guards-append id tenant t = Guards-transaction _ _ _ (
    Guards-bind _ _ (Guards-inside _ _ _ (λ now. RunProgress-order.reflexive))
      (λ u. Guards-inside _ _ _ (λ now. RunProgress-order.reflexive)))

pub RunProgress-Conduct : RunConduct RunProgress RunProgress-order
RunProgress-Conduct = record {
  create = Guards-create;
  mark_running = Guards-mark_running;
  fail = Guards-fail;
  complete = Guards-complete;
  request_cancel = Guards-request_cancel;
  reset = Guards-reset;
  get = Guards-get;
  append = Guards-append;
}

-- What a client may ask of a run.
pub data Action : Type 0 where
  ask resume cancel : Action

-- The tables after a request.
abbrev pub perform : Action → Request → World → World
perform Action.ask q w = (Lifecycle.ask q w).1
perform Action.resume q w = (Lifecycle.resume q w).1
perform Action.cancel q w = (Lifecycle.cancel q w).1

-- Whatever fails in a request to ask, resume or cancel, every run that is there before it stays,
-- moves along the diagram and keeps its owner and its request, a completed run does not change, and
-- no run becomes completed against a request to cancel it, as long as the other processes keep to
-- the same.
pub perform-RunProgress :
    (a : Action) (q : Request) (w : World)
    → All (Rely RunProgress) w.turns
    → RunProgress w.db (perform a q w).db
perform-RunProgress Action.ask q w h = ((Guards-ask RunProgress-Conduct q).at w h).0
perform-RunProgress Action.resume q w h = ((Guards-resume RunProgress-Conduct q).at w h).0
perform-RunProgress Action.cancel q w h = ((Guards-cancel RunProgress-Conduct q).at w h).0
