-- ===== src/Chat/Conduct.antt =====
-- What a request does to the tables, from what each operation on runs does to them.
use enterprise_rag.Prelude.{String, Bool, true, false, Text}
use enterprise_rag.Store.{Db, RunStatus, RunEventType}
use enterprise_rag.Exec.{Error, Result, ok, err}
use enterprise_rag.Exec.Guards.{
  IsPreorder, Guards, Guards-pure, Guards-raise, Guards-attempt, Guards-if, Guards-bind,
  Guards-lift,
}
use enterprise_rag.Repository.Runs
use enterprise_rag.Repository.Runs.{RunKey}
use enterprise_rag.Chat.Lifecycle.{
  Request, append_run_event, create_if, begin_run, complete_run, fail_run, abort, after_completion,
  after_persist, after_invoke, ask, resume, after_request, cancel,
}

-- `R` is kept by each operation on runs that a request calls.
pub record RunConduct (R : Db → Db → Type 0) (order : IsPreorder R) : Type 0 where
  pub create : (k : RunKey) (body : Text) → Guards R order (Runs.create k body)
  pub mark_running : (k : RunKey) → Guards R order (Runs.mark_running k)
  pub fail : (k : RunKey) (s : RunStatus) (message : Text) → Guards R order (Runs.fail k s message)
  pub complete : (k : RunKey) (result : Text) → Guards R order (Runs.complete k result)
  pub request_cancel : (k : RunKey) → Guards R order (Runs.request_cancel k)
  pub reset : (k : RunKey) → Guards R order (Runs.reset_for_resume k)
  pub get : (k : RunKey) → Guards R order (Runs.get_for_user k)
  pub append :
      (id tenant : String) (t : RunEventType) → Guards R order (Runs.append_event id tenant t)

ruleset basic = (Guards-pure, Guards-raise, Guards-attempt, Guards-if, Guards-bind, Guards-lift)

module _ {R : Db → Db → Type 0} {order : IsPreorder R} (c : RunConduct R order) where
  Guards-append_run_event : (k : RunKey) (t : RunEventType) → Guards R order (append_run_event k t)
  unfolding append_run_event
  Guards-append_run_event k t = search (basic, c.append)

  Guards-create_if : (b : Bool) (q : Request) → Guards R order (create_if b q)
  unfolding create_if
  Guards-create_if true q = search (basic, c.create)
  Guards-create_if false q = Guards-pure _

  Guards-begin_run : (q : Request) (b : Bool) → Guards R order (begin_run q b)
  unfolding begin_run
  Guards-begin_run q b =
      search (basic, c.mark_running, Guards-create_if, Guards-append_run_event) depth 8

  Guards-complete_run : (q : Request) (output : Text) → Guards R order (complete_run q output)
  unfolding complete_run
  Guards-complete_run q output = search (basic, c.complete, Guards-append_run_event)

  Guards-fail_run : (q : Request) (e : Error) → Guards R order (fail_run q e)
  unfolding fail_run
  Guards-fail_run q e = search (basic, c.fail, Guards-append_run_event)

  Guards-abort : (q : Request) (e : Error) → Guards R order (abort q e)
  unfolding abort
  Guards-abort q e = search (basic, Guards-fail_run)

  Guards-after_completion :
      (q : Request) (output : Text) (r : Result (Unit {0}))
      → Guards R order (after_completion q output r)
  unfolding after_completion
  Guards-after_completion q output (ok u) = Guards-pure _
  Guards-after_completion q output (err e) = Guards-abort q e

  Guards-after_persist :
      (q : Request) (output : Text) (r : Result (Unit {0}))
      → Guards R order (after_persist q output r)
  unfolding after_persist
  Guards-after_persist q output (ok u) =
      search (basic, Guards-complete_run, Guards-after_completion)
  Guards-after_persist q output (err e) = Guards-abort q e

  Guards-after_invoke : (q : Request) (r : Result Text) → Guards R order (after_invoke q r)
  unfolding after_invoke
  Guards-after_invoke q (ok output) = Guards-after_persist q output _
  Guards-after_invoke q (err e) = Guards-abort q e

  pub Guards-ask : (q : Request) → Guards R order (ask q)
  unfolding ask
  Guards-ask q = search (basic, Guards-begin_run, Guards-after_invoke) depth 8

  pub Guards-resume : (q : Request) → Guards R order (resume q)
  unfolding resume
  Guards-resume q = search (basic, c.get, c.reset, Guards-begin_run, Guards-after_invoke) depth 12

  Guards-after_request : (k : RunKey) (b : Bool) → Guards R order (after_request k b)
  unfolding after_request
  Guards-after_request k true = search (basic, Guards-append_run_event)
  Guards-after_request k false = Guards-pure _

  pub Guards-cancel : (q : Request) → Guards R order (cancel q)
  unfolding cancel
  Guards-cancel q = search (basic, c.request_cancel, Guards-after_request) depth 9
