-- ===== src/Chat/Lifecycle.antt =====
-- api/internal/logic/chat: runlifecycle.go, and the requests that start, resume and cancel a run.
--
-- The agent, the recording of the turn and the state of the run's context are what they answer in
-- one request. The process-local cancel functions and their watcher act through `context_error`,
-- the error of the run's context when the request asks for it.
use enterprise_rag.Prelude.{
  codes, ◌||◌, [], Bool, true, false, Option, none, some, Text, if◌then◌else◌,
}
use enterprise_rag.Store.{
  RunStatus, failed, cancelled, RunEventType, run_running, run_completed, run_failed, run_cancelled,
  run_cancel_requested,
}
use enterprise_rag.Exec.{
  Error, canceled, other, error_text, Result, ok, err, Exec, raise, pure, attempt, lift, ◌>>=◌,
  ◌>>◌,
}
use enterprise_rag.Runes.{trim_space, text_eq}
use enterprise_rag.Repository.Runs
use enterprise_rag.Repository.Runs.{RunKey}

-- One request: what the services answer to it.
pub record Request : Type 0 where
  pub subject_id : Text
  pub query : Text
  -- What `uuid.Parse` says of the run's id, where the client gives it.
  pub parse_id : Result (Unit {0})
  pub current_user : Result (Unit {0})
  pub key : RunKey
  pub body : Text
  -- The errors of `json.Marshal` for the request and for the agent's output.
  pub marshal_body : Result (Unit {0})
  pub marshal_output : Text → Result (Unit {0})
  pub decode_body : Text → Result (Unit {0})
  pub invoke : Result Text
  pub persist_turn : Text → Result (Unit {0})
  pub context_error : Option Error

unfoldable pub append_run_event : RunKey → RunEventType → Exec (Unit {0})
append_run_event k type = Runs.append_event k.id k.tenant_id type >> pure tt

unfoldable pub create_if : Bool → Request → Exec (Unit {0})
create_if true q = lift q.marshal_body >> Runs.create q.key q.body
create_if false q = pure tt

unfoldable pub begin_run : Request → Bool → Exec (Unit {0})
begin_run q create = do
  create_if create q
  Runs.mark_running q.key
  attempt (append_run_event q.key run_running)
  pure tt

unfoldable pub complete_run : Request → Text → Exec (Unit {0})
complete_run q output = do
  lift (q.marshal_output output)
  Runs.complete q.key output
  attempt (append_run_event q.key run_completed)
  pure tt

unfoldable pub is_canceled : Error → Bool
is_canceled canceled = true
is_canceled _ = false

unfoldable pub failure_status : Error → RunStatus
unfolding is_canceled
failure_status e = if is_canceled e then cancelled else failed

unfoldable pub failure_event : Error → RunEventType
unfolding is_canceled
failure_event e = if is_canceled e then run_cancelled else run_failed

unfoldable pub fail_run : Request → Error → Exec (Unit {0})
fail_run q e = do
  attempt (Runs.fail q.key (failure_status e) (error_text e))
  attempt (append_run_event q.key (failure_event e))
  pure tt

unfoldable pub effective_run_error : Option Error → Error → Error
effective_run_error none e = e
effective_run_error (some e') e = e'

-- `failRun(…, effectiveRunError(runCtx, err)); return nil, err`.
unfoldable pub abort : Request → Error → Exec Text
abort q e = fail_run q (effective_run_error q.context_error e) >> raise e

unfoldable pub after_completion : Request → Text → Result (Unit {0}) → Exec Text
after_completion q output (ok u) = pure output
after_completion q output (err e) = abort q e

unfoldable pub after_persist : Request → Text → Result (Unit {0}) → Exec Text
after_persist q output (ok u) = attempt (complete_run q output) >>= after_completion q output
after_persist q output (err e) = abort q e

unfoldable pub after_invoke : Request → Result Text → Exec Text
after_invoke q (ok output) = after_persist q output (q.persist_turn output)
after_invoke q (err e) = abort q e

abbrev missing_input : Error
missing_input = other (codes "subject_id and query are required")

abbrev pub is_blank : Text → Bool
is_blank s = text_eq (trim_space s) []

-- `ChatAsk`. The run's id is new.
unfoldable pub ask : Request → Exec Text
ask q =
    if is_blank q.subject_id || is_blank q.query
    then raise missing_input
    else lift q.current_user >> begin_run q true >> after_invoke q q.invoke

-- `ChatRunResume`.
unfoldable pub resume : Request → Exec Text
resume q = do
  lift q.parse_id
  lift q.current_user
  run ← Runs.get_for_user q.key
  lift (q.decode_body run.request)
  Runs.reset_for_resume q.key
  begin_run q false
  after_invoke q q.invoke

unfoldable pub after_request : RunKey → Bool → Exec Bool
after_request k true = attempt (append_run_event k run_cancel_requested) >> pure true
after_request k false = pure false

-- `ChatRunCancel`.
unfoldable pub cancel : Request → Exec Bool
cancel q = do
  lift q.parse_id
  lift q.current_user
  requested ← Runs.request_cancel q.key
  after_request q.key requested
