-- ===== src/Repository/Runs.antt =====
-- api/internal/repository/postgres/runrepo.go: chat runs and their events.
use Prim.Native.Nat.{max}
use enterprise_rag.Prelude.{
  ℕ, zero, suc, ◌+◌, String, Bool, true, false, ◌&&◌, ◌||◌, not, Option, none, some, List, [], ◌∷◌,
  ◌++◌, Text, codes, str_eq, ◌==◌, ltb, count_of, find_first, keep_if, take, any_of, if◌then◌else◌,
}
use enterprise_rag.Prelude.Int.{ℤ, int_ltb, to_ℕ}
use enterprise_rag.Store.{
  Db, RunStatus, created, running, completed, failed, cancelled, ChatRun, RunEventType,
  ChatRunEvent, update_rows,
}
use enterprise_rag.Exec.{
  Result, ok, err, no_rows, canceled, other, error_text, Exec, raise, pure, statement, inside,
  transaction, ◌>>=◌, ◌>>◌,
}
use enterprise_rag.Repository.Rows.{null_text, or_no_rows, unless_none, duplicate_key}

abbrev run_code : RunStatus → ℕ
run_code created = 0
run_code running = 1
run_code completed = 2
run_code failed = 3
run_code cancelled = 4

unfoldable pub same_status : RunStatus → RunStatus → Bool
same_status a b = run_code a == run_code b

unfoldable pub update_runs : (ChatRun → Bool) → (ChatRun → ChatRun) → Db → Db
update_runs test set d = record d { runs = update_rows test set d.runs }

-- `id = $1 AND tenant_id = $2 AND user_id = $3`.
pub record RunKey : Type 0 where
  pub id : String
  pub tenant_id : String
  pub user_id : String

unfoldable pub owns : RunKey → ChatRun → Bool
owns k row =
    str_eq row.id k.id && (str_eq row.tenant_id k.tenant_id && str_eq row.user_id k.user_id)

unfoldable pub insert_run : ChatRun → ℕ → Db → Result (Unit {0}) × Db
insert_run run now d =
    if any_of (λ row. str_eq row.id run.id) d.runs
    then (err duplicate_key, d)
    else (ok tt, record d { runs = d.runs ++ run ∷ [] })

-- The row that `Create` makes.
unfoldable pub new_run : RunKey → Text → ChatRun
new_run k request = record {
  id = k.id;
  tenant_id = k.tenant_id;
  user_id = k.user_id;
  status = created;
  request = request;
  result = none;
  error_message = none;
  cancel_requested = false;
  completed_at = none;
}

unfoldable pub create : RunKey → Text → Exec (Unit {0})
unfolding insert_run new_run
create k request = statement (insert_run (new_run k request))

unfoldable pub get_for_user : RunKey → Exec ChatRun
unfolding owns
get_for_user k = statement λ now d. (or_no_rows (find_first (owns k) d.runs), d)

abbrev is_active : RunStatus → Bool
is_active s = same_status s created || same_status s running

unfoldable pub active : RunKey → ChatRun → Bool
unfolding owns same_status
active k row = owns k row && is_active row.status

abbrev completion : Bool → ℕ → Option ℕ
completion true now = some now
completion false now = none

-- `updateStatus`, which no caller gives a result: `COALESCE(NULL, result)` keeps the column.
unfoldable pub status_set : RunStatus → Text → Bool → ℕ → ChatRun → ChatRun
status_set status message terminal now row = record row {
  status = status;
  error_message = null_text message;
  completed_at = completion terminal now;
}

unfoldable pub write_status : RunKey → RunStatus → Text → Bool → Exec (Unit {0})
unfolding active status_set update_runs
write_status k status message terminal = statement λ now d. (
  unless_none (count_of (active k) d.runs) no_rows,
  update_runs (active k) (status_set status message terminal now) d,
)

unfoldable pub mark_running : RunKey → Exec (Unit {0})
unfolding write_status
mark_running k = write_status k running [] false

-- A status other than `cancelled` is recorded as `failed`.
unfoldable pub terminal_status : RunStatus → RunStatus
unfolding same_status
terminal_status status = if not (same_status status cancelled) then failed else status

unfoldable pub fail : RunKey → RunStatus → Text → Exec (Unit {0})
unfolding write_status terminal_status
fail k status message = write_status k (terminal_status status) message true

unfoldable pub completable : RunKey → ChatRun → Bool
unfolding owns same_status
completable k row = owns k row && (same_status row.status running && not row.cancel_requested)

unfoldable pub completed_with : Text → ℕ → ChatRun → ChatRun
completed_with result now row = record row {
  status = completed;
  result = null_text result;
  error_message = none;
  completed_at = some now;
}

unfoldable pub cancellable : RunKey → ChatRun → Bool
unfolding active
cancellable k row = active k row && row.cancel_requested

unfoldable pub cancelled_at : ℕ → ChatRun → ChatRun
cancelled_at now row = record row {
  status = cancelled;
  error_message = some (error_text canceled);
  completed_at = some now;
}

unfoldable pub complete_rows : RunKey → Text → Exec ℕ
unfolding update_runs completable completed_with
complete_rows k result = statement λ now d. (
  ok (count_of (completable k) d.runs),
  update_runs (completable k) (completed_with result now) d,
)

unfoldable pub cancel_rows : RunKey → Exec ℕ
unfolding update_runs cancellable cancelled_at
cancel_rows k = statement λ now d.
    (ok (count_of (cancellable k) d.runs), update_runs (cancellable k) (cancelled_at now) d)

unfoldable pub after_cancel : ℕ → Exec (Unit {0})
after_cancel zero = raise no_rows
after_cancel (suc n) = raise canceled

unfoldable pub after_complete : RunKey → ℕ → Exec (Unit {0})
after_complete k zero = cancel_rows k >>= after_cancel
after_complete k (suc n) = pure tt

-- Two statements: a run whose cancellation was requested is cancelled instead.
unfoldable pub complete : RunKey → Text → Exec (Unit {0})
complete k result = complete_rows k result >>= after_complete k

unfoldable pub request_cancel : RunKey → Exec Bool
unfolding update_runs active
request_cancel k = statement λ now d. (
  ok (ltb 0 (count_of (active k) d.runs)),
  update_runs (active k) (λ row. record row { cancel_requested = true }) d,
)

unfoldable pub resumable : RunKey → ChatRun → Bool
unfolding owns same_status
resumable k row = owns k row && (same_status row.status failed || same_status row.status cancelled)

unfoldable pub reset : ChatRun → ChatRun
reset row = record row {
  status = created;
  result = none;
  error_message = none;
  cancel_requested = false;
  completed_at = none;
}

unfoldable pub reset_for_resume : RunKey → Exec (Unit {0})
unfolding update_runs resumable reset
reset_for_resume k = statement λ now d. (
  unless_none (count_of (resumable k) d.runs) (other (codes "run is not resumable")),
  update_runs (resumable k) reset d,
)

-- `COALESCE(MAX(sequence), 0)` over the events of a run.
unfoldable pub last_sequence : String → List ChatRunEvent → ℕ
last_sequence id [] = 0
last_sequence id (e ∷ es) =
    let rest = last_sequence id es in if str_eq e.run_id id then max e.sequence rest else rest

unfoldable pub insert_event : String → String → RunEventType → ℕ → Db → Result ℕ × Db
insert_event run_id tenant_id type now d =
    let next = last_sequence run_id d.run_events + 1 in
    let event : ChatRunEvent = record {
      run_id = run_id;
      sequence = next;
      tenant_id = tenant_id;
      event_type = type;
    } in
    (ok next, record d { run_events = d.run_events ++ event ∷ [] })

-- The advisory lock of the transaction makes the insertion wait for any other on this run.
unfoldable pub append_event : String → String → RunEventType → Exec ℕ
unfolding insert_event
append_event run_id tenant_id type =
    transaction
      do inside {A = Unit {0}} (λ now d. (ok tt, d)); inside (insert_event run_id tenant_id type)

unfoldable pub page_limit : ℤ → ℕ
page_limit limit = if int_ltb limit 1 || ltb 500 (to_ℕ limit) then 200 else to_ℕ limit

unfoldable pub is_new_event : RunKey → ℕ → ChatRunEvent → Bool
is_new_event k after e =
    str_eq e.run_id k.id && (str_eq e.tenant_id k.tenant_id && ltb after e.sequence)

unfoldable pub insert_by_sequence : ChatRunEvent → List ChatRunEvent → List ChatRunEvent
insert_by_sequence e [] = e ∷ []
insert_by_sequence e (x ∷ xs) =
    let later = insert_by_sequence e xs in
    if ltb x.sequence e.sequence then x ∷ later else e ∷ x ∷ xs

-- `ORDER BY sequence`.
unfoldable pub sort_by_sequence : List ChatRunEvent → List ChatRunEvent
unfolding insert_by_sequence
sort_by_sequence [] = []
sort_by_sequence (e ∷ es) = insert_by_sequence e (sort_by_sequence es)

-- The events of a run that the user owns, joined with `chat_runs`.
unfoldable pub page : RunKey → ℕ → ℕ → Db → List ChatRunEvent
unfolding is_new_event sort_by_sequence
page k after limit d =
    if any_of (λ row. str_eq row.id k.id && str_eq row.user_id k.user_id) d.runs
    then take limit (sort_by_sequence (keep_if (is_new_event k after) d.run_events))
    else []

unfoldable pub list_events : RunKey → ℕ → ℤ → Exec (List ChatRunEvent)
unfolding page page_limit
list_events k after limit = statement λ now d. (ok (page k after (page_limit limit) d), d)
