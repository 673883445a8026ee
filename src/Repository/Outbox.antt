-- ===== src/Repository/Outbox.antt =====
-- api/internal/repository/postgres/outboxrepo.go and api/internal/task: the events by which a
-- task is announced to the workers.
--
-- `new_sha1` stands for `uuid.NewSHA1` of the object namespace. Tracing headers are left out.
use Prim.Native.Nat.{min}
use Prim.Native.String.{◌++◌ as append}
use enterprise_rag.Prelude.{
  ℕ, zero, suc, ◌+◌, ◌^◌, String, Bool, true, ◌&&◌, ◌||◌, Option, none, some, List, [], ◌∷◌, ◌++◌,
  Text, str_eq, ltb, leb, any_of, if◌then◌else◌,
}
use enterprise_rag.Prelude.Int.{ℤ, int_ltb, to_ℕ}
use enterprise_rag.Status.{TaskType}
use enterprise_rag.Store.{Db, IndexTask, TaskOutbox, update_rows}
use enterprise_rag.Exec.{Result, ok, err, Exec, statement, inside}
use enterprise_rag.Repository.Rows.{is_null, duplicate_key}

unfoldable pub normalize_processing_mode : String → String
normalize_processing_mode mode =
    if str_eq mode "standard"
    then "standard"
    else if str_eq mode "enhanced"
    then "enhanced"
    else "enhanced"

abbrev event_mode : TaskType → Option String → String
event_mode TaskType.parse (some mode) = normalize_processing_mode mode
event_mode _ _ = ""

unfoldable pub event_of : (String → String) → ℕ → IndexTask → TaskOutbox
event_of new_sha1 now task = record {
  id = new_sha1 (append "outbox:" task.id);
  task_id = task.id;
  subject = task.task_type;
  payload = record {
    task_id = task.id;
    doc_id = task.doc_id;
    processing_mode = event_mode task.task_type task.processing_mode;
  };
  attempts = 0;
  next_attempt_at = now;
  locked_at = none;
  published_at = none;
  last_error = none;
}

-- `ON CONFLICT (task_id) DO UPDATE`: the row keeps its id.
unfoldable pub reset_event : TaskOutbox → TaskOutbox → TaskOutbox
reset_event new row = record new { id = row.id; task_id = row.task_id }

unfoldable pub insert_event :
    Bool → TaskOutbox → List TaskOutbox → Result (Unit {0}) × List TaskOutbox
unfolding reset_event
insert_event reset new rows =
    if any_of (λ row. str_eq row.task_id new.task_id) rows
    then (
      ok tt,
      if reset
          then update_rows (λ row. str_eq row.task_id new.task_id) (reset_event new) rows
          else rows,
    )
    else if any_of (λ row. str_eq row.id new.id) rows
    then (err duplicate_key, rows)
    else (ok tt, rows ++ new ∷ [])

-- `enqueueOutbox`, as the statement that it is to the tables.
unfoldable pub enqueue : (String → String) → Bool → IndexTask → ℕ → Db → Result (Unit {0}) × Db
unfolding insert_event
enqueue new_sha1 reset task now d =
    let (r, rows) = insert_event reset (event_of new_sha1 now task) d.outbox in
    (r, record d { outbox = rows })

unfoldable pub enqueue_outbox : (String → String) → IndexTask → Bool → Exec (Unit {0})
enqueue_outbox new_sha1 task reset = inside (enqueue new_sha1 reset task)

-- `locked_at IS NULL OR locked_at < now() - interval '1 minute'`.
abbrev lock_over : ℕ → Option ℕ → Bool
lock_over now none = true
lock_over now (some at) = ltb (at + 60) now

unfoldable pub claimable : ℕ → TaskOutbox → Bool
claimable now row =
    is_null row.published_at && (leb row.next_attempt_at now && lock_over now row.locked_at)

-- The first `limit` rows that may be sent are locked, and returned.
unfoldable pub claim_rows : ℕ → ℕ → List TaskOutbox → List TaskOutbox × List TaskOutbox
claim_rows now limit [] = ([], [])
claim_rows now zero (row ∷ rows) = ([], row ∷ rows)
claim_rows now (suc limit) (row ∷ rows) =
    let locked = record row { locked_at = some now } in
    let taken = claim_rows now limit rows in
    let passed = claim_rows now (suc limit) rows in
    if claimable now row then (locked ∷ taken.0, locked ∷ taken.1) else (passed.0, row ∷ passed.1)

unfoldable pub batch_limit : ℤ → ℕ
batch_limit limit = if int_ltb limit 1 || ltb 100 (to_ℕ limit) then 50 else to_ℕ limit

unfoldable pub claim_batch : ℤ → Exec (List TaskOutbox)
unfolding batch_limit
claim_batch limit = statement λ now d.
    let (claimed, rows) = claim_rows now (batch_limit limit) d.outbox in
    (ok claimed, record d { outbox = rows })

unfoldable pub published : ℕ → TaskOutbox → TaskOutbox
published now row = record row { published_at = some now; locked_at = none; last_error = none }

unfoldable pub mark_published : String → Exec (Unit {0})
unfolding published
mark_published id = statement λ now d.
    (ok tt, record d { outbox = update_rows (λ row. str_eq row.id id) (published now) d.outbox })

unfoldable pub put_off : Text → ℕ → TaskOutbox → TaskOutbox
put_off message now row = record row {
  attempts = row.attempts + 1;
  next_attempt_at = now + 2 ^ min row.attempts 6;
  locked_at = none;
  last_error = some message;
}

unfoldable pub mark_failed : String → Text → Exec (Unit {0})
unfolding put_off
mark_failed id message = statement λ now d. (
  ok tt,
  record d { outbox = update_rows (λ row. str_eq row.id id) (put_off message now) d.outbox },
)
