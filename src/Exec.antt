-- ===== src/Exec.antt =====
-- Go code that calls PostgreSQL, NATS and other services in turn, each call of which may fail.
--
-- A call takes one turn of the schedule in the world: what the other processes did to the tables
-- since the last call, the time that went by, and how the call ends. It may be carried out,
-- refused, or carried out and reported as failed, as when the connection is lost before the
-- reply. An empty schedule is a run that nothing disturbs.
pub mod Guards
pub mod Atomic
pub mod Returns
use enterprise_rag.Prelude.{
  ℕ, ◌+◌, String, Bool, Option, none, some, List, [], ◌∷◌, ◌++◌, Text, codes,
}
use enterprise_rag.Store.{Db, Message}
use enterprise_rag.Status.{TaskType}

-- The `error` values of the code; `text` is what `Error()` returns.
pub data Error : Type 0 where
  document_state_conflict task_state_conflict task_not_retryable no_rows sql_no_rows canceled :
      Error
  subject_name_exists subject_not_found : Error
  publish other : Text → Error

unfoldable pub error_text : Error → Text
error_text document_state_conflict = codes "document state transition conflict"
error_text task_state_conflict = codes "index task state transition conflict"
error_text task_not_retryable = codes "index task is not retryable"
error_text no_rows = codes "no rows in result set"
error_text sql_no_rows = codes "sql: no rows in result set"
error_text canceled = codes "context canceled"
error_text subject_name_exists = codes "subject name already exists"
error_text subject_not_found = codes "subject not found"
error_text (publish text) = codes "publish durable task: " ++ text
error_text (other text) = text

pub data Result (A : Type 0) : Type 0 where
  ok : A → Result A
  err : Error → Result A

-- `fmt.Errorf("prefix%w", err)`.
unfoldable pub wrapped : {A : Type 0} → Text → Result A → Result A
wrapped prefix (ok a) = ok a
wrapped prefix (err e) = err (other (prefix ++ error_text e))

pub data Outcome : Type 0 where
  done refused unheard : Outcome

pub record Turn : Type 0 where
  pub outcome : Outcome
  pub elapsed : ℕ
  pub others : Db → Db

-- How a delivery of JetStream is answered.
pub data Settlement : Type 0 where
  ack term : Settlement
  nak : ℕ → Settlement

pub record DeadLetter : Type 0 where
  pub task_type : TaskType
  pub task_id : String
  pub reason : Error

pub record World : Type 0 where
  pub db : Db
  pub dead_letters : List DeadLetter
  pub settlements : List Settlement
  pub now : ℕ
  pub turns : List Turn

-- A world in which nothing fails and no other process acts.
abbrev pub quiet : World → World
quiet w = record w { turns = [] }

abbrev pub Exec : Type 0 → Type 0
Exec A = World → Result A × World

module _ {A : Type 0} where
  unfoldable pub pure : A → Exec A
  pure a w = (ok a, w)

  unfoldable pub raise : Error → Exec A
  raise e w = (err e, w)

  -- What a call that does not touch the tables answers.
  unfoldable pub lift : Result A → Exec A
  lift r w = (r, w)

  -- `value, err := m`: the error is a value of the rest.
  unfoldable pub attempt : Exec A → Exec (Result A)
  attempt m w = let (r, w') = m w in (ok r, w')

module _ {A B : Type 0} where
  abbrev continue : Result A → (A → Exec B) → Exec B
  continue (ok a) f w = f a w
  continue (err e) f w = (err e, w)

  infixl 5 ◌>>=◌ ◌>>◌
  unfoldable pub ◌>>=◌ : Exec A → (A → Exec B) → Exec B
  unfolding pure raise lift attempt
  ◌>>=◌ m f w = let (r, w') = m w in continue r f w'

  abbrev pub ◌>>◌ : Exec A → Exec B → Exec B
  m >> n = m >>= λ _. n

abbrev pub still : Turn → Turn
still t = record t { others = λ d. d }

abbrev pub still_first : List Turn → List Turn
still_first [] = []
still_first (t ∷ ts) = still t ∷ ts

pub lost : Error
lost = other (codes "unexpected EOF")

module _ {A : Type 0} where
  -- What a statement leaves and reports, by the outcome of its turn.
  pub conclude : Outcome → Result A × Db → World → Result A × World
  unfolding lost
  conclude done (r, d) w = (r, record w { db = d })
  conclude refused (r, d) w = (err lost, w)
  conclude unheard (r, d) w = (err lost, record w { db = d })

  -- A statement at a turn; `disturbed` says whether other processes may change the tables before.
  pub at_turn : List Turn → (ℕ → Db → Result A × Db) → World → Result A × World
  unfolding conclude
  at_turn [] f w = let (r, d) = f w.now w.db in (r, record w { db = d })
  at_turn (t ∷ ts) f w =
      let now = w.now + t.elapsed in
      let seen = t.others w.db in
      conclude t.outcome (f now seen) (record w { db = seen; now = now; turns = ts })

  -- A statement outside a transaction. It is atomic.
  unfoldable pub statement : (ℕ → Db → Result A × Db) → Exec A
  unfolding at_turn
  statement f w = at_turn w.turns f w

  -- A statement inside a transaction: the rows that it uses are not changed by others meanwhile.
  unfoldable pub inside : (ℕ → Db → Result A × Db) → Exec A
  unfolding at_turn
  inside f w = at_turn (still_first w.turns) f w

module _ {A : Type 0} where
  -- A failed transaction restores the tables; `Commit` is one more call.
  pub finish : Db → Result A → Exec A
  unfolding inside
  finish before (ok a) w = inside (λ now d. (ok a, w.db)) (record w { db = before })
  finish before (err e) w = (err e, record w { db = before })

  pub begun : Exec A → Result (Unit {0}) → Exec A
  unfolding finish
  begun m (ok u) w = let (r, w') = m w in finish w.db r w'
  begun m (err e) w = (err e, w)

  -- `Begin`, the statements of `m`, and `Commit` or `Rollback`.
  unfoldable pub transaction : Exec A → Exec A
  unfolding statement begun
  transaction m w = let (r, w') = statement {A = Unit {0}} (λ now d. (ok tt, d)) w in begun m r w'
