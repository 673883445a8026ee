-- ===== src/Chat/Controller.antt =====
-- api/internal/service/runcontrol/controller.go: the functions by which the runs of this process
-- are cancelled. A function is a number; the lock makes each operation one step.
use enterprise_rag.Prelude.{
  ℕ, String, not, Option, none, some, List, [], ◌∷◌, keep_if, str_eq, if◌then◌else◌,
}

-- `map[string]context.CancelFunc`.
abbrev pub Controller : Type 0
Controller = List (String × ℕ)

unfoldable pub without : String → Controller → Controller
without id cancels = keep_if (λ (entry : String × ℕ). not (str_eq entry.0 id)) cancels

unfoldable pub register : String → ℕ → Controller → Controller
unfolding without
register id cancel cancels = (id, cancel) ∷ without id cancels

-- What `Register` returns.
unfoldable pub unregister : String → Controller → Controller
unfolding without
unregister id cancels = without id cancels

-- The function that `Cancel` calls, if it knows the run.
unfoldable pub cancel : String → Controller → Option ℕ
cancel id [] = none
cancel id ((key, f) ∷ cancels) = if str_eq key id then some f else cancel id cancels
