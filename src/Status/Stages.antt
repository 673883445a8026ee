-- ===== src/Status/Stages.antt =====
-- The tables of document statuses in status.go against the numbers of the stages of indexing.
use enterprise_rag.Prelude.{
  ℕ, suc, Bool, true, false, ◌&&◌, Option, none, some, List, ◌≡◌, ◌==◌, ltb, arith, ◌%◌,
}
use enterprise_rag.Status.{
  DocumentStatus, uploaded, parsing, parsed, chunking, chunked, embedding, indexed, failed,
  deleting, delete_failed, document_previous_statuses, document_retry_previous_statuses,
  document_any,
}

-- Whether a table admits the step from a status.
abbrev pub admits : DocumentStatus → Option (List DocumentStatus) → Bool
admits s none = false
admits s (some previous) = document_any s previous

-- The stages of indexing in their order. At an even one a task waits, at an odd one it works.
abbrev pub stage : DocumentStatus → Option ℕ
stage uploaded = some 0
stage parsing = some 1
stage parsed = some 2
stage chunking = some 3
stage chunked = some 4
stage embedding = some 5
stage indexed = some 6
stage failed = none
stage deleting = none
stage delete_failed = none

-- The second stage is the one behind the first.
abbrev pub is_next : Option ℕ → Option ℕ → Bool
is_next (some m) (some n) = suc m == n
is_next _ _ = false

abbrev pub is_unfinished : Option ℕ → Bool
is_unfinished (some n) = ltb n 6
is_unfinished none = false

-- An ordinary step goes on by one stage, fails before the last, starts the deletion of what is not
-- being deleted, or fails a deletion.
abbrev pub may_advance : DocumentStatus → DocumentStatus → Bool
may_advance s failed = is_unfinished (stage s)
may_advance deleting deleting = false
may_advance s deleting = true
may_advance deleting delete_failed = true
may_advance s delete_failed = false
may_advance s next = is_next (stage s) (stage next)

abbrev pub is_waiting : Option ℕ → Bool
is_waiting (some n) = n % 2 == 0 && ltb n 6
is_waiting none = false

-- A retry goes back by one stage to where a task waits, takes a failed document to such a stage, or
-- a deletion that failed to another.
abbrev pub may_go_back : DocumentStatus → DocumentStatus → Bool
may_go_back delete_failed deleting = true
may_go_back s deleting = false
may_go_back failed next = is_waiting (stage next)
may_go_back s next = is_waiting (stage next) && is_next (stage next) (stage s)

-- The table of previous statuses admits a step exactly when it is an ordinary one by the numbers of
-- the stages, and the table of retries exactly when it is a retry by them.
pub admits-stages :
    (s next : DocumentStatus)
    → (admits s (document_previous_statuses next) ≡ may_advance s next)
      × (admits s (document_retry_previous_statuses next) ≡ may_go_back s next)
unfolding document_previous_statuses document_retry_previous_statuses document_any
admits-stages s next = (ground arith, ground arith)
