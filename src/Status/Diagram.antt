-- ===== src/Status/Diagram.antt =====
-- The diagrams of document and task statuses, drawn apart from the tables of status.go, and the
-- agreement of the tables with them.
use enterprise_rag.Prelude.{◌≡◌, true, some, arith, List}
use enterprise_rag.Status.{
  DocumentStatus, uploaded, parsing, parsed, chunking, chunked, embedding, indexed, deleting,
  delete_failed, TaskStatus, pending, running, success, document_previous_statuses,
  document_retry_previous_statuses, task_previous_statuses, document_any, task_any,
}

-- A stage of indexing that has not ended: from it processing may fail.
pub data InProgress : DocumentStatus → Type 0 where
  at_uploaded : InProgress uploaded
  at_parsing : InProgress parsing
  at_parsed : InProgress parsed
  at_chunking : InProgress chunking
  at_chunked : InProgress chunked
  at_embedding : InProgress embedding

infix 40 ◌⟶◌ ◌⟶*◌
pub data ◌⟶◌ : DocumentStatus → DocumentStatus → Type 0 where
  start_parse : uploaded ⟶ parsing
  end_parse : parsing ⟶ parsed
  start_chunk : parsed ⟶ chunking
  end_chunk : chunking ⟶ chunked
  start_embed : chunked ⟶ embedding
  end_embed : embedding ⟶ indexed
  fail : {s : DocumentStatus} → InProgress s → s ⟶ DocumentStatus.failed
  drop_active : {s : DocumentStatus} → InProgress s → s ⟶ deleting
  drop_indexed : indexed ⟶ deleting
  drop_failed : DocumentStatus.failed ⟶ deleting
  drop_again : delete_failed ⟶ deleting
  fail_delete : deleting ⟶ delete_failed
  retry_parse : DocumentStatus.failed ⟶ uploaded
  redo_parse : parsing ⟶ uploaded
  retry_chunk : DocumentStatus.failed ⟶ parsed
  redo_chunk : chunking ⟶ parsed
  retry_embed : DocumentStatus.failed ⟶ chunked
  redo_embed : embedding ⟶ chunked

pub data ◌⟶*◌ : DocumentStatus → DocumentStatus → Type 0 where
  here : {s : DocumentStatus} → s ⟶* s
  then : {s t u : DocumentStatus} → s ⟶* t → t ⟶ u → s ⟶* u

ruleset stages = (at_uploaded, at_parsing, at_parsed, at_chunking, at_chunked, at_embedding)

ruleset edges = (
  start_parse, end_parse, start_chunk, end_chunk, start_embed, end_embed, fail, drop_active,
  drop_indexed, drop_failed, drop_again, fail_delete,
)

ruleset retry_edges = (retry_parse, redo_parse, retry_chunk, redo_chunk, retry_embed, redo_embed)

-- Whatever the table of transitions admits is an edge of the diagram.
pub previous-⟶ :
    (s next : DocumentStatus) (previous : List DocumentStatus)
    → document_previous_statuses next ≡ some previous
    → document_any s previous ≡ true
    → s ⟶ next
unfolding document_previous_statuses document_any
previous-⟶ s next previous e h = grind (arith, stages, edges)

pub retry_previous-⟶ :
    (s next : DocumentStatus) (previous : List DocumentStatus)
    → document_retry_previous_statuses next ≡ some previous
    → document_any s previous ≡ true
    → s ⟶ next
unfolding document_retry_previous_statuses document_any
retry_previous-⟶ s next previous e h = grind (arith, retry_edges, drop_again)

-- The diagram of task statuses: `running` may also be claimed again when its lease is over.
infix 40 ◌⟹◌ ◌⟹*◌
pub data ◌⟹◌ : TaskStatus → TaskStatus → Type 0 where
  claim : pending ⟹ running
  reclaim : running ⟹ running
  succeed : running ⟹ success
  give_up : running ⟹ TaskStatus.failed
  discard : pending ⟹ TaskStatus.failed
  requeue : running ⟹ pending
  revive : TaskStatus.failed ⟹ pending

pub data ◌⟹*◌ : TaskStatus → TaskStatus → Type 0 where
  here : {s : TaskStatus} → s ⟹* s
  then : {s t u : TaskStatus} → s ⟹* t → t ⟹ u → s ⟹* u

pub previous-⟹ :
    (s next : TaskStatus) (previous : List TaskStatus)
    → task_previous_statuses next ≡ some previous
    → task_any s previous ≡ true
    → s ⟹ next
unfolding task_previous_statuses task_any
previous-⟹ s next previous e h = grind (arith, claim, succeed, give_up, discard)

pub ⟶*-trans : {s t u : DocumentStatus} → s ⟶* t → t ⟶* u → s ⟶* u
⟶*-trans p here = p
⟶*-trans p (then q e) = then (⟶*-trans p q) e

pub ⟹*-trans : {s t u : TaskStatus} → s ⟹* t → t ⟹* u → s ⟹* u
⟹*-trans p here = p
⟹*-trans p (then q e) = then (⟹*-trans p q) e
