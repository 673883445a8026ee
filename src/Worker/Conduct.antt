-- ===== src/Worker/Conduct.antt =====
-- What a delivery does to the tables, from what each repository operation does to them.
use enterprise_rag.Prelude.{ℕ, String, Bool, true, false, Option, none, some, List, [], ◌∷◌, Text}
use enterprise_rag.Status.{DocumentStatus, TaskType, TaskStatus}
use enterprise_rag.Store.{Db, Document, DocumentChunk, DocumentParseLog, IndexTask, Message}
use enterprise_rag.Exec.{Error, Result, ok, err, no_rows, Settlement, DeadLetter}
use enterprise_rag.Exec.Guards.{
  IsPreorder, Guards, Guards-pure, Guards-raise, Guards-attempt, Guards-if, Guards-bind,
  Guards-lift,
}
use enterprise_rag.Repository.Tasks
use enterprise_rag.Repository.Documents
use enterprise_rag.Repository.Chunks
use enterprise_rag.Worker.Services.{Services, settle, settle_if, ack_message, bury, bury_if}
use enterprise_rag.Worker.Retry.{
  max_automatic_retries, note_retry, after_reset, reset_document, after_schedule, schedule_retry,
  persist_failure,
}
use enterprise_rag.Worker.Handlers.{
  handle, enqueue_next, begin_stage, finish_parse, parse_stage, parse_document, chunk_stage,
  chunk_document, embed_chunks, embed_stage, embed_document, remove_document, delete_stage,
  delete_found, delete_document,
}
use enterprise_rag.Worker.Run.{
  nak_later, after_invalid, reject, after_existing, after_bury, after_persist, give_up,
  after_failure, after_ack, after_update, after_handler, after_claim, process, run,
}

-- `R` is kept by each operation of the repositories that the workers call.
pub record Conduct (R : Db → Db → Type 0) (order : IsPreorder R) : Type 0 where
  pub get_document : (id : String) → Guards R order (Documents.get_by_id id)
  pub set_document :
      (id : String) (s : DocumentStatus) (message : Text)
      → Guards R order (Documents.update_status id s message)
  pub reset_document :
      (id : String) (s : DocumentStatus) → Guards R order (Documents.reset_status_for_retry id s)
  pub end_parse :
      (id : String) (plain_text metadata : Text)
      → Guards R order (Documents.complete_parse id plain_text metadata)
  pub log : (l : DocumentParseLog) → Guards R order (Documents.add_parse_log l)
  pub end_delete : (id : String) → Guards R order (Documents.complete_delete id)
  pub create :
      (new_sha1 : String → String) (task : IndexTask) → Guards R order (Tasks.create new_sha1 task)
  pub get_task : (id : String) → Guards R order (Tasks.get_by_id id)
  pub claim : (id : String) (lease : ℕ) → Guards R order (Tasks.claim id lease)
  pub set_task :
      (id : String) (s : TaskStatus) (message : Text)
      → Guards R order (Tasks.update_status id s message)
  pub reschedule : (id : String) → Guards R order (Tasks.schedule_retry id max_automatic_retries)
  pub replace : (chunks : List DocumentChunk) → Guards R order (Chunks.replace_by_document chunks)
  pub list_chunks : (id : String) → Guards R order (Chunks.list_by_document id)

module _ {R : Db → Db → Type 0} {order : IsPreorder R} where
  Guards-settle : (s : Settlement) → Guards R order (settle s)
  unfolding settle
  Guards-settle s = record { at = λ w h. (order.reflexive w.db, h) }

  Guards-settle_if : (r : Result (Unit {0})) (s : Settlement) → Guards R order (settle_if r s)
  Guards-settle_if (ok u) s = record { at = λ w h. (order.reflexive w.db, h) }
  Guards-settle_if (err e) s = record { at = λ w h. (order.reflexive w.db, h) }

  Guards-bury_if : (r : Result (Unit {0})) (l : DeadLetter) → Guards R order (bury_if r l)
  Guards-bury_if (ok u) l = record { at = λ w h. (order.reflexive w.db, h) }
  Guards-bury_if (err e) l = record { at = λ w h. (order.reflexive w.db, h) }

  Guards-ack_message : (svc : Services) → Guards R order (ack_message svc)
  unfolding ack_message
  Guards-ack_message svc = Guards-settle_if _ _

  Guards-bury : (svc : Services) (l : DeadLetter) → Guards R order (bury svc l)
  unfolding bury
  Guards-bury svc l = Guards-bury_if _ _

ruleset basic = (
  Guards-pure, Guards-raise, Guards-attempt, Guards-if, Guards-bind, Guards-lift, Guards-settle,
  Guards-ack_message, Guards-bury,
)

module _ {R : Db → Db → Type 0} {order : IsPreorder R} (c : Conduct R order) where
  Guards-begin_stage :
      (document : Document) (s : DocumentStatus) → Guards R order (begin_stage document s)
  unfolding begin_stage
  Guards-begin_stage document s = search (basic, c.set_document)

  Guards-enqueue_next :
      (svc : Services) (m : Message) (document : Document) (t : TaskType)
      → Guards R order (enqueue_next svc m document t)
  unfolding enqueue_next
  Guards-enqueue_next svc m document t = c.create _ _

  Guards-finish_parse :
      (svc : Services) (m : Message) (d : Document) (r : Result (Text × Text))
      → Guards R order (finish_parse svc m d r)
  unfolding finish_parse
  Guards-finish_parse svc m d (ok (t, x)) = search (basic, c.log, c.end_parse, Guards-enqueue_next)
  Guards-finish_parse svc m d (err e) = search (basic, c.log)

  Guards-parse_document : (svc : Services) (m : Message) → Guards R order (parse_document svc m)
  unfolding parse_document parse_stage
  Guards-parse_document svc m =
      search (basic, c.get_document, Guards-enqueue_next, Guards-begin_stage, Guards-finish_parse)

  Guards-chunk_document : (svc : Services) (m : Message) → Guards R order (chunk_document svc m)
  unfolding chunk_document chunk_stage
  Guards-chunk_document svc m =
      search
        (basic, c.get_document, c.set_document, c.replace, Guards-enqueue_next, Guards-begin_stage)
        depth 9

  Guards-embed_chunks :
      (svc : Services) (d : Document) (chunks : List DocumentChunk)
      → Guards R order (embed_chunks svc d chunks)
  unfolding embed_chunks
  Guards-embed_chunks svc d [] = search basic
  Guards-embed_chunks svc d (chunk ∷ chunks) = search (basic, c.set_document)

  Guards-embed_document : (svc : Services) (m : Message) → Guards R order (embed_document svc m)
  unfolding embed_document embed_stage
  Guards-embed_document svc m =
      search (basic, c.get_document, c.list_chunks, Guards-begin_stage, Guards-embed_chunks)

  Guards-remove_document : (svc : Services) (d : Document) → Guards R order (remove_document svc d)
  unfolding remove_document
  Guards-remove_document svc d = search (basic, c.end_delete)

  Guards-delete_found : (svc : Services) (r : Result Document) → Guards R order (delete_found svc r)
  unfolding delete_found delete_stage
  Guards-delete_found svc (ok d) = search (basic, Guards-remove_document)
  Guards-delete_found svc (err no_rows) = search basic
  Guards-delete_found svc (err e) = search basic

  Guards-handle : (t : TaskType) (svc : Services) (m : Message) → Guards R order (handle t svc m)
  unfolding handle delete_document
  Guards-handle TaskType.parse svc m = Guards-parse_document svc m
  Guards-handle TaskType.chunk svc m = Guards-chunk_document svc m
  Guards-handle TaskType.embed svc m = Guards-embed_document svc m
  Guards-handle TaskType.delete svc m = search (basic, c.get_document, Guards-delete_found)

  Guards-note_retry : (t : TaskType) (m : Message) (n : ℕ) → Guards R order (note_retry t m n)
  unfolding note_retry
  Guards-note_retry TaskType.parse m n = search (basic, c.log)
  Guards-note_retry _ m n = search basic

  Guards-after_reset :
      (t : TaskType) (m : Message) (n : ℕ) (r : Result (Unit {0}))
      → Guards R order (after_reset t m n r)
  unfolding after_reset
  Guards-after_reset t m n (ok u) = search (basic, Guards-note_retry)
  Guards-after_reset t m n (err e) = search (basic, c.set_task)

  Guards-reset_document :
      (t : TaskType) (m : Message) (e : Error) (n : ℕ) (s : Option DocumentStatus)
      → Guards R order (reset_document t m e n s)
  unfolding reset_document
  Guards-reset_document t m e n none = search (basic, Guards-note_retry)
  Guards-reset_document t m e n (some s) =
      search (basic, Guards-note_retry, Guards-after_reset, c.reset_document)

  Guards-after_schedule :
      (t : TaskType) (m : Message) (e : Error) (r : Result (Option IndexTask))
      → Guards R order (after_schedule t m e r)
  unfolding after_schedule
  Guards-after_schedule t m e (ok none) = search basic
  Guards-after_schedule t m e (ok (some x)) = Guards-reset_document t m e _ _
  Guards-after_schedule t m e (err x) = search basic

  Guards-schedule_retry :
      (svc : Services) (t : TaskType) (m : Message) (e : Error)
      → Guards R order (schedule_retry svc t m e)
  unfolding schedule_retry
  Guards-schedule_retry svc t m e = search (basic, Guards-after_schedule, c.reschedule)

  Guards-persist_failure :
      (t : TaskType) (m : Message) (e : Error) → Guards R order (persist_failure t m e)
  unfolding persist_failure
  Guards-persist_failure t m e = search (basic, c.set_document, c.set_task)

  Guards-reject :
      (svc : Services) (t : TaskType) (id : String) (e : Error) → Guards R order (reject svc t id e)
  unfolding reject
  Guards-reject svc t id e = search (basic, invalid)
    where
      invalid : (r : Result (Unit {0})) → Guards R order (after_invalid r)
      invalid (ok u) = unfold after_invalid in search basic
      invalid (err e) = unfold after_invalid in search basic

  Guards-nak_later : (n : ℕ) → Guards R order (nak_later n)
  unfolding nak_later
  Guards-nak_later n = search basic

  Guards-after_existing :
      (svc : Services) (r : Result IndexTask) → Guards R order (after_existing svc r)
  unfolding after_existing
  Guards-after_existing svc (ok x) = search (basic, Guards-nak_later)
  Guards-after_existing svc (err e) = Guards-nak_later _

  Guards-after_bury : (svc : Services) (r : Result (Unit {0})) → Guards R order (after_bury svc r)
  unfolding after_bury
  Guards-after_bury svc (ok u) = search basic
  Guards-after_bury svc (err e) = Guards-nak_later _

  Guards-after_persist :
      (svc : Services) (t : TaskType) (m : Message) (e : Error) (r : Result (Unit {0}))
      → Guards R order (after_persist svc t m e r)
  unfolding after_persist
  Guards-after_persist svc t m e (ok u) = search (basic, Guards-after_bury)
  Guards-after_persist svc t m e (err x) = Guards-nak_later _

  Guards-after_failure :
      (svc : Services) (t : TaskType) (m : Message) (e : Error) (b : Bool)
      → Guards R order (after_failure svc t m e b)
  unfolding after_failure give_up
  Guards-after_failure svc t m e true = Guards-nak_later _
  Guards-after_failure svc t m e false =
      search (basic, Guards-persist_failure, Guards-after_persist)

  Guards-after_ack : (r : Result (Unit {0})) → Guards R order (after_ack r)
  unfolding after_ack
  Guards-after_ack (ok u) = search basic
  Guards-after_ack (err e) = search basic

  Guards-after_update :
      (svc : Services) (r : Result (Unit {0})) → Guards R order (after_update svc r)
  unfolding after_update
  Guards-after_update svc (ok u) = search (basic, Guards-after_ack)
  Guards-after_update svc (err e) = Guards-nak_later _

  Guards-after_handler :
      (svc : Services) (t : TaskType) (m : Message) (r : Result (Unit {0}))
      → Guards R order (after_handler svc t m r)
  unfolding after_handler
  Guards-after_handler svc t m (ok u) = search (basic, c.set_task, Guards-after_update)
  Guards-after_handler svc t m (err e) = search (basic, Guards-schedule_retry, Guards-after_failure)

  Guards-after_claim :
      (svc : Services) (t : TaskType) (m : Message) (r : Result Bool)
      → Guards R order (after_claim svc t m r)
  unfolding after_claim
  Guards-after_claim svc t m (ok true) = search (basic, Guards-handle, Guards-after_handler)
  Guards-after_claim svc t m (ok false) = search (basic, c.get_task, Guards-after_existing)
  Guards-after_claim svc t m (err e) = Guards-nak_later _

  -- A delivery keeps to every relation that the repositories' operations keep to.
  pub Guards-run :
      (svc : Services) (t : TaskType) (r : Result Message) → Guards R order (run svc t r)
  unfolding run process
  Guards-run svc t (ok m) = search (basic, c.claim, Guards-after_claim, Guards-reject)
  Guards-run svc t (err e) = Guards-reject svc t _ e
