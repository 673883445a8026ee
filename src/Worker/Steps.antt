-- ===== src/Worker/Steps.antt =====
-- The changes that the workers make to the tables, one for each form of SQL statement.
use enterprise_rag.Prelude.{
  ℕ, String, Bool, true, false, if◌then◌else◌, Option, none, some, List, [], ◌∷◌, Text, ◌≡◌, ◌⊎◌,
  inl, inr, refl,
}
use enterprise_rag.Status.{
  DocumentStatus, deleting, TaskStatus, document_previous_statuses,
  document_retry_previous_statuses, task_previous_statuses,
}
use enterprise_rag.Store.{Db, DocumentChunk, DocumentParseLog, IndexTask}
use enterprise_rag.Exec.{Result}
use enterprise_rag.Exec.Guards.{
  IsPreorder, Guards, Guards-pure, Guards-raise, Guards-bind, Guards-statement, Guards-inside,
  Guards-transaction,
}
use enterprise_rag.Repository.Tasks
use enterprise_rag.Repository.Documents
use enterprise_rag.Repository.Chunks
use enterprise_rag.Worker.Retry.{max_automatic_retries}
use enterprise_rag.Worker.Conduct.{Conduct}

-- `previous` is what one of the two tables of status.go gives for `next`.
abbrev pub IsPrevious : DocumentStatus → List DocumentStatus → Type 0
IsPrevious next previous =
    (document_previous_statuses next ≡ some previous)
    ⊎ (document_retry_previous_statuses next ≡ some previous)

-- `R` allows each change.
pub record Steps (R : Db → Db → Type 0) (order : IsPreorder R) : Type 0 where
  pub status :
      (id : String) (previous : List DocumentStatus) (next : DocumentStatus) (message : Option Text)
      (d : Db)
      → IsPrevious next previous
      → R d (
          Documents.update_documents
            (Documents.live_with_status id previous)
            (Documents.status_set next message)
            d)
  pub parsed :
      (id : String) (plain_text metadata : Text) (d : Db)
      → R d (
          Documents.update_documents
            (Documents.live_with_status id (DocumentStatus.parsing ∷ []))
            (Documents.parse_completed plain_text metadata)
            d)
  pub deleted :
      (id : String) (now : ℕ) (d : Db)
      → R d (
          Documents.update_documents
            (Documents.live_with_status id (deleting ∷ []))
            (λ row. record row { deleted_at = some now })
            d)
  pub logs : (d : Db) (ls : List DocumentParseLog) → R d (record d { parse_logs = ls })
  pub chunks : (d : Db) (cs : List DocumentChunk) → R d (record d { chunks = cs })
  pub task_status :
      (id : String) (previous : List TaskStatus) (next : TaskStatus) (message : Text) (d : Db)
      → task_previous_statuses next ≡ some previous
      → R d (Tasks.update_tasks (Tasks.has_status_in id previous) (Tasks.status_set next message) d)
  pub claimed :
      (id : String) (lease now : ℕ) (d : Db)
      → R d (Tasks.update_tasks (Tasks.can_claim id now) (Tasks.claimed lease now) d)
  pub rescheduled :
      (id : String) (d : Db)
      → R d (Tasks.update_tasks (Tasks.can_reschedule id max_automatic_retries) Tasks.rescheduled d)
  pub create :
      (new_sha1 : String → String) (task : IndexTask) → Guards R order (Tasks.create new_sha1 task)

module _ {R : Db → Db → Type 0} {order : IsPreorder R} (s : Steps R order) where
  write_document :
      (o : Option (List DocumentStatus)) (id : String) (next : DocumentStatus)
      (message : Option Text)
      → ((previous : List DocumentStatus) → o ≡ some previous → IsPrevious next previous)
      → Guards R order (Documents.write_status o id next message)
  unfolding Documents.write_status
  write_document none id next message h = Guards-raise _
  write_document (some previous) id next message h =
      Guards-statement R order _ (λ now d. s.status id previous next message d (h previous refl))

  write_task :
      (o : Option (List TaskStatus)) (id : String) (next : TaskStatus) (message : Text)
      → ((previous : List TaskStatus)
          → o ≡ some previous
          → task_previous_statuses next ≡ some previous)
      → Guards R order (Tasks.write_status o id next message)
  unfolding Tasks.write_status
  write_task none id next message h = Guards-raise _
  write_task (some previous) id next message h =
      Guards-statement R order _
        (λ now d. s.task_status id previous next message d (h previous refl))

  unless_known :
      (known : Bool) (d : Db) (cs : List DocumentChunk) (a b : Result (Unit {0}))
      → let result : Result (Unit {0}) × Db =
          if known then (a, d) else (b, record d { chunks = cs }) in
        R d result.1
  unless_known true d cs a b = order.reflexive d
  unless_known false d cs a b = s.chunks d cs

  Guards-insert_chunks : (cs : List DocumentChunk) → Guards R order (Chunks.insert_chunks cs)
  unfolding Chunks.insert_chunks Chunks.insert_chunk
  Guards-insert_chunks [] = Guards-pure _
  Guards-insert_chunks (c ∷ cs) =
      Guards-bind _ _ (Guards-inside R order _ (λ now d. unless_known _ d _ _ _))
        (λ u. Guards-insert_chunks cs)

  Guards-replace : (cs : List DocumentChunk) → Guards R order (Chunks.replace_by_document cs)
  unfolding Chunks.replace_by_document Chunks.remove_chunks
  Guards-replace [] = Guards-pure _
  Guards-replace (c ∷ cs) = Guards-transaction R order _ (
      Guards-bind _ _ (Guards-inside R order _ (λ now d. s.chunks d _))
        (λ u. Guards-insert_chunks (c ∷ cs)))

  Guards-complete_delete : (id : String) → Guards R order (Documents.complete_delete id)
  unfolding Documents.complete_delete
  Guards-complete_delete id = Guards-transaction R order _ (
      Guards-bind _ _ (Guards-inside R order _ (λ now d. s.chunks d _))
        (λ u. Guards-inside R order _ (λ now d. s.deleted id now d)))

  -- What each change allows, the operations of the repositories keep to.
  pub Conduct-Steps : Conduct R order
  unfolding Documents.get_by_id Documents.update_status Documents.reset_status_for_retry
      Documents.complete_parse Documents.add_parse_log Tasks.get_by_id Tasks.claim
      Tasks.update_status Tasks.schedule_retry Chunks.list_by_document
  Conduct-Steps = record {
    get_document = λ id. Guards-statement R order _ (λ now. order.reflexive);
    set_document = λ id next message. write_document _ id next _ (λ previous. inl);
    reset_document = λ id next. write_document _ id next _ (λ previous. inr);
    end_parse = λ id t m. Guards-statement R order _ (λ now. s.parsed id t m);
    log = λ l. Guards-statement R order _ (λ now d. s.logs d _);
    end_delete = Guards-complete_delete;
    create = s.create;
    get_task = λ id. Guards-statement R order _ (λ now. order.reflexive);
    claim = λ id lease. Guards-statement R order _ (λ now. s.claimed id lease now);
    set_task = λ id next message. write_task _ id next message (λ previous e. e);
    reschedule = λ id. Guards-statement R order _ (λ now. s.rescheduled id);
    replace = Guards-replace;
    list_chunks = λ id. Guards-statement R order _ (λ now. order.reflexive);
  }
