-- ===== src/Users/Foreign.antt =====
-- The requests of a user do not change what belongs to others.
use enterprise_rag.Prelude.{
  ℕ, str_eq, str_eq_iff, String, Bool, true, false, Option, none, some, List, [], ◌∷◌, ◌++◌, All,
  ◌≡◌, ◌≢◌, refl, sym, ap, ◌∙◌, arith, any_of, if◌then◌else◌,
}
use enterprise_rag.Runes.{trim_id}
use enterprise_rag.Status.{DocumentStatus}
use enterprise_rag.Store.{Db, Document, IndexTask, update_rows}
use enterprise_rag.Store.Evolution.{
  Evolves, Evolves-refl, Evolves-trans, Evolves-append, Evolves-update,
}
use enterprise_rag.Exec.{Result, ok, err, World, lift, ◌>>=◌}
use enterprise_rag.Exec.Guards.{
  IsPreorder, Rely, Guards, Guards-pure, Guards-raise, Guards-lift, Guards-attempt, Guards-if,
  Guards-bind, Guards-bind_lift, Guards-statement, Guards-inside, Guards-transaction,
}
use enterprise_rag.Exec.Returns.{ok-injective}
use enterprise_rag.Repository.Rows.{duplicate_key}
use enterprise_rag.Repository.Outbox
use enterprise_rag.Repository.Tasks
use enterprise_rag.Repository.Documents
use enterprise_rag.Repository.Subjects.{User}
use enterprise_rag.Users.Requests.{
  Desk, delete_task_of, document_delete, delete_vectors, document_clear_failed, retry_error,
  index_task_retry, DocumentRequest, request,
}

-- The row of another user does not change.
abbrev pub DocumentKept : String → Document → Document → Type 0
DocumentKept user_id x x' = x.user_id ≢ user_id → x' ≡ x

abbrev pub TaskKept : String → IndexTask → IndexTask → Type 0
TaskKept user_id t t' = t.user_id ≢ user_id → t' ≡ t

-- No row of a document or a task is lost, and none of another user changes.
abbrev pub KeepsForeign : String → Db → Db → Type 0
KeepsForeign user_id d d' =
    Evolves (DocumentKept user_id) d.documents d'.documents
    × Evolves (TaskKept user_id) d.tasks d'.tasks

module _ (user_id : String) where
  document_trans :
      (x y z : Document)
      → DocumentKept user_id x y
      → DocumentKept user_id y z
      → DocumentKept user_id x z
  document_trans x y z p q other =
      let e = p other in q (λ own. other (ap (λ (v : Document). v.user_id) (sym e) ∙ own)) ∙ e

  task_trans :
      (x y z : IndexTask) → TaskKept user_id x y → TaskKept user_id y z → TaskKept user_id x z
  task_trans x y z p q other =
      let e = p other in q (λ own. other (ap (λ (v : IndexTask). v.user_id) (sym e) ∙ own)) ∙ e

  documents_same : (xs : List Document) → Evolves (DocumentKept user_id) xs xs
  documents_same xs = Evolves-refl (DocumentKept user_id) (λ x h. refl) xs

  tasks_same : (ts : List IndexTask) → Evolves (TaskKept user_id) ts ts
  tasks_same ts = Evolves-refl (TaskKept user_id) (λ t h. refl) ts

  pub KeepsForeign-order : IsPreorder (KeepsForeign user_id)
  KeepsForeign-order = record {
    reflexive = λ d. (documents_same d.documents, tasks_same d.tasks);
    transitive = λ a b c p q. (
      Evolves-trans (DocumentKept user_id) document_trans _ _ _ p.0 q.0,
      Evolves-trans (TaskKept user_id) task_trans _ _ _ p.1 q.1,
    );
  }

  abbrev Keeps : {A : Type 0} → (World → Result A × World) → Type 0
  Keeps m = Guards (KeepsForeign user_id) KeepsForeign-order m

  -- An update of the user's documents, or of the user's tasks.
  documents_updated :
      (test : Document → Bool) (set : Document → Document) (d : Db)
      → ((x : Document) → test x ≡ true → x.user_id ≡ user_id)
      → KeepsForeign user_id d (record d { documents = update_rows test set d.documents })
  documents_updated test set d own = (
    Evolves-update (DocumentKept user_id) (λ x h. refl) test set
        (λ x h other. absurd (other (own x h))) d.documents,
    tasks_same d.tasks,
  )

  tasks_updated :
      (test : IndexTask → Bool) (set : IndexTask → IndexTask) (d : Db)
      → ((t : IndexTask) → test t ≡ true → t.user_id ≡ user_id)
      → KeepsForeign user_id d (record d { tasks = update_rows test set d.tasks })
  tasks_updated test set d own = (
    documents_same d.documents,
    Evolves-update (TaskKept user_id) (λ t h. refl) test set (λ t h other. absurd (other (own t h)))
        d.tasks,
  )

  task_inserted :
      (task : IndexTask) (now : ℕ) (d : Db)
      → KeepsForeign user_id d (Tasks.insert_task task now d).1
  unfolding Tasks.insert_task
  task_inserted task now d = go (any_of (λ row. str_eq row.id task.id) d.tasks)
    where
      go :
          (known : Bool)
          → let r : Result (Unit {0}) × Db =
              if known
              then (err duplicate_key, d)
              else (ok tt, record d { tasks = d.tasks ++ Tasks.stored task ∷ [] }) in
            KeepsForeign user_id d r.1
      go true = KeepsForeign-order.reflexive d
      go false =
          (documents_same d.documents, Evolves-append (TaskKept user_id) (λ t h. refl) d.tasks _)

  Guards-announce :
      (f : String → String) (task : IndexTask) (reset : Bool)
      → Keeps (Outbox.enqueue_outbox f task reset)
  unfolding Outbox.enqueue_outbox Outbox.enqueue
  Guards-announce f task reset =
      Guards-inside _ _ _ (λ now d. (documents_same d.documents, tasks_same d.tasks))

  delete_own :
      (id : String) (previous : List DocumentStatus) (x : Document)
      → Documents.owned_with_status id user_id previous x ≡ true
      → x.user_id ≡ user_id
  unfolding Documents.owned_with_status
  delete_own id previous x h = (str_eq_iff x.user_id user_id).0 (ground arith)

  Guards-delete :
      (f : String → String) (o : Option (List DocumentStatus)) (id : String) (task : IndexTask)
      → Keeps (Documents.delete_steps f o id user_id task)
  unfolding Documents.delete_steps Documents.start_delete Documents.update_documents
  Guards-delete f none id task = Guards-raise _
  Guards-delete f (some previous) id task = Guards-transaction _ _ _ (
      Guards-bind _ _
        (Guards-inside _ _ _ (λ now d. documents_updated _ _ d (delete_own id previous)))
        (λ u.
          Guards-bind _ _ (Guards-inside _ _ _ (task_inserted _))
            (λ v. Guards-announce f task false)))

  Guards-get : (id : String) → Keeps (Documents.get_by_id_for_user id user_id)
  unfolding Documents.get_by_id_for_user Documents.get_by_id
  Guards-get id =
      Guards-bind _ _ (Guards-statement _ _ _ (λ now. KeepsForeign-order.reflexive))
        (λ x. Guards-if (str_eq x.user_id user_id) _ _ (λ e. Guards-pure x) (λ e. Guards-raise _))

  revive_own :
      (id : String) (t : IndexTask) → Tasks.can_revive id user_id t ≡ true → t.user_id ≡ user_id
  unfolding Tasks.can_revive
  revive_own id t h = (str_eq_iff t.user_id user_id).0 (ground arith)

  reopen_own :
      (id : String) (previous : List DocumentStatus) (x : Document)
      → Tasks.can_reopen id user_id previous x ≡ true
      → x.user_id ≡ user_id
  unfolding Tasks.can_reopen
  reopen_own id previous x h = (str_eq_iff x.user_id user_id).0 (ground arith)

  Guards-reopen :
      (o : Option (List DocumentStatus)) (task : IndexTask) (s : DocumentStatus)
      → Keeps (Tasks.reopen o user_id task s)
  unfolding Tasks.reopen Tasks.reopen_document
  Guards-reopen none task s = Guards-raise _
  Guards-reopen (some previous) task s =
      Guards-inside _ _ _ (λ now d. documents_updated _ _ d (reopen_own task.doc_id previous))

  Guards-retry : (f : String → String) (id : String) → Keeps (Tasks.retry f id user_id)
  unfolding Tasks.retry Tasks.retry_steps Tasks.revive_task Tasks.update_tasks
  Guards-retry f id = Guards-transaction _ _ _ (
      Guards-bind _ _ (Guards-inside _ _ _ (λ now d. tasks_updated _ _ d (revive_own id))) (λ task.
        Guards-bind _ _ (Guards-reopen _ task _)
          (λ u. Guards-bind _ _ (Guards-announce f task true) (λ v. Guards-pure _))))

  failed_own : (x : Document) → Documents.active_failed user_id x ≡ true → x.user_id ≡ user_id
  unfolding Documents.active_failed
  failed_own x h = (str_eq_iff x.user_id user_id).0 (ground arith)

  Guards-clear : Keeps (Documents.clear_failed_by_user user_id)
  unfolding Documents.clear_failed_by_user Documents.chunks_of_failed Documents.delete_chunks
      Documents.documents_of_failed Documents.update_documents
  Guards-clear = Guards-transaction _ _ _ (
      Guards-bind _ _
        (Guards-inside _ _ _ (λ now d. (documents_same d.documents, tasks_same d.tasks)))
        (λ u. Guards-inside _ _ _ (λ now d. documents_updated _ _ d failed_own)))

module _ (desk : Desk) (user : User) (known : desk.current_user ≡ ok user) where
  -- What follows the current user.
  Guards-user :
      {B : Type 0} (f : User → World → Result B × World)
      → Keeps user.id (f user)
      → Keeps user.id (lift desk.current_user >>= f)
  Guards-user f g =
      Guards-bind_lift desk.current_user f
        (λ v e. let same : user ≡ v = ok-injective user v (sym known ∙ e) in rw (← same) g)

  Guards-document_delete : (id : String) → Keeps user.id (document_delete desk id)
  unfolding document_delete Documents.create_delete_task
  Guards-document_delete id = Guards-user _ (
      Guards-bind _ _ (Guards-get user.id (trim_id id)) (λ document.
        Guards-bind _ _
          (Guards-delete user.id desk.new_sha1 _ document.id (delete_task_of desk user document))
          (λ u. Guards-pure _)))

  Guards-document_clear_failed : Keeps user.id (document_clear_failed desk)
  unfolding document_clear_failed Documents.list_active_failed_ids
  Guards-document_clear_failed = Guards-user _ (
      Guards-bind _ _ (Guards-statement _ _ _ (λ now. (KeepsForeign-order user.id).reflexive))
        (λ ids.
          Guards-bind _ _ (Guards-lift (delete_vectors desk user ids)) (λ u. Guards-clear user.id)))

  Guards-index_task_retry : (id : String) → Keeps user.id (index_task_retry desk id)
  unfolding index_task_retry
  Guards-index_task_retry id = Guards-user _ (
      Guards-bind _ _ (Guards-attempt _ (Guards-retry user.id desk.new_sha1 (trim_id id)))
        (λ r. Guards-lift (retry_error r)))

  -- A request to delete a document, to retry a task, or to clear the failed documents changes no
  -- document and no task of another user than the current one, and loses no row of either table,
  -- whatever fails, as long as the other processes do neither meanwhile.
  pub request-KeepsForeign :
      (r : DocumentRequest) (w : World)
      → All (Rely (KeepsForeign user.id)) w.turns
      → KeepsForeign user.id w.db (request desk r w).db
  request-KeepsForeign (DocumentRequest.delete_document id) w h =
      ((Guards-document_delete id).at w h).0
  request-KeepsForeign (DocumentRequest.retry_task id) w h = ((Guards-index_task_retry id).at w h).0
  request-KeepsForeign DocumentRequest.clear_failed w h = (Guards-document_clear_failed.at w h).0
