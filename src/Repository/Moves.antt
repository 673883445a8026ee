-- ===== src/Repository/Moves.antt =====
-- How documents and tasks may change: along the diagrams, row by row.
use enterprise_rag.Prelude.{ℕ, ◌≤◌, String, true, some, List, ◌≡◌, refl, ap, ◌∙◌, ◌⊎◌, arith}
use enterprise_rag.Status.{
  DocumentStatus, TaskStatus, document_any, same_task, task_previous_statuses,
}
use enterprise_rag.Status.Diagram
use enterprise_rag.Status.Diagram.{
  ◌⟶◌, ◌⟶*◌, ◌⟹◌, ◌⟹*◌, previous-⟶, retry_previous-⟶, previous-⟹, ⟶*-trans, ⟹*-trans,
}
use enterprise_rag.Store.{Db, Document, IndexTask}
use enterprise_rag.Store.Evolution.{Evolves, Evolves-refl, Evolves-trans}
use enterprise_rag.Exec.Guards.{IsPreorder}
use enterprise_rag.Repository.Rows.{is_null}
use enterprise_rag.Repository.Tasks
use enterprise_rag.Repository.Documents

-- A document keeps its id and its owners, its status follows the diagram, and once it is deleted
-- nothing of it changes.
pub record DocumentMoves (d d' : Document) : Type 0 where
  pub same_id : d'.id ≡ d.id
  pub same_tenant : d'.tenant_id ≡ d.tenant_id
  pub same_user : d'.user_id ≡ d.user_id
  pub path : d.status ⟶* d'.status
  pub deleted_stays : (t : ℕ) → d.deleted_at ≡ some t → d' ≡ d

-- A task keeps its id, its document and its owners, its status follows the diagram, and the
-- number of its retries does not fall.
pub record TaskMoves (t t' : IndexTask) : Type 0 where
  pub same_id : t'.id ≡ t.id
  pub same_document : t'.doc_id ≡ t.doc_id
  pub same_tenant : t'.tenant_id ≡ t.tenant_id
  pub same_user : t'.user_id ≡ t.user_id
  pub path : t.status ⟹* t'.status
  pub retries_grow : t.retry_count ≤ t'.retry_count

pub DocumentMoves-refl : (d : Document) → DocumentMoves d d
DocumentMoves-refl d = record {
  same_id = refl;
  same_tenant = refl;
  same_user = refl;
  path = Diagram.◌⟶*◌.here;
  deleted_stays = λ t h. refl;
}

DocumentMoves-trans : (a b c : Document) → DocumentMoves a b → DocumentMoves b c → DocumentMoves a c
DocumentMoves-trans a b c p q = record {
  same_id = q.same_id ∙ p.same_id;
  same_tenant = q.same_tenant ∙ p.same_tenant;
  same_user = q.same_user ∙ p.same_user;
  path = ⟶*-trans p.path q.path;
  deleted_stays = λ t h.
      let e = p.deleted_stays t h in
      q.deleted_stays t (ap (λ (x : Document). x.deleted_at) e ∙ h) ∙ e;
}

pub TaskMoves-refl : (t : IndexTask) → TaskMoves t t
TaskMoves-refl t = record {
  same_id = refl;
  same_document = refl;
  same_tenant = refl;
  same_user = refl;
  path = Diagram.◌⟹*◌.here;
  retries_grow = omega arith;
}

TaskMoves-trans : (a b c : IndexTask) → TaskMoves a b → TaskMoves b c → TaskMoves a c
TaskMoves-trans a b c p q = record {
  same_id = q.same_id ∙ p.same_id;
  same_document = q.same_document ∙ p.same_document;
  same_tenant = q.same_tenant ∙ p.same_tenant;
  same_user = q.same_user ∙ p.same_user;
  path = ⟹*-trans p.path q.path;
  retries_grow = omega arith;
}

-- Both tables, row by row; new rows come behind the old ones.
pub record Progress (d d' : Db) : Type 0 where
  pub documents : Evolves DocumentMoves d.documents d'.documents
  pub tasks : Evolves TaskMoves d.tasks d'.tasks

pub Progress-order : IsPreorder Progress
Progress-order = record {
  reflexive = λ d. record {
    documents = Evolves-refl DocumentMoves DocumentMoves-refl d.documents;
    tasks = Evolves-refl TaskMoves TaskMoves-refl d.tasks;
  };
  transitive = λ a b c p q. record {
    documents = Evolves-trans DocumentMoves DocumentMoves-trans _ _ _ p.documents q.documents;
    tasks = Evolves-trans TaskMoves TaskMoves-trans _ _ _ p.tasks q.tasks;
  };
}

-- A live document moves along an edge.
pub live_moves :
    (id : String) (previous : List DocumentStatus) (d d' : Document)
    → Documents.live_with_status id previous d ≡ true
    → (document_any d.status previous ≡ true → d.status ⟶ d'.status)
    → d'.id ≡ d.id
    → d'.tenant_id ≡ d.tenant_id
    → d'.user_id ≡ d.user_id
    → DocumentMoves d d'
unfolding Documents.live_with_status
live_moves id previous d d' h edge i t u = record {
  same_id = i;
  same_tenant = t;
  same_user = u;
  path = Diagram.◌⟶*◌.then Diagram.◌⟶*◌.here (edge (ground arith));
  deleted_stays = λ at e. absurd (live at e);
}
  where
    live : (at : ℕ) → d.deleted_at ≡ some at → ⊥
    live at e = ground arith

-- A document that is not deleted yet is deleted.
pub ended_moves :
    (now : ℕ) (d : Document)
    → is_null d.deleted_at ≡ true
    → DocumentMoves d (record d { deleted_at = some now })
ended_moves now d h = record {
  same_id = refl;
  same_tenant = refl;
  same_user = refl;
  path = Diagram.◌⟶*◌.here;
  deleted_stays = λ at e. absurd (live at e);
}
  where
    live : (at : ℕ) → d.deleted_at ≡ some at → ⊥
    live at e = ground arith

pub deleted_moves :
    (id : String) (previous : List DocumentStatus) (now : ℕ) (d : Document)
    → Documents.live_with_status id previous d ≡ true
    → DocumentMoves d (record d { deleted_at = some now })
unfolding Documents.live_with_status
deleted_moves id previous now d h = ended_moves now d (ground arith)

pub task_moves :
    (t t' : IndexTask)
    → t.status ⟹ t'.status
    → t'.id ≡ t.id
    → t'.doc_id ≡ t.doc_id
    → t'.tenant_id ≡ t.tenant_id
    → t'.user_id ≡ t.user_id
    → t.retry_count ≤ t'.retry_count
    → TaskMoves t t'
task_moves t t' e i d n u r = record {
  same_id = i;
  same_document = d;
  same_tenant = n;
  same_user = u;
  path = Diagram.◌⟹*◌.then Diagram.◌⟹*◌.here e;
  retries_grow = r;
}

pub status_edge :
    (id : String) (previous : List TaskStatus) (next : TaskStatus) (t : IndexTask)
    → task_previous_statuses next ≡ some previous
    → Tasks.has_status_in id previous t ≡ true
    → t.status ⟹ next
unfolding Tasks.has_status_in
status_edge id previous next t e h = previous-⟹ t.status next previous e (ground arith)

pub claim_edge :
    (id : String) (now : ℕ) (t : IndexTask)
    → Tasks.can_claim id now t ≡ true
    → t.status ⟹ TaskStatus.running
unfolding Tasks.can_claim same_task
claim_edge id now t h = claim_from t.status (ground arith)
  where
    claim_from :
        (s : TaskStatus)
        → (s ≡ TaskStatus.pending) ⊎ (s ≡ TaskStatus.running)
        → s ⟹ TaskStatus.running
    claim_from TaskStatus.pending e = Diagram.◌⟹◌.claim
    claim_from TaskStatus.running e = Diagram.◌⟹◌.reclaim
    claim_from s e = absurd (ground arith)

pub requeue_edge :
    (id : String) (n : ℕ) (t : IndexTask)
    → Tasks.can_reschedule id n t ≡ true
    → t.status ⟹ TaskStatus.pending
unfolding Tasks.can_reschedule same_task
requeue_edge id n t h = from t.status (ground arith)
  where
    from :
        (s : TaskStatus)
        → (s ≡ TaskStatus.running) ⊎ (s ≡ TaskStatus.failed)
        → s ⟹ TaskStatus.pending
    from TaskStatus.running e = Diagram.◌⟹◌.requeue
    from TaskStatus.failed e = Diagram.◌⟹◌.revive
    from s e = absurd (ground arith)

pub with_documents :
    (d : Db) (rows : List Document)
    → Evolves DocumentMoves d.documents rows
    → Progress d (record d { documents = rows })
with_documents d rows h = record {
  documents = h;
  tasks = Evolves-refl TaskMoves TaskMoves-refl d.tasks;
}

pub with_tasks :
    (d : Db) (rows : List IndexTask)
    → Evolves TaskMoves d.tasks rows
    → Progress d (record d { tasks = rows })
with_tasks d rows h = record {
  documents = Evolves-refl DocumentMoves DocumentMoves-refl d.documents;
  tasks = h;
}

-- Tables of other kinds are free.
pub untouched : (d d' : Db) → d'.documents ≡ d.documents → d'.tasks ≡ d.tasks → Progress d d'
untouched d d' e f = record {
  documents = rw e (Evolves-refl DocumentMoves DocumentMoves-refl d.documents);
  tasks = rw f (Evolves-refl TaskMoves TaskMoves-refl d.tasks);
}
