-- ===== src/Subjects/Isolation.antt =====
-- The requests about knowledge bases touch no rows of other users.
use enterprise_rag.Prelude.{
  ℕ, String, Bool, true, some, List, Text, ◌≡◌, ◌⊎◌, inl, inr, refl, ◌∙◌, arith, str_eq, str_eq_iff,
  any_of, count_of, Bool-cases, ◌==◌,
}
use enterprise_rag.Store.{Db, Subject, Document, DocumentChunk, update_rows}
use enterprise_rag.Store.Evolution.{
  Evolves, Evolves-refl, Evolves-append, Evolves-update, Evolves-trans,
}
use enterprise_rag.Exec.{Result, ok}
use enterprise_rag.Exec.Guards.{IsPreorder}
use enterprise_rag.Repository.Rows.{is_null}
use enterprise_rag.Repository.Subjects
use enterprise_rag.Repository.Subjects.{User}

-- A row stays as it is, or it is a row of the user that was not deleted.
abbrev pub Kept : {A : Type 0} → (A → Type 0) → (A → Bool) → A → A → Type 0
Kept mine live a b = (a ≡ b) ⊎ (mine a × (live a ≡ true) × mine b)

module _ {A : Type 0} (mine : A → Type 0) (live : A → Bool) where
  Kept-refl : (a : A) → Kept mine live a a
  Kept-refl a = inl refl

  Kept-trans : (a b c : A) → Kept mine live a b → Kept mine live b c → Kept mine live a c
  Kept-trans a b c (inl e) k = rw e k
  Kept-trans a b c (inr h) (inl e) = rw (← e) (inr h)
  Kept-trans a b c (inr h) (inr k) = inr (h.0, h.1, k.2)

  -- The rows of a table that a statement with the test `test` changes.
  update_rows-Kept :
      (test : A → Bool) (set : A → A)
      → ((a : A) → test a ≡ true → mine a × (live a ≡ true) × mine (set a))
      → (rows : List A) → Evolves (Kept mine live) rows (update_rows test set rows)
  update_rows-Kept test set h rows =
      Evolves-update (Kept mine live) Kept-refl test set (λ a k. inr (h a k)) rows

-- The user who asks has this id and this tenant.
abbrev pub Asks : Result User → String → String → Type 0
Asks who id tenant_id = who ≡ ok (record { id = id; tenant_id = tenant_id })

abbrev pub SubjectKept : Result User → Subject → Subject → Type 0
SubjectKept who =
    Kept (λ (s : Subject). Asks who s.owner_id s.tenant_id) (λ (s : Subject). is_null s.deleted_at)

abbrev pub DocumentKept : Result User → Document → Document → Type 0
DocumentKept who =
    Kept (λ (d : Document). Asks who d.user_id d.tenant_id) (λ (d : Document). is_null d.deleted_at)

abbrev pub ChunkKept : Result User → DocumentChunk → DocumentChunk → Type 0
ChunkKept who =
    Kept (λ (c : DocumentChunk). Asks who c.user_id c.tenant_id)
      (λ (c : DocumentChunk). is_null c.deleted_at)

pub record Isolated (who : Result User) (d d' : Db) : Type 0 where
  pub subjects : Evolves (SubjectKept who) d.subjects d'.subjects
  pub documents : Evolves (DocumentKept who) d.documents d'.documents
  pub chunks : Evolves (ChunkKept who) d.chunks d'.chunks
  pub tasks : d'.tasks ≡ d.tasks
  pub outbox : d'.outbox ≡ d.outbox
  pub runs : d'.runs ≡ d.runs
  pub run_events : d'.run_events ≡ d.run_events

module _ (who : Result User) where
  pub Isolated-refl : (d : Db) → Isolated who d d
  Isolated-refl d = record {
    subjects = Evolves-refl (SubjectKept who) (Kept-refl _ _) d.subjects;
    documents = Evolves-refl (DocumentKept who) (Kept-refl _ _) d.documents;
    chunks = Evolves-refl (ChunkKept who) (Kept-refl _ _) d.chunks;
    tasks = refl;
    outbox = refl;
    runs = refl;
    run_events = refl;
  }

  pub Isolated-trans : (a b c : Db) → Isolated who a b → Isolated who b c → Isolated who a c
  Isolated-trans a b c h k = record {
    subjects =
        Evolves-trans (SubjectKept who) (Kept-trans _ _) a.subjects b.subjects c.subjects h.subjects
          k.subjects;
    documents =
        Evolves-trans (DocumentKept who) (Kept-trans _ _) a.documents b.documents c.documents
          h.documents k.documents;
    chunks =
        Evolves-trans (ChunkKept who) (Kept-trans _ _) a.chunks b.chunks c.chunks h.chunks k.chunks;
    tasks = k.tasks ∙ h.tasks;
    outbox = k.outbox ∙ h.outbox;
    runs = k.runs ∙ h.runs;
    run_events = k.run_events ∙ h.run_events;
  }

  abbrev pub Isolated-order : IsPreorder (Isolated who)
  Isolated-order = record { reflexive = Isolated-refl; transitive = Isolated-trans }

  rows-Isolated :
      (d : Db) (ss : List Subject) (ds : List Document) (cs : List DocumentChunk)
      → Evolves (SubjectKept who) d.subjects ss
      → Evolves (DocumentKept who) d.documents ds
      → Evolves (ChunkKept who) d.chunks cs
      → Isolated who d (record d { subjects = ss; documents = ds; chunks = cs })
  rows-Isolated d ss ds cs h k l = record {
    subjects = h;
    documents = k;
    chunks = l;
    tasks = refl;
    outbox = refl;
    runs = refl;
    run_events = refl;
  }

  with_subjects :
      (d : Db) (rows : List Subject)
      → Evolves (SubjectKept who) d.subjects rows
      → Isolated who d (record d { subjects = rows })
  with_subjects d rows h =
      rows-Isolated d rows d.documents d.chunks h (Isolated-refl d).documents
        (Isolated-refl d).chunks

  module _ (user : User) (asks : who ≡ ok user) where
    Asks-user :
        (id tenant_id : String)
        → str_eq id user.id ≡ true
        → str_eq tenant_id user.tenant_id ≡ true
        → Asks who id tenant_id
    Asks-user id tenant_id h k =
        rw ((str_eq_iff id user.id).0 h, (str_eq_iff tenant_id user.tenant_id).0 k) asks

    owned-Kept :
        (id : String) (s s' : Subject)
        → Subjects.owned user id s ≡ true
        → s'.owner_id ≡ s.owner_id
        → s'.tenant_id ≡ s.tenant_id
        → Asks who s.owner_id s.tenant_id
          × (is_null s.deleted_at ≡ true)
          × Asks who s'.owner_id s'.tenant_id
    unfolding Subjects.owned
    owned-Kept id s s' h e f =
        let mine = Asks-user s.owner_id s.tenant_id (ground arith) (ground arith) in
        (mine, ground arith, rw (e, f) mine)

    pub mark_subject_deleted-Isolated :
        (id : String) (now : ℕ) (d : Db)
        → Isolated who d (Subjects.mark_subject_deleted user id now d).1
    unfolding Subjects.mark_subject_deleted
    mark_subject_deleted-Isolated id now d = with_subjects d _ (
        update_rows-Kept _ _ (Subjects.owned user id) _
          (λ s h. owned-Kept id s (record s { deleted_at = some now }) h refl refl) d.subjects)

    pub mark_documents_deleted-Isolated :
        (id : String) (now : ℕ) (d : Db)
        → Isolated who d (Subjects.mark_documents_deleted user id now d).1
    unfolding Subjects.mark_documents_deleted Subjects.document_in
    mark_documents_deleted-Isolated id now d =
        rows-Isolated d d.subjects _ d.chunks (Isolated-refl d).subjects
          (update_rows-Kept _ _ (Subjects.document_in user id) _ mine d.documents)
          (Isolated-refl d).chunks
      where
        mine :
            (x : Document)
            → Subjects.document_in user id x ≡ true
            → Asks who x.user_id x.tenant_id
              × (is_null x.deleted_at ≡ true)
              × Asks who x.user_id x.tenant_id
        mine x h =
            let own = Asks-user x.user_id x.tenant_id (ground arith) (ground arith) in
            (own, ground arith, own)

    pub mark_chunks_deleted-Isolated :
        (id : String) (now : ℕ) (d : Db)
        → Isolated who d (Subjects.mark_chunks_deleted user id now d).1
    unfolding Subjects.mark_chunks_deleted Subjects.chunk_in
    mark_chunks_deleted-Isolated id now d =
        rows-Isolated d d.subjects d.documents _ (Isolated-refl d).subjects
          (Isolated-refl d).documents
          (update_rows-Kept _ _ (Subjects.chunk_in user id) _ mine d.chunks)
      where
        mine :
            (x : DocumentChunk)
            → Subjects.chunk_in user id x ≡ true
            → Asks who x.user_id x.tenant_id
              × (is_null x.deleted_at ≡ true)
              × Asks who x.user_id x.tenant_id
        mine x h =
            let own = Asks-user x.user_id x.tenant_id (ground arith) (ground arith) in
            (own, ground arith, own)

    pub update_subject-Isolated :
        (lower : Text → Text) (id : String) (subject : Subject) (now : ℕ) (d : Db)
        → Isolated who d (Subjects.update_subject lower user id subject now d).1
    unfolding Subjects.update_subject Subjects.renamed
    update_subject-Isolated lower id subject now d =
        let none_owned = count_of (Subjects.owned user id) d.subjects == 0 in
        let taken = any_of (Subjects.same_name lower id user.id subject.name) d.subjects in
        elim (Bool-cases none_owned) [
          | inl e ↦ rw e (Isolated-refl d)
          | inr e ↦ rw e (elim (Bool-cases taken) [
            | inl f ↦ rw f (Isolated-refl d)
            | inr f ↦ rw f (
                with_subjects d _ (
                  update_rows-Kept _ _ (Subjects.owned user id) (Subjects.renamed subject)
                    (λ s h. owned-Kept id s (Subjects.renamed subject s) h refl refl) d.subjects))
          ])
        ]

  pub insert_subject-Isolated :
      (lower : Text → Text) (subject : Subject) (now : ℕ) (d : Db)
      → Isolated who d (Subjects.insert_subject lower subject now d).1
  unfolding Subjects.insert_subject
  insert_subject-Isolated lower subject now d =
      let known = any_of (λ (row : Subject). str_eq row.id subject.id) d.subjects in
      let taken =
        any_of (Subjects.same_name lower subject.id subject.owner_id subject.name) d.subjects in
      elim (Bool-cases known) [
        | inl e ↦ rw e (Isolated-refl d)
        | inr e ↦ rw e (elim (Bool-cases taken) [
          | inl f ↦ rw f (Isolated-refl d)
          | inr f ↦
              rw f
                (with_subjects d _ (Evolves-append (SubjectKept who) (Kept-refl _ _) d.subjects _))
        ])
      ]
