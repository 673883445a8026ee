-- ===== src/Subjects/Deletion.antt =====
-- A knowledge base that its owner deletes is gone.
use enterprise_rag.Prelude.{
  ℕ, String, Bool, true, false, some, List, [], ◌∷◌, ◌++◌, All, ◌≡◌, refl, ap, ◌∙◌, arith, str_eq,
  any_of, count_of, Bool-cases, inl, inr,
}
use enterprise_rag.Store.{Db, Subject, Document, DocumentChunk, update_rows}
use enterprise_rag.Store.Lookup.{count_of-one, update_rows-one}
use enterprise_rag.Exec.{ok, World, quiet, lift, attempt, transaction, statement, inside, ◌>>=◌}
use enterprise_rag.Exec.Atomic.{bind_eq}
use enterprise_rag.Runes.{trim_id}
use enterprise_rag.Repository.Rows.{is_null}
use enterprise_rag.Repository.Subjects
use enterprise_rag.Repository.Subjects.{User}
use enterprise_rag.Subjects.{Surroundings, delete_present, subject_delete}

-- No user can read the knowledge base, and the owner has no document or chunk in it.
pub record IsGone (user : User) (id : String) (d : Db) : Type 0 where
  pub unread : (other : User) → any_of (Subjects.accessible other id) d.subjects ≡ false
  pub documents : count_of (Subjects.document_in user id) d.documents ≡ 0
  pub chunks : count_of (Subjects.chunk_in user id) d.chunks ≡ 0

count_of-update_rows :
    {A : Type 0} (test : A → Bool) (set : A → A)
    → ((a : A) → test (set a) ≡ false)
    → (rows : List A) → count_of test (update_rows test set rows) ≡ 0
count_of-update_rows test set h [] = refl
count_of-update_rows test set h (a ∷ rows) = elim (Bool-cases (test a)) [
  | inl hit ↦ rw (hit, h a) (omega (arith, count_of-update_rows test set h rows))
  | inr miss ↦ rw (miss, miss) (omega (arith, count_of-update_rows test set h rows))
]

-- The rows other than the knowledge base's.
abbrev pub Others : String → List Subject → Type 0
Others id = All (λ (s : Subject). str_eq s.id id ≡ false)

not_owned :
    (user : User) (id : String) (rows : List Subject)
    → Others id rows
    → All (λ s. Subjects.owned user id s ≡ false) rows
unfolding Subjects.owned
not_owned user id [] h = tt
not_owned user id (s ∷ rows) h = (rw h.0 refl, not_owned user id rows h.1)

unread-rows :
    (other : User) (id : String) (before : List Subject) (s : Subject) (after : List Subject)
    → Others id before
    → Others id after
    → is_null s.deleted_at ≡ false
    → any_of (Subjects.accessible other id) (before ++ s ∷ after) ≡ false
unfolding Subjects.accessible Subjects.readable
unread-rows other id [] s [] h k gone = ground arith
unread-rows other id [] s (x ∷ after) h k gone =
    ground (arith, unread-rows other id [] s after h k.1 gone)
unread-rows other id (x ∷ before) s after h k gone =
    rw h.0 (unread-rows other id before s after h.1 k gone)

-- What a deletion leaves.
abbrev deleted_db : User → String → ℕ → Db → Db
deleted_db user id now d =
    let marked = (Subjects.mark_subject_deleted user id now d).1 in
    let emptied = (Subjects.mark_documents_deleted user id now marked).1 in
    (Subjects.mark_chunks_deleted user id now emptied).1

soft_delete-quiet :
    (user : User) (id : String) (w : World)
    → count_of (Subjects.owned user id) w.db.subjects ≡ 1
    → Subjects.soft_delete_by_owner user id (quiet w)
      ≡ (ok true, quiet (record w { db = deleted_db user id w.now w.db }))
unfolding Subjects.soft_delete_by_owner Subjects.delete_rows Subjects.mark_subject_deleted attempt
    Subjects.mark_documents_deleted Subjects.mark_chunks_deleted transaction statement inside ◌>>=◌
soft_delete-quiet user id w h = rw h refl

deletion-quiet :
    (env : Surroundings) (user : User) (id : String) (w : World)
    → env.current_user ≡ ok user
    → env.delete_by_subject user.id id ≡ ok tt
    → count_of (Subjects.owned user id) w.db.subjects ≡ 1
    → delete_present env id (quiet w)
      ≡ (ok true, quiet (record w { db = deleted_db user id w.now w.db }))
deletion-quiet env user id w asks milvus one =
    bind_eq (lift env.current_user) _ user (quiet w) (quiet w)
      (unfold lift in ap (λ r. (r, quiet w)) asks)
    ∙ bind_eq (lift (env.delete_by_subject user.id id)) _ tt (quiet w) (quiet w)
        (unfold lift in ap (λ r. (r, quiet w)) milvus)
    ∙ soft_delete-quiet user id w one

request-quiet :
    (env : Surroundings) (user : User) (id : String) (w : World)
    → env.current_user ≡ ok user
    → env.delete_by_subject user.id (trim_id id) ≡ ok tt
    → str_eq (trim_id id) "" ≡ false
    → count_of (Subjects.owned user (trim_id id)) w.db.subjects ≡ 1
    → subject_delete env id (quiet w)
      ≡ (ok true, quiet (record w { db = deleted_db user (trim_id id) w.now w.db }))
unfolding subject_delete
request-quiet env user id w asks milvus named one =
    rw named (deletion-quiet env user (trim_id id) w asks milvus one)

deleted_db-IsGone :
    (user : User) (id : String) (now : ℕ) (d : Db) (before : List Subject) (s : Subject)
    (after : List Subject)
    → d.subjects ≡ before ++ s ∷ after
    → Others id before
    → Others id after
    → Subjects.owned user id s ≡ true
    → IsGone user id (deleted_db user id now d)
unfolding Subjects.mark_subject_deleted Subjects.mark_documents_deleted Subjects.mark_chunks_deleted
    Subjects.document_in Subjects.chunk_in
deleted_db-IsGone user id now d before s after e h k own = record {
  unread = λ other.
      rw
        (
          e,
          update_rows-one (Subjects.owned user id)
              (λ (row : Subject). record row { deleted_at = some now }) before s after
              (not_owned user id before h) (not_owned user id after k) own,
        )
        (unread-rows other id before (record s { deleted_at = some now }) after h k refl);
  documents =
      count_of-update_rows (Subjects.document_in user id)
        (λ (row : Document). record row { deleted_at = some now }) (λ a. ground arith) d.documents;
  chunks =
      count_of-update_rows (Subjects.chunk_in user id)
        (λ (row : DocumentChunk). record row { deleted_at = some now }) (λ a. ground arith)
        d.chunks;
}

-- The world after a request to delete that nothing disturbs.
abbrev pub after_delete : Surroundings → String → World → World
after_delete env id w = (subject_delete env id (quiet w)).1

-- When nothing fails and Milvus deletes the vectors, a request of the owner to delete a knowledge
-- base, whose id no other row has, answers that it is deleted. No user can read it any more, and
-- the owner has no document and no chunk left in it.
pub subject_delete-IsGone :
    (env : Surroundings) (user : User) (id : String) (w : World) (before : List Subject)
    (s : Subject) (after : List Subject)
    → env.current_user ≡ ok user
    → env.delete_by_subject user.id (trim_id id) ≡ ok tt
    → str_eq (trim_id id) "" ≡ false
    → w.db.subjects ≡ before ++ s ∷ after
    → Others (trim_id id) before
    → Others (trim_id id) after
    → Subjects.owned user (trim_id id) s ≡ true
    → ((subject_delete env id (quiet w)).0 ≡ ok true)
      × IsGone user (trim_id id) (after_delete env id w).db
subject_delete-IsGone env user id w before s after asks milvus named e h k own =
    let first = not_owned user (trim_id id) before h in
    let last = not_owned user (trim_id id) after k in
    let one : count_of (Subjects.owned user (trim_id id)) w.db.subjects ≡ 1 =
      rw e (count_of-one (Subjects.owned user (trim_id id)) before s after first last own) in
    let gone = deleted_db-IsGone user (trim_id id) w.now w.db before s after e h k own in
    let whole = request-quiet env user id w asks milvus named one in
    (ap (λ r. r.0) whole, rw (whole, after_delete) gone)
