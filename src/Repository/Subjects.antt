-- ===== src/Repository/Subjects.antt =====
-- api/internal/repository/postgres/subjectrepo.go: the operations on `subjects`. PostgreSQL's
-- `lower` and `ILIKE` are parameters. A page is of the newest rows first.
use enterprise_rag.Prelude.{
  ℕ, zero, suc, String, Bool, true, false, not, ◌&&◌, ◌||◌, none, some, List, [], ◌∷◌, ◌++◌, Text,
  codes, take, drop, str_eq, any_of, count_of, find_first, keep_if, if◌then◌else◌, ◌==◌,
}
use enterprise_rag.Prelude.Int.{ℤ}
use enterprise_rag.Runes.{text_eq}
use enterprise_rag.Store.{Db, Subject, Document, DocumentChunk, update_rows}
use enterprise_rag.Exec.{
  Result, ok, err, subject_name_exists, subject_not_found, other, Exec, pure, raise, attempt,
  statement, inside, transaction, ◌>>=◌, ◌>>◌,
}
use enterprise_rag.Repository.Rows.{is_null, or_no_rows, duplicate_key}

-- Who asks: `auth.CurrentUser`.
pub record User : Type 0 where
  pub id : String
  pub tenant_id : String

unfoldable pub is_public : Subject → Bool
is_public row = text_eq row.visibility (codes "public")

unfoldable pub readable : User → Subject → Bool
unfolding is_public
readable user row =
    str_eq row.tenant_id user.tenant_id
    && (is_null row.deleted_at && (str_eq row.owner_id user.id || is_public row))

unfoldable pub accessible : User → String → Subject → Bool
unfolding readable
accessible user id row = str_eq row.id id && readable user row

unfoldable pub owned : User → String → Subject → Bool
owned user id row =
    str_eq row.id id
    && (str_eq row.owner_id user.id
        && (str_eq row.tenant_id user.tenant_id && is_null row.deleted_at))

-- `idx_subjects_owner_name_active`: another row that is not deleted has the owner and the name.
unfoldable pub same_name : (Text → Text) → String → String → Text → Subject → Bool
same_name lower id owner_id name row =
    not (str_eq row.id id)
    && (str_eq row.owner_id owner_id
        && (text_eq (lower row.name) (lower name) && is_null row.deleted_at))

-- The row that a creation makes.
abbrev pub stored : Subject → Subject
stored subject = record subject { deleted_at = none }

unfoldable pub insert_subject : (Text → Text) → Subject → ℕ → Db → Result (Unit {0}) × Db
unfolding same_name
insert_subject lower subject now d =
    if any_of (λ row. str_eq row.id subject.id) d.subjects
    then (err duplicate_key, d)
    else if any_of (same_name lower subject.id subject.owner_id subject.name) d.subjects
    then (err subject_name_exists, d)
    else (ok tt, record d { subjects = d.subjects ++ stored subject ∷ [] })

unfoldable pub create : (Text → Text) → Subject → Exec (Unit {0})
create lower subject = statement (insert_subject lower subject)

unfoldable pub get_accessible_by_id : User → String → Exec Subject
unfolding accessible
get_accessible_by_id user id =
    statement λ now d. (or_no_rows (find_first (accessible user id) d.subjects), d)

unfoldable pub exists_accessible : User → String → Exec Bool
unfolding accessible
exists_accessible user id = statement λ now d. (ok (any_of (accessible user id) d.subjects), d)

pub record SubjectListFilter : Type 0 where
  pub keyword : Text
  pub page_size : ℕ
  pub offset : ℤ

-- `ilike` is `name ILIKE '%keyword%'`.
unfoldable pub listed : (Text → Text → Bool) → User → SubjectListFilter → Subject → Bool
unfolding readable
listed ilike user filter row =
    readable user row && (text_eq filter.keyword [] || ilike row.name filter.keyword)

abbrev reverse_onto : List Subject → List Subject → List Subject
reverse_onto [] done = done
reverse_onto (s ∷ rows) done = reverse_onto rows (s ∷ done)

-- `LIMIT page_size OFFSET offset`.
abbrev page_of : SubjectListFilter → List Subject → Result (List Subject)
page_of filter rows = elim filter.offset [
  | ℤ.pos n ↦ ok (take filter.page_size (drop n rows))
  | ℤ.negsuc n ↦ err (other (codes "OFFSET must not be negative"))
]

unfoldable pub list_accessible :
    (Text → Text → Bool) → User → SubjectListFilter → Exec (List Subject × ℕ)
unfolding listed
list_accessible ilike user filter = do
  total ← statement λ now d. (ok (count_of (listed ilike user filter) d.subjects), d)
  rows ←
      statement λ now d.
        (page_of filter (reverse_onto (keep_if (listed ilike user filter) d.subjects) []), d)
  pure (rows, total)

unfoldable pub renamed : Subject → Subject → Subject
renamed subject row = record row {
  name = subject.name;
  description = subject.description;
  visibility = subject.visibility;
}

-- The statement of `UpdateByOwner` and what it makes of the number of rows.
unfoldable pub update_subject :
    (Text → Text) → User → String → Subject → ℕ → Db → Result (Unit {0}) × Db
unfolding owned same_name renamed
update_subject lower user id subject now d =
    if count_of (owned user id) d.subjects == 0
    then (err subject_not_found, d)
    else if any_of (same_name lower id user.id subject.name) d.subjects
    then (err subject_name_exists, d)
    else (ok tt, record d { subjects = update_rows (owned user id) (renamed subject) d.subjects })

unfoldable pub update_by_owner : (Text → Text) → Subject → Exec (Unit {0})
update_by_owner lower subject =
    let user : User = record { id = subject.owner_id; tenant_id = subject.tenant_id } in
    statement (update_subject lower user subject.id subject)

unfoldable pub mark_subject_deleted : User → String → ℕ → Db → Result ℕ × Db
unfolding owned
mark_subject_deleted user id now d = (
  ok (count_of (owned user id) d.subjects),
  record d {
    subjects =
        update_rows (owned user id) (λ (row : Subject). record row { deleted_at = some now })
          d.subjects;
  },
)

unfoldable pub document_in : User → String → Document → Bool
document_in user id row =
    str_eq row.subject_id id
    && (str_eq row.user_id user.id
        && (str_eq row.tenant_id user.tenant_id && is_null row.deleted_at))

unfoldable pub chunk_in : User → String → DocumentChunk → Bool
chunk_in user id row =
    str_eq row.subject_id id
    && (str_eq row.user_id user.id
        && (str_eq row.tenant_id user.tenant_id && is_null row.deleted_at))

unfoldable pub mark_documents_deleted : User → String → ℕ → Db → Result (Unit {0}) × Db
unfolding document_in
mark_documents_deleted user id now d = (
  ok tt,
  record d {
    documents =
        update_rows (document_in user id) (λ (row : Document). record row { deleted_at = some now })
          d.documents;
  },
)

unfoldable pub mark_chunks_deleted : User → String → ℕ → Db → Result (Unit {0}) × Db
unfolding chunk_in
mark_chunks_deleted user id now d = (
  ok tt,
  record d {
    chunks =
        update_rows (chunk_in user id)
          (λ (row : DocumentChunk). record row { deleted_at = some now }) d.chunks;
  },
)

-- A transaction that finds no row to delete is rolled back.
abbrev pub after_mark : User → String → ℕ → Exec Bool
after_mark user id zero = raise subject_not_found
after_mark user id (suc n) = do
  inside (mark_documents_deleted user id)
  inside (mark_chunks_deleted user id)
  pure true

-- That is no error of the caller's.
abbrev pub after_rollback : Result Bool → Exec Bool
after_rollback (ok deleted) = pure deleted
after_rollback (err subject_not_found) = pure false
after_rollback (err e) = raise e

unfoldable pub delete_rows : User → String → Exec Bool
delete_rows user id = do marked ← inside (mark_subject_deleted user id); after_mark user id marked

unfoldable pub soft_delete_by_owner : User → String → Exec Bool
unfolding delete_rows
soft_delete_by_owner user id = attempt (transaction (delete_rows user id)) >>= after_rollback
