-- ===== src/Subjects.antt =====
-- api/internal/logic/subject: what users ask of knowledge bases. `CurrentUser`, `uuid`, Unicode's
-- lower case, PostgreSQL's `lower` and `ILIKE`, and Milvus are parameters.
pub mod Isolation
pub mod Requests
pub mod Deletion
pub mod Pages
use enterprise_rag.Prelude.{
  ℕ, zero, suc, ◌-◌, ◌*◌, ◌%◌, ◌^◌, String, Bool, true, false, ◌||◌, Option, none, some, List, [],
  ◌∷◌, map, Text, codes, leb, ltb, ◌==◌, str_eq, if◌then◌else◌,
}
use enterprise_rag.Prelude.Int.{ℤ, int_ltb, to_ℕ, int64}
use enterprise_rag.Runes.{trim_space, trim_id, text_eq}
use enterprise_rag.Store.{Subject}
use enterprise_rag.Exec.{
  Error, Result, ok, err, other, subject_name_exists, subject_not_found, Exec, pure, raise, lift,
  attempt, ◌>>=◌, ◌>>◌,
}
use enterprise_rag.Repository.Rows.{null_text}
use enterprise_rag.Repository.Subjects
use enterprise_rag.Repository.Subjects.{User, SubjectListFilter}

pub record Surroundings : Type 0 where
  pub current_user : Result User
  pub new_id : String
  pub lower_rune : ℕ → ℕ
  pub lower : Text → Text
  pub ilike : Text → Text → Bool
  pub delete_by_subject : String → String → Result (Unit {0})

-- api/internal/service/subjectmeta.
unfoldable pub normalize_visibility : (ℕ → ℕ) → Text → Text
normalize_visibility lower visibility =
    if text_eq (map lower (trim_space visibility)) (codes "public")
    then codes "public"
    else codes "private"

-- api/internal/service/pagination: the page, its size, and its offset.
unfoldable pub normalize : ℤ → ℤ → ℕ × ℕ × ℤ
normalize page page_size =
    let p = if int_ltb page 1 then 1 else to_ℕ page in
    let size = if int_ltb page_size 1 || ltb 100 (to_ℕ page_size) then 20 else to_ℕ page_size in
    (p, size, int64 ((p - 1) * size))

-- The repository's errors, as the requests report them.
abbrev pub create_error : Result (Unit {0}) → Result (Unit {0})
create_error (err subject_name_exists) = err (other (codes "knowledge base name already exists"))
create_error r = r

abbrev pub update_error : Result (Unit {0}) → Result (Unit {0})
update_error (err subject_name_exists) = err (other (codes "knowledge base name already exists"))
update_error (err subject_not_found) = err (other (codes "knowledge base not found"))
update_error r = r

abbrev pub is_blank : Text → Bool
is_blank [] = true
is_blank (c ∷ s) = false

-- The subject that a request makes.
abbrev pub requested : Surroundings → User → String → Text → Text → Text → Subject
requested env user id name description visibility = record {
  id = id;
  tenant_id = user.tenant_id;
  name = name;
  description = null_text (trim_space description);
  owner_id = user.id;
  visibility = normalize_visibility env.lower_rune visibility;
  deleted_at = none;
}

abbrev pub create_new : Surroundings → Text → Text → Text → Exec Subject
create_new env name description visibility = do
  user ← lift env.current_user
  let subject = requested env user env.new_id name description visibility
  r ← attempt (Subjects.create env.lower subject)
  lift (create_error r)
  pure subject

unfoldable pub subject_create : Surroundings → Text → Text → Text → Exec Subject
subject_create env name description visibility =
    let trimmed = trim_space name in
    if is_blank trimmed
    then raise (other (codes "knowledge base name is required"))
    else create_new env trimmed description visibility

abbrev pub update_named : Surroundings → String → Text → Text → Text → Exec Subject
update_named env id name description visibility = do
  user ← lift env.current_user
  let subject = requested env user id name description visibility
  r ← attempt (Subjects.update_by_owner env.lower subject)
  lift (update_error r)
  Subjects.get_accessible_by_id user id

unfoldable pub subject_update : Surroundings → String → Text → Text → Text → Exec Subject
subject_update env id name description visibility =
    let trimmed = trim_space name in
    if str_eq (trim_id id) "" || is_blank trimmed
    then raise (other (codes "id and name are required"))
    else update_named env (trim_id id) trimmed description visibility

abbrev pub delete_present : Surroundings → String → Exec Bool
delete_present env id = do
  user ← lift env.current_user
  lift (env.delete_by_subject user.id id)
  Subjects.soft_delete_by_owner user id

unfoldable pub subject_delete : Surroundings → String → Exec Bool
subject_delete env id =
    if str_eq (trim_id id) ""
    then raise (other (codes "knowledge base id is required"))
    else delete_present env (trim_id id)

abbrev detail_of : Surroundings → String → Exec Subject
detail_of env id = do user ← lift env.current_user; Subjects.get_accessible_by_id user id

unfoldable pub subject_detail : Surroundings → String → Exec Subject
subject_detail env id =
    if str_eq (trim_id id) ""
    then raise (other (codes "knowledge base id is required"))
    else detail_of env (trim_id id)

unfoldable pub subject_list : Surroundings → ℤ → ℤ → Text → Exec (List Subject × ℕ)
unfolding normalize
subject_list env page page_size keyword = do
  user ← lift env.current_user
  let page_at = normalize page page_size
  Subjects.list_accessible env.ilike user
      (record { keyword = trim_space keyword; page_size = page_at.1; offset = page_at.2 })
