-- ===== src/Uploads.antt =====
-- api/internal/logic/document/documentuploadlogic.go and api/internal/service/documentupload: the
-- upload of a document. The form, SHA-256, `uuid`, the lower case and MinIO are parameters.
pub mod Paths
pub mod Stored
use Prim.Native.Char.{code}
use enterprise_rag.Prelude.{
  ℕ, zero, suc, ◌*◌, ◌^◌, String, Bool, true, false, ◌&&◌, ◌||◌, Option, none, some, List, [], ◌∷◌,
  ◌++◌, Text, codes, ◌==◌, str_eq, if◌then◌else◌,
}
use enterprise_rag.Prelude.Int.{ℤ, int_less}
use enterprise_rag.Runes.{trim_id}
use enterprise_rag.Status.{DocumentStatus, TaskType, TaskStatus}
use enterprise_rag.Store.{IndexStamp, Subject, Document, IndexTask}
use enterprise_rag.Exec.{Error, Result, ok, err, other, Exec, pure, raise, lift, ◌>>=◌, ◌>>◌}
use enterprise_rag.Repository.Outbox.{normalize_processing_mode}
use enterprise_rag.Repository.Documents
use enterprise_rag.Repository.Subjects
use enterprise_rag.Repository.Subjects.{User}

pub record Input : Type 0 where
  pub subject_id : String
  pub filename : String
  pub file_size : ℤ
  pub processing_mode : String

-- What `ParseMultipartForm` and `FormFile` find.
pub data Parsing : Type 0 where
  parsed too_many_bytes : Parsing
  unreadable : Error → Parsing

pub record Form : Type 0 where
  pub parsing : Parsing
  pub file : Result (Unit {0})
  pub values : Input

unfoldable pub max_file_size : ℤ
max_file_size = ℤ.pos (50 * 2 ^ 20)

abbrev pub too_large : Error
too_large = other (codes "file exceeds the 50 MB limit")

abbrev after_file : ℤ → Input → Result (Unit {0}) → Result Input
after_file limit values (err e) = err e
after_file limit values (ok u) =
    if int_less limit values.file_size
    then err too_large
    else ok (record values {
      subject_id = trim_id values.subject_id;
      processing_mode = trim_id values.processing_mode;
    })

abbrev after_parsing : ℤ → Form → Parsing → Result Input
after_parsing limit form too_many_bytes = err too_large
after_parsing limit form (unreadable e) = err e
after_parsing limit form parsed = after_file limit form.values form.file

unfoldable pub parse_request : ℤ → Form → Result Input
parse_request limit form = after_parsing limit form form.parsing

-- `filepath.Base` and `filepath.Ext`.
abbrev is_slash : String → Bool
is_slash String.[] = false
is_slash (String.◌∷◌ c s) = code c == b'/'

abbrev has_slash : String → Bool
has_slash String.[] = false
has_slash (String.◌∷◌ c s) = code c == b'/' || has_slash s

abbrev without_slashes : String → String
without_slashes String.[] = String.[]
without_slashes (String.◌∷◌ c s) =
    let rest = without_slashes s in
    if str_eq rest "" && code c == b'/' then String.[] else String.◌∷◌ c rest

abbrev last_element : String → String
last_element String.[] = String.[]
last_element (String.◌∷◌ c s) =
    let rest = last_element s in
    if has_slash s then rest else if code c == b'/' then s else String.◌∷◌ c s

abbrev or_slash : String → String
or_slash s = if str_eq s "" then "/" else s

unfoldable pub base : String → String
base path = if str_eq path "" then "." else or_slash (last_element (without_slashes path))

-- The extension of a name without slashes.
unfoldable pub extension : String → String
extension String.[] = String.[]
extension (String.◌∷◌ c s) =
    let rest = extension s in
    if str_eq rest "" then if code c == b'.' then String.◌∷◌ c s else String.[] else rest

abbrev without_dot : String → String
without_dot String.[] = String.[]
without_dot (String.◌∷◌ c s) = if code c == b'.' then s else String.◌∷◌ c s

unfoldable pub file_type_of : (String → String) → String → String
unfolding extension
file_type_of lower filename =
    let ext = without_dot (lower (extension filename)) in if str_eq ext "" then "unknown" else ext

pub record Backing : Type 0 where
  pub current_user : Result User
  pub new_document_id : String
  pub new_task_id : String
  pub new_sha1 : String → String
  pub lower : String → String
  pub content_hash : Result String
  pub rewind : Result (Unit {0})
  pub bucket : Text
  -- The bucket and the object.
  pub put_object : Text → Text → Result (Unit {0})
  -- The provider, the model, the dimension and the version of the configuration.
  pub index : String → IndexStamp

unfoldable pub can_write_subject : Subject → User → Bool
can_write_subject subject user = str_eq (trim_id subject.owner_id) (trim_id user.id)

unfoldable pub object_name : User → String → String → Text
object_name user document_id filename =
    codes "tenants/"
    ++ (codes user.tenant_id
        ++ (codes "/documents/" ++ (codes document_id ++ (codes "/" ++ codes filename))))

unfoldable pub file_url : Text → Text → Text
file_url bucket object = codes "minio://" ++ (bucket ++ (codes "/" ++ object))

unfoldable pub document_of : Backing → User → Input → String → String → Document
unfolding object_name file_url file_type_of
document_of env user input filename hash = record {
  id = env.new_document_id;
  tenant_id = user.tenant_id;
  subject_id = trim_id input.subject_id;
  user_id = user.id;
  filename = filename;
  file_type = file_type_of env.lower filename;
  file_size = input.file_size;
  file_url = file_url env.bucket (object_name user env.new_document_id filename);
  status = DocumentStatus.uploaded;
  plain_text = none;
  metadata = none;
  error_message = none;
  stamp = env.index hash;
  deleted_at = none;
}

unfoldable pub task_of : Backing → Input → Document → IndexTask
task_of env input document = record {
  id = env.new_task_id;
  tenant_id = document.tenant_id;
  doc_id = document.id;
  subject_id = document.subject_id;
  user_id = document.user_id;
  task_type = TaskType.parse;
  status = TaskStatus.pending;
  retry_count = 0;
  error_message = none;
  processing_mode = some (normalize_processing_mode input.processing_mode);
  stamp = document.stamp;
  lease_expires_at = none;
  cleared_at = none;
}

-- The file is stored, then the document is created with its task.
unfoldable pub store : Backing → User → Input → String → Exec Document
store env user input filename = do
  hash ← lift env.content_hash
  lift env.rewind
  lift (env.put_object env.bucket (object_name user env.new_document_id filename))
  let document = document_of env user input filename hash
  Documents.create_with_index_task env.new_sha1 document (task_of env input document)
  pure document

unfoldable pub store_new : Backing → User → Input → String → Exec Document
store_new env user input filename = do
  duplicate ← Documents.exists_active_filename user.id (trim_id input.subject_id) filename
  if duplicate
      then raise (other (codes "document filename already exists"))
      else store env user input filename

abbrev pub store_named : Backing → User → Input → String → Exec Document
store_named env user input filename =
    if str_eq filename "." || str_eq filename "/"
    then raise (other (codes "filename is invalid"))
    else store_new env user input filename

unfoldable pub upload_to : Backing → Input → Exec Document
unfolding base
upload_to env input = do
  user ← lift env.current_user
  subject ← Subjects.get_accessible_by_id user (trim_id input.subject_id)
  if can_write_subject subject user
      then store_named env user input (base input.filename)
      else raise (other (codes "knowledge base not found"))

abbrev pub upload_present : Backing → Input → Exec Document
upload_present env input =
    if str_eq (trim_id input.subject_id) ""
    then raise (other (codes "subject_id is required"))
    else upload_to env input

unfoldable pub document_upload : Backing → Form → Exec Document
document_upload env form = do
  input ← lift (parse_request max_file_size form)
  upload_present env input
