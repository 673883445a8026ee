-- ===== src/Uploads/Stored.antt =====
-- What an upload that succeeds has done.
use enterprise_rag.Prelude.{String, ◌||◌, Text, ◌≡◌, refl, str_eq}
use enterprise_rag.Status.{DocumentStatus}
use enterprise_rag.Store.{Document}
use enterprise_rag.Runes.{trim_id}
use enterprise_rag.Exec.{ok, World, lift}
use enterprise_rag.Exec.Returns.{
  Returns, Returns-pure, Returns-raise, Returns-lift, Returns-if, Returns-bind, Returns-then,
}
use enterprise_rag.Repository.Subjects.{User}
use enterprise_rag.Worker.Handlers.{parse_file_url}
use enterprise_rag.Uploads.{
  Input, Form, Backing, parse_request, max_file_size, base, can_write_subject, object_name,
  document_of, store, store_new, store_named, upload_to, upload_present, document_upload,
}
use enterprise_rag.Uploads.Paths.{Plain, parse_file_url-file_url}

-- The document belongs to the user who asks, waits to be parsed, and MinIO has taken a file at the
-- place that a worker reads from its URL.
pub record IsStored (env : Backing) (d : Document) : Type 0 where
  pub owned : env.current_user ≡ ok (record { id = d.user_id; tenant_id = d.tenant_id })
  pub uploaded : d.status ≡ DocumentStatus.uploaded
  pub object : Text
  pub placed : parse_file_url d.file_url ≡ ok (env.bucket, object)
  pub put : env.put_object env.bucket object ≡ ok tt

module _ (env : Backing) (plain : Plain env.bucket) where
  document_of-IsStored :
      (user : User) (input : Input) (filename hash : String)
      → env.current_user ≡ ok user
      → env.put_object env.bucket (object_name user env.new_document_id filename) ≡ ok tt
      → IsStored env (document_of env user input filename hash)
  unfolding document_of
  document_of-IsStored user input filename hash asks put = record {
    owned = asks;
    uploaded = refl;
    object = object_name user env.new_document_id filename;
    placed =
        parse_file_url-file_url env.bucket (object_name user env.new_document_id filename) plain;
    put = put;
  }

  store-IsStored :
      (user : User) (input : Input) (filename : String)
      → env.current_user ≡ ok user
      → Returns (IsStored env) (store env user input filename)
  unfolding store
  store-IsStored user input filename asks =
      let object = object_name user env.new_document_id filename in
      let Put = λ (u : Unit {0}). env.put_object env.bucket object ≡ ok tt in
      Returns-then (IsStored env) _ _ (λ hash. Returns-then (IsStored env) _ _ (λ u.
        Returns-bind Put (IsStored env) _ _ (Returns-lift Put _ (λ v h. h)) (λ v put.
          Returns-then (IsStored env) _ _ (λ x.
            Returns-pure (IsStored env) _
              (document_of-IsStored user input filename hash asks put)))))

  store_new-IsStored :
      (user : User) (input : Input) (filename : String)
      → env.current_user ≡ ok user
      → Returns (IsStored env) (store_new env user input filename)
  unfolding store_new
  store_new-IsStored user input filename asks = Returns-then (IsStored env) _ _ (λ duplicate.
      Returns-if (IsStored env) duplicate _ _ (Returns-raise _ _)
        (store-IsStored user input filename asks))

  store_named-IsStored :
      (user : User) (input : Input) (filename : String)
      → env.current_user ≡ ok user
      → Returns (IsStored env) (store_named env user input filename)
  store_named-IsStored user input filename asks =
      Returns-if (IsStored env) (str_eq filename "." || str_eq filename "/") _ _ (Returns-raise _ _)
        (store_new-IsStored user input filename asks)

  upload_to-IsStored : (input : Input) → Returns (IsStored env) (upload_to env input)
  unfolding upload_to
  upload_to-IsStored input =
      let Asks = λ (user : User). env.current_user ≡ ok user in
      Returns-bind Asks (IsStored env) _ _ (Returns-lift Asks _ (λ user h. h)) (λ user asks.
        Returns-then (IsStored env) _ _ (λ subject.
          Returns-if (IsStored env) (can_write_subject subject user) _ _
            (store_named-IsStored user input (base input.filename) asks) (Returns-raise _ _)))

  -- Whatever fails and whatever other processes do, an upload that succeeds returns a document of
  -- the user who asks, which waits to be parsed, and MinIO has taken a file at the bucket and the
  -- object that a worker reads from the document's URL; if the bucket's name has no slash.
  pub document_upload-IsStored :
      (form : Form) (w : World) (d : Document)
      → (document_upload env form w).0 ≡ ok d
      → IsStored env d
  unfolding document_upload
  document_upload-IsStored form =
      Returns-then (IsStored env) (lift (parse_request max_file_size form)) (upload_present env)
        (λ input.
          Returns-if (IsStored env) (str_eq (trim_id input.subject_id) "") _ _ (Returns-raise _ _)
            (upload_to-IsStored input))
