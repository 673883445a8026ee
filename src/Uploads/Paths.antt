-- ===== src/Uploads/Paths.antt =====
-- The place of a file, written into a document and read back from it.
use enterprise_rag.Prelude.{false, some, [], ◌∷◌, ◌++◌, All, Text, codes, ◌≡◌, refl, ◌==◌}
use enterprise_rag.Runes.{has_prefix}
use enterprise_rag.Exec.{ok}
use enterprise_rag.Worker.Handlers.{parse_file_url, cut_slash}
use enterprise_rag.Uploads.{file_url}

-- The name of a bucket has no slash.
abbrev pub Plain : Text → Type 0
Plain = All (λ c. (c == b'/') ≡ false)

cut_slash-joined :
    (bucket object : Text)
    → Plain bucket
    → cut_slash (bucket ++ (codes "/" ++ object)) ≡ some (bucket, object)
unfolding cut_slash
cut_slash-joined [] object h = refl
cut_slash-joined (c ∷ bucket) object h = rw (h.0, cut_slash-joined bucket object h.1) refl

-- A worker reads from a document's URL the bucket and the object that the upload wrote into it,
-- if the name of the bucket has no slash.
pub parse_file_url-file_url :
    (bucket object : Text)
    → Plain bucket
    → parse_file_url (file_url bucket object) ≡ ok (bucket, object)
unfolding parse_file_url file_url has_prefix
parse_file_url-file_url bucket object h = rw (cut_slash-joined bucket object h) refl
