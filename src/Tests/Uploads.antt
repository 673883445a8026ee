-- ===== src/Tests/Uploads.antt =====
-- Uploads at concrete inputs.
use enterprise_rag.Prelude.{[], ◌∷◌, ◌≡◌, refl, codes}
use enterprise_rag.Prelude.Int.{ℤ}
use enterprise_rag.Store.{Document}
use enterprise_rag.Exec.{World, ok, lift, transaction, inside, statement, ◌>>=◌, pure}
use enterprise_rag.Runes.{trim_id, is_space}
use enterprise_rag.Repository.Documents
use enterprise_rag.Repository.Outbox
use enterprise_rag.Repository.Tasks
use enterprise_rag.Repository.Subjects
use enterprise_rag.Worker.Handlers.{parse_file_url}
use enterprise_rag.Uploads.{
  Form, Backing, Parsing, file_url, document_of, document_upload, parse_request, max_file_size,
  upload_to, base, can_write_subject, store, store_new, task_of,
}
use enterprise_rag.Uploads.Paths.{Plain, parse_file_url-file_url}
use enterprise_rag.Uploads.Stored.{IsStored, document_upload-IsStored}
use enterprise_rag.Tests.Samples.{world, empty_db, stamp}
use enterprise_rag.Tests.Searches.{user, subject}

abbrev backing : Backing
backing = record {
  current_user = ok user;
  new_document_id = "new";
  new_task_id = "task";
  new_sha1 = λ s. s;
  lower = λ s. s;
  content_hash = ok "hash";
  rewind = ok tt;
  bucket = codes "files";
  put_object = λ bucket object. ok tt;
  index = λ hash. stamp;
}

files-Plain : Plain (codes "files")
files-Plain = (refl, (refl, (refl, (refl, (refl, tt)))))

parse_file_url-file_url_example :
    parse_file_url (file_url (codes "files") (codes "a/b.txt"))
    ≡ ok (codes "files", codes "a/b.txt")
parse_file_url-file_url_example =
    parse_file_url-file_url (codes "files") (codes "a/b.txt") files-Plain

abbrev form : Form
form = record {
  parsing = Parsing.parsed;
  file = ok tt;
  values = record {
    subject_id = " subject";
    filename = "dir/a.txt";
    file_size = ℤ.pos 10;
    processing_mode = "standard";
  };
}

abbrev start : World
start = world (record empty_db { subjects = subject ∷ [] }) []

abbrev uploaded : Document
uploaded = document_of backing user (record form.values { subject_id = "subject" }) "a.txt" "hash"

succeeds : (document_upload backing form start).0 ≡ ok uploaded
unfolding document_upload parse_request max_file_size lift ◌>>=◌ upload_to
    Subjects.get_accessible_by_id Subjects.accessible can_write_subject trim_id is_space base
    store_new store document_of task_of Documents.exists_active_filename
    Documents.create_with_index_task Documents.insert_document Tasks.insert_task
    Outbox.enqueue_outbox Outbox.enqueue transaction inside statement pure
succeeds = refl

document_upload-IsStored_example : IsStored backing uploaded
document_upload-IsStored_example =
    document_upload-IsStored backing files-Plain form start uploaded succeeds
