-- ===== src/Tests/Samples.antt =====
-- Rows, services and worlds for the tests.
use enterprise_rag.Prelude.{false, none, some, List, [], codes}
use enterprise_rag.Prelude.Int.{ℤ}
use enterprise_rag.Status.{DocumentStatus, TaskType, TaskStatus}
use enterprise_rag.Store.{IndexStamp, Document, IndexTask, Message, Db}
use enterprise_rag.Exec.{Turn, Outcome, World, Result, ok}
use enterprise_rag.Worker.Services.{Services}
use enterprise_rag.Chat.Lifecycle.{Request}
use enterprise_rag.Chunker.{ChunkingConf, Hashing, ParseSegment}

abbrev pub stamp : IndexStamp
stamp = record {
  document_version = 1;
  content_hash = "hash";
  embedding_provider = "openai";
  embedding_model = "small";
  embedding_dimension = 3;
  chunk_strategy_version = "v1";
}

abbrev pub uploaded_document : Document
uploaded_document = record {
  id = "doc";
  tenant_id = "tenant";
  subject_id = "subject";
  user_id = "user";
  filename = "a.txt";
  file_type = "txt";
  file_size = ℤ.pos 10;
  file_url = codes "minio://files/a.txt";
  status = DocumentStatus.uploaded;
  plain_text = none;
  metadata = none;
  error_message = none;
  stamp = stamp;
  deleted_at = none;
}

abbrev pub parse_task : IndexTask
parse_task = record {
  id = "task";
  tenant_id = "tenant";
  doc_id = "doc";
  subject_id = "subject";
  user_id = "user";
  task_type = TaskType.parse;
  status = TaskStatus.pending;
  retry_count = 0;
  error_message = none;
  processing_mode = some "standard";
  stamp = stamp;
  lease_expires_at = none;
  cleared_at = none;
}

abbrev pub empty_db : Db
empty_db = record {
  documents = [];
  tasks = [];
  outbox = [];
  chunks = [];
  parse_logs = [];
  runs = [];
  run_events = [];
  subjects = [];
}

abbrev pub turn : Outcome → Turn
turn outcome = record { outcome = outcome; elapsed = 1; others = λ d. d }

abbrev pub world : Db → List Turn → World
world db turns = record { db = db; dead_letters = []; settlements = []; now = 100; turns = turns }

abbrev pub services : Services
services = record {
  task_timeout_seconds = 60;
  new_sha1 = λ s. s;
  lower = λ c. c;
  parse_file = λ bucket object type mode. ok (codes "Some text.", codes "{}");
  build_chunks = λ document. ok [];
  embed = λ tenant texts. ok [];
  upsert_chunks = λ chunks vectors. ok tt;
  delete_by_doc_ids = λ user ids. ok tt;
  has_doc_vectors = λ user id. ok false;
  remove_object = λ bucket object. ok tt;
  publish_dead_letter = λ l. ok tt;
  ack_sync = ok tt;
}

abbrev pub delivery : Result Message
delivery = ok (record { task_id = "task"; doc_id = "doc"; processing_mode = "standard" })

abbrev pub request : Request
request = record {
  subject_id = codes "subject";
  query = codes "why?";
  parse_id = ok tt;
  current_user = ok tt;
  key = record { id = "run"; tenant_id = "tenant"; user_id = "user" };
  body = codes "{}";
  marshal_body = ok tt;
  marshal_output = λ output. ok tt;
  decode_body = λ body. ok tt;
  invoke = ok (codes "because");
  persist_turn = λ output. ok tt;
  context_error = none;
}

abbrev pub chunking : ChunkingConf
chunking = record {
  size = ℤ.pos 200;
  overlap = ℤ.pos 20;
  min_size = ℤ.pos 50;
  boundary_lookback = ℤ.negsuc 0;
}

abbrev pub hashing : Hashing
hashing = record {
  is_letter_or_digit = λ c. false;
  content_hash = λ t. "hash";
  chunk_id = λ id version hash index. id;
}

abbrev pub segment : ParseSegment
segment = record {
  page = ℤ.pos 1;
  section = codes "Intro";
  heading_path = [];
  block_type = codes "paragraph";
  content = codes "One sentence. Another one.";
}
