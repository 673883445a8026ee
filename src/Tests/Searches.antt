-- ===== src/Tests/Searches.antt =====
-- An engine, a configuration and chunks for the tests of the search.
use Prim.Native.Nat.{max, min}
use enterprise_rag.Prelude.{
  ℕ, ◌+◌, ◌-◌, ◌*◌, ◌/◌, String, Bool, true, false, ◌&&◌, none, [], ◌∷◌, refl, codes, leb, ltb,
  ◌==◌, str_eq_refl,
}
use enterprise_rag.Prelude.Int.{ℤ}
use enterprise_rag.Runes.{text_eq}
use enterprise_rag.Store.{Subject}
use enterprise_rag.Exec.{Error, no_rows, ok}
use enterprise_rag.Exec.Returns.{ok-injective}
use enterprise_rag.Repository.Subjects.{User}
use enterprise_rag.Subjects.{Surroundings}
use enterprise_rag.Retrieval.Scores.{Scores, Letters, Source, RetrievalChunk}
use enterprise_rag.Retrieval.Citations.{CitationPolicy}
use enterprise_rag.Retrieval.Matches.{Match, Engine}
use enterprise_rag.Retrieval.Search.{RetrievalConf, SearchOptions}
use enterprise_rag.Retrieval.Search.Origin.{Trusted}

-- Scores in thousandths.
abbrev pub scores : Scores ℕ
scores = record {
  less = ltb;
  at_most = leb;
  same = λ a b. a == b;
  plus = λ a b. a + b;
  minus = λ a b. a - b;
  times = λ a b. a * b / 1000;
  over = λ a b. a * 1000 / b;
  greater = max;
  smaller = min;
  of_int = λ n. n * 1000;
  thousandths = λ n. n;
}

abbrev pub letters : Letters
letters = record {
  lower = λ c. c;
  is_letter_or_digit = λ c. leb 97 c && leb c 122;
  is_han = λ c. false;
  is_punct = λ c. c == 46;
  equal_fold = text_eq;
}

abbrev pub chunk : String → ℤ → ℕ → RetrievalChunk ℕ
chunk id index score = record {
  id = id;
  evidence_id = id;
  tenant_id = "tenant";
  doc_id = "doc";
  doc_name = "a.txt";
  subject_id = "subject";
  user_id = "user";
  chunk_index = index;
  page = ℤ.pos 1;
  section = codes "intro";
  content = codes id;
  document_version = 1;
  content_hash = "hash";
  score = score;
  raw_score = score;
  source = Source.vector;
}

abbrev pub found : String → String → Match ℕ
found tenant subject = record {
  id = "c1";
  tenant_id = tenant;
  doc_id = "doc";
  subject_id = subject;
  user_id = "user";
  chunk_index = ℤ.pos 0;
  page = ℤ.pos 1;
  section = codes "intro";
  content = codes "some text";
  document_version = 1;
  content_hash = "hash";
  score = 900;
}

abbrev is_missing : Error → Bool
is_missing no_rows = true
is_missing _ = false

abbrev pub engine : Engine ℕ
engine = record {
  scores = scores;
  letters = letters;
  embed = λ tenant texts. ok (1 ∷ []);
  search_vectors = λ tenant subject v limit. ok (found tenant subject ∷ []);
  map_order = λ ms. ms;
  is_sql_no_rows = is_missing;
  latency_ms = ℤ.pos 5;
}

pub engine-Trusted : Trusted engine
engine-Trusted = record {
  filters = λ tenant subject v limit ms h.
      rw (← ok-injective (found tenant subject ∷ []) ms h)
        (rw (str_eq_refl tenant, str_eq_refl subject) refl, tt);
  visits = λ p ms. refl;
}

abbrev pub policy : CitationPolicy ℕ
policy = record {
  limit = 2;
  absolute_threshold = 350;
  relative_threshold = 720;
  max_chunks_per_document = ℤ.pos 3;
}

abbrev pub conf : RetrievalConf ℕ
conf = record {
  top_k = ℤ.pos 5;
  candidate_multiplier = ℤ.pos 3;
  candidate_limit = ℤ.pos 50;
  similarity_threshold = 350;
  relative_score_threshold = 720;
  max_citations = ℤ.pos 5;
  max_chunks_per_document = ℤ.pos 3;
  rerank = true;
  max_query_runes = ℤ.pos 500;
  max_sub_queries = ℤ.pos 4;
  evaluation = record { min_recall_at_k = 0; max_latency_ms = ℤ.pos 0 };
}

abbrev pub options : SearchOptions
options = record {
  top_k = ℤ.pos 2;
  expected_doc_ids = "doc" ∷ [];
  expected_chunk_ids = [];
  expected_route = [];
  search_query = [];
  on_stage = none;
}

abbrev pub user : User
user = record { id = "user"; tenant_id = "tenant" }

abbrev pub subject : Subject
subject = record {
  id = "subject";
  tenant_id = "tenant";
  name = codes "Papers";
  description = none;
  owner_id = "user";
  visibility = codes "private";
  deleted_at = none;
}

abbrev pub surroundings : Surroundings
surroundings = record {
  current_user = ok user;
  new_id = "new";
  lower_rune = λ c. c;
  lower = λ t. t;
  ilike = λ name keyword. true;
  delete_by_subject = λ user id. ok tt;
}
