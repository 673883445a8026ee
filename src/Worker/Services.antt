-- ===== src/Worker/Services.antt =====
-- What the workers call outside of PostgreSQL, as it answers in one run of a handler: the parser,
-- the chunker, the embedding model, Milvus, MinIO, JetStream, `uuid.NewSHA1` and Unicode's lower
-- case. A number stands for an embedding vector.
use enterprise_rag.Prelude.{ℕ, String, Bool, List, [], ◌∷◌, ◌++◌, Text}
use enterprise_rag.Store.{Document, DocumentChunk}
use enterprise_rag.Exec.{Result, ok, err, Exec, Settlement, ack, DeadLetter}

pub record Services : Type 0 where
  pub task_timeout_seconds : ℕ
  pub new_sha1 : String → String
  pub lower : ℕ → ℕ
  pub parse_file : Text → Text → String → String → Result (Text × Text)
  pub build_chunks : Document → Result (List DocumentChunk)
  pub embed : String → List Text → Result (List ℕ)
  pub upsert_chunks : List DocumentChunk → List ℕ → Result (Unit {0})
  pub delete_by_doc_ids : String → List String → Result (Unit {0})
  pub has_doc_vectors : String → String → Result Bool
  pub remove_object : Text → Text → Result (Unit {0})
  pub publish_dead_letter : DeadLetter → Result (Unit {0})
  pub ack_sync : Result (Unit {0})

-- `Term` and `NakWithDelay`, whose errors are dropped.
unfoldable pub settle : Settlement → Exec (Unit {0})
settle s w = (ok tt, record w { settlements = w.settlements ++ s ∷ [] })

abbrev pub settle_if : Result (Unit {0}) → Settlement → Exec (Unit {0})
settle_if (ok u) s w = (ok tt, record w { settlements = w.settlements ++ s ∷ [] })
settle_if (err e) s w = (err e, w)

unfoldable pub ack_message : Services → Exec (Unit {0})
ack_message svc = settle_if svc.ack_sync ack

abbrev pub bury_if : Result (Unit {0}) → DeadLetter → Exec (Unit {0})
bury_if (ok u) l w = (ok tt, record w { dead_letters = w.dead_letters ++ l ∷ [] })
bury_if (err e) l w = (err e, w)

unfoldable pub bury : Services → DeadLetter → Exec (Unit {0})
bury svc l = bury_if (svc.publish_dead_letter l) l
