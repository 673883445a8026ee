-- ===== src/Lib.antt =====
-- The backend of a document knowledge base: users upload documents, workers parse, chunk and embed
-- them, and an agent answers questions about them in chat runs. This library models the Go service
-- under api/internal: the statuses of documents and tasks, the repositories over PostgreSQL, the
-- workers, the life of a chat run, the chunker, knowledge bases, the limiter, and the search.
--
-- Parts, files and sources
--
-- - Status.antt, Status/Diagram.antt, Status/Stages.antt: api/internal/model/status.go. A string
--   constant is a constructor, a table of previous statuses is a function; the diagrams are
--   relations, and the stages of indexing have numbers.
-- - Store.antt, Store/Evolution.antt: the rows of the tables (api/internal/model/document.go,
--   chunk.go, run.go). `Evolves R` says that each row moves by `R` and that new rows come last.
--   Store/Lookup.antt is about statements whose test accepts no row or one.
-- - Exec.antt: code that calls other systems. Exec/Guards.antt and Exec/Atomic.antt are the rules by
--   which a handler keeps a relation on the tables when each of its calls does.
-- - Runes.antt: the functions of Go's `strings` that the code uses, over texts as lists of runes.
-- - Repository/*.antt: api/internal/repository/postgres. Outbox is outboxrepo.go, Tasks is
--   indextaskrepo.go, Documents is documentrepo.go, Chunks is chunkrepo.go, Runs is runrepo.go. An
--   operation has the name of the method; the WHERE clause of its statement is a Boolean test on a
--   row and its SET clause a function on rows.
-- - Worker/Services.antt, Retry.antt, Handlers.antt, Run.antt: api/internal/worker/manager.go.
--   `run` is `Manager.run`, one delivery of a message. The continuations `after_…` are the code
--   behind a call that may fail, by what it answered. Worker/Conduct.antt and Worker/Steps.antt
--   carry a relation from the statements to a whole delivery; Repository/Moves, Announced and
--   Retries have the relations. Duplicates is about messages that are delivered again, Deletion
--   about when a document may be deleted, Embedding about the last stage when nothing fails.
-- - Chat/Lifecycle.antt: api/internal/logic/chat (runlifecycle.go, chatasklogic.go,
--   chatrunresumelogic.go, chatruncancellogic.go); proofs in Chat/Conduct, Chat/Moves, Chat/Diagram,
--   Chat/Soundness, Chat/Events and Chat/Answers.
-- - Chunker.antt: api/internal/service/documentchunk/chunker.go; proofs in Chunker/Windows and
--   Chunker/Build.
-- - Users.antt, Users/Steps.antt, Users/Events.antt: the repository operations that the requests of users call
--   (api/internal/logic/document, api/internal/logic/admin); Users/Requests.antt: the requests to
--   delete a document, clear the failed ones and retry a task (api/internal/logic/document), and
--   Users/Foreign.antt: what they leave alone.
-- - Subjects.antt: api/internal/logic/subject, service/subjectmeta and service/pagination, over
--   Repository/Subjects (subjectrepo.go); proofs in Subjects/Isolation, Requests, Deletion, Pages.
-- - Ratelimit.antt: api/internal/infrastructure/ratelimit/limiter.go, the script of Redis included;
--   proofs in Ratelimit/Requests and Ratelimit/Window.
-- - Retrieval/*.antt: api/internal/service/retrieval. Plan is query_plan.go, Scoring is scoring.go,
--   Citations and Recall are citations.go and evaluation.go, Matches and Search are search.go. The
--   proofs about a file stand in the folder of its name; Search/Origin and Candidates say where the
--   chunks come from, Results what a search returns, Answers and Refusals when it does.
-- - Exec/Returns.antt: what a chain of calls returns, with or without faults.
-- - Uploads.antt: api/internal/logic/document/documentuploadlogic.go and
--   api/internal/service/documentupload; proofs in Uploads/Paths and Uploads/Stored.
-- - Worker/Relay.antt: `publishOutbox` of api/internal/worker/manager.go, one tick of its loop, with
--   the publishing of an event as a parameter; proofs in Worker/Relay/Published and Delivered.
-- - Chat/Controller.antt: api/internal/service/runcontrol/controller.go.
-- - Config.antt: api/internal/config/config.go, the overrides and the checks; proofs in
--   Config/Checked.
-- - Tests: rows, services and worlds, and the theorems at concrete inputs.
--
-- Faults and interleavings
--
-- Every call to PostgreSQL takes a turn of a schedule (`World.turns`). A turn says what other
-- processes did to the tables since the last call, how much time went by, and whether the call is
-- carried out, refused, or carried out but reported as failed, as when a connection breaks before
-- the reply. `Rely R` says that the other processes keep to `R` at a turn; `quiet` is a world with
-- no turns, in which every call is carried out. The statements of a transaction see no change by
-- others, and a transaction that fails leaves the tables as they were. The other services
-- (parser, embedding model, Milvus, MinIO, JetStream, the agent) are parameters, `Services` and
-- `Request`, which answer anything.
--
-- Choices
--
-- - Ids are strings, texts that the code inspects are lists of runes, times are seconds, and JSON
--   columns are kept decoded; what does not decode is a value of its own. `uuid.NewSHA1`, SHA-256
--   and Unicode's classes and lower case are parameters.
-- - A score (`float64`) is a value of an abstract type with the operations that the code uses, so
--   that no theorem rests on rounding; what a theorem needs of the order is a hypothesis of its own.
-- - An embedding vector is a number, and the order of Go's maps a parameter.
-- - Rows stand in the order of their insertion, which is the order of `created_at`.
-- - The loop of the chunker runs on fuel, one round more than the text has runes. This is enough,
--   since each round goes forward. `decimal` has one round more than the number, which is enough
--   since each round divides it by ten.
-- - The bounds that a configuration gives are small enough for Go to allocate what it is asked for.
-- - Logs, metrics, spans and tracing headers are left out, as are the lists for the administration
--   pages, the HTTP handlers, and the clients of other services.
pub mod Prelude
pub mod Store
pub mod Status
pub mod Exec
pub mod Runes
pub mod Repository
pub mod Worker
pub mod Chunker
pub mod Chat
pub mod Ratelimit
pub mod Config
pub mod Retrieval
pub mod Users
pub mod Subjects
pub mod Uploads
pub mod Tests
