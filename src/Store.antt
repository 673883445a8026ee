-- ===== src/Store.antt =====
-- The tables of PostgreSQL that the repositories of api/internal/repository/postgres share, and
-- the world in which a statement is executed.
--
-- A row is a record of the columns that the code reads or writes; `created_at` and `updated_at`
-- are left out, and rows stand in the order of their insertion. A column that may be NULL is an
-- `Option`, a JSON column is kept decoded, and times are in seconds. The columns that every table
-- copies from the uploaded document form the record `IndexStamp`.
pub mod Evolution
pub mod Lookup
use enterprise_rag.Prelude.Int.{ℤ}
use enterprise_rag.Prelude.{ℕ, String, Bool, Option, List, [], ◌∷◌, Text, if◌then◌else◌}
use enterprise_rag.Status.{DocumentStatus, TaskType, TaskStatus}

pub record IndexStamp : Type 0 where
  pub document_version : ℕ
  pub content_hash : String
  pub embedding_provider : String
  pub embedding_model : String
  pub embedding_dimension : ℕ
  pub chunk_strategy_version : String

pub record Document : Type 0 where
  pub id : String
  pub tenant_id : String
  pub subject_id : String
  pub user_id : String
  pub filename : String
  pub file_type : String
  pub file_size : ℤ
  pub file_url : Text
  pub status : DocumentStatus
  pub plain_text : Option Text
  pub metadata : Option Text
  pub error_message : Option Text
  pub stamp : IndexStamp
  pub deleted_at : Option ℕ

pub record IndexTask : Type 0 where
  pub id : String
  pub tenant_id : String
  pub doc_id : String
  pub subject_id : String
  pub user_id : String
  pub task_type : TaskType
  pub status : TaskStatus
  pub retry_count : ℕ
  pub error_message : Option Text
  -- The processing mode of the metadata, if they decode.
  pub processing_mode : Option String
  pub stamp : IndexStamp
  pub lease_expires_at : Option ℕ
  pub cleared_at : Option ℕ

-- `task.Message`, the payload of an event.
pub record Message : Type 0 where
  pub task_id : String
  pub doc_id : String
  pub processing_mode : String

pub record TaskOutbox : Type 0 where
  pub id : String
  pub task_id : String
  pub subject : TaskType
  pub payload : Message
  pub attempts : ℕ
  pub next_attempt_at : ℕ
  pub locked_at : Option ℕ
  pub published_at : Option ℕ
  pub last_error : Option Text

pub record ChunkMetadata : Type 0 where
  pub heading_path : List Text
  pub block_type : Text
  pub keywords : List Text
  pub summary : Text
  pub source_type : String

pub record DocumentChunk : Type 0 where
  pub id : String
  pub tenant_id : String
  pub doc_id : String
  pub subject_id : String
  pub user_id : String
  pub chunk_index : ℕ
  pub content : Text
  pub page : ℤ
  pub section : Text
  pub metadata : Option ChunkMetadata
  pub token_count : ℕ
  pub stamp : IndexStamp
  pub deleted_at : Option ℕ

pub record DocumentParseLog : Type 0 where
  pub doc_id : String
  pub status : TaskStatus
  pub message : Option Text
  pub error : Option Text

-- A knowledge base (api/internal/model/subject.go).
pub record Subject : Type 0 where
  pub id : String
  pub tenant_id : String
  pub name : Text
  pub description : Option Text
  pub owner_id : String
  pub visibility : Text
  pub deleted_at : Option ℕ

-- The status of a chat run (api/internal/model/run.go).
pub data RunStatus : Type 0 where
  created running completed failed cancelled : RunStatus

pub record ChatRun : Type 0 where
  pub id : String
  pub tenant_id : String
  pub user_id : String
  pub status : RunStatus
  pub request : Text
  pub result : Option Text
  pub error_message : Option Text
  pub cancel_requested : Bool
  pub completed_at : Option ℕ

pub data RunEventType : Type 0 where
  run_running run_completed run_failed run_cancelled run_cancel_requested : RunEventType

pub record ChatRunEvent : Type 0 where
  pub run_id : String
  pub sequence : ℕ
  pub tenant_id : String
  pub event_type : RunEventType

pub record Db : Type 0 where
  pub documents : List Document
  pub tasks : List IndexTask
  pub outbox : List TaskOutbox
  pub chunks : List DocumentChunk
  pub parse_logs : List DocumentParseLog
  pub runs : List ChatRun
  pub run_events : List ChatRunEvent
  pub subjects : List Subject

-- `UPDATE rows SET set WHERE test`.
abbrev pub update_rows {ℓ} : {A : Type ℓ} → (A → Bool) → (A → A) → List A → List A
update_rows test set [] = []
update_rows test set (row ∷ rows) = (if test row then set row else row) ∷ update_rows test set rows
