-- ===== src/Tests/Statuses.antt =====
-- The tables of document statuses at one of the stages that are redone.
use enterprise_rag.Prelude.{◌≡◌}
use enterprise_rag.Status.{
  DocumentStatus, document_previous_statuses, document_retry_previous_statuses,
}
use enterprise_rag.Status.Stages.{admits, may_advance, may_go_back, admits-stages}

admits-stages_example :
    (admits DocumentStatus.embedding (document_previous_statuses DocumentStatus.chunked)
      ≡ may_advance DocumentStatus.embedding DocumentStatus.chunked)
    × (admits DocumentStatus.embedding (document_retry_previous_statuses DocumentStatus.chunked)
        ≡ may_go_back DocumentStatus.embedding DocumentStatus.chunked)
admits-stages_example = admits-stages DocumentStatus.embedding DocumentStatus.chunked
