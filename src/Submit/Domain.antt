-- ===== src/Submit/Domain.antt =====
-- submit_service/internal/domain/task.go
use shortcut.Prelude.{Bytes, String, Option}
use shortcut.Runtime.{Uuid}

abbrev pub TaskStatus : Type 0
TaskStatus = String

abbrev pub status_failed : TaskStatus
status_failed = "failed"

abbrev pub status_processing : TaskStatus
status_processing = "processing"

abbrev pub status_pending : TaskStatus
status_pending = "pending"

abbrev pub status_processed : TaskStatus
status_processed = "done"

pub record Task : Type 0 where
  pub id : Uuid
  pub status : TaskStatus
  pub payload : Option Bytes
