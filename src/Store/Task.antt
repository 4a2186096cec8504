-- ===== src/Store/Task.antt =====
-- internal/store/task.go: the `Task` row and its status.
use opencode_backend.Base.{ℕ, Bool, true, false, String, Option}

pub data Status : Type 0 where
  queued running succeeded failed canceled pending blocked scheduled : Status

-- The text that the column `status` holds.
unfoldable pub status_text : Status → String
status_text queued = "queued"
status_text running = "running"
status_text succeeded = "succeeded"
status_text failed = "failed"
status_text canceled = "canceled"
status_text pending = "pending"
status_text blocked = "blocked"
status_text scheduled = "scheduled"

pub record Task : Type 0 where
  pub id : String
  pub session_id : String
  pub directory : String
  pub name : String
  pub prompt : String
  pub depends_on : String
  pub status : Status
  pub error : String
  pub result : String
  pub progress : String
  pub ai_summary : String
  pub attempts : ℕ
  pub created_at : ℕ
  pub updated_at : ℕ
  pub started_at : Option ℕ
  pub finished_at : Option ℕ
  pub available_at : ℕ
  pub scheduled_at : Option ℕ
  pub cron : String
  pub last_fired_at : Option ℕ

-- `status = ?` and `status IN (...)` of the statements.
abbrev pub is_queued : Status → Bool
is_queued queued = true
is_queued _ = false

abbrev pub is_running : Status → Bool
is_running running = true
is_running _ = false

abbrev pub is_failed : Status → Bool
is_failed failed = true
is_failed _ = false

abbrev pub is_canceled : Status → Bool
is_canceled canceled = true
is_canceled _ = false

abbrev pub is_pending : Status → Bool
is_pending pending = true
is_pending _ = false

abbrev pub is_blocked : Status → Bool
is_blocked blocked = true
is_blocked _ = false

abbrev pub is_scheduled : Status → Bool
is_scheduled scheduled = true
is_scheduled _ = false

-- TaskSucceeded, TaskFailed, TaskCanceled
abbrev pub is_terminal : Status → Bool
is_terminal succeeded = true
is_terminal failed = true
is_terminal canceled = true
is_terminal _ = false
