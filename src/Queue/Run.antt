-- ===== src/Queue/Run.antt =====
-- `job_status_models.py`: the columns of `job_runs`, which are the fields of `JobRun`, and the
-- constants of the queue.
use fraudhunter.Common.{ℕ, String, Bool, true, false, Option}
use fraudhunter.Common.Json.{Fields}

-- `JOB_RUN_STATUSES`
pub data RunStatus : Type 0 where
  queued running succeeded failed cancelled : RunStatus

pub record JobRun : Type 0 where
  pub id : String
  pub job_type : String
  pub status : RunStatus
  pub params : Option Fields
  pub result : Option Fields
  pub error_message : Option String
  pub message : Option String
  pub attempt_count : ℕ
  pub max_attempts : ℕ
  pub next_retry_at : Option ℕ
  pub dedupe_key : Option String
  pub priority : ℕ
  pub queued_at : ℕ
  pub started_at : Option ℕ
  pub finished_at : Option ℕ
  pub heartbeat_at : Option ℕ
  pub locked_until : Option ℕ
  pub worker_id : Option String
  pub concurrency_key : Option String

abbrev pub default_max_attempts : ℕ
default_max_attempts = 3

abbrev pub default_priority : ℕ
default_priority = 100

abbrev pub default_retry_base_seconds : ℕ
default_retry_base_seconds = 30

abbrev pub max_retry_backoff_seconds : ℕ
max_retry_backoff_seconds = 900

abbrev pub is_queued : RunStatus → Bool
is_queued queued = true
is_queued _ = false

abbrev pub is_running : RunStatus → Bool
is_running running = true
is_running _ = false

abbrev pub is_succeeded : RunStatus → Bool
is_succeeded succeeded = true
is_succeeded _ = false

abbrev pub is_failed : RunStatus → Bool
is_failed failed = true
is_failed _ = false

-- `JOB_RUN_ACTIVE_STATUSES`, `status IN ('queued', 'running')`
abbrev pub is_active : RunStatus → Bool
is_active queued = true
is_active running = true
is_active _ = false

-- `status IN ('succeeded', 'failed', 'cancelled')`
abbrev pub is_finished : RunStatus → Bool
is_finished succeeded = true
is_finished failed = true
is_finished cancelled = true
is_finished _ = false
