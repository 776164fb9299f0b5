-- ===== src/Queue/Report.antt =====
-- What `job_status_queue.py` and `job_status_summary.py` report of the queue.
use fraudhunter.Common.{
  ℕ, ◌-◌, ◌/◌, String, Bool, true, false, ◌&&◌, ◌||◌, Option, none, some, List, [], ◌∷◌, map, ltb,
  leb, ◌==◌, max, min, str_eq, if◌then◌else◌, get_or, count_where, select_where, first_by, take,
  order_by,
}
use fraudhunter.Common.Int.{ℤ, pos, neg}
use fraudhunter.Common.Json.{Fields}
use fraudhunter.Queue.Run.{JobRun, RunStatus, is_queued, is_running, is_succeeded, is_failed}
use fraudhunter.Queue.Store.{Table, to_run, lease_holds}

-- `COALESCE(finished_at, started_at, queued_at)`
abbrev pub last_event : JobRun → ℕ
last_event r = get_or r.finished_at (get_or r.started_at r.queued_at)

-- `ORDER BY COALESCE(finished_at, started_at, queued_at) DESC, queued_at DESC`
abbrev pub is_later : JobRun → JobRun → Bool
is_later a b =
    ltb (last_event b) (last_event a) || last_event a == last_event b && ltb b.queued_at a.queued_at

-- `_fetch_latest_run`, which `get_latest_run` calls
unfoldable pub fetch_latest_run : Table → Option JobRun
unfolding to_run
fetch_latest_run t = elim (first_by is_later t) [ none ↦ none | some row ↦ some (to_run row) ]

abbrev pub contains : List String → String → Bool
contains [] x = false
contains (y ∷ ys) x = if str_eq y x then true else contains ys x

-- `MAX(column)`, which passes over NULL
abbrev pub max_of : List (Option ℕ) → Option ℕ
max_of [] = none
max_of (none ∷ xs) = max_of xs
max_of (some n ∷ xs) = elim (max_of xs) [ none ↦ some n | some m ↦ some (max n m) ]

-- `MIN(column)`
abbrev pub min_of : List ℕ → Option ℕ
min_of [] = none
min_of (n ∷ xs) = elim (min_of xs) [ none ↦ some n | some m ↦ some (min n m) ]

-- `get_latest_successful_finished_at`; of no job types it returns `None` without a query, as the
-- query would
pub get_latest_successful_finished_at : List String → Table → Option ℕ
get_latest_successful_finished_at job_types t = max_of (
    map (λ r. r.finished_at)
      (select_where (λ r. is_succeeded r.status && contains job_types r.job_type) t))

pub record QueueMetrics : Type 0 where
  pub queued_jobs_count : ℕ
  pub retry_scheduled_jobs_count : ℕ
  pub running_jobs_count : ℕ
  pub failed_jobs_count : ℕ
  pub oldest_queued_at : Option ℕ
  pub oldest_queued_age_seconds : Option ℤ

-- `next_retry_at IS NOT NULL AND next_retry_at > :now`
abbrev pub is_later_than : ℕ → Option ℕ → Bool
is_later_than now none = false
is_later_than now (some at) = ltb now at

-- `int((now - then).total_seconds())`, which rounds towards 0
abbrev pub age_seconds : (now at : ℕ) → ℤ
age_seconds now at =
    if leb at now then pos ((now - at) / 1_000_000) else neg ((at - now) / 1_000_000)

-- `get_queue_metrics`; `_serialize_queue_metrics` renames these fields for the response
unfoldable pub get_queue_metrics : ℕ → Table → QueueMetrics
get_queue_metrics now t =
    let oldest = min_of (map (λ r. r.queued_at) (select_where (λ r. is_queued r.status) t)) in
    record {
      queued_jobs_count = count_where (λ r. is_queued r.status) t;
      retry_scheduled_jobs_count =
          count_where (λ r. is_queued r.status && is_later_than now r.next_retry_at) t;
      running_jobs_count =
          count_where (λ r. is_running r.status && lease_holds now r.locked_until) t;
      failed_jobs_count = count_where (λ r. is_failed r.status) t;
      oldest_queued_at = oldest;
      oldest_queued_age_seconds = elim oldest [ none ↦ none | some at ↦ some (age_seconds now at) ];
    }

pub record FailedRun : Type 0 where
  pub job_id : String
  pub job_type : String
  pub message : Option String
  pub error_message : Option String
  pub finished_at : Option ℕ

-- `ORDER BY CASE WHEN finished_at IS NULL THEN 1 ELSE 0 END, finished_at DESC, queued_at DESC`
abbrev pub failed_before : JobRun → JobRun → Bool
failed_before a b = elim a.finished_at [
  | none ↦ elim b.finished_at [ none ↦ ltb b.queued_at a.queued_at | some n ↦ false ]
  | some m ↦ elim b.finished_at [
    | none ↦ true
    | some n ↦ ltb n m || m == n && ltb b.queued_at a.queued_at
  ]
]

-- `list_recent_failed_runs`
pub list_recent_failed_runs : ℕ → Table → List FailedRun
list_recent_failed_runs limit t =
    map
      (λ r. record {
        job_id = r.id;
        job_type = r.job_type;
        message = r.message;
        error_message = r.error_message;
        finished_at = r.finished_at;
      })
      (take (max 1 limit) (order_by failed_before (select_where (λ r. is_failed r.status) t)))

-- The `status` strings of `JobStatus`.
pub data StatusText : Type 0 where
  idle queued running completed failed cancelled : StatusText

pub record JobStatus : Type 0 where
  pub status : StatusText
  pub job_id : Option String
  pub message : Option String
  pub started_at : Option ℕ
  pub completed_at : Option ℕ
  pub result : Option Fields
  pub queue : QueueMetrics

abbrev pub idle_job_status_message : String
idle_job_status_message = "まだジョブは実行されていません"

abbrev pub queued_job_status_message : String
queued_job_status_message = "ジョブを実行待ちキューに登録しました"

-- `"completed" if run.status == "succeeded" else run.status`
abbrev pub status_text : RunStatus → StatusText
status_text RunStatus.queued = StatusText.queued
status_text RunStatus.running = StatusText.running
status_text RunStatus.succeeded = completed
status_text RunStatus.failed = StatusText.failed
status_text RunStatus.cancelled = StatusText.cancelled

-- `run.message or QUEUED_JOB_STATUS_MESSAGE`, which replaces an empty message too
abbrev pub or_text : Option String → String → String
or_text none d = d
or_text (some m) d = if str_eq m "" then d else m

-- `JobStatusSummaryMixin.get`
unfoldable pub get : ℕ → Table → JobStatus
unfolding fetch_latest_run get_queue_metrics
get now t = elim (fetch_latest_run t) [
  | none ↦ record {
    status = idle;
    job_id = none;
    message = some idle_job_status_message;
    started_at = none;
    completed_at = none;
    result = none;
    queue = get_queue_metrics now t;
  }
  | some run ↦ record {
    status = status_text run.status;
    job_id = some run.id;
    message =
        if is_queued run.status
        then some (or_text run.message queued_job_status_message)
        else run.message;
    started_at = run.started_at;
    completed_at = run.finished_at;
    result = run.result;
    queue = get_queue_metrics now t;
  }
]
