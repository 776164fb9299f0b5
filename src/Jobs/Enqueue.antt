-- ===== src/Jobs/Enqueue.antt =====
-- `enqueue_job` of `services/jobs.py`: the look-up of a duplicate, the insert, and its refusal.
use fraudhunter.Common.{ℕ, String, Bool, false, ◌&&◌, Option, none, some, str_eq, if◌then◌else◌}
use fraudhunter.Common.Json.{Fields}
use fraudhunter.Common.Result.{Result, ok, err, integrity_error, ◌>>=◌}
use fraudhunter.Queue.Run.{JobRun}
use fraudhunter.Queue.Store.{Table, find_active_duplicate, enqueue}
use fraudhunter.Jobs.Formats.{Formats}
use fraudhunter.Jobs.Kinds.{
  default_attempts_of, default_priority_of, dedupe_key_of, concurrency_key_of,
}

-- What `enqueue_job` is called with, and what its environment answers: the clock, `uuid4`, whether
-- `_should_use_in_process_background_kick()` holds, and what other clients do to the table between the
-- look-up of a duplicate and the insert.
pub record Request : Type 0 where
  pub job_type : String
  pub params : Option Fields
  pub start_message : String
  pub dedupe_key : Option String
  pub concurrency_key : Option String
  pub has_background_tasks : Bool

pub record Environment : Type 0 where
  pub now : ℕ
  pub run_id : String
  pub uses_kick : Bool
  pub meanwhile : Table → Table

-- The run, the table, and whether `process_queued_jobs` was added to the background tasks.
abbrev pub Enqueued : Type 0
Enqueued = JobRun × Table × Bool

-- `dedupe_key or _dedupe_key(job_type, params)`
abbrev pub key_of : Formats → Request → String
key_of f r = elim r.dedupe_key [
  | none ↦ dedupe_key_of f r.job_type r.params
  | some k ↦ if str_eq k "" then dedupe_key_of f r.job_type r.params else k
]

-- `concurrency_key if concurrency_key is not None else _job_concurrency_key(job_type, params)`
abbrev pub lock_key_of : Formats → Request → Result (Option String)
lock_key_of f r = elim r.concurrency_key [
  | none ↦ concurrency_key_of f r.job_type r.params
  | some k ↦ ok (some k)
]

-- The call of `store.enqueue`.
abbrev pub store_enqueue :
    Environment
    → Request
    → (key : String) (lock_key : Option String) → Table
    → Result (JobRun × Table)
store_enqueue env r key lock_key t =
    enqueue env.now env.run_id r.job_type r.params (some r.start_message)
      (default_attempts_of r.job_type) (some key) (default_priority_of r.job_type) lock_key t

-- The insert and its handler of `IntegrityError`, which looks for the duplicate again.
unfoldable pub insert_or_duplicate :
    Environment → Request → (key : String) (lock_key : Option String) → Table → Result Enqueued
insert_or_duplicate env r key lock_key t = elim (store_enqueue env r key lock_key t) [
  | ok (run, u) ↦ ok (run, u, r.has_background_tasks && env.uses_kick)
  | err integrity_error ↦ elim (find_active_duplicate key t) [
    | none ↦ err integrity_error
    | some duplicate ↦ ok (duplicate, t, false)
  ]
  | err e ↦ err e
]

-- `enqueue_job`
unfoldable pub enqueue_job : Formats → Environment → Request → Table → Result Enqueued
unfolding insert_or_duplicate
enqueue_job f env r t = do
  lock_key ← lock_key_of f r
  let key = key_of f r
  elim (find_active_duplicate key t) [
    | some duplicate ↦ ok (duplicate, t, false)
    | none ↦ insert_or_duplicate env r key lock_key (env.meanwhile t)
  ]
