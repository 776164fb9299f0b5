-- ===== src/Queue/Invariant.antt =====
-- What holds of every row of `job_runs`, and of the table as a whole, between two calls.
use fraudhunter.Common.{◌≤◌, ◌<◌, String, true, false, none, ◌≡◌, is_some, All, count_where}
use fraudhunter.Queue.Run.{JobRun, is_queued, is_running, is_active, is_finished}
use fraudhunter.Queue.Store.{Table, has_id, is_active_under}

-- A row: attempts are left while it is active, a lease and a worker stand exactly as its status says,
-- and it has the end time and the retry time that its status calls for.
pub record IsSound (r : JobRun) : Type 0 where
  pub attempts_bounded : r.attempt_count ≤ r.max_attempts
  pub attempts_left : is_active r.status ≡ true → r.attempt_count < r.max_attempts
  pub leased : is_running r.status ≡ true → is_some r.locked_until ≡ true
  pub owned : is_running r.status ≡ true → is_some r.worker_id ≡ true
  pub unleased : is_running r.status ≡ false → r.locked_until ≡ none
  pub unowned : is_queued r.status ≡ true → r.worker_id ≡ none
  pub unfinished : is_active r.status ≡ true → r.finished_at ≡ none
  pub stamped : is_finished r.status ≡ true → is_some r.finished_at ≡ true
  pub settled : is_finished r.status ≡ true → r.next_retry_at ≡ none

-- The table: every row is sound, the ids are unique, and so are the dedupe keys of the active rows.
pub record IsConsistent (t : Table) : Type 0 where
  pub rows : All IsSound t
  pub ids : (i : String) → count_where (has_id i) t ≤ 1
  pub keys : (k : String) → count_where (is_active_under k) t ≤ 1
