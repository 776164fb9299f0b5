-- ===== src/Queue/Store.antt =====
-- `JobStatusQueueStore` of `job_status_queue.py`: each method that writes, as a function from the rows
-- of `job_runs` to the rows after it. What `now_local()` and `uuid4()` return is an argument.
use Prim.Native.String.{◌++◌ as str_append}
use fraudhunter.Common.{
  ℕ, ◌+◌, ◌-◌, ◌*◌, ◌^◌, String, Bool, true, false, not, ◌&&◌, ◌||◌, Option, none, some, List, [],
  ◌∷◌, ◌++◌, ltb, leb, ◌==◌, str_eq, if◌then◌else◌, get_or, min, max, count_where, update_where,
  select_where, delete_where, exists_where, find_where, first_by,
}
use fraudhunter.Common.Json.{Fields}
use fraudhunter.Common.Result.{Result, ok, err, runtime_error, integrity_error, ◌>>=◌}
use fraudhunter.Common.Time.{seconds}
use fraudhunter.Queue.Run.{
  RunStatus, JobRun, queued, running, succeeded, failed, cancelled, default_priority,
  default_retry_base_seconds, max_retry_backoff_seconds, is_queued, is_running, is_active,
  is_finished,
}

abbrev pub Table : Type 0
Table = List JobRun

-- `value or default` on an integer column: 0 is replaced too.
abbrev pub or_default : ℕ → ℕ → ℕ
or_default value default = if value == 0 then default else value

-- `_to_run`
unfoldable pub to_run : JobRun → JobRun
to_run row = record row {
  max_attempts = or_default row.max_attempts 1;
  priority = or_default row.priority default_priority;
}

abbrev pub has_id : String → JobRun → Bool
has_id run_id row = str_eq row.id run_id

-- `get_by_id`
unfoldable pub get_by_id : String → Table → Option JobRun
unfolding to_run
get_by_id run_id t = elim (find_where (has_id run_id) t) [
  | none ↦ none
  | some row ↦ some (to_run row)
]

abbrev pub opt_has : Option String → String → Bool
opt_has none key = false
opt_has (some k) key = str_eq k key

-- A row that the partial unique index `ux_job_runs_active_dedupe_key` holds under `key`.
abbrev pub is_active_under : String → JobRun → Bool
is_active_under key row = opt_has row.dedupe_key key && is_active row.status

-- `ORDER BY queued_at DESC`
abbrev pub queued_later : JobRun → JobRun → Bool
queued_later a b = ltb b.queued_at a.queued_at

-- `find_active_duplicate`
unfoldable pub find_active_duplicate : String → Table → Option JobRun
unfolding to_run
find_active_duplicate key t = elim (first_by queued_later (select_where (is_active_under key) t)) [
  | none ↦ none
  | some row ↦ some (to_run row)
]

-- `next_retry_at IS NULL OR next_retry_at <= :now`
abbrev pub is_due : ℕ → Option ℕ → Bool
is_due now none = true
is_due now (some at) = leb at now

-- `locked_until IS NULL OR locked_until >= :now`
abbrev pub lease_holds : ℕ → Option ℕ → Bool
lease_holds now none = true
lease_holds now (some until) = leb now until

-- `has_active_job`
unfoldable pub has_active_job : ℕ → Table → Bool
has_active_job now t =
    exists_where
      (λ row.
        is_queued row.status && is_due now row.next_retry_at
        || is_running row.status && lease_holds now row.locked_until)
      t

-- The index admits a row under `key` if no other active row has that key.
abbrev pub is_taken : Option String → Table → Bool
is_taken none t = false
is_taken (some key) t = exists_where (is_active_under key) t

-- The row that `enqueue` inserts, which is also the `JobRun` that it returns.
abbrev pub new_run :
    (now : ℕ) (run_id job_type : String) (params : Option Fields) (message : Option String)
    (max_attempts : ℕ) (dedupe_key : Option String) (priority : ℕ) (concurrency_key : Option String)
    → JobRun
new_run now run_id job_type params message max_attempts dedupe_key priority concurrency_key =
    record {
      id = run_id;
      job_type = job_type;
      status = queued;
      params = params;
      result = none;
      error_message = none;
      message = message;
      attempt_count = 0;
      max_attempts = max 1 max_attempts;
      next_retry_at = none;
      dedupe_key = dedupe_key;
      priority = priority;
      queued_at = now;
      started_at = none;
      finished_at = none;
      heartbeat_at = none;
      locked_until = none;
      worker_id = none;
      concurrency_key = concurrency_key;
    }

-- `INSERT INTO job_runs`, under the primary key and the partial unique index
unfoldable pub insert_run : JobRun → Table → Result Table
insert_run row t =
    if exists_where (has_id row.id) t || is_taken row.dedupe_key t
    then err integrity_error
    else ok (t ++ row ∷ [])

-- `enqueue`
unfoldable pub enqueue :
    (now : ℕ) (run_id job_type : String) (params : Option Fields) (message : Option String)
    (max_attempts : ℕ) (dedupe_key : Option String) (priority : ℕ) (concurrency_key : Option String)
    → Table
    → Result (JobRun × Table)
unfolding insert_run
enqueue now run_id job_type params message max_attempts dedupe_key priority concurrency_key t = do
  let row =
      new_run now run_id job_type params message max_attempts dedupe_key priority concurrency_key
  t' ← insert_run row t
  ok (row, t')

-- The rows that `recover_stale_runs` updates.
abbrev pub is_stale : ℕ → JobRun → Bool
is_stale now row =
    is_running row.status && elim row.locked_until [ none ↦ false | some until ↦ ltb until now ]

abbrev pub recovered : ℕ → JobRun → JobRun
recovered now row = record row {
  status = queued;
  message = some (str_append (get_or row.message row.job_type) " (lease recovered)");
  worker_id = none;
  locked_until = none;
  next_retry_at = some (get_or row.next_retry_at now);
}

-- `recover_stale_runs`, with the row count that it returns
unfoldable pub recover_stale_runs : ℕ → Table → ℕ × Table
recover_stale_runs now t =
    (count_where (is_stale now) t, update_where (is_stale now) (recovered now) t)

-- The `WHERE` of the candidate in `acquire_next`.
abbrev pub is_eligible : ℕ → JobRun → Bool
is_eligible now row = is_queued row.status && is_due now row.next_retry_at

-- `ORDER BY priority ASC, queued_at ASC`
abbrev pub runs_before : JobRun → JobRun → Bool
runs_before a b =
    ltb a.priority b.priority || (a.priority == b.priority && ltb a.queued_at b.queued_at)

unfoldable pub candidate : ℕ → Table → Option JobRun
candidate now t = first_by runs_before (select_where (is_eligible now) t)

abbrev pub acquired : (now until : ℕ) (worker : String) → JobRun → JobRun
acquired now until worker row = record row {
  status = running;
  started_at = some (get_or row.started_at now);
  heartbeat_at = some now;
  locked_until = some until;
  worker_id = some worker;
}

-- The statement of `acquire_next`, after the recovery. `UPDATE … WHERE id IN (candidate)`.
unfoldable pub take_candidate :
    (now lease_seconds : ℕ) (worker : String) → Table → Option JobRun × Table
unfolding candidate to_run
take_candidate now lease_seconds worker t =
    let until = now + seconds lease_seconds in
    elim (candidate now t) [
      | none ↦ (none, t)
      | some row ↦ (
        some (to_run (acquired now until worker row)),
        update_where (has_id row.id) (acquired now until worker) t,
      )
    ]

-- `acquire_next`: `recover_stale_runs` reads the clock first, and the statement after it.
unfoldable pub acquire_next :
    (recovery_now now lease_seconds : ℕ) (worker : String) → Table → Option JobRun × Table
unfolding take_candidate recover_stale_runs
acquire_next recovery_now now lease_seconds worker t =
    take_candidate now lease_seconds worker (recover_stale_runs recovery_now t).1

-- The rows that `heartbeat` updates.
abbrev pub beats : (run_id worker : String) → JobRun → Bool
beats run_id worker row = has_id run_id row && is_running row.status && opt_has row.worker_id worker

-- `heartbeat`
unfoldable pub heartbeat : (now lease_seconds : ℕ) (run_id worker : String) → Table → Bool × Table
heartbeat now lease_seconds run_id worker t = (
  count_where (beats run_id worker) t == 1,
  update_where (beats run_id worker)
      (λ row. record row {
        heartbeat_at = some now;
        locked_until = some (now + seconds lease_seconds);
      })
      t,
)

-- `UPDATE job_runs SET … WHERE id = :run_id`, where the statement makes the row active: if it was not,
-- the partial unique index can refuse it.
unfoldable pub reactivate : String → (JobRun → JobRun) → Table → Result Table
reactivate run_id set t =
    if exists_where
      (λ row. has_id run_id row && not (is_active row.status) && is_taken row.dedupe_key t) t
    then err integrity_error
    else ok (update_where (has_id run_id) set t)

abbrev pub blocked : (message : String) (retry_at : ℕ) → JobRun → JobRun
blocked message retry_at row = record row {
  status = queued;
  message = some message;
  worker_id = none;
  locked_until = none;
  heartbeat_at = some retry_at;
  next_retry_at = some retry_at;
}

-- `requeue_blocked`
unfoldable pub requeue_blocked :
    (now : ℕ) (run_id message : String) (delay_seconds : ℕ) → Table → Result Table
unfolding reactivate
requeue_blocked now run_id message delay_seconds t =
    reactivate run_id (blocked message (now + seconds (max 1 delay_seconds))) t

abbrev pub completed : (now : ℕ) (message : String) (result : Option Fields) → JobRun → JobRun
completed now message result row = record row {
  status = succeeded;
  message = some message;
  result = result;
  error_message = none;
  finished_at = some now;
  heartbeat_at = some now;
  locked_until = none;
  next_retry_at = none;
}

-- `complete`
unfoldable pub complete :
    (now : ℕ) (run_id message : String) (result : Option Fields) → Table → Table
complete now run_id message result t = update_where (has_id run_id) (completed now message result) t

-- `_retry_backoff_seconds`
unfoldable pub retry_backoff_seconds : ℕ → ℕ
retry_backoff_seconds next_attempt =
    min max_retry_backoff_seconds (default_retry_base_seconds * 2 ^ (next_attempt - 1))

-- `_get_attempt_state`
unfoldable pub get_attempt_state : String → Table → Result (ℕ × ℕ)
get_attempt_state run_id t = elim (find_where (has_id run_id) t) [
  | none ↦ err (runtime_error (str_append "Unknown job run: " run_id))
  | some row ↦ ok (row.attempt_count, or_default row.max_attempts 1)
]

-- What `fail` decides from the attempts: whether to retry.
abbrev pub should_retry : (retryable : Bool) (next_attempt max_attempts : ℕ) → Bool
should_retry retryable next_attempt max_attempts =
    retryable && ltb next_attempt (max 1 max_attempts)

-- `backoff_seconds or self._retry_backoff_seconds(next_attempt)`
abbrev pub backoff : Option ℕ → ℕ → ℕ
backoff none next_attempt = retry_backoff_seconds next_attempt
backoff (some s) next_attempt = or_default s (retry_backoff_seconds next_attempt)

abbrev pub failed_run :
    (now : ℕ) (message : String) (result : Option Fields) (error_message : Option String)
    (backoff_seconds : Option ℕ) (next_attempt : ℕ) (retry : Bool)
    → JobRun
    → JobRun
failed_run now message result error_message backoff_seconds next_attempt retry row = record row {
  status = if retry then queued else failed;
  message = some message;
  result = result;
  error_message = error_message;
  attempt_count = next_attempt;
  finished_at = if retry then none else some now;
  heartbeat_at = some now;
  locked_until = none;
  worker_id = none;
  next_retry_at =
      if retry then some (now + seconds (backoff backoff_seconds next_attempt)) else none;
}

-- `fail`, with the status that it returns
unfoldable pub fail :
    (now : ℕ) (run_id message : String) (result : Option Fields) (error_message : Option String)
    (retryable : Bool) (backoff_seconds : Option ℕ)
    → Table
    → Result (RunStatus × Table)
unfolding get_attempt_state reactivate
fail now run_id message result error_message retryable backoff_seconds t = do
  (attempts, max_attempts) ← get_attempt_state run_id t
  let retry = should_retry retryable (attempts + 1) max_attempts
  let set = failed_run now message result error_message backoff_seconds (attempts + 1) retry
  t' ← (if retry then reactivate run_id set t else ok (update_where (has_id run_id) set t))
  ok ((if retry then queued else failed), t')

abbrev pub cancelled_run : (now : ℕ) (message : String) → JobRun → JobRun
cancelled_run now message row = record row {
  status = cancelled;
  message = some message;
  finished_at = some now;
  heartbeat_at = some now;
  locked_until = none;
  next_retry_at = none;
}

-- `cancel`
unfoldable pub cancel : (now : ℕ) (run_id message : String) → Table → Table
cancel now run_id message t = update_where (has_id run_id) (cancelled_run now message) t

-- The `WHERE` of `purge_finished_runs_before`.
abbrev pub is_purged : ℕ → JobRun → Bool
is_purged cutoff row =
    is_finished row.status && elim row.finished_at [ none ↦ false | some at ↦ ltb at cutoff ]

-- `purge_finished_runs_before`
unfoldable pub purge_finished_runs_before : (cutoff : ℕ) (execute : Bool) → Table → ℕ × Table
purge_finished_runs_before cutoff execute t =
    (count_where (is_purged cutoff) t, if execute then delete_where (is_purged cutoff) t else t)
