-- ===== src/Jobs/Execute.antt =====
-- `process_queued_jobs`, `_execute_job_run` and `_dispatch_job` of `services/jobs.py`, with the
-- `advisory_lock` of `job_status_queue.py`.
use Prim.Native.String.{◌++◌ as str_append}
use fraudhunter.Common.{
  ℕ, zero, suc, ◌+◌, String, Bool, true, false, Option, none, some, List, [], ◌∷◌, str_eq, ◌==◌,
  if◌then◌else◌,
}
use fraudhunter.Common.Int.{ℤ, pos}
use fraudhunter.Common.Json.{Json, Fields, num, flag, text, end, field}
use fraudhunter.Common.Result.{Result, Exn, ok, err, value_error, key_error, other_error, ◌>>=◌}
use fraudhunter.Queue.Run.{JobRun}
use fraudhunter.Queue.Store.{Table, acquire_next, requeue_blocked, complete, fail}
use fraudhunter.Jobs.Formats.{Formats}
use fraudhunter.Jobs.Kinds.{
  click_ingest, conversion_ingest, refresh, recompute_findings_date, master_sync, get_field,
  is_truthy, or_empty, date_of_json,
}

-- What a worker reads and writes: the table of runs, the advisory locks that sessions hold, by their
-- hash, and the clock. `R` is the rest of the database.
pub record World (R : Type 0) : Type 0 where
  pub table : Table
  pub held : List ℕ
  pub clock : ℕ
  pub rest : R

abbrev pub Action : Type 0 → Type 0 → Type 0
Action R A = World R → Result A × World R

-- The result dict of a job, and its message.
abbrev pub Outcome : Type 0
Outcome = Fields × String

-- The `run_…` functions that `_dispatch_job` calls.
pub record Handlers (R : Type 0) : Type 0 where
  pub run_click_ingestion : (target_date : ℕ) (job_run_id : String) → Action R Outcome
  pub run_conversion_ingestion : (target_date : ℕ) (job_run_id : String) → Action R Outcome
  pub run_refresh :
      (hours : ℤ) (clicks conversions detect : Bool) (job_run_id : String) → Action R Outcome
  pub run_recompute_findings_for_date :
      (target_date : ℕ) (generation_id trigger job_run_id : String) (source_job_id : Option Json)
      → Action R Outcome
  pub run_master_sync : (job_run_id : String) → Action R Outcome

-- `params[name]`
abbrev pub required : String → Fields → Result Json
required name fields = elim (get_field name fields) [ none ↦ err (key_error name) | some v ↦ ok v ]

-- `bool(params.get(name, default))`
abbrev pub flag_or : String → Bool → Fields → Bool
flag_or name default fields = elim (get_field name fields) [
  | none ↦ default
  | some v ↦ is_truthy (some v)
]

-- A pure check before an action: if it raises, nothing has been done.
abbrev pub after : {R A B : Type 0} → Result A → (A → Action R B) → Action R B
after (ok a) f w = f a w
after (err e) f w = (err e, w)

unfoldable pub contains : List ℕ → ℕ → Bool
contains [] h = false
contains (x ∷ xs) h = if x == h then true else contains xs h

-- `pg_advisory_unlock`
unfoldable pub remove : ℕ → List ℕ → List ℕ
remove h [] = []
remove h (x ∷ xs) = let rest = remove h xs in if x == h then xs else x ∷ rest

-- `_is_retryable_job_error`
abbrev pub is_retryable : Exn → Bool
is_retryable (value_error s) = false
is_retryable _ = true

-- The lock of `advisory_lock(concurrency_key)`: none for `None` and for the empty key.
abbrev pub lock_of : Formats → Option String → Option ℕ
lock_of f none = none
lock_of f (some k) = if str_eq k "" then none else some (f.hashtext k)

-- `f"{run.job_type} is waiting for {run.concurrency_key}"`
abbrev pub wait_message : JobRun → String
wait_message run =
    let key : String = elim run.concurrency_key [ none ↦ "None" | some k ↦ k ] in
    str_append run.job_type (str_append " is waiting for " key)

-- `int(value)`
abbrev pub int_of_json : Formats → Json → Result ℤ
int_of_json f (num n) = ok (pos n)
int_of_json f (flag b) = ok (pos (if b then 1 else 0))
int_of_json f (text s) = elim (f.parse_int s) [
  | none ↦ err (value_error "invalid literal for int()")
  | some n ↦ ok n
]
int_of_json f _ = err (other_error "int() argument must be a string or a number")

module _ {R : Type 0} (f : Formats) (handlers : Handlers R) where
  open handlers use {
    run_click_ingestion, run_conversion_ingestion, run_refresh, run_recompute_findings_for_date,
    run_master_sync,
  }
  open f use {show, exn_text}

  -- `_dispatch_job`
  unfoldable pub dispatch_job : JobRun → Action R Outcome
  dispatch_job run =
      let params = or_empty run.params in
      let date : Result ℕ = required "date" params >>= date_of_json f in
      if str_eq run.job_type click_ingest
      then after date (λ d. run_click_ingestion d run.id)
      else if str_eq run.job_type conversion_ingest
      then after date (λ d. run_conversion_ingestion d run.id)
      else if str_eq run.job_type refresh
      then after (do v ← required "hours" params; int_of_json f v)
          (λ hours.
            run_refresh hours (flag_or "clicks" true params) (flag_or "conversions" true params)
              (flag_or "detect" false params) run.id)
      else if str_eq run.job_type recompute_findings_date
      then after {A = ℕ × String} (do d ← date; g ← required "generation_id" params; ok (d, show g))
          (λ p.
            run_recompute_findings_for_date p.0 p.1
              (elim (get_field "trigger" params) [
                | none ↦ "job"
                | some v ↦ if is_truthy (some v) then show v else "job"
              ])
              run.id (get_field "source_job_id" params))
      else if str_eq run.job_type master_sync
      then run_master_sync run.id
      else λ w. (err (value_error (str_append "Unsupported job_type: " run.job_type)), w)

  -- The body of the `with` block that has the lock: the job, and `complete` if it returned. The beats of
  -- `_heartbeat` happen while the job runs, and are part of what the job does to the world.
  unfoldable pub run_and_complete : JobRun → Action R Unit
  unfolding dispatch_job
  run_and_complete run w =
      let (r, w') = dispatch_job run w in
      elim r [
        | ok (result, message) ↦
            (ok tt, record w' { table = complete w'.clock run.id message (some result) w'.table })
        | err e ↦ (err e, w')
      ]

  -- The branch of `_execute_job_run` that did not get the lock.
  abbrev pub requeue : JobRun → Action R (Unit {0})
  requeue run w = elim (requeue_blocked w.clock run.id (wait_message run) 15 w.table) [
    | ok t ↦ (ok tt, record w { table = t })
    | err e ↦ (err e, w)
  ]

  -- `with store.advisory_lock(run.concurrency_key) as acquired`, with the body of `_execute_job_run`
  unfoldable pub locked_run : JobRun → Action R Unit
  unfolding run_and_complete contains remove
  locked_run run w = elim (lock_of f run.concurrency_key) [
    | none ↦ run_and_complete run w
    | some h ↦
        if contains w.held h
        then requeue run w
        else (let (r, w') = run_and_complete run (record w { held = h ∷ w.held }) in
            (r, record w' { held = remove h w'.held }))
  ]

  -- The `except Exception` of `_execute_job_run`
  unfoldable pub handle_failure : JobRun → Exn → Action R Unit
  handle_failure run e w =
      let message = str_append run.job_type (str_append " failed: " (exn_text e)) in
      let result = field "success" (flag false) (field "error" (text (exn_text e)) end) in
      elim (fail w.clock run.id message (some result) (some (exn_text e)) (is_retryable e) none
        w.table) [ ok (s, t) ↦ (ok tt, record w { table = t }) | err e' ↦ (err e', w) ]

  -- `_execute_job_run`
  unfoldable pub execute_job_run : JobRun → Action R Unit
  unfolding locked_run
  execute_job_run run w =
      let (r, w') = locked_run run w in
      elim r [ ok u ↦ (ok tt, w') | err e ↦ handle_failure run e w' ]

  -- One round of `process_queued_jobs`, on what `acquire_next` answered; `rest` is the rest of the loop.
  abbrev pub round_of :
      (processed : ℕ) (rest : Action R ℕ) → World R → Option JobRun × Table → Result ℕ × World R
  round_of processed rest w (none, t) = (ok processed, record w { table = t })
  round_of processed rest w (some run, t) =
      let (done, w') = execute_job_run run (record w { table = t }) in
      elim done [ ok u ↦ rest w' | err e ↦ (err e, w') ]

  -- The loop of `process_queued_jobs`, with the number processed so far
  unfoldable pub process_loop :
      (max_jobs processed lease_seconds : ℕ) (worker : String) → Action R ℕ
  process_loop zero processed lease worker w = (ok processed, w)
  process_loop (suc n) processed lease worker w =
      round_of processed (process_loop n (processed + 1) lease worker) w
        (acquire_next w.clock w.clock lease worker w.table)

  -- `process_queued_jobs`
  unfoldable pub process_queued_jobs : (max_jobs lease_seconds : ℕ) (worker : String) → Action R ℕ
  unfolding process_loop
  process_queued_jobs max_jobs lease_seconds worker = process_loop max_jobs 0 lease_seconds worker
