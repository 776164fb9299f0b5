-- ===== src/Jobs/Rest.antt =====
-- The worker changes nothing but the queue and the locks: what its jobs keep of the database, its loop keeps.
use fraudhunter.Common.{
  ℕ, zero, suc, ◌+◌, String, true, Option, none, some, ◌≡◌, refl, subst, sym, arith, inl, inr,
  Bool-cases,
}
use fraudhunter.Common.Result.{Result, Exn, ok, err}
use fraudhunter.Queue.Run.{JobRun, RunStatus}
use fraudhunter.Queue.Store.{Table, acquire_next, requeue_blocked, fail}
use fraudhunter.Jobs.Formats.{Formats}
use fraudhunter.Jobs.Execute.{
  World, Outcome, Handlers, dispatch_job, lock_of, is_retryable, handle_failure, wait_message,
  execute_job_run, round_of, process_loop, process_queued_jobs,
}
use fraudhunter.Jobs.Outcome.{stored, finished}
use fraudhunter.Jobs.Ready.{Result-cases}
use fraudhunter.Jobs.Locks.{is_blocked, locking, unlocking, released}

module _ {R : Type 0} (f : Formats) (handlers : Handlers R) (P : R → Type 0) where
  stored_keeps : (w : World R) (r : Result (RunStatus × Table)) → P w.rest → P (stored w r).1.rest
  stored_keeps w (ok (s, t)) h = h
  stored_keeps w (err e) h = h

  failure_keeps :
      (run : JobRun) (e : Exn) (w : World R)
      → P w.rest
      → P (handle_failure f handlers run e w).1.rest
  unfolding handle_failure
  failure_keeps run e w h =
      stored_keeps w (fail w.clock run.id _ _ _ (is_retryable e) none w.table) h

  finished_keeps :
      (run : JobRun) (r : Result Outcome) (w : World R)
      → P w.rest
      → P (finished f handlers run r w).1.rest
  finished_keeps run (ok (result, message)) w h = h
  finished_keeps run (err e) w h = failure_keeps run e w h

  unlocked_keeps : (lock : Option ℕ) (w : World R) → P w.rest → P (unlocking lock w).rest
  unlocked_keeps none w h = h
  unlocked_keeps (some l) w h = h

  locked_keeps : (lock : Option ℕ) (w : World R) → P w.rest → P (locking lock w).rest
  locked_keeps none w h = h
  locked_keeps (some l) w h = h

  blocked_keeps :
      (run : JobRun) (w : World R)
      → is_blocked f run w ≡ true
      → P w.rest
      → P (execute_job_run f handlers run w).1.rest
  unfolding execute_job_run
  blocked_keeps run w held h =
      elim (Result-cases (requeue_blocked w.clock run.id (wait_message run) 15 w.table)) [
        | inl (t, put) ↦
            let back : execute_job_run f handlers run w ≡ (ok tt, record w { table = t }) =
              ground (arith, put) in
            subst (λ (x : Result (Unit {0}) × World R). P x.1.rest) (sym back) h
        | inr (e, raised) ↦
            let failed : execute_job_run f handlers run w ≡ handle_failure f handlers run e w =
              ground (arith, raised) in
            subst (λ (x : Result (Unit {0}) × World R). P x.1.rest) (sym failed)
              (failure_keeps run e w h)
      ]

  module _
      (keeps : (run : JobRun) (w : World R)
        → P w.rest
        → P (dispatch_job f handlers run w).1.rest) where
    execute_keeps :
        (run : JobRun) (w : World R) → P w.rest → P (execute_job_run f handlers run w).1.rest
    execute_keeps run w h = elim (Bool-cases (is_blocked f run w)) [
      | inl held ↦ blocked_keeps run w held h
      | inr free ↦
          let lock = lock_of f run.concurrency_key in
          let (r, w1) = dispatch_job f handlers run (locking lock w) in
          rw (released f handlers run lock w w1 r refl free refl) (
            finished_keeps run r (unlocking lock w1)
              (unlocked_keeps lock w1 (keeps run (locking lock w) (locked_keeps lock w h))))
    ]

    ran_keeps :
        (rest : World R → Result ℕ × World R) (d : Result (Unit {0}) × World R)
        → P d.1.rest
        → ((v : World R) → P v.rest → P (rest v).1.rest)
        → P
            (elim d.0 as (λ x. Result ℕ × World R) [
              | ok u ↦ rest d.1
              | err x ↦ (err x, d.1)
            ]).1.rest
    ran_keeps rest (ok u, v) h more = more v h
    ran_keeps rest (err x, v) h more = h

    round_keeps :
        (processed : ℕ) (rest : World R → Result ℕ × World R) (w : World R)
        (a : Option JobRun × Table)
        → P w.rest
        → ((v : World R) → P v.rest → P (rest v).1.rest)
        → P (round_of f handlers processed rest w a).1.rest
    round_keeps processed rest w (none, t) h more = h
    round_keeps processed rest w (some run, t) h more =
        let w' = record w { table = t } in
        ran_keeps rest (execute_job_run f handlers run w') (execute_keeps run w' h) more

    loop_keeps :
        (max_jobs processed lease : ℕ) (worker : String) (w : World R)
        → P w.rest
        → P (process_loop f handlers max_jobs processed lease worker w).1.rest
    unfolding process_loop
    loop_keeps zero processed lease worker w h = h
    loop_keeps (suc n) processed lease worker w h =
        round_keeps processed (process_loop f handlers n (processed + 1) lease worker) w
          (acquire_next w.clock w.clock lease worker w.table) h
          (λ v. loop_keeps n (processed + 1) lease worker v)

    pub process_queued_jobs_keeps :
        (max_jobs lease : ℕ) (worker : String) (w : World R)
        → P w.rest
        → P (process_queued_jobs f handlers max_jobs lease worker w).1.rest
    unfolding process_queued_jobs
    process_queued_jobs_keeps max_jobs lease worker w h = loop_keeps max_jobs 0 lease worker w h
