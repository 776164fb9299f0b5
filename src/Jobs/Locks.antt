-- ===== src/Jobs/Locks.antt =====
-- `_execute_job_run` under `advisory_lock`: who runs, and who waits.
use fraudhunter.Common.{
  ℕ, ◌+◌, Bool, true, false, Option, none, some, List, ◌∷◌, ◌≡◌, refl, ◌∙◌, arith, find_where,
  update_where, find-update_self, inl, inr, Bool-cases,
}
use fraudhunter.Common.Result.{Result, ok, err}
use fraudhunter.Common.Time.{seconds}
use fraudhunter.Queue.Run.{JobRun, queued}
use fraudhunter.Queue.Store.{Table, has_id, requeue_blocked, blocked}
use fraudhunter.Queue.Invariant.{IsConsistent}
use fraudhunter.Queue.Steps.{requeue_blocked-IsConsistent}
use fraudhunter.Queue.Retry.{reactivate_active}
use fraudhunter.Jobs.Formats.{Formats}
use fraudhunter.Jobs.Execute.{
  World, Outcome, Handlers, contains, remove, dispatch_job, lock_of, execute_job_run, wait_message,
}
use fraudhunter.Queue.Handover.{IsReady}
use fraudhunter.Jobs.Outcome.{KeepsRun, RunEnds, finished, finished-Ends}

-- Some session holds the lock of the run.
abbrev pub is_blocked : {R : Type 0} → Formats → JobRun → World R → Bool
is_blocked f run w = elim (lock_of f run.concurrency_key) [
  | none ↦ false
  | some h ↦ contains w.held h
]

-- The world in which the job starts, with the lock of its run taken.
abbrev pub locking : {R : Type 0} → Option ℕ → World R → World R
locking none w = w
locking (some h) w = record w { held = h ∷ w.held }

abbrev pub unlocking : {R : Type 0} → Option ℕ → World R → World R
unlocking none w = w
unlocking (some h) w = record w { held = remove h w.held }

remove_last : (h : ℕ) (held : List ℕ) → remove h (h ∷ held) ≡ held
unfolding remove
remove_last h held = ground arith

unlocking_held :
    {R : Type 0} (lock : Option ℕ) (w w' : World R)
    → w'.held ≡ (locking lock w).held
    → (unlocking lock w').held ≡ w.held
unlocking_held none w w' e = e
unlocking_held (some h) w w' e = rw e (remove_last h w.held)

module _ {R : Type 0} (f : Formats) (handlers : Handlers R) (run : JobRun) where
  pub released :
      (lock : Option ℕ) (w w1 : World R) (r : Result Outcome)
      → lock_of f run.concurrency_key ≡ lock
      → is_blocked f run w ≡ false
      → dispatch_job f handlers run (locking lock w) ≡ (r, w1)
      → execute_job_run f handlers run w ≡ finished f handlers run r (unlocking lock w1)
  unfolding execute_job_run
  released none w w1 (ok o) e free d = ground arith
  released none w w1 (err x) e free d = ground arith
  released (some h) w w1 (ok o) e free d = ground arith
  released (some h) w w1 (err x) e free d = ground arith

  ready_locking :
      (lock : Option ℕ) (w : World R)
      → IsReady run.id w.table
      → IsReady run.id (locking lock w).table
  ready_locking none w h = h
  ready_locking (some l) w h = h

  ended :
      (lock : Option ℕ) (w w1 : World R) (r : Result Outcome)
      → w1.held ≡ (locking lock w).held
      → IsReady run.id w1.table
      → let (o, v) = finished f handlers run r (unlocking lock w1) in
        (o ≡ ok tt)
        × (v.held ≡ w.held)
        × (v.rest ≡ w1.rest)
        × IsConsistent v.table
        × RunEnds w1.clock run.id w1.table r v.table
  ended none w w1 r same ready =
      let (done, held, rest, consistent, ends) = finished-Ends f handlers run r w1 ready in
      (done, held ∙ same, rest, consistent, ends)
  ended (some h) w w1 r same ready =
      let (done, held, rest, consistent, ends) =
        finished-Ends f handlers run r (unlocking (some h) w1) ready in
      (done, held ∙ unlocking_held (some h) w w1 same, rest, consistent, ends)

  waiting : World R → Table
  waiting w =
      update_where (has_id run.id) (blocked (wait_message run) (w.clock + seconds 15)) w.table

  requeued :
      (w : World R)
      → IsReady run.id w.table
      → requeue_blocked w.clock run.id (wait_message run) 15 w.table ≡ ok (waiting w)
  unfolding requeue_blocked waiting
  requeued w ready = reactivate_active run.id _ w.table ready.active

  put_back :
      (w : World R)
      → IsReady run.id w.table
      → is_blocked f run w ≡ true
      → execute_job_run f handlers run w ≡ (ok tt, record w { table = waiting w })
  unfolding execute_job_run
  put_back w ready held = ground (arith, requeued w ready)

  -- A run whose lock is held by another session is put back: nothing is raised, the job does not run, the
  -- locks and the rest of the database stay, and the run is queued, without a lease and with its
  -- attempts unspent, to be due 15 seconds later.
  pub execute_job_run_blocked :
      (w : World R) (ready : IsReady run.id w.table)
      → is_blocked f run w ≡ true
      → let (o, v) = execute_job_run f handlers run w in
        (o ≡ ok tt)
        × (v.held ≡ w.held)
        × (v.rest ≡ w.rest)
        × IsConsistent v.table
        × ((b : JobRun) × (find_where (has_id run.id) v.table ≡ some b)
            × (b.status ≡ queued)
            × (b.attempt_count ≡ ready.row.attempt_count)
            × (b.next_retry_at ≡ some (w.clock + seconds 15))
            × (b.locked_until ≡ none)
            × (b.worker_id ≡ none))
  unfolding waiting
  execute_job_run_blocked w ready held =
      let set = blocked (wait_message run) (w.clock + seconds 15) in
      rw (put_back w ready held) (
        refl,
        refl,
        refl,
        requeue_blocked-IsConsistent w.clock run.id (wait_message run) 15 w.table _ ready.active
            (requeued w ready) ready.consistent,
        (
          set ready.row,
          find-update_self (has_id run.id) set w.table ready.row (λ x. refl) ready.found,
          refl,
          refl,
          refl,
          refl,
          refl,
        ),
      )

  -- A run whose lock is free, or that has none, is executed to an end: nothing is raised, the locks are
  -- as before, the table is consistent, and the run is completed with the result of the job, failed for
  -- good, or queued for a retry, as `RunEnds` says. The job must leave the locks and the run in place.
  pub execute_job_run-Ends :
      (w : World R)
      → is_blocked f run w ≡ false
      → IsReady run.id w.table
      → KeepsRun f handlers run
      → let (r, w1) = dispatch_job f handlers run (locking (lock_of f run.concurrency_key) w) in
        let (o, v) = execute_job_run f handlers run w in
        (o ≡ ok tt)
        × (v.held ≡ w.held)
        × (v.rest ≡ w1.rest)
        × IsConsistent v.table
        × RunEnds w1.clock run.id w1.table r v.table
  execute_job_run-Ends w free ready keeps =
      let lock = lock_of f run.concurrency_key in
      let (r, w1) = dispatch_job f handlers run (locking lock w) in
      rw (released lock w w1 r refl free refl) (
        ended lock w w1 r (keeps.locks (locking lock w))
          (keeps.ready (locking lock w) (ready_locking lock w ready)))

  -- Executing a ready run raises nothing and keeps the table consistent, whoever has the lock.
  pub execute_job_run_total :
      (w : World R)
      → IsReady run.id w.table
      → KeepsRun f handlers run
      → let (o, v) = execute_job_run f handlers run w in
        (o ≡ ok tt) × (v.held ≡ w.held) × IsConsistent v.table
  execute_job_run_total w ready keeps = elim (Bool-cases (is_blocked f run w)) [
    | inl held ↦
        let (done, locks, rest, consistent, row) = execute_job_run_blocked w ready held in
        (done, locks, consistent)
    | inr free ↦
        let (done, locks, rest, consistent, ends) = execute_job_run-Ends w free ready keeps in
        (done, locks, consistent)
  ]
