-- ===== src/Jobs/Outcome.antt =====
-- How `_execute_job_run` ends a run: completed, failed for good, retried, or put back to wait for a lock.
use fraudhunter.Common.{ℕ, ◌+◌, String, none, some, ◌≡◌, ◌⊎◌, refl, find_where, find-update_self}
use fraudhunter.Common.Result.{Result, Exn, ok, err}
use fraudhunter.Queue.Run.{JobRun, RunStatus, succeeded}
use fraudhunter.Queue.Store.{Table, has_id, complete, completed, fail}
use fraudhunter.Queue.Invariant.{IsConsistent}
use fraudhunter.Queue.Steps.{complete-IsConsistent}
use fraudhunter.Queue.Handover.{IsReady}
use fraudhunter.Queue.Refusals.{fail-IsConsistent}
use fraudhunter.Queue.Retry.{GivenUp, Retried, Fails, fail-Fails}
use fraudhunter.Jobs.Formats.{Formats}
use fraudhunter.Jobs.Execute.{World, Outcome, Handlers, is_retryable, dispatch_job, handle_failure}

-- How the table `t` holds the run `i` after a job that ended at `now` with `r`, where `s` is the table
-- that the job left.
abbrev pub RunEnds : (now : ℕ) (i : String) (s : Table) → Result Outcome → Table → Type 0
RunEnds now i s (ok (result, message)) t =
    (b : JobRun) × (find_where (has_id i) t ≡ some b)
    × (b.status ≡ succeeded)
    × (b.result ≡ some result)
    × (b.message ≡ some message)
    × (b.finished_at ≡ some now)
    × (b.locked_until ≡ none)
RunEnds now i s (err e) t =
    (a : JobRun) × (b : JobRun) × (find_where (has_id i) s ≡ some a)
    × (find_where (has_id i) t ≡ some b)
    × (b.attempt_count ≡ a.attempt_count + 1)
    × (b.locked_until ≡ none)
    × (GivenUp now (is_retryable e) a b ⊎ Retried now (is_retryable e) a b)

-- The handler of the exception, on the answer of `fail`.
abbrev pub stored :
    {R : Type 0} → World R → Result (RunStatus × Table) → Result (Unit {0}) × World R
stored w (ok (s, t)) = (ok tt, record w { table = t })
stored w (err e) = (err e, w)

stored-Ends :
    {R : Type 0} (w : World R) (i : String) (e : Exn) (a : JobRun) (r : Result (RunStatus × Table))
    → find_where (has_id i) w.table ≡ some a
    → ((s : RunStatus) (u : Table) → r ≡ ok (s, u) → IsConsistent u)
    → Fails w.clock i (is_retryable e) a r
    → let (o, v) = stored w r in
      (o ≡ ok tt)
      × (v.held ≡ w.held)
      × (v.rest ≡ w.rest)
      × IsConsistent v.table
      × RunEnds w.clock i w.table (err e) v.table
stored-Ends w i e a (err x) found keeps h = absurd h
stored-Ends w i e a (ok (s, t)) found keeps (b, at_b, status, spent, unlocked, free, choice) =
    (refl, refl, refl, keeps s t refl, (a, b, found, at_b, spent, unlocked, choice))

-- The rest of `_execute_job_run` after the job: `complete`, or the handler of the exception.
module _ {R : Type 0} (f : Formats) (handlers : Handlers R) (run : JobRun) where
  -- What the job must leave as it found it: the locks, and the run in the table.
  pub record KeepsRun : Type 0 where
    pub locks : (w : World R) → (dispatch_job f handlers run w).1.held ≡ w.held
    pub ready :
        (w : World R)
        → IsReady run.id w.table
        → IsReady run.id (dispatch_job f handlers run w).1.table

  failure-Ends :
      (e : Exn) (w : World R)
      → IsReady run.id w.table
      → let (o, v) = handle_failure f handlers run e w in
        (o ≡ ok tt)
        × (v.held ≡ w.held)
        × (v.rest ≡ w.rest)
        × IsConsistent v.table
        × RunEnds w.clock run.id w.table (err e) v.table
  unfolding handle_failure
  failure-Ends e w h =
      stored-Ends w run.id e h.row (fail w.clock run.id _ _ _ (is_retryable e) none w.table) h.found
        (λ s u eq.
          fail-IsConsistent w.clock run.id _ _ _ (is_retryable e) none w.table u s h.active eq
            h.consistent)
        (fail-Fails w.clock run.id _ _ _ (is_retryable e) w.table h.row h.consistent h.found
          h.active)

  abbrev pub finished : Result Outcome → World R → Result (Unit {0}) × World R
  finished (ok (result, message)) w =
      (ok tt, record w { table = complete w.clock run.id message (some result) w.table })
  finished (err e) w = handle_failure f handlers run e w

  abbrev pub Ends : (s : Table) → Result Outcome → World R → Result (Unit {0}) × World R → Type 0
  Ends s r w (o, v) =
      (o ≡ ok tt)
      × (v.held ≡ w.held)
      × (v.rest ≡ w.rest)
      × IsConsistent v.table
      × RunEnds w.clock run.id s r v.table

  pub finished-Ends :
      (r : Result Outcome) (w : World R) → IsReady run.id w.table → Ends w.table r w (finished r w)
  unfolding complete
  finished-Ends (ok (result, message)) w h = (
    refl,
    refl,
    refl,
    complete-IsConsistent w.clock run.id message (some result) w.table h.consistent,
    (
      completed w.clock message (some result) h.row,
      find-update_self (has_id run.id) _ w.table h.row (λ x. refl) h.found,
      refl,
      refl,
      refl,
      refl,
      refl,
    ),
  )
  finished-Ends (err e) w h = failure-Ends e w h
