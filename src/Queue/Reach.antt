-- ===== src/Queue/Reach.antt =====
-- The calls of the queue's methods as a step relation, and the tables that they reach from an empty one.
use fraudhunter.Common.{ℕ, String, Bool, Option, [], ◌≡◌, arith, subst}
use fraudhunter.Common.Json.{Fields}
use fraudhunter.Common.Result.{ok}
use fraudhunter.Queue.Run.{JobRun, RunStatus}
use fraudhunter.Queue.Store.{
  Table, enqueue, acquire_next, heartbeat, requeue_blocked, complete, fail, cancel,
  recover_stale_runs, purge_finished_runs_before,
}
use fraudhunter.Queue.Invariant.{IsConsistent}
use fraudhunter.Queue.Steps.{
  IsActiveRun, recover_stale_runs-IsConsistent, acquire_next-IsConsistent, heartbeat-IsConsistent,
  requeue_blocked-IsConsistent, complete-IsConsistent, cancel-IsConsistent, purge-IsConsistent,
}
use fraudhunter.Queue.Refusals.{enqueue-IsConsistent, fail-IsConsistent}

-- One call of a method, by any client and worker, at any time.
pub data Step (t u : Table) : Type 0 where
  enqueues :
      (now : ℕ) (run_id job_type : String) (params : Option Fields) (message : Option String)
      (max_attempts : ℕ) (dedupe_key : Option String) (priority : ℕ)
      (concurrency_key : Option String) (run : JobRun)
      → enqueue now run_id job_type params message max_attempts dedupe_key priority concurrency_key
          t
        ≡ ok (run, u)
      → Step t u
  recovers : (now : ℕ) → (recover_stale_runs now t).1 ≡ u → Step t u
  acquires :
      (recovery_now now lease : ℕ) (worker : String)
      → (acquire_next recovery_now now lease worker t).1 ≡ u
      → Step t u
  beats :
      (now lease : ℕ) (run_id worker : String)
      → (heartbeat now lease run_id worker t).1 ≡ u
      → Step t u
  requeues :
      (now : ℕ) (run_id message : String) (delay : ℕ)
      → requeue_blocked now run_id message delay t ≡ ok u
      → Step t u
  completes :
      (now : ℕ) (run_id message : String) (result : Option Fields)
      → complete now run_id message result t ≡ u
      → Step t u
  fails :
      (now : ℕ) (run_id message : String) (result : Option Fields) (error : Option String)
      (retryable : Bool) (backoff_seconds : Option ℕ) (s : RunStatus)
      → fail now run_id message result error retryable backoff_seconds t ≡ ok (s, u)
      → Step t u
  cancels : (now : ℕ) (run_id message : String) → cancel now run_id message t ≡ u → Step t u
  purges :
      (cutoff : ℕ) (execute : Bool) → (purge_finished_runs_before cutoff execute t).1 ≡ u → Step t u

pub data Reach : Table → Type 0 where
  empty : Reach []
  next : {t u : Table} → Reach t → Step t u → Reach u

-- The call does not requeue or fail a run that is not in the table as a queued or running one. The methods
-- themselves do not look at the status: their UPDATEs are by the id alone.
abbrev pub IsOfActive : {t u : Table} → Step t u → Type 0
IsOfActive {t} (requeues now run_id message delay e) = IsActiveRun run_id t
IsOfActive {t} (fails now run_id message result error retryable backoff_seconds s e) =
    IsActiveRun run_id t
IsOfActive (enqueues now run_id job_type params message attempts dedupe priority key run e) = Unit
IsOfActive (recovers now e) = Unit
IsOfActive (acquires recovery_now now lease worker e) = Unit
IsOfActive (beats now lease run_id worker e) = Unit
IsOfActive (completes now run_id message result e) = Unit
IsOfActive (cancels now run_id message e) = Unit
IsOfActive (purges cutoff execute e) = Unit

-- So do all calls on the way to the table.
abbrev pub AreOfActive : {t : Table} → Reach t → Type 0
AreOfActive empty = Unit
AreOfActive (next r s) = AreOfActive r × IsOfActive s

pub Step-IsConsistent :
    {t u : Table} (s : Step t u) → IsOfActive s → IsConsistent t → IsConsistent u
Step-IsConsistent {t} {u} (enqueues now i ty p m n d pr k run e) o c =
    enqueue-IsConsistent now i ty p m n d pr k t u run e c
Step-IsConsistent {t} (recovers now e) o c =
    subst IsConsistent e (recover_stale_runs-IsConsistent now t c)
Step-IsConsistent {t} (acquires n0 n1 lease w e) o c =
    subst IsConsistent e (acquire_next-IsConsistent n0 n1 lease w t c)
Step-IsConsistent {t} (beats now lease i w e) o c =
    subst IsConsistent e (heartbeat-IsConsistent now lease i w t c)
Step-IsConsistent {t} {u} (requeues now i m delay e) active c =
    requeue_blocked-IsConsistent now i m delay t u active e c
Step-IsConsistent {t} (completes now i m r e) o c =
    subst IsConsistent e (complete-IsConsistent now i m r t c)
Step-IsConsistent {t} {u} (fails now i m r er re b s e) active c =
    fail-IsConsistent now i m r er re b t u s active e c
Step-IsConsistent {t} (cancels now i m e) o c =
    subst IsConsistent e (cancel-IsConsistent now i m t c)
Step-IsConsistent {t} (purges cutoff x e) o c =
    subst IsConsistent e (purge-IsConsistent cutoff x t c)

-- In every table that the methods of the queue reach from an empty one, whatever the order and the
-- times of the calls, if no call requeues or fails a run that is not queued or running at that time: the
-- ids are unique, no two active rows share a dedupe key, and every row is sound. So an active row has
-- attempts left, a running one has a lease and a worker, and only finished rows have an end time.
pub Reach-IsConsistent : {t : Table} (r : Reach t) → AreOfActive r → IsConsistent t
Reach-IsConsistent empty active = record {
  rows = tt;
  ids = λ i. omega arith;
  keys = λ k. omega arith;
}
Reach-IsConsistent (next r s) (active, this) =
    Step-IsConsistent s this (Reach-IsConsistent r active)
