-- ===== src/Queue/First.antt =====
-- Which run `acquire_next` of `job_status_queue.py` hands out, by the words of its query.
use fraudhunter.Common.{
  ℕ, ◌+◌, ◌≤◌, ◌<◌, String, true, false, Option, none, some, ◌≡◌, ◌⊎◌, refl, arith, inl, inr, Memᴰ,
  All, All-imp, All-of_not_exists, update_where, get_or, Option-cases, Bool-cases, ltb,
}
use fraudhunter.Common.Time.{seconds}
use fraudhunter.Queue.Run.{JobRun, queued, running}
use fraudhunter.Queue.Store.{
  Table, has_id, to_run, runs_before, is_eligible, recover_stale_runs, acquire_next,
}
use fraudhunter.Queue.Acquire.{Hands, is_preferred, acquire_next-Hands}

-- `status = 'queued' AND (next_retry_at IS NULL OR next_retry_at <= :now)`
abbrev pub IsDue : (now : ℕ) → JobRun → Type 0
IsDue now row =
    (row.status ≡ queued)
    × ((row.next_retry_at ≡ none) ⊎ ((at : ℕ) × (row.next_retry_at ≡ some at) × (at ≤ now)))

-- `a` does not come after `b` in the order by priority and, among equals, by the time of the enqueue.
abbrev pub IsNotAfter : JobRun → JobRun → Type 0
IsNotAfter a b =
    (a.priority < b.priority) ⊎ ((a.priority ≡ b.priority) × (a.queued_at ≤ b.queued_at))

-- The answer from the rows `t`, and the rows after it: nothing, or the run of the first row that is due.
abbrev pub TakesFirst : (now lease : ℕ) (worker : String) → Table → Option JobRun × Table → Type 0
TakesFirst now lease worker t (none, u) = (u ≡ t) × All (λ row. ¬ IsDue now row) t
TakesFirst now lease worker t (some run, u) =
    (row : JobRun) × Memᴰ row t
    × IsDue now row
    × All (λ other. IsDue now other → IsNotAfter row other) t
    × ((run.id ≡ row.id)
        × (run.params ≡ row.params)
        × (run.status ≡ running)
        × (run.locked_until ≡ some (now + seconds lease))
        × (run.worker_id ≡ some worker))
    × (u
        ≡ update_where (has_id row.id)
            (λ r. record r {
              status = running;
              started_at = some (get_or r.started_at now);
              heartbeat_at = some now;
              locked_until = some (now + seconds lease);
              worker_id = some worker;
            })
            t)

module _ (now : ℕ) where
  due_eligible : (row : JobRun) → IsDue now row → is_eligible now row ≡ true
  due_eligible row (status, inl retry) = rw (status, retry) refl
  due_eligible row (status, inr (at, retry, le)) = rw (status, retry) (ground (arith, le))

  eligible-IsDue : (row : JobRun) → is_eligible now row ≡ true → IsDue now row
  eligible-IsDue row h = elim (Option-cases row.next_retry_at) [
    | inl no_retry ↦ (ground arith, inl no_retry)
    | inr (at, retry) ↦ (ground arith, inr (at, retry, ground arith))
  ]

  not_preferred :
      (row other : JobRun)
      → is_preferred now row other ≡ false
      → IsDue now other
      → IsNotAfter row other
  not_preferred row other free due =
      let e = due_eligible other due in
      let later : runs_before other row ≡ false = ground (arith, free, e) in
      elim (Bool-cases (ltb row.priority other.priority)) [
        | inl before ↦ inl (ground arith)
        | inr same ↦ inr (ground arith, ground arith)
      ]

  answer-TakesFirst :
      (lease : ℕ) (worker : String) (t : Table) (x : Option JobRun × Table)
      → Hands now lease worker t x
      → TakesFirst now lease worker t x
  unfolding to_run
  answer-TakesFirst lease worker t (none, u) (same, idle) = (
    same,
    All-imp _ (λ row. ¬ IsDue now row) t
        (λ row f due. absurd (ground (arith, f, due_eligible row due)))
        (All-of_not_exists (is_eligible now) t idle),
  )
  answer-TakesFirst lease worker t (some run, u) (row, m, eligible, first, same, written) = (
    row,
    m,
    eligible-IsDue row eligible,
    All-imp _ (λ other. IsDue now other → IsNotAfter row other) t
        (λ other f due. not_preferred row other f due)
        (All-of_not_exists (is_preferred now row) t first),
    (rw same refl, rw same refl, rw same refl, rw same refl, rw same refl),
    written,
  )

-- Of the rows that the recovery of stale leases left, `acquire_next` takes one that is queued and whose
-- retry time, if it has one, has come; no such row has a smaller priority or, with the same priority, was
-- queued earlier. The worker gets the run with the id and parameters of this row, running under a lease of
-- the given seconds from now; the rows with its id are written so, and no other. If it hands out nothing,
-- no row was due, and the rows stay as they are.
pub acquire_next_lem :
    (recovery_now now lease : ℕ) (worker : String) (t : Table)
    → TakesFirst now lease worker
        (recover_stale_runs recovery_now t).1
        (acquire_next recovery_now now lease worker t)
acquire_next_lem recovery_now now lease worker t =
    answer-TakesFirst now lease worker (recover_stale_runs recovery_now t).1 _
      (acquire_next-Hands recovery_now now lease worker t)
