-- ===== src/Jobs/Drain.antt =====
-- What `process_queued_jobs` has done when it returns.
use fraudhunter.Common.{
  ℕ, zero, suc, ◌+◌, ◌≤◌, String, false, Option, none, some, ◌≡◌, ◌⊎◌, inl, inr, List, refl, ◌∙◌,
  sym, subst, arith, exists_where,
}
use fraudhunter.Common.Result.{Result, ok, err}
use fraudhunter.Queue.Run.{JobRun}
use fraudhunter.Queue.Store.{Table, is_eligible, recover_stale_runs, acquire_next}
use fraudhunter.Queue.Acquire.{Hands, acquire_next-Hands}
use fraudhunter.Queue.Invariant.{IsConsistent}
use fraudhunter.Queue.Steps.{acquire_next-IsConsistent}
use fraudhunter.Queue.Handover.{IsReady, acquire_next-IsReady}
use fraudhunter.Jobs.Formats.{Formats}
use fraudhunter.Jobs.Outcome.{KeepsRun}
use fraudhunter.Jobs.Locks.{execute_job_run_total}
use fraudhunter.Jobs.Execute.{
  World, Handlers, execute_job_run, process_loop, process_queued_jobs, round_of,
}

none_due :
    (now lease : ℕ) (worker : String) (t u : Table)
    → acquire_next now now lease worker t ≡ (none, u)
    → exists_where (is_eligible now) u ≡ false
none_due now lease worker t u e =
    let left = (recover_stale_runs now t).1 in
    let h : Hands now lease worker left (none, u) =
      subst (Hands now lease worker left) e (acquire_next-Hands now now lease worker t) in
    subst (λ (x : Table). exists_where (is_eligible now) x ≡ false) (sym h.0) h.1

module _ {R : Type 0} (f : Formats) (handlers : Handlers R) (lease : ℕ) (worker : String) where
  -- The loop returns; the number that it adds, and what is left if it stopped early.
  abbrev pub Drains : (held : List ℕ) (max_jobs processed : ℕ) → Result ℕ × World R → Type 0
  Drains held max_jobs processed (err e, v) = ⊥
  Drains held max_jobs processed (ok n, v) =
      (n ≤ processed + max_jobs)
      × ((n ≡ processed + max_jobs) ⊎ (exists_where (is_eligible v.clock) v.table ≡ false))
      × IsConsistent v.table
      × (v.held ≡ held)

  more :
      (held held' : List ℕ) (n processed : ℕ) (r : Result ℕ × World R)
      → held' ≡ held
      → Drains held' n (processed + 1) r
      → Drains held (suc n) processed r
  more held held' n processed (err e, v) same h = h
  more held held' n processed (ok m, v) same (few, inl all, c, locks) =
      (omega arith, inl (omega arith), c, locks ∙ same)
  more held held' n processed (ok m, v) same (few, inr idle, c, locks) =
      (omega arith, inr idle, c, locks ∙ same)

  rested :
      (held : List ℕ) (n processed : ℕ) (rest : World R → Result ℕ × World R)
      (d : Result (Unit {0}) × World R)
      → (d.0 ≡ ok tt) × (d.1.held ≡ held) × IsConsistent d.1.table
      → ((v : World R) → IsConsistent v.table → Drains v.held n (processed + 1) (rest v))
      → Drains held
          (suc n)
          processed
          (elim d.0 as (λ x. Result ℕ × World R) [ ok u ↦ rest d.1 | err x ↦ (err x, d.1) ])
  rested held n processed rest (ok u, v) (done, same, c) h =
      more held v.held n processed (rest v) same (h v c)
  rested held n processed rest (err x, v) (done, same, c) h = absurd (ground arith)

  round-Drains :
      (n processed : ℕ) (w : World R) (rest : World R → Result ℕ × World R)
      (a : Option JobRun × Table)
      → ((run : JobRun) → KeepsRun f handlers run)
      → IsConsistent w.table
      → acquire_next w.clock w.clock lease worker w.table ≡ a
      → ((v : World R) → IsConsistent v.table → Drains v.held n (processed + 1) (rest v))
      → Drains w.held (suc n) processed (round_of f handlers processed rest w a)
  round-Drains n processed w rest (none, t) keeps c e h = (
    omega arith,
    inr (none_due w.clock lease worker w.table t e),
    subst (λ (p : Option JobRun × Table). IsConsistent p.1) e
        (acquire_next-IsConsistent w.clock w.clock lease worker w.table c),
    refl,
  )
  round-Drains n processed w rest (some run, t) keeps c e h =
      let w' = record w { table = t } in
      let ready : IsReady run.id t =
        acquire_next-IsReady w.clock w.clock lease worker w.table t run c e in
      rested w.held n processed rest (execute_job_run f handlers run w')
        (execute_job_run_total f handlers run w' ready (keeps run)) h

  loop-Drains :
      (max_jobs processed : ℕ) (w : World R)
      → ((run : JobRun) → KeepsRun f handlers run)
      → IsConsistent w.table
      → Drains w.held max_jobs processed (process_loop f handlers max_jobs processed lease worker w)
  unfolding process_loop
  loop-Drains zero processed w keeps c = (omega arith, inl (omega arith), c, refl)
  loop-Drains (suc n) processed w keeps c =
      round-Drains n processed w (process_loop f handlers n (processed + 1) lease worker) _ keeps c
        refl (λ v c'. loop-Drains n (processed + 1) v keeps c')

  -- On a consistent table, with jobs that leave the locks and their runs in place, `process_queued_jobs`
  -- returns and raises nothing. It has then processed at most `max_jobs` runs, and if fewer, no run is
  -- due; the table is consistent, and no lock is left behind.
  pub process_queued_jobs-Drains :
      (max_jobs : ℕ) (w : World R)
      → ((run : JobRun) → KeepsRun f handlers run)
      → IsConsistent w.table
      → Drains w.held max_jobs 0 (process_queued_jobs f handlers max_jobs lease worker w)
  unfolding process_queued_jobs
  process_queued_jobs-Drains max_jobs w keeps c = loop-Drains max_jobs 0 w keeps c
