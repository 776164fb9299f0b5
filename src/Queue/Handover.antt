-- ===== src/Queue/Handover.antt =====
-- The table that a worker has when `acquire_next` gave it a run.
use fraudhunter.Common.{
  ℕ, ◌+◌, String, true, Option, some, ◌≡◌, refl, ap, sym, subst, arith, All-updated, mem_unique,
  find_of_mem, find-update_self, find_where, update_where, eq_iff, if◌then◌else◌,
}
use fraudhunter.Common.Time.{seconds}
use fraudhunter.Queue.Run.{JobRun, is_active}
use fraudhunter.Queue.Store.{Table, has_id, to_run, acquired, acquire_next, recover_stale_runs}
use fraudhunter.Queue.Invariant.{IsConsistent}
use fraudhunter.Queue.Steps.{
  IsActiveRun, recover_stale_runs-IsConsistent, acquire_next-IsConsistent,
}
use fraudhunter.Queue.Acquire.{Hands, acquire_next-Hands}

-- The run is in a consistent table, and active.
pub record IsReady (i : String) (t : Table) : Type 0 where
  pub consistent : IsConsistent t
  pub active : IsActiveRun i t
  pub row : JobRun
  pub found : find_where (has_id i) t ≡ some row

active_after :
    (now until : ℕ) (worker i : String) (r : JobRun)
    → has_id i (if has_id i r then acquired now until worker r else r) ≡ true
    → is_active (if has_id i r then acquired now until worker r else r).status ≡ true
active_after now until worker i r h = ground arith

pub acquire_next-IsReady :
    (recovery_now now lease : ℕ) (worker : String) (t u : Table) (run : JobRun)
    → IsConsistent t
    → acquire_next recovery_now now lease worker t ≡ (some run, u)
    → IsReady run.id u
unfolding to_run
acquire_next-IsReady n0 now lease worker t u run c e =
    let left = (recover_stale_runs n0 t).1 in
    let h : Hands now lease worker left (some run, u) =
      subst (Hands now lease worker left) e (acquire_next-Hands n0 now lease worker t) in
    let row : JobRun = h.0 in
    let i = row.id in
    let set = acquired now (now + seconds lease) worker in
    let self : has_id i row ≡ true = (eq_iff i i).1 refl in
    let found : find_where (has_id i) left ≡ some row =
      find_of_mem (has_id i) row left h.1 self (
        mem_unique (has_id i) row left ((recover_stale_runs-IsConsistent n0 t c).ids i) h.1 self) in
    let written : IsConsistent (update_where (has_id i) set left) = subst IsConsistent h.5 (
      subst (λ (p : Option JobRun × Table). IsConsistent p.1) e
        (acquire_next-IsConsistent n0 now lease worker t c)) in
    subst (λ (j : String). IsReady j u) (sym (ap JobRun.id h.4))
      (subst (IsReady i) (sym h.5) (record {
        consistent = written;
        active =
            All-updated (λ r. has_id i r ≡ true → is_active r.status ≡ true) (has_id i) set left
              (active_after now (now + seconds lease) worker i);
        row = set row;
        found = find-update_self (has_id i) set left row (λ x. refl) found;
      }))
