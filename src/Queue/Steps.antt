-- ===== src/Queue/Steps.antt =====
-- The methods of the queue as steps between tables, and the invariant along them.
use fraudhunter.Common.{
  ℕ, ◌+◌, max, String, Bool, true, false, not, subst, Option, some, ◌≡◌, refl, ap, arith, inl, inr,
  Memᴰ, All, All-update, All-select, All-imp, All-of_forall, mem_unique, first_by-mem, select-mem,
  select_passes, All-mem, count-update-le_of_All, Option-cases, update_where, count-update_same,
  count-select-le, eq_iff,
}
use fraudhunter.Common.Json.{Fields}
use fraudhunter.Common.Result.{ok}
use fraudhunter.Common.Time.{seconds}
use fraudhunter.Queue.Run.{JobRun, is_active, is_queued}
use fraudhunter.Queue.Store.{
  Table, has_id, is_active_under, is_stale, recovered, recover_stale_runs, acquired, take_candidate,
  acquire_next, beats, heartbeat, reactivate, blocked, requeue_blocked, completed, complete,
  cancelled_run, cancel, purge_finished_runs_before, is_purged, candidate, is_eligible, runs_before,
}
use fraudhunter.Queue.Invariant.{IsSound, IsConsistent}

-- What an update must do to each row that it changes: keep it sound, and make no finished row active.
abbrev pub Keeps : (JobRun → Bool) → (JobRun → JobRun) → JobRun → Type 0
Keeps test set r =
    test r ≡ true
    → (is_active (set r).status ≡ true → is_active r.status ≡ true) × (IsSound r → IsSound (set r))

-- An update that leaves ids and dedupe keys alone keeps the table consistent.
pub update-IsConsistent :
    (test : JobRun → Bool) (set : JobRun → JobRun) (t : Table)
    → ((r : JobRun) → (set r).id ≡ r.id)
    → ((r : JobRun) → (set r).dedupe_key ≡ r.dedupe_key)
    → All (Keeps test set) t
    → IsConsistent t
    → IsConsistent (update_where test set t)
update-IsConsistent test set t same_id same_key keeps c = record {
  rows =
      All-update IsSound test set t (All-imp (Keeps test set) _ t (λ r k e h. (k e).1 h) keeps)
        c.rows;
  ids = λ i. rw (count-update_same (has_id i) test set t (λ r. rw same_id)) (c.ids i);
  keys = λ k. omega (
    arith,
    c.keys k,
    count-update-le_of_All (is_active_under k) test set t
        (All-imp (Keeps test set) _ t (λ r f e a. ground (arith, same_key r, f e)) keeps),
  );
}

recovered-Keeps : (now : ℕ) (r : JobRun) → Keeps (is_stale now) (recovered now) r
recovered-Keeps now r e = (λ a. ground arith, λ h. ground arith)

pub recover_stale_runs-IsConsistent :
    (now : ℕ) (t : Table) → IsConsistent t → IsConsistent (recover_stale_runs now t).1
unfolding recover_stale_runs
recover_stale_runs-IsConsistent now t =
    update-IsConsistent (is_stale now) (recovered now) t (λ r. refl) (λ r. refl)
      (All-of_forall _ t (recovered-Keeps now))

acquired-Keeps :
    (now until : ℕ) (worker : String) (i : String) (r : JobRun)
    → is_queued r.status ≡ true
    → Keeps (has_id i) (acquired now until worker) r
acquired-Keeps now until worker i r q e = (λ a. ground arith, λ h. ground arith)

-- The candidate stands in the table and is eligible.
pub candidate-mem : (now : ℕ) (t : Table) (row : JobRun) → candidate now t ≡ some row → Memᴰ row t
unfolding candidate
candidate-mem now t row e = select-mem (is_eligible now) t (first_by-mem runs_before _ e)

pub candidate_eligible :
    (now : ℕ) (t : Table) (row : JobRun) → candidate now t ≡ some row → is_eligible now row ≡ true
unfolding candidate
candidate_eligible now t row e =
    All-mem (λ x. is_eligible now x ≡ true) _ (select_passes (is_eligible now) t)
      (first_by-mem runs_before _ e)

has_id_self : (r : JobRun) → has_id r.id r ≡ true
has_id_self r = (eq_iff r.id r.id).1 refl

taken-IsConsistent :
    (now until : ℕ) (worker : String) (t : Table) (row : JobRun)
    → candidate now t ≡ some row
    → IsConsistent t
    → IsConsistent (update_where (has_id row.id) (acquired now until worker) t)
taken-IsConsistent now until worker t row e c =
    let eligible : is_eligible now row ≡ true = candidate_eligible now t row e in
    update-IsConsistent (has_id row.id) (acquired now until worker) t (λ r. refl) (λ r. refl)
      (All-imp _ (Keeps (has_id row.id) (acquired now until worker)) t
        (λ r same found.
          acquired-Keeps now until worker row.id r (ground (arith, ap JobRun.status (same found)))
            found)
        (mem_unique (has_id row.id) row t (c.ids row.id) (candidate-mem now t row e)
          (has_id_self row)))
      c

pub take_candidate-IsConsistent :
    (now lease : ℕ) (worker : String) (t : Table)
    → IsConsistent t
    → IsConsistent (take_candidate now lease worker t).1
unfolding take_candidate
take_candidate-IsConsistent now lease worker t c = elim (Option-cases (candidate now t)) [
  | inl e ↦ rw (e, take_candidate) c
  | inr (row, e) ↦
      rw (e, take_candidate) (taken-IsConsistent now (now + seconds lease) worker t row e c)
]

pub acquire_next-IsConsistent :
    (recovery_now now lease : ℕ) (worker : String) (t : Table)
    → IsConsistent t
    → IsConsistent (acquire_next recovery_now now lease worker t).1
unfolding acquire_next
acquire_next-IsConsistent recovery_now now lease worker t c =
    take_candidate-IsConsistent now lease worker _
      (recover_stale_runs-IsConsistent recovery_now t c)

pub heartbeat-IsConsistent :
    (now lease : ℕ) (run_id worker : String) (t : Table)
    → IsConsistent t
    → IsConsistent (heartbeat now lease run_id worker t).1
unfolding heartbeat
heartbeat-IsConsistent now lease run_id worker t =
    update-IsConsistent (beats run_id worker) _ t (λ r. refl) (λ r. refl)
      (All-of_forall (Keeps (beats run_id worker) _) t
        (λ r e. (λ a. ground arith, λ h. ground arith)))

pub complete-IsConsistent :
    (now : ℕ) (run_id message : String) (result : Option Fields) (t : Table)
    → IsConsistent t
    → IsConsistent (complete now run_id message result t)
unfolding complete
complete-IsConsistent now run_id message result t =
    update-IsConsistent (has_id run_id) _ t (λ r. refl) (λ r. refl)
      (All-of_forall (Keeps (has_id run_id) (completed now message result)) t
        (λ r e. (λ a. ground arith, λ h. ground arith)))

pub cancel-IsConsistent :
    (now : ℕ) (run_id message : String) (t : Table)
    → IsConsistent t
    → IsConsistent (cancel now run_id message t)
unfolding cancel
cancel-IsConsistent now run_id message t =
    update-IsConsistent (has_id run_id) _ t (λ r. refl) (λ r. refl)
      (All-of_forall (Keeps (has_id run_id) (cancelled_run now message)) t
        (λ r e. (λ a. ground arith, λ h. ground arith)))

pub purge-IsConsistent :
    (cutoff : ℕ) (execute : Bool) (t : Table)
    → IsConsistent t
    → IsConsistent (purge_finished_runs_before cutoff execute t).1
unfolding purge_finished_runs_before
purge-IsConsistent cutoff false t c = c
purge-IsConsistent cutoff true t c = record {
  rows = All-select IsSound _ t c.rows;
  ids = λ i. omega (arith, c.ids i, count-select-le (has_id i) (λ x. not (is_purged cutoff x)) t);
  keys = λ k.
      omega
        (arith, c.keys k, count-select-le (is_active_under k) (λ x. not (is_purged cutoff x)) t);
}

-- The run `run_id`, if it is there, is queued or running.
abbrev pub IsActiveRun : String → Table → Type 0
IsActiveRun run_id t = All (λ r. has_id run_id r ≡ true → is_active r.status ≡ true) t

pub reactivate_ok :
    (run_id : String) (set : JobRun → JobRun) (t u : Table)
    → reactivate run_id set t ≡ ok u
    → update_where (has_id run_id) set t ≡ u
unfolding reactivate
reactivate_ok run_id set t u e = ground arith

pub requeue_blocked-IsConsistent :
    (now : ℕ) (run_id message : String) (delay : ℕ) (t u : Table)
    → IsActiveRun run_id t
    → requeue_blocked now run_id message delay t ≡ ok u
    → IsConsistent t
    → IsConsistent u
unfolding requeue_blocked
requeue_blocked-IsConsistent now run_id message delay t u active e c =
    let set = blocked message (now + seconds (max 1 delay)) in
    subst IsConsistent (reactivate_ok run_id set t u e) (
      update-IsConsistent (has_id run_id) set t (λ r. refl) (λ r. refl)
        (All-imp _ (Keeps (has_id run_id) set) t
          (λ r live found.
            let alive : is_active r.status ≡ true = live found in (λ a. alive, λ h. ground arith))
          active)
        c)
