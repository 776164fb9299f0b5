-- ===== src/Queue/Acquire.antt =====
-- Which run `acquire_next` hands to a worker, and which it leaves to the worker that has it.
use fraudhunter.Common.{
  ℕ, ◌+◌, ◌≤◌, String, Bool, true, false, ◌&&◌, Option, none, some, ◌≡◌, ◌≢◌, refl, ap, sym, subst,
  arith, inl, inr, Memᴰ, All, All-imp, All-of_update, mem_unique, not_exists_of_All,
  All-of_not_exists, exists_where, Bool-cases, count_zero_of_All, first_by-none, first_by-least,
  All-of_select, select_nil, count_where, update_where, eq_iff, if◌then◌else◌,
}
use fraudhunter.Common.Time.{seconds}
use fraudhunter.Queue.Run.{JobRun, is_running}
use fraudhunter.Queue.Store.{
  Table, has_id, to_run, is_stale, recovered, recover_stale_runs, is_eligible, runs_before,
  candidate, acquired, take_candidate, acquire_next, lease_holds, beats, heartbeat,
}
use fraudhunter.Queue.Invariant.{IsConsistent}
use fraudhunter.Queue.Steps.{
  candidate-mem, candidate_eligible, recover_stale_runs-IsConsistent, heartbeat-IsConsistent,
}

runs_before_asym : (a b : JobRun) → runs_before a b ≡ true → runs_before b a ≡ false
runs_before_asym a b h = ground arith

runs_before_trans :
    (a b c : JobRun) → runs_before a b ≡ false → runs_before b c ≡ false → runs_before a c ≡ false
runs_before_trans a b c h k = ground arith

-- A due run that goes before `row`.
abbrev pub is_preferred : (now : ℕ) (row r : JobRun) → Bool
is_preferred now row r = is_eligible now r && runs_before r row

-- The run `i` is running under a lease that has not ended.
abbrev pub is_held : (now : ℕ) (i : String) → JobRun → Bool
is_held now i r = has_id i r && is_running r.status && lease_holds now r.locked_until

candidate-least :
    (now : ℕ) (t : Table) (row : JobRun)
    → candidate now t ≡ some row
    → exists_where (is_preferred now row) t ≡ false
unfolding candidate
candidate-least now t row e = not_exists_of_All _ t (
    All-imp _ (λ r. is_preferred now row r ≡ false) t (λ r f. ground (arith, f))
      (All-of_select (λ r. runs_before r row ≡ false) (is_eligible now) t
        (first_by-least runs_before runs_before_asym runs_before_trans _ row e)))

candidate-none :
    (now : ℕ) (t : Table) → candidate now t ≡ none → exists_where (is_eligible now) t ≡ false
unfolding candidate
candidate-none now t e =
    not_exists_of_All _ t (select_nil (is_eligible now) t (first_by-none runs_before _ e))

-- What `acquire_next` answers from the rows `t` that the recovery left: nothing, if no run is due, and
-- else the due run with the least priority and, among equals, the earliest; leased to the worker.
abbrev pub Hands : (now lease : ℕ) (worker : String) → Table → Option JobRun × Table → Type 0
Hands now lease worker t (none, u) = (u ≡ t) × (exists_where (is_eligible now) t ≡ false)
Hands now lease worker t (some run, u) =
    (row : JobRun) × Memᴰ row t
    × (is_eligible now row ≡ true)
    × (exists_where (is_preferred now row) t ≡ false)
    × (run ≡ to_run (acquired now (now + seconds lease) worker row))
    × (u ≡ update_where (has_id row.id) (acquired now (now + seconds lease) worker) t)

take_candidate-Hands :
    (now lease : ℕ) (worker : String) (t : Table) (o : Option JobRun)
    → candidate now t ≡ o
    → Hands now lease worker t (take_candidate now lease worker t)
unfolding take_candidate
take_candidate-Hands now lease worker t none e =
    rw (e, take_candidate) (refl, candidate-none now t e)
take_candidate-Hands now lease worker t (some row) e =
    rw (e, take_candidate)
      (
        row,
        candidate-mem now t row e,
        candidate_eligible now t row e,
        candidate-least now t row e,
        refl,
        refl,
      )

-- Whatever `acquire_next` finds, it leases at most one run, and that is a due run with the least
-- priority and, among those, the earliest `queued_at`, of the rows that the recovery of stale leases
-- left; its row alone changes, and the worker gets what was written. If it hands out nothing, no run
-- was due, and those rows stay as they are.
pub acquire_next-Hands :
    (recovery_now now lease : ℕ) (worker : String) (t : Table)
    → Hands now lease worker
        (recover_stale_runs recovery_now t).1
        (acquire_next recovery_now now lease worker t)
unfolding acquire_next
acquire_next-Hands recovery_now now lease worker t =
    take_candidate-Hands now lease worker (recover_stale_runs recovery_now t).1 _ refl

-- A row that keeps its lease through the recovery is not the row that is handed out.
leased_not_taken :
    (n0 now : ℕ) (i : String) (r row : JobRun)
    → is_eligible now row ≡ true
    → (has_id i (if is_stale n0 r then recovered n0 r else r) ≡ true
        → (if is_stale n0 r then recovered n0 r else r) ≡ row)
    → is_held n0 i r ≡ false
leased_not_taken n0 now i r row eligible same = elim (Bool-cases (is_held n0 i r)) [
  | inr free ↦ free
  | inl held ↦
      let kept : is_stale n0 r ≡ false = ground arith in
      let this : r ≡ row = ground arith in ground (arith, ap JobRun.status this)
]

-- A run whose lease holds is not handed out: when the stale leases were recovered, no row with the id
-- of the acquired run was running with a lease that had not ended.
pub acquire_next_exclusive :
    (recovery_now now lease : ℕ) (worker : String) (t u : Table) (run : JobRun)
    → IsConsistent t
    → acquire_next recovery_now now lease worker t ≡ (some run, u)
    → exists_where (is_held recovery_now run.id) t ≡ false
unfolding recover_stale_runs to_run
acquire_next_exclusive n0 now lease worker t u run c e =
    let left = (recover_stale_runs n0 t).1 in
    let h : Hands now lease worker left (some run, u) =
      subst (Hands now lease worker left) e (acquire_next-Hands n0 now lease worker t) in
    let row : JobRun = h.0 in
    let only : All (λ x. has_id row.id x ≡ true → x ≡ row) left =
      mem_unique (has_id row.id) row left ((recover_stale_runs-IsConsistent n0 t c).ids row.id) h.1
        ((eq_iff row.id row.id).1 refl) in
    subst (λ (i : String). exists_where (is_held n0 i) t ≡ false) (sym (ap JobRun.id h.4))
      (not_exists_of_All _ t (
        All-imp _ (λ r. is_held n0 row.id r ≡ false) t
          (λ r same. leased_not_taken n0 now row.id r row h.2 same)
          (All-of_update (λ x. has_id row.id x ≡ true → x ≡ row) (is_stale n0) (recovered n0) t
            only)))

abbrev beaten : (now lease : ℕ) → JobRun → JobRun
beaten now lease r = record r { heartbeat_at = some now; locked_until = some (now + seconds lease) }

not_beaten :
    (now n0 lease : ℕ) (i worker : String) (r : JobRun)
    → n0 ≤ now + seconds lease
    → is_held n0 i (if beats i worker r then beaten now lease r else r) ≡ false
    → beats i worker r ≡ false
not_beaten now n0 lease i worker r early f = ground arith

-- A worker that beats in time keeps its run: after a heartbeat that returned `True`, no
-- `acquire_next` whose recovery reads the clock before the new lease ends hands out that run.
pub heartbeat_keeps_run :
    (now lease : ℕ) (i worker : String) (t u : Table) (recovery_now n1 lease' : ℕ)
    (worker' : String) (v : Table) (run : JobRun)
    → IsConsistent t
    → heartbeat now lease i worker t ≡ (true, u)
    → recovery_now ≤ now + seconds lease
    → acquire_next recovery_now n1 lease' worker' u ≡ (some run, v)
    → run.id ≢ i
unfolding heartbeat
heartbeat_keeps_run now lease i worker t u n0 n1 lease' worker' v run c beat early e same =
    let u_consistent : IsConsistent u =
      subst (λ (p : Bool × Table). IsConsistent p.1) beat
        (heartbeat-IsConsistent now lease i worker t c) in
    let free : exists_where (is_held n0 i) u ≡ false =
      subst (λ (j : String). exists_where (is_held n0 j) u ≡ false) same
        (acquire_next_exclusive n0 n1 lease' worker' u v run u_consistent e) in
    let written : u ≡ update_where (beats i worker) (beaten now lease) t =
      sym (ap (λ (p : Bool × Table). p.1) beat) in
    let unbeaten : count_where (beats i worker) t ≡ 0 = count_zero_of_All (beats i worker) t (
      All-imp _ (λ r. beats i worker r ≡ false) t
        (λ r f. not_beaten now n0 lease i worker r early f)
        (All-of_update (λ r. is_held n0 i r ≡ false) (beats i worker) (beaten now lease) t
          (All-of_not_exists (is_held n0 i) _ (rw written at free)))) in
    ground arith
