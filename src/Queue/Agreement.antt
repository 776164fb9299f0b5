-- ===== src/Queue/Agreement.antt =====
-- The queries of the queue beside one another: the metrics, `has_active_job`, and the acquisition with
-- its recovery.
use fraudhunter.Common.{
  ℕ, ◌+◌, false, ◌&&◌, [], ◌∷◌, ◌≡◌, ◌↔◌, refl, arith, count_where, exists_where,
}
use fraudhunter.Queue.Run.{is_queued, is_running, is_active}
use fraudhunter.Queue.Store.{
  Table, lease_holds, is_eligible, has_active_job, is_stale, recover_stale_runs,
}
use fraudhunter.Queue.Report.{is_later_than, get_queue_metrics}

queued_split :
    (now : ℕ) (t : Table)
    → count_where (λ r. is_queued r.status) t
      ≡ count_where (λ r. is_queued r.status && is_later_than now r.next_retry_at) t
        + count_where (is_eligible now) t
queued_split now [] = refl
queued_split now (r ∷ t) = ground (arith, queued_split now t)

active_split :
    (now : ℕ) (t : Table)
    → (has_active_job now t ≡ false) ↔ (
        count_where (is_eligible now) t
          + count_where (λ r. is_running r.status && lease_holds now r.locked_until) t
        ≡ 0)
unfolding has_active_job
active_split now [] = (λ h. refl, λ h. refl)
active_split now (r ∷ t) =
    (λ h. ground (arith, (active_split now t).0), λ h. ground (arith, (active_split now t).1))

-- The metrics split the queued runs into those that wait for a retry and those that `acquire_next`
-- takes at that time, and `has_active_job` is false exactly if there are none of the latter and no
-- run is counted as running.
pub metrics_agree :
    (now : ℕ) (t : Table)
    → let m = get_queue_metrics now t in
      (m.queued_jobs_count ≡ m.retry_scheduled_jobs_count + count_where (is_eligible now) t)
      × ((has_active_job now t ≡ false)
          ↔ ((m.queued_jobs_count ≡ m.retry_scheduled_jobs_count) × (m.running_jobs_count ≡ 0)))
unfolding get_queue_metrics
metrics_agree now t = (
  queued_split now t,
  (
    λ h. omega (arith, queued_split now t, (active_split now t).0 h),
    λ h. (active_split now t).1 (omega (arith, queued_split now t, h.0, h.1)),
  ),
)

-- After a recovery no run is stale, and it reports the number of runs that were; the number of active
-- runs is as before.
pub recover_stale_runs_lem :
    (now : ℕ) (t : Table)
    → let u = (recover_stale_runs now t).1 in
      (exists_where (is_stale now) u ≡ false)
      × ((recover_stale_runs now t).0 ≡ count_where (is_stale now) t)
      × (count_where (λ r. is_active r.status) u ≡ count_where (λ r. is_active r.status) t)
      × (count_where (λ r. is_queued r.status) u
          ≡ count_where (λ r. is_queued r.status) t + count_where (is_stale now) t)
unfolding recover_stale_runs
recover_stale_runs_lem now [] = (refl, refl, refl, refl)
recover_stale_runs_lem now (r ∷ t) =
    let (fresh, counted, active, waiting) = recover_stale_runs_lem now t in
    (ground arith, refl, ground arith, ground arith)
