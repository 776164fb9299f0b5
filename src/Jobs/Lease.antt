-- ===== src/Jobs/Lease.antt =====
-- The lease of a worker and the interval of its heartbeat, in `services/jobs.py`.
use fraudhunter.Common.{ℕ, ◌*◌, ◌/◌, ◌≤◌, String, Option, none, some, arith, max}
use fraudhunter.Common.Int.{ℤ, pos, negsuc}
use fraudhunter.Jobs.Formats.{Formats}

abbrev pub default_job_lease_seconds : ℕ
default_job_lease_seconds = 300

abbrev at_least : ℕ → ℤ → ℕ
at_least n (pos m) = max n m
at_least n (negsuc m) = n

-- `_job_lease_seconds`, on the value of `FC_JOB_LEASE_SECONDS`
pub job_lease_seconds : Formats → Option String → ℕ
job_lease_seconds f none = default_job_lease_seconds
job_lease_seconds f (some raw) = elim (f.parse_int raw) [
  | none ↦ default_job_lease_seconds
  | some n ↦ at_least 30 n
]

-- The seconds between two beats of `_heartbeat`
pub heartbeat_interval : ℕ → ℕ
heartbeat_interval lease_seconds = max 10 (lease_seconds / 3)

lease_at_least : (f : Formats) (raw : Option String) → 30 ≤ job_lease_seconds f raw
unfolding job_lease_seconds
lease_at_least f raw = ground arith

-- Whatever the setting says, the lease is 30 seconds or more, and three beats of the heartbeat fit
-- into it.
pub heartbeats_fit :
    (f : Formats) (raw : Option String)
    → let lease = job_lease_seconds f raw in
      (30 ≤ lease) × (10 ≤ heartbeat_interval lease) × (3 * heartbeat_interval lease ≤ lease)
unfolding heartbeat_interval
heartbeats_fit f raw = (lease_at_least f raw, omega arith, omega (arith, lease_at_least f raw))
