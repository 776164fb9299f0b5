-- ===== src/Retention/Purge.antt =====
-- `purge_old_data` of `services/lifecycle.py`, on the tables of the ingestion, of the findings and of the
-- job queue. A cutoff is a moment, so Python's test of it is whether there is one.
use fraudhunter.Common.{ℕ, Bool, Option, none, some}
use fraudhunter.Common.Result.{Result, ok, ◌>>=◌}
use fraudhunter.Ingestion.Logs.{Logs}
use fraudhunter.Ingestion.Merge.{purge_raw_before, purge_aggregates_before}
use fraudhunter.Cases.Tables.{Cases}
use fraudhunter.Cases.Store.{purge_findings_before}
use fraudhunter.Queue.Store.{Table, purge_finished_runs_before}
use fraudhunter.Retention.Policy.{RetentionPolicy, cutoff_datetime, cutoff_date}

pub record Database : Type 0 where
  pub logs : Logs
  pub cases : Cases
  pub runs : Table

-- `counts`, which leaves out what is not purged
pub record PurgeCounts : Type 0 where
  pub raw : Option (ℕ × ℕ)
  pub aggregates : Option (ℕ × ℕ)
  pub findings : Option ℕ
  pub job_runs : Option ℕ

pub record Cutoffs : Type 0 where
  pub raw_before : Option ℕ
  pub aggregates_before : Option ℕ
  pub findings_before : Option ℕ
  pub job_runs_before : Option ℕ

abbrev pub cutoffs_of : (now : ℕ) → RetentionPolicy → Result Cutoffs
cutoffs_of now policy = do
  raw ← cutoff_datetime now policy.raw_days
  aggregates ← cutoff_date now policy.aggregate_days
  findings ← cutoff_date now policy.findings_days
  job_runs ← cutoff_datetime now policy.job_run_days
  ok (record {
    raw_before = raw;
    aggregates_before = aggregates;
    findings_before = findings;
    job_runs_before = job_runs;
  })

-- The four calls.
abbrev pub purge_raw : Option ℕ → Bool → Logs → Option (ℕ × ℕ) × Logs
purge_raw none execute db = (none, db)
purge_raw (some cutoff) execute db =
    let (clicks, conversions, after) = purge_raw_before cutoff execute db in
    (some (clicks, conversions), after)

abbrev pub purge_aggregates : Option ℕ → Bool → Logs → Option (ℕ × ℕ) × Logs
purge_aggregates none execute db = (none, db)
purge_aggregates (some cutoff) execute db =
    let (clicks, conversions, after) = purge_aggregates_before cutoff execute db in
    (some (clicks, conversions), after)

abbrev pub purge_findings : Option ℕ → Bool → Cases → Option ℕ × Cases
purge_findings none execute c = (none, c)
purge_findings (some cutoff) execute c =
    let (count, after) = purge_findings_before cutoff execute c in (some count, after)

abbrev pub purge_runs : Option ℕ → Bool → Table → Option ℕ × Table
purge_runs none execute t = (none, t)
purge_runs (some cutoff) execute t =
    let (count, after) = purge_finished_runs_before cutoff execute t in (some count, after)

abbrev pub purge_all : Cutoffs → Bool → Database → PurgeCounts × Database
purge_all cutoffs execute db =
    let (raw, logs) = purge_raw cutoffs.raw_before execute db.logs in
    let (aggregates, logs') = purge_aggregates cutoffs.aggregates_before execute logs in
    let (findings, cases) = purge_findings cutoffs.findings_before execute db.cases in
    let (job_runs, runs) = purge_runs cutoffs.job_runs_before execute db.runs in
    (
      record { raw = raw; aggregates = aggregates; findings = findings; job_runs = job_runs },
      record { logs = logs'; cases = cases; runs = runs },
    )

-- `purge_old_data`, at a time and with a policy that are given or resolved before.
unfoldable pub purge_old_data :
    RetentionPolicy
    → (execute : Bool) → (now : ℕ) → Database
    → Result (Cutoffs × PurgeCounts × Database)
purge_old_data policy execute now db = do
  cutoffs ← cutoffs_of now policy
  let (counts, after) = purge_all cutoffs execute db
  ok (cutoffs, counts, after)
