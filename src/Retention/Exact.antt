-- ===== src/Retention/Exact.antt =====
-- What a purge deletes and what it keeps, and what a dry run answers.
use fraudhunter.Common.{ℕ, true, false, Option, none, some, ◌≡◌, refl, ap, ◌∙◌}
use fraudhunter.Common.Result.{ok}
use fraudhunter.Ingestion.Logs.{Logs}
use fraudhunter.Ingestion.Merge.{purge_raw_before, purge_aggregates_before}
use fraudhunter.Cases.Tables.{Cases}
use fraudhunter.Cases.Store.{purge_findings_before}
use fraudhunter.Queue.Store.{Table, purge_finished_runs_before}
use fraudhunter.Retention.Policy.{RetentionPolicy}
use fraudhunter.Retention.Purge.{
  Database, PurgeCounts, Cutoffs, cutoffs_of, purge_raw, purge_aggregates, purge_findings,
  purge_runs, purge_all, purge_old_data,
}
use fraudhunter.Retention.Ages.{
  young, Fits, time_cutoff, day_cutoff, time_cutoff_lem, day_cutoff_lem, raw_left, aggregates_left,
  findings_left, runs_left,
}

logs_dry : (a b : Option ℕ) (db : Logs) → (purge_aggregates b false (purge_raw a false db).1).1 ≡ db
unfolding purge_raw_before purge_aggregates_before
logs_dry none none db = refl
logs_dry none (some y) db = refl
logs_dry (some x) none db = refl
logs_dry (some x) (some y) db = refl

raw_count : (a : Option ℕ) (db : Logs) → (purge_raw a false db).0 ≡ (purge_raw a true db).0
unfolding purge_raw_before
raw_count none db = refl
raw_count (some x) db = refl

aggregates_count :
    (a b : Option ℕ) (db : Logs)
    → (purge_aggregates b false (purge_raw a false db).1).0
      ≡ (purge_aggregates b true (purge_raw a true db).1).0
unfolding purge_raw_before purge_aggregates_before
aggregates_count none none db = refl
aggregates_count none (some y) db = refl
aggregates_count (some x) none db = refl
aggregates_count (some x) (some y) db = refl

findings_dry :
    (a : Option ℕ) (c : Cases)
    → ((purge_findings a false c).1 ≡ c)
      × ((purge_findings a false c).0 ≡ (purge_findings a true c).0)
unfolding purge_findings_before
findings_dry none c = (refl, refl)
findings_dry (some x) c = (refl, refl)

runs_dry :
    (a : Option ℕ) (t : Table)
    → ((purge_runs a false t).1 ≡ t) × ((purge_runs a false t).0 ≡ (purge_runs a true t).0)
unfolding purge_finished_runs_before
runs_dry none t = (refl, refl)
runs_dry (some x) t = (refl, refl)

dry_run :
    (c : Cutoffs) (db : Database)
    → ((purge_all c false db).1 ≡ db) × ((purge_all c false db).0 ≡ (purge_all c true db).0)
dry_run c db =
    let findings = findings_dry c.findings_before db.cases in
    let runs = runs_dry c.job_runs_before db.runs in
    (
      rw (logs_dry c.raw_before c.aggregates_before db.logs, findings.0, runs.0) refl,
      rw
          (
            raw_count c.raw_before db.logs,
            aggregates_count c.raw_before c.aggregates_before db.logs,
            findings.1,
            runs.1,
          )
          refl,
    )

-- Where the days of the policy do not lead before the first date, a purge keeps exactly the rows that are no
-- older than the days for their table, and everything where there are none: the raw logs by their time, the
-- daily tables and the findings by their date, and of the job runs those that have not ended or whose end is no
-- older. A dry run returns the same counts and changes nothing.
pub purge_old_data_lem :
    (policy : RetentionPolicy) (now : ℕ) (db : Database)
    → Fits now policy.raw_days
    → Fits now policy.aggregate_days
    → Fits now policy.findings_days
    → Fits now policy.job_run_days
    → (cutoffs : Cutoffs) × (counts : PurgeCounts) × (purge_old_data policy true now db
        ≡ ok (cutoffs, counts, young now policy db))
      × (purge_old_data policy false now db ≡ ok (cutoffs, counts, db))
unfolding purge_old_data
purge_old_data_lem policy now db raw aggregates findings runs =
    let cutoffs : Cutoffs = record {
      raw_before = time_cutoff now policy.raw_days;
      aggregates_before = day_cutoff now policy.aggregate_days;
      findings_before = day_cutoff now policy.findings_days;
      job_runs_before = time_cutoff now policy.job_run_days;
    } in
    let computed : cutoffs_of now policy ≡ ok cutoffs =
      rw
        (
          time_cutoff_lem now policy.raw_days raw,
          day_cutoff_lem now policy.aggregate_days aggregates,
          day_cutoff_lem now policy.findings_days findings,
          time_cutoff_lem now policy.job_run_days runs,
        )
        refl in
    let left : (purge_all cutoffs true db).1 ≡ young now policy db =
      rw
        (
          raw_left now policy.raw_days db.logs raw,
          aggregates_left now policy.aggregate_days _ aggregates,
          findings_left now policy.findings_days db.cases findings,
          runs_left now policy.job_run_days db.runs runs,
        )
        refl in
    let dry = dry_run cutoffs db in
    (
      cutoffs,
      (purge_all cutoffs true db).0,
      rw computed (ap (λ d. ok (cutoffs, (purge_all cutoffs true db).0, d)) left),
      rw computed (
          ap (λ d. ok (cutoffs, (purge_all cutoffs false db).0, d)) dry.0
          ∙ ap (λ n. ok (cutoffs, n, db)) dry.1),
    )
