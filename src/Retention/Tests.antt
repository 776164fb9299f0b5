-- ===== src/Retention/Tests.antt =====
-- The retention at a concrete database: the theorems where their hypotheses hold.
use fraudhunter.Common.{
  ◌+◌, ◌≤◌, true, false, not, ◌&&◌, none, some, [], ◌∷◌, ◌≡◌, refl, arith, if◌then◌else◌, length,
  count_where,
}
use fraudhunter.Common.Result.{ok}
use fraudhunter.Common.Time.{days, hours}
use fraudhunter.Ingestion.Logs.{ClickLog, ClickRaw}
use fraudhunter.Cases.Reach.{no_cases}
use fraudhunter.Retention.Policy.{RetentionPolicy, default_policy}
use fraudhunter.Retention.Purge.{Database, Cutoffs, PurgeCounts, purge_old_data}
use fraudhunter.Retention.Ages.{young}
use fraudhunter.Retention.Exact.{purge_old_data_lem}
use fraudhunter.Retention.Evidence.{
  Availability, click_on, is_cutoff_day, describe_evidence_availability,
  describe_evidence_availability_lem,
}

abbrev click : ClickLog
click = record {
  click_id = some "c";
  click_time = days 10 + hours 5;
  media_id = "m";
  program_id = "p";
  ipaddress = "i";
  useragent = "ua";
  referrer = none;
  raw_payload = none;
}

abbrev stored : ClickLog → ClickRaw
stored log = record { id = "c"; log = log; created_at = 0; updated_at = 0 }

-- A click of day 10 and one of day 100.
abbrev database : Database
database = record {
  logs = record {
    click_raw = stored click ∷ stored (record click { click_time = days 100 }) ∷ [];
    click_daily = [];
    conversion_raw = [];
    conversion_daily = [];
  };
  cases = no_cases;
  runs = [];
}

keeps_one : length (young (days 150) default_policy database).logs.click_raw ≡ 1
keeps_one = refl

purge_old_data_lem_example :
    (cutoffs : Cutoffs) × (counts : PurgeCounts) × (purge_old_data default_policy true
        (days 400)
        database
      ≡ ok (cutoffs, counts, young (days 400) default_policy database))
    × (purge_old_data default_policy false (days 400) database ≡ ok (cutoffs, counts, database))
purge_old_data_lem_example =
    purge_old_data_lem default_policy (days 400) database (omega arith) (omega arith) (omega arith)
      (omega arith)

abbrev half_year : RetentionPolicy
half_year = record default_policy {
  raw_days = some 180;
  aggregate_days = some 180;
  findings_days = none;
}

describe_evidence_availability_lem_example :
    (e : Availability) × (cutoffs : Cutoffs) × (counts : PurgeCounts) × (after : Database)
    × (describe_evidence_availability 10 (days 200) none half_year.raw_days ≡ ok e)
    × (purge_old_data half_year true (days 200) database ≡ ok (cutoffs, counts, after))
    × (e.evidence_expired ≡ not e.evidence_available)
    × (count_where (click_on 10) after.logs.click_raw
        ≤ (if e.evidence_available then count_where (click_on 10) database.logs.click_raw else 0))
    × ((if e.evidence_available && not (is_cutoff_day (days 200) half_year.raw_days 10)
          then count_where (click_on 10) database.logs.click_raw
          else 0)
        ≤ count_where (click_on 10) after.logs.click_raw)
describe_evidence_availability_lem_example =
    describe_evidence_availability_lem half_year (days 200) 10 database (omega arith) (omega arith)
      tt (omega arith)
