-- ===== src/Retention/Evidence.antt =====
-- `describe_evidence_availability` of `services/lifecycle.py`, and the purge that it tells of.
use fraudhunter.Common.{
  ℕ, ◌+◌, ◌-◌, ◌/◌, ◌≤◌, String, Bool, true, false, not, ◌&&◌, Option, none, some, List, [], ◌∷◌,
  ◌≡◌, refl, sym, arith, inl, inr, Bool-cases, leb, ◌==◌, if◌then◌else◌, or_else, select_where,
  count_where, count-select-le, count-select_of_All, All-of_forall, ◌<◌,
}
use fraudhunter.Common.Result.{Result, ok, ◌>>=◌}
use fraudhunter.Common.Time.{days, date_of}
use fraudhunter.Ingestion.Logs.{ClickRaw}
use fraudhunter.Retention.Policy.{RetentionPolicy, cutoff_date}
use fraudhunter.Retention.Purge.{Database, PurgeCounts, Cutoffs, purge_old_data}
use fraudhunter.Retention.Ages.{is_young, is_young_date, young, Fits, day_cutoff, day_cutoff_lem}
use fraudhunter.Retention.Exact.{purge_old_data_lem}

-- The answer; dates are their numbers.
pub record Availability : Type 0 where
  pub evidence_status : String
  pub evidence_available : Bool
  pub evidence_expired : Bool
  pub evidence_retention_days : Option ℕ
  pub evidence_expires_on : Option ℕ
  pub evidence_checked_on : Option ℕ

-- The answer for a number of days and the cutoff.
abbrev pub availability : (target_date now n : ℕ) → (cutoff : Option ℕ) → Availability
availability target_date now n cutoff =
    let available : Bool = elim cutoff [ none ↦ true | some date ↦ leb date target_date ] in
    record {
      evidence_status = if available then "available" else "expired";
      evidence_available = available;
      evidence_expired = not available;
      evidence_retention_days = some n;
      evidence_expires_on = some (target_date + n);
      evidence_checked_on = some (date_of now);
    }

abbrev pub always_available : Availability
always_available = record {
  evidence_status = "available";
  evidence_available = true;
  evidence_expired = false;
  evidence_retention_days = none;
  evidence_expires_on = none;
  evidence_checked_on = none;
}

-- The description for the days in effect.
abbrev pub describe_for : (target_date now : ℕ) → (effective_days : Option ℕ) → Result Availability
describe_for target_date now none = ok always_available
describe_for target_date now (some n) = do
  cutoff ← cutoff_date now (some n)
  ok (availability target_date now n cutoff)

-- `describe_evidence_availability`; `contract_days` is what `get_evidence_contract_days` answers.
unfoldable pub describe_evidence_availability :
    (target_date now : ℕ) → (retention_days contract_days : Option ℕ) → Result Availability
describe_evidence_availability target_date now retention_days contract_days =
    describe_for target_date now (or_else retention_days contract_days)

-- The day that the cutoff falls into.
abbrev pub is_cutoff_day : (now : ℕ) → Option ℕ → (date : ℕ) → Bool
is_cutoff_day now none date = false
is_cutoff_day now (some n) date = date + n == date_of now

abbrev pub click_on : ℕ → ClickRaw → Bool
click_on date r = date_of r.log.click_time == date

young_cutoff :
    (now n date : ℕ)
    → days n ≤ now
    → leb (date_of now) (date + n) ≡ leb (date_of (now - days n)) date
young_cutoff now n date h =
    let e : date_of (now - days n) ≡ date_of now - n = omega arith in
    let le : n ≤ date_of now = omega arith in rw e (ground arith)

describe_young :
    (now date : ℕ) (o : Option ℕ)
    → Fits now o
    → (e : Availability) × (describe_for date now o ≡ ok e)
      × (e.evidence_available ≡ is_young_date now o date)
      × (e.evidence_expired ≡ not e.evidence_available)
describe_young now date none h = (always_available, refl, refl, refl)
describe_young now date (some n) h = (
  availability date now n (day_cutoff now (some n)),
  rw (day_cutoff_lem now (some n) h) refl,
  sym (young_cutoff now n date h),
  refl,
)

old_row :
    (now date : ℕ) (o : Option ℕ) (r : ClickRaw)
    → is_young_date now o date ≡ false
    → click_on date r ≡ true
    → is_young now o r.log.click_time ≡ false
old_row now date none r old on = absurd (ground arith)
old_row now date (some n) r old on =
    let day : r.log.click_time / 86_400_000_000 ≡ date = ground arith in
    let far : date + n < now / 86_400_000_000 = ground arith in
    let past : r.log.click_time + days n < now = omega (arith, day, far) in ground arith

young_row :
    (now date : ℕ) (o : Option ℕ) (r : ClickRaw)
    → is_young_date now o date && not (is_cutoff_day now o date) ≡ true
    → click_on date r ≡ true
    → is_young now o r.log.click_time ≡ true
young_row now date none r near on = refl
young_row now date (some n) r near on =
    let day : r.log.click_time / 86_400_000_000 ≡ date = ground arith in
    let close : now / 86_400_000_000 < date + n = ground arith in
    let recent : now ≤ r.log.click_time + days n = omega (arith, day, close) in ground arith

none_young :
    (now date : ℕ) (o : Option ℕ) (t : List ClickRaw)
    → is_young_date now o date ≡ false
    → count_where
        (click_on date)
        (select_where (λ (r : ClickRaw). is_young now o r.log.click_time) t)
      ≡ 0
none_young now date o [] old = refl
none_young now date o (r ∷ t) old = elim (Bool-cases (click_on date r)) [
  | inl on ↦ rw (old_row now date o r old on) (none_young now date o t old)
  | inr off ↦ elim (Bool-cases (is_young now o r.log.click_time)) [
    | inl kept ↦ rw (kept, off) (none_young now date o t old)
    | inr gone ↦ rw gone (none_young now date o t old)
  ]
]

-- An expired date has no young click; on an available one all are young but for the day of the cutoff.
module _ (now date : ℕ) (o : Option ℕ) (t : List ClickRaw) where
  expired_none :
      count_where
        (click_on date)
        (select_where (λ (r : ClickRaw). is_young now o r.log.click_time) t)
      ≤ (if is_young_date now o date then count_where (click_on date) t else 0)
  expired_none = elim (Bool-cases (is_young_date now o date)) [
    | inl near ↦ rw near (count-select-le (click_on date) (λ r. is_young now o r.log.click_time) t)
    | inr old ↦ rw old (omega (arith, none_young now date o t old))
  ]

  available_all :
      (if is_young_date now o date && not (is_cutoff_day now o date)
        then count_where (click_on date) t
        else 0)
      ≤ count_where
          (click_on date)
          (select_where (λ (r : ClickRaw). is_young now o r.log.click_time) t)
  available_all = elim (Bool-cases (is_young_date now o date && not (is_cutoff_day now o date))) [
    | inl near ↦ rw near (
        omega (
          arith,
          count-select_of_All (click_on date) (λ (r : ClickRaw). is_young now o r.log.click_time) t
              (All-of_forall _ t (λ r on. young_row now date o r near on)),
        ))
    | inr old ↦ rw old (omega arith)
  ]

-- With the days of the policy as the contract, and where they do not lead before the first date: a date that is
-- described as expired has no raw click left after the purge of that moment; one that is described as
-- available has lost no click, unless the cutoff falls into that day.
pub describe_evidence_availability_lem :
    (policy : RetentionPolicy) (now date : ℕ) (db : Database)
    → Fits now policy.raw_days
    → Fits now policy.aggregate_days
    → Fits now policy.findings_days
    → Fits now policy.job_run_days
    → (e : Availability) × (cutoffs : Cutoffs) × (counts : PurgeCounts) × (after : Database)
      × (describe_evidence_availability date now none policy.raw_days ≡ ok e)
      × (purge_old_data policy true now db ≡ ok (cutoffs, counts, after))
      × (e.evidence_expired ≡ not e.evidence_available)
      × (count_where (click_on date) after.logs.click_raw
          ≤ (if e.evidence_available then count_where (click_on date) db.logs.click_raw else 0))
      × ((if e.evidence_available && not (is_cutoff_day now policy.raw_days date)
            then count_where (click_on date) db.logs.click_raw
            else 0)
          ≤ count_where (click_on date) after.logs.click_raw)
unfolding describe_evidence_availability
describe_evidence_availability_lem policy now date db raw aggregates findings runs =
    let (e, described, available, expired) = describe_young now date policy.raw_days raw in
    let (cutoffs, counts, purged, dry) =
      purge_old_data_lem policy now db raw aggregates findings runs in
    (
      e,
      cutoffs,
      counts,
      young now policy db,
      described,
      purged,
      expired,
      rw available (expired_none now date policy.raw_days db.logs.click_raw),
      rw available (available_all now date policy.raw_days db.logs.click_raw),
    )
