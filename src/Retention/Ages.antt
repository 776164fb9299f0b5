-- ===== src/Retention/Ages.antt =====
-- Which rows a purge keeps, by their age.
use fraudhunter.Common.{
  ℕ, ◌+◌, ◌-◌, ◌≤◌, Bool, true, not, ◌||◌, Option, none, some, List, [], ◌∷◌, ◌≡◌, refl, sym, ap,
  ◌∙◌, arith, inl, inr, Bool-cases, Option-cases, leb, ltb, select_where,
}
use fraudhunter.Common.Result.{ok}
use fraudhunter.Common.Time.{days, date_of}
use fraudhunter.Ingestion.Logs.{ClickRaw, ConversionRaw, DailyRow, Logs}
use fraudhunter.Ingestion.Merge.{purge_raw_before, purge_aggregates_before}
use fraudhunter.Cases.Tables.{StoredFinding, Cases}
use fraudhunter.Cases.Store.{purge_findings_before}
use fraudhunter.Queue.Run.{JobRun, is_finished}
use fraudhunter.Queue.Store.{Table, is_purged, purge_finished_runs_before}
use fraudhunter.Retention.Policy.{RetentionPolicy, cutoff_datetime, cutoff_date}
use fraudhunter.Retention.Purge.{Database, purge_raw, purge_aggregates, purge_findings, purge_runs}

-- The moment is no more than the days of the policy before now.
abbrev pub is_young : (now : ℕ) → Option ℕ → (time : ℕ) → Bool
is_young now none time = true
is_young now (some n) time = leb now (time + days n)

-- The date is no more than the days of the policy before today.
abbrev pub is_young_date : (now : ℕ) → Option ℕ → (date : ℕ) → Bool
is_young_date now none date = true
is_young_date now (some n) date = leb (date_of now) (date + n)

-- A run that has not ended, or whose end is young.
abbrev pub is_young_run : (now : ℕ) → Option ℕ → JobRun → Bool
is_young_run now o r =
    not (is_finished r.status) || elim r.finished_at [ none ↦ true | some at ↦ is_young now o at ]

-- The database with the rows that are young.
abbrev pub young : (now : ℕ) → RetentionPolicy → Database → Database
young now p db = record {
  logs = record {
    click_raw =
        select_where (λ (r : ClickRaw). is_young now p.raw_days r.log.click_time) db.logs.click_raw;
    click_daily =
        select_where (λ (r : DailyRow). is_young_date now p.aggregate_days r.key.date)
          db.logs.click_daily;
    conversion_raw =
        select_where (λ (r : ConversionRaw). is_young now p.raw_days r.log.conversion_time)
          db.logs.conversion_raw;
    conversion_daily =
        select_where (λ (r : DailyRow). is_young_date now p.aggregate_days r.key.date)
          db.logs.conversion_daily;
  };
  cases = record db.cases {
    findings =
        select_where (λ (f : StoredFinding). is_young_date now p.findings_days f.date)
          db.cases.findings;
  };
  runs = select_where (is_young_run now p.job_run_days) db.runs;
}

-- The days before now do not lead before the first date.
abbrev pub Fits : (now : ℕ) → Option ℕ → Type 0
Fits now none = Unit
Fits now (some n) = days n ≤ now

abbrev pub time_cutoff : ℕ → Option ℕ → Option ℕ
time_cutoff now none = none
time_cutoff now (some n) = some (now - days n)

abbrev pub day_cutoff : ℕ → Option ℕ → Option ℕ
day_cutoff now none = none
day_cutoff now (some n) = some (date_of (now - days n))

pub time_cutoff_lem :
    (now : ℕ) (o : Option ℕ) → Fits now o → cutoff_datetime now o ≡ ok (time_cutoff now o)
time_cutoff_lem now none h = refl
time_cutoff_lem now (some n) h = ground arith

pub day_cutoff_lem :
    (now : ℕ) (o : Option ℕ) → Fits now o → cutoff_date now o ≡ ok (day_cutoff now o)
day_cutoff_lem now none h = refl
day_cutoff_lem now (some n) h = ground arith

select_same {ℓ} :
    {A : Type ℓ} (p q : A → Bool) (t : List A)
    → ((x : A) → p x ≡ q x)
    → select_where p t ≡ select_where q t
select_same p q [] same = refl
select_same p q (x ∷ t) same = rw (same x, select_same p q t same) refl

select_all {ℓ} : {A : Type ℓ} (t : List A) → t ≡ select_where (λ x. true) t
select_all [] = refl
select_all (x ∷ t) = ap (λ s. x ∷ s) (select_all t)

young_time :
    (now n time : ℕ) → days n ≤ now → not (ltb time (now - days n)) ≡ leb now (time + days n)
young_time now n time h = ground arith

young_day :
    (now n date : ℕ)
    → days n ≤ now
    → not (ltb date (date_of (now - days n))) ≡ leb (date_of now) (date + n)
young_day now n date h =
    let e : date_of (now - days n) ≡ date_of now - n = omega arith in
    let le : n ≤ date_of now = omega arith in rw e (ground arith)

-- What each of the four purges leaves.
pub raw_left :
    (now : ℕ) (o : Option ℕ) (db : Logs)
    → Fits now o
    → (purge_raw (time_cutoff now o) true db).1 ≡ record db {
      click_raw = select_where (λ (r : ClickRaw). is_young now o r.log.click_time) db.click_raw;
      conversion_raw =
          select_where
            (λ (r : ConversionRaw). is_young now o r.log.conversion_time)
            db.conversion_raw;
    }
unfolding purge_raw_before
raw_left now none db h = rw (sym (select_all db.click_raw), sym (select_all db.conversion_raw)) refl
raw_left now (some n) db h =
    rw
      (
        select_same (λ (r : ClickRaw). not (ltb r.log.click_time (now - days n)))
            (λ r. leb now (r.log.click_time + days n)) db.click_raw
            (λ r. young_time now n r.log.click_time h),
        select_same (λ (r : ConversionRaw). not (ltb r.log.conversion_time (now - days n)))
            (λ r. leb now (r.log.conversion_time + days n)) db.conversion_raw
            (λ r. young_time now n r.log.conversion_time h),
      )
      refl

pub aggregates_left :
    (now : ℕ) (o : Option ℕ) (db : Logs)
    → Fits now o
    → (purge_aggregates (day_cutoff now o) true db).1 ≡ record db {
      click_daily = select_where (λ (r : DailyRow). is_young_date now o r.key.date) db.click_daily;
      conversion_daily =
          select_where (λ (r : DailyRow). is_young_date now o r.key.date) db.conversion_daily;
    }
unfolding purge_aggregates_before
aggregates_left now none db h =
    rw (sym (select_all db.click_daily), sym (select_all db.conversion_daily)) refl
aggregates_left now (some n) db h =
    let same = λ (t : List DailyRow).
      select_same (λ (r : DailyRow). not (ltb r.key.date (date_of (now - days n))))
        (λ r. leb (date_of now) (r.key.date + n)) t (λ r. young_day now n r.key.date h) in
    rw (same db.click_daily, same db.conversion_daily) refl

pub findings_left :
    (now : ℕ) (o : Option ℕ) (c : Cases)
    → Fits now o
    → (purge_findings (day_cutoff now o) true c).1 ≡ record c {
      findings = select_where (λ (f : StoredFinding). is_young_date now o f.date) c.findings;
    }
unfolding purge_findings_before
findings_left now none c h = rw (sym (select_all c.findings)) refl
findings_left now (some n) c h =
    rw
      (select_same (λ (f : StoredFinding). not (ltb f.date (date_of (now - days n))))
        (λ f. leb (date_of now) (f.date + n)) c.findings (λ f. young_day now n f.date h))
      refl

young_run :
    (now n : ℕ) (r : JobRun)
    → days n ≤ now
    → not (is_purged (now - days n) r) ≡ is_young_run now (some n) r
young_run now n r h = elim (Bool-cases (is_finished r.status)) [
  | inr going ↦ rw going refl
  | inl ended ↦ rw ended (elim (Option-cases r.finished_at) [
    | inl e ↦ rw e refl
    | inr (at, e) ↦ rw e (young_time now n at h)
  ])
]

pub runs_left :
    (now : ℕ) (o : Option ℕ) (t : Table)
    → Fits now o
    → (purge_runs (time_cutoff now o) true t).1 ≡ select_where (is_young_run now o) t
unfolding purge_finished_runs_before
runs_left now none t h =
    select_all t
    ∙ select_same (λ r. true) (is_young_run now none) t
        (λ r. elim (Option-cases r.finished_at) [
          | inl e ↦ rw e (ground arith)
          | inr (at, e) ↦ rw e (ground arith)
        ])
runs_left now (some n) t h =
    select_same (λ r. not (is_purged (now - days n) r)) (is_young_run now (some n)) t
      (λ r. young_run now n r h)
