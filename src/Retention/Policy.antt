-- ===== src/Retention/Policy.antt =====
-- The retention policy of `services/lifecycle.py` and its cutoffs.
use fraudhunter.Common.{ℕ, zero, suc, ◌-◌, String, Option, none, some, str_eq, ltb, if◌then◌else◌}
use fraudhunter.Common.Int.{ℤ, pos, negsuc}
use fraudhunter.Common.Result.{Result, ok, err, value_error, other_error, ◌>>=◌}
use fraudhunter.Common.Time.{days, date_of}

-- `RetentionPolicy`; none keeps the data for ever.
pub record RetentionPolicy : Type 0 where
  pub raw_days : Option ℕ
  pub aggregate_days : Option ℕ
  pub findings_days : Option ℕ
  pub job_run_days : Option ℕ

-- The defaults of the dataclass.
abbrev pub default_policy : RetentionPolicy
default_policy = record {
  raw_days = some 90;
  aggregate_days = some 365;
  findings_days = some 365;
  job_run_days = some 30;
}

-- `_normalize_days`
abbrev pub normalize_days : ℤ → Option ℕ
normalize_days (pos zero) = none
normalize_days (pos (suc n)) = some (suc n)
normalize_days (negsuc n) = none

-- `os.getenv`, and `int(text)`, which raises a `ValueError` on other texts.
module _ (getenv : String → Option String) (parse_int : String → Option ℤ) where
  -- A variable that is set, to a text that is not empty.
  abbrev pub days_of_text : (raw : String) (default : ℕ) → Result (Option ℕ)
  days_of_text raw default = if str_eq raw "" then ok (some default) else elim (parse_int raw) [
    | none ↦ err (value_error "invalid literal for int()")
    | some n ↦ ok (normalize_days n)
  ]

  -- `_resolve_days`
  abbrev pub resolve_days : (name : String) (default : ℕ) (explicit : Option ℤ) → Result (Option ℕ)
  resolve_days name default (some n) = ok (normalize_days n)
  resolve_days name default none = elim (getenv name) [
    | none ↦ ok (some default)
    | some raw ↦ days_of_text raw default
  ]

  -- `resolve_retention_policy`
  unfoldable pub resolve_retention_policy :
      (raw_days aggregate_days findings_days job_run_days : Option ℤ) → Result RetentionPolicy
  resolve_retention_policy raw aggregate findings job_run = do
    raw_days ← resolve_days "FC_RETENTION_RAW_DAYS" 90 raw
    aggregate_days ← resolve_days "FC_RETENTION_AGGREGATE_DAYS" 365 aggregate
    findings_days ← resolve_days "FC_RETENTION_FINDINGS_DAYS" 365 findings
    job_run_days ← resolve_days "FC_RETENTION_JOB_RUN_DAYS" 30 job_run
    ok (record {
      raw_days = raw_days;
      aggregate_days = aggregate_days;
      findings_days = findings_days;
      job_run_days = job_run_days;
    })

-- `_cutoff_datetime`; a time before `datetime.min` is an `OverflowError`.
abbrev pub cutoff_datetime : (reference_time : ℕ) → Option ℕ → Result (Option ℕ)
cutoff_datetime reference_time none = ok none
cutoff_datetime reference_time (some n) =
    if ltb reference_time (days n)
    then err (other_error "date value out of range")
    else ok (some (reference_time - days n))

-- `_cutoff_date`
abbrev pub cutoff_date : (reference_time : ℕ) → Option ℕ → Result (Option ℕ)
cutoff_date reference_time none = ok none
cutoff_date reference_time (some n) =
    if ltb reference_time (days n)
    then err (other_error "date value out of range")
    else ok (some (date_of (reference_time - days n)))
