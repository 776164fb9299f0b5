-- ===== src/Jobs/Kinds.antt =====
-- The kinds of jobs of `services/jobs.py`: attempts, priorities, and the keys under which runs of one
-- kind exclude one another.
use Prim.Native.String.{◌++◌ as str_append}
use fraudhunter.Common.{
  ℕ, String, Bool, true, false, ◌&&◌, ◌||◌, not, Option, none, some, str_eq, if◌then◌else◌, ◌==◌,
}
use fraudhunter.Common.Json.{Json, Fields, null, num, flag, text, arr, obj, nil, cons, end, field}
use fraudhunter.Common.Result.{Result, ok, err, value_error, other_error, ◌>>=◌}
use fraudhunter.Jobs.Formats.{Formats}

abbrev pub click_ingest : String
click_ingest = "ingest_clicks"

abbrev pub conversion_ingest : String
conversion_ingest = "ingest_conversions"

abbrev pub refresh : String
refresh = "refresh"

abbrev pub recompute_findings_date : String
recompute_findings_date = "recompute_findings_date"

abbrev pub master_sync : String
master_sync = "master_sync"

-- `_default_max_attempts`, with the table `JOB_MAX_ATTEMPTS`
unfoldable pub default_attempts_of : String → ℕ
default_attempts_of job_type =
    if str_eq job_type click_ingest
    then 3
    else if str_eq job_type conversion_ingest
    then 3
    else if str_eq job_type refresh
    then 4
    else if str_eq job_type recompute_findings_date
    then 4
    else if str_eq job_type master_sync
    then 2
    else 3

-- `_default_priority`, with the table `JOB_PRIORITIES`
unfoldable pub default_priority_of : String → ℕ
default_priority_of job_type =
    if str_eq job_type click_ingest
    then 20
    else if str_eq job_type conversion_ingest
    then 20
    else if str_eq job_type refresh
    then 10
    else if str_eq job_type recompute_findings_date
    then 30
    else if str_eq job_type master_sync
    then 50
    else 100

-- `params.get(name)`
abbrev pub get_field : String → Fields → Option Json
get_field name end = none
get_field name (field n v rest) = if str_eq n name then some v else get_field name rest

-- Python's truth of a value that `get` returned.
abbrev pub is_truthy : Option Json → Bool
is_truthy none = false
is_truthy (some null) = false
is_truthy (some (num n)) = not (n == 0)
is_truthy (some (flag b)) = b
is_truthy (some (text s)) = not (str_eq s "")
is_truthy (some (arr nil)) = false
is_truthy (some (arr (cons x xs))) = true
is_truthy (some (obj end)) = false
is_truthy (some (obj (field n v r))) = true

-- `params or {}`
abbrev pub or_empty : Option Fields → Fields
or_empty none = end
or_empty (some fields) = fields

module _ (f : Formats) where
  open f use {isoformat, fromisoformat, dumps, show}

  -- `_dedupe_key`
  unfoldable pub dedupe_key_of : String → Option Fields → String
  dedupe_key_of job_type params =
      let fields = or_empty params in
      let date = get_field "date" fields in
      let canonical = str_append job_type (str_append ":" (dumps fields)) in
      elim date [
        | none ↦ canonical
        | some d ↦
            if str_eq job_type recompute_findings_date && is_truthy (some d)
            then str_append job_type (str_append ":" (show d))
            else canonical
      ]

  -- `date.fromisoformat(value)`: a `ValueError` on another text, a `TypeError` on another value
  abbrev pub date_of_json : Json → Result ℕ
  date_of_json (text s) = elim (fromisoformat s) [
    | none ↦ err (value_error "Invalid isoformat string")
    | some d ↦ ok d
  ]
  date_of_json _ = err (other_error "fromisoformat: argument must be str")

  -- `_date_write_concurrency_key`
  abbrev pub date_write_concurrency_key : ℕ → String
  date_write_concurrency_key d = str_append "date-write:" (isoformat d)

  -- `_job_concurrency_key`
  unfoldable pub concurrency_key_of : String → Option Fields → Result (Option String)
  concurrency_key_of job_type params =
      let date = get_field "date" (or_empty params) in
      let other : Result (Option String) =
        if str_eq job_type master_sync then ok (some "master-sync") else ok none in
      let writes =
        str_eq job_type click_ingest
        || str_eq job_type conversion_ingest
        || str_eq job_type recompute_findings_date in
      elim date [
        | none ↦ other
        | some v ↦
            if writes && is_truthy (some v)
            then (do d ← date_of_json v; ok (some (date_write_concurrency_key d)))
            else other
      ]
