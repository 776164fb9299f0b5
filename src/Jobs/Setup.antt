-- ===== src/Jobs/Setup.antt =====
-- What the functions of `services/jobs.py` run in: the database, the ACS, the process, and small helpers.
use Prim.Native.String.{◌++◌ as str_append}
use fraudhunter.Common.{
  map, Bool, false, ℕ, ◌+◌, ◌-◌, String, none, some, List, [], ◌∷◌, str_eq, ltb, ◌==◌,
  if◌then◌else◌,
}
use fraudhunter.Common.Int.{ℤ, pos, negsuc}
use fraudhunter.Common.Json.{Items, Fields, num, text, nil, cons, end, field}
use fraudhunter.Common.Result.{Result, ok, err, value_error, other_error}
use fraudhunter.Common.Time.{hours}
use fraudhunter.Ingestion.Logs.{ClickLog, ConversionLog, DailyRow, Logs}
use fraudhunter.Ingestion.Repository.{Environment as WriteEnvironment}
use fraudhunter.Ingestion.Merge.{add_date}
use fraudhunter.Findings.Recompute.{Library, Reads, Run}
use fraudhunter.Cases.Tables.{Cases}
use fraudhunter.Masters.Tables.{Masters, MediaEntry, PromotionEntry, UserEntry}
use fraudhunter.Settings.Env.{TextOps, Env}
use fraudhunter.Jobs.Formats.{Formats}
use fraudhunter.Jobs.Execute.{Action}
use fraudhunter.Jobs.Enqueue.{Environment as EnqueueEnvironment}

-- What the jobs write, beside the runs; and whether each loop over the pages of the ACS has come to its end
-- so far, which the program has no variable for.
pub record Database : Type 0 where
  pub ended : Bool
  pub logs : Logs
  pub cases : Cases
  pub masters : Masters

-- What `fetch_…` returns for a page and a limit.
abbrev pub Pages : Type 0 → Type 0
Pages A = (page limit : ℕ) → List A

-- The ACS while a job runs. The requests for one list fail, or each of them has an answer.
pub record Client : Type 0 where
  pub clicks : (target_date : ℕ) → Result (Pages ClickLog)
  pub conversions : (target_date : ℕ) → Result (Pages ConversionLog)
  pub clicks_between : (start_time end_time : ℕ) → Result (Pages ClickLog)
  pub conversions_between : (start_time end_time : ℕ) → Result (Pages ConversionLog)
  pub media : Result (Pages MediaEntry)
  pub promotions : Result (Pages PromotionEntry)
  pub users : Result (Pages UserEntry)

-- What a job runs in: the process, the ACS, what the repository's queries return of the tables, the settings of
-- the rules, and what `now_local` and `uuid4` answer. The loops over pages are on `fuel`.
pub record Setup : Type 0 where
  pub ops : TextOps
  pub getenv : Env
  pub client : Client
  pub environment : (clock : ℕ) → WriteEnvironment
  pub enqueues : ℕ → EnqueueEnvironment
  pub library : Library
  pub reads : Logs → Masters → Reads
  pub settings : Run
  -- `uuid.uuid4().hex[:12]`
  pub uuid : String
  -- what the clock shows when the job has ended, by what it showed at its start
  pub ends_at : (clock : ℕ) → ℕ
  pub fuel : ℕ

-- A loop over pages that the fuel has cut short, which the database notes: from there on, what the model
-- does is not what the program does, whose loop goes on.
abbrev pub out_of_fuel : {A : Type 0} → Action Database A
out_of_fuel w = (
  err (other_error "the pages have not ended"),
  record w { rest = record w.rest { ended = false } },
)

-- `dates_to_recompute.update(dates)`, of a set that is kept sorted
abbrev pub add_dates : List ℕ → List ℕ → List ℕ
add_dates [] ds = ds
add_dates (d ∷ new) ds = add_date d (add_dates new ds)

-- The set of the dates of a daily table, the latest first.
abbrev pub add_descending : ℕ → List ℕ → List ℕ
add_descending d [] = d ∷ []
add_descending d (e ∷ ds) =
    let rest = add_descending d ds in
    if d == e then e ∷ ds else if ltb e d then d ∷ e ∷ ds else e ∷ rest

abbrev pub dates_in : List DailyRow → List ℕ → List ℕ
dates_in [] ds = ds
dates_in (row ∷ rows) ds = add_descending row.key.date (dates_in rows ds)

-- `get_available_dates` of `services/reporting.py`; the order of the ISO texts is that of the dates.
abbrev pub get_available_dates : Formats → Logs → List String
get_available_dates f db =
    map f.isoformat (dates_in db.click_daily (dates_in db.conversion_daily []))

-- `date.fromisoformat(value) for value in … if value`
abbrev pub dates_from : Formats → List String → Result (List ℕ)
dates_from f [] = ok []
dates_from f (s ∷ ss) =
    let rest = dates_from f ss in
    if str_eq s "" then rest else elim (f.fromisoformat s) [
      | none ↦ err (value_error "Invalid isoformat string")
      | some d ↦ elim rest [ err e ↦ err e | ok ds ↦ ok (d ∷ ds) ]
    ]

-- `results.get(date, {})`
abbrev pub counts_of : String → List (String × ℕ) → Fields
counts_of date [] = end
counts_of date ((key, n) ∷ results) =
    let rest = counts_of date results in
    if str_eq key date then field "suspicious_conversions" (num n) end else rest

abbrev pub texts : List String → Items
texts [] = nil
texts (s ∷ ss) = cons (text s) (texts ss)

-- `job_run_id or uuid`
abbrev pub or_fresh : (job_run_id uuid : String) → String
or_fresh job_run_id uuid = if str_eq job_run_id "" then uuid else job_run_id

-- `end_time - timedelta(hours=hours)`, which raises before `datetime.min`
abbrev pub start_of : (end_time : ℕ) → ℤ → Result ℕ
start_of end_time (pos n) =
    if ltb end_time (hours n)
    then err (other_error "date value out of range")
    else ok (end_time - hours n)
start_of end_time (negsuc n) = ok (end_time + hours (n + 1))

abbrev pub show_whole : Formats → ℤ → String
show_whole f (pos n) = f.show_int n
show_whole f (negsuc n) = str_append "-" (f.show_int (n + 1))
