-- ===== src/Console/Schedules.antt =====
-- The schedules that the console shows, `_build_schedule_metadata` of `services/console.py`. A time is its
-- number; `_iso` is left to the presentation.
use fraudhunter.Common.{
  ℕ, zero, suc, ◌+◌, ◌*◌, ◌/◌, ◌%◌, String, not, ◌||◌, Option, none, some, List, [], ◌∷◌, leb, ◌==◌,
  if◌then◌else◌,
}
use fraudhunter.Common.Time.{hours, days}

-- `timedelta(minutes=n)`
abbrev pub minutes : ℕ → ℕ
minutes n = n * 60_000_000

-- `time.replace(minute=minute, second=0, microsecond=0)`
abbrev pub at_minute : (time minute : ℕ) → ℕ
at_minute time minute = hours (time / 3_600_000_000) + minutes minute

-- `time.replace(hour=hour, minute=minute, second=0, microsecond=0)`
abbrev pub at_hour : (time hour minute : ℕ) → ℕ
at_hour time hour minute = days (time / 86_400_000_000) + hours hour + minutes minute

-- `time.hour`
abbrev pub hour_of : ℕ → ℕ
hour_of time = time % 86_400_000_000 / 3_600_000_000

-- `_next_hourly_run`
unfoldable pub next_hourly_run : (reference_time minute : ℕ) → ℕ
next_hourly_run reference_time minute =
    let candidate = at_minute reference_time minute in
    if leb candidate reference_time then candidate + hours 1 else candidate

-- The loop, for at most `fuel` rounds.
unfoldable pub six_hours_loop : (fuel reference_time minute candidate : ℕ) → Option ℕ
six_hours_loop zero reference_time minute candidate = none
six_hours_loop (suc fuel) reference_time minute candidate =
    let later =
      six_hours_loop fuel reference_time minute (at_minute (candidate + hours 1) minute) in
    if not (hour_of candidate % 6 == 0) || leb candidate reference_time
    then later
    else some candidate

-- `_next_every_six_hours_run`
abbrev pub next_every_six_hours_run : (fuel reference_time minute : ℕ) → Option ℕ
next_every_six_hours_run fuel reference_time minute =
    six_hours_loop fuel reference_time minute (at_minute reference_time minute)

-- `_next_daily_run`
unfoldable pub next_daily_run : (reference_time hour minute : ℕ) → ℕ
next_daily_run reference_time hour minute =
    let candidate = at_hour reference_time hour minute in
    if leb candidate reference_time then candidate + days 1 else candidate

-- The run of the worker: the next full minute.
unfoldable pub next_minute : (reference_time : ℕ) → ℕ
next_minute reference_time = minutes (reference_time / 60_000_000) + minutes 1

-- An entry of the list.
pub record Schedule : Type 0 where
  pub key : String
  pub label : String
  pub description : String
  pub next_run_at : Option ℕ

-- `_build_schedule_metadata`
abbrev pub build_schedule_metadata : (fuel reference_time : ℕ) → List Schedule
build_schedule_metadata fuel reference_time =
    record {
      key = "refresh_hourly";
      label = "データ再取得";
      description = "毎時 0 分";
      next_run_at = some (next_hourly_run reference_time 0);
    }
    ∷ record {
      key = "backfill_6hourly";
      label = "バックフィル";
      description = "6 時間ごと 15 分";
      next_run_at = next_every_six_hours_run fuel reference_time 15;
    }
    ∷ record {
      key = "master_sync_daily";
      label = "マスター同期";
      description = "毎日 03:30";
      next_run_at = some (next_daily_run reference_time 3 30);
    }
    ∷ record {
      key = "queue_runner";
      label = "ワーカー起動";
      description = "毎分";
      next_run_at = some (next_minute reference_time);
    }
    ∷ []
