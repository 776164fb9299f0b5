-- ===== src/Common/Time.antt =====
-- Naive datetimes (`datetime` without tzinfo), as the microseconds since `datetime.min`, and dates, as
-- the days since then. The code compares them, adds a `timedelta` and takes a day.
use fraudhunter.Common.{ℕ, ◌*◌, ◌/◌}

-- `timedelta(seconds=n)`
abbrev pub seconds : ℕ → ℕ
seconds n = n * 1_000_000

-- `timedelta(hours=n)`
abbrev pub hours : ℕ → ℕ
hours n = n * 3_600_000_000

-- `timedelta(days=n)`
abbrev pub days : ℕ → ℕ
days n = n * 86_400_000_000

-- `value.date()`
abbrev pub date_of : ℕ → ℕ
date_of t = t / 86_400_000_000
