-- ===== src/Jobs/Formats.antt =====
-- What `services/jobs.py` takes from Python's library: the text of dates, JSON and exceptions, and the
-- hash that the database locks by.
use fraudhunter.Common.{ℕ, String, Option, some, ◌≡◌}
use fraudhunter.Common.Int.{ℤ}
use fraudhunter.Common.Json.{Json, Fields, text}
use fraudhunter.Common.Result.{Exn}

pub record Formats : Type 0 where
  -- `date.isoformat` and `date.fromisoformat`, which raises a `ValueError` on other texts
  pub isoformat : ℕ → String
  pub fromisoformat : String → Option ℕ
  -- `int(text)`
  pub parse_int : String → Option ℤ
  -- `json.dumps(…, sort_keys=True, separators=(",", ":"), ensure_ascii=False)`
  pub dumps : Fields → String
  -- `str(value)` of a JSON value
  pub show : Json → String
  -- `str(exc)`
  pub exn_text : Exn → String
  -- `str(n)`
  pub show_int : ℕ → String
  -- PostgreSQL's `hashtext`
  pub hashtext : String → ℕ
  -- documented: the `str` of a `str` is the object itself
  pub show_text : (s : String) → show (text s) ≡ s
  -- documented: `fromisoformat` reads what `isoformat` writes
  pub iso_round_trip : (d : ℕ) → fromisoformat (isoformat d) ≡ some d
