-- ===== src/Findings/Samples.antt =====
-- Rows, a library and a run for the tests of the findings.
use fraudhunter.Common.{◌+◌, true, none, some, [], ◌∷◌, if◌then◌else◌, str_eq}
use fraudhunter.Common.Int.{pos}
use fraudhunter.Common.Time.{seconds, days}
use fraudhunter.Detection.Rules.{Rollup, GapInfo, default_rules}
use fraudhunter.Findings.Damage.{Detail, Prices}
use fraudhunter.Findings.Recompute.{Library, Reads, Run}

abbrev pub detail : Detail
detail = record {
  media_id = some "m1";
  media_name = none;
  program_id = some "p1";
  program_name = some "P";
  affiliate_id = none;
  affiliate_name = none;
  conversion_count = 4;
}

abbrev pub prices : Prices
prices id = if str_eq id "p1" then some 500 else none

abbrev pub busy : Rollup
busy = record {
  date = 3;
  ipaddress = "i";
  useragent = "ua";
  conversion_count = 3;
  media_count = 1;
  program_count = 1;
  first_conversion_time = days 3;
  last_conversion_time = days 3 + seconds 60;
}

abbrev pub at_once : GapInfo
at_once = record { min_gap = some (pos 2_000_000); max_gap = some (pos 9_000_000) }

-- A library whose texts are simple and whose hash is the text.
abbrev pub library : Library
library = record {
  numerals = record {
    show = λ n. "n";
    show_int = λ z. "z";
    ratio = λ a b. "r";
    percent = λ a b. 0;
  };
  texts = record {
    lower = λ s. s;
    has_part = λ key text. str_eq key text;
    ip_address = λ ip. none;
  };
  sha256 = λ s. s;
  first_16 = λ s. s;
  isoformat = λ d. "d";
  dumps_texts = λ ts. "[]";
  dumps_metrics = λ f. "{}";
  dumps_evidence = λ es. "[]";
}

abbrev pub run : Run
run = record {
  settings = "{}";
  rules = default_rules;
  detector_source = "source";
  computed_at = days 4;
  settings_version_id = none;
  settings_updated_at = none;
  computed_by_job_id = some "run-1";
  generation_id = none;
  fresh = "0";
  fresh_row = λ d. "1";
}

-- On day 3 one visitor converts once, below all thresholds, right after the click.
abbrev pub quick : Rollup
quick = record busy { ipaddress = "j"; conversion_count = 1 }

abbrev pub reads : Reads
reads = record {
  queries = λ d. record {
    suspicious_rollups = [];
    all_rollups = quick ∷ [];
    has_gaps = true;
    gap_stats = λ v. some at_once;
    padding_stats = λ vs v. none;
  };
  details = λ d vs v. detail ∷ [];
  unit_prices = λ d ids. prices;
  click_watermark = λ d. none;
  conversion_watermark = λ d. none;
}
