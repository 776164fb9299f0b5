-- ===== src/Detection/Tests.antt =====
-- The detection at concrete rollups: its theorems at inputs that meet their hypotheses.
use fraudhunter.Common.{
  ◌+◌, ◌≤◌, ◌≡◌, refl, true, none, some, [], ◌∷◌, Memᴰ, All, arith, count_where, exists_where,
  length, str_eq, if◌then◌else◌,
}
use fraudhunter.Common.Int.{pos}
use fraudhunter.Common.Time.{seconds, days}
use fraudhunter.Detection.Rules.{Rollup, GapInfo, default_rules, reasons_for_rollup}
use fraudhunter.Detection.Filters.{Texts, passes_filters}
use fraudhunter.Detection.Detector.{
  Visitor, visitor_of, is_visitor, Queries, has_reason, find_for_date,
}
use fraudhunter.Detection.Findings.{is_finding_of, find_for_date_unique}
use fraudhunter.Detection.Complete.{find_for_date_short_gap}

abbrev texts : Texts
texts = record { lower = λ s. s; has_part = λ key text. str_eq key text; ip_address = λ ip. none }

-- A visitor above the threshold of conversions, and one below all thresholds who converts at once.
abbrev busy : Rollup
busy = record {
  date = 3;
  ipaddress = "i";
  useragent = "ua";
  conversion_count = 6;
  media_count = 1;
  program_count = 1;
  first_conversion_time = days 3;
  last_conversion_time = days 3 + seconds 9000;
}

abbrev quick : Rollup
quick = record busy { ipaddress = "j"; conversion_count = 1 }

abbrev at_once : GapInfo
at_once = record { min_gap = some (pos 2_000_000); max_gap = some (pos 9_000_000) }

abbrev queries : Queries
queries = record {
  suspicious_rollups = busy ∷ [];
  all_rollups = busy ∷ quick ∷ [];
  has_gaps = true;
  gap_stats = λ v. if str_eq v.ipaddress "j" then some at_once else none;
  padding_stats = λ vs v. none;
}

finds_both : length (find_for_date texts default_rules queries) ≡ 2
unfolding find_for_date reasons_for_rollup passes_filters
finds_both = refl

few : (v : Visitor) → count_where (is_visitor v) queries.suspicious_rollups ≤ 1
few v = ground arith

find_for_date_unique_example :
    ((v : Visitor) → count_where (is_finding_of v) (find_for_date texts default_rules queries) ≤ 1)
    × All
        (λ x. has_reason texts default_rules queries x.reasons ≡ true)
        (find_for_date texts default_rules queries)
find_for_date_unique_example = find_for_date_unique texts default_rules queries few

find_for_date_short_gap_example :
    exists_where (is_finding_of (visitor_of quick)) (find_for_date texts default_rules queries)
    ≡ true
unfolding passes_filters
find_for_date_short_gap_example =
    find_for_date_short_gap texts default_rules queries quick at_once (Memᴰ.tail (Memᴰ.head refl))
      refl refl refl refl
