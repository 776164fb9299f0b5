-- ===== src/Detection/Detector.antt =====
-- `ConversionSuspiciousDetector.find_for_date` of `suspicious.py`. What the repository's queries return
-- for the date is a parameter.
use fraudhunter.Common.{
  ℕ, String, Bool, true, false, not, ◌&&◌, ◌||◌, Option, none, some, List, [], ◌∷◌, ◌++◌, str_eq,
  ltb, if◌then◌else◌, is_some, exists_where, length,
}
use fraudhunter.Common.Int.{ℤ}
use fraudhunter.Detection.Rules.{
  RuleSet, Rollup, GapInfo, PaddingInfo, Reason, reasons_for_rollup, non_browser_count,
}
use fraudhunter.Detection.Filters.{Texts, is_browser_useragent, passes_filters}

-- `(rollup.ipaddress, rollup.useragent)`
pub record Visitor : Type 0 where
  pub ipaddress : String
  pub useragent : String

abbrev pub visitor_of : Rollup → Visitor
visitor_of r = record { ipaddress = r.ipaddress; useragent = r.useragent }

abbrev pub is_visitor : Visitor → Rollup → Bool
is_visitor v r = str_eq r.ipaddress v.ipaddress && str_eq r.useragent v.useragent

-- What the queries return. A dict that is asked for by visitor is a function to the optional entry;
-- `has_gaps` is the truth of the dict of the gaps.
pub record Queries : Type 0 where
  pub suspicious_rollups : List Rollup
  pub all_rollups : List Rollup
  pub has_gaps : Bool
  pub gap_stats : Visitor → Option GapInfo
  pub padding_stats : List Visitor → Visitor → Option PaddingInfo

-- `SuspiciousConversionFinding`; the times are in microseconds, and a ratio is its numerator and its denominator.
pub record Finding : Type 0 where
  pub rollup : Rollup
  pub reasons : List Reason
  pub min_click_to_conv_seconds : Option ℤ
  pub max_click_to_conv_seconds : Option ℤ
  pub linked_click_count : Option ℕ
  pub linked_clicks_per_conversion : Option (ℕ × ℕ)
  pub extra_window_click_count : Option ℕ
  pub extra_window_non_browser_ratio : Option (ℕ × ℕ)

abbrev pub opt_bind {ℓ κ} : {A : Type ℓ} {B : Type κ} → Option A → (A → Option B) → Option B
opt_bind none f = none
opt_bind (some a) f = f a

-- `linked_click_count / rollup.conversion_count`, if there are conversions
abbrev pub per_conversion : ℕ → Option ℕ → Option (ℕ × ℕ)
per_conversion conversions none = none
per_conversion conversions (some clicks) =
    if ltb 0 conversions then some (clicks, conversions) else none

module _ (texts : Texts) (rules : RuleSet) (q : Queries) where
  -- `gap_rules_enabled`
  abbrev pub gap_rules_enabled : Bool
  gap_rules_enabled =
      is_some rules.min_click_to_conv_seconds || is_some rules.max_click_to_conv_seconds

  -- `gap_stats.get(…)`, of the dict that is empty if the rules are off
  abbrev pub gap_of : Visitor → Option GapInfo
  gap_of v = if gap_rules_enabled then q.gap_stats v else none

  -- Whether the loop over `all_rollups` appends a candidate to the rollups.
  abbrev pub is_appended : Rollup → List Rollup → Bool
  is_appended candidate rollups =
      is_some (gap_of (visitor_of candidate))
      && not (exists_where (is_visitor (visitor_of candidate)) rollups)
      && passes_filters texts rules candidate

  -- The loop over `all_rollups`
  unfoldable pub append_candidates : List Rollup → List Rollup → List Rollup
  append_candidates [] rollups = rollups
  append_candidates (candidate ∷ rest) rollups =
      append_candidates rest
        (if is_appended candidate rollups then rollups ++ candidate ∷ [] else rollups)

  -- The rollups that are examined
  abbrev pub examined : List Rollup
  examined =
      if gap_rules_enabled && q.has_gaps
      then append_candidates q.all_rollups q.suspicious_rollups
      else q.suspicious_rollups

  abbrev pub visitors : List Rollup → List Visitor
  visitors [] = []
  visitors (r ∷ rs) = visitor_of r ∷ visitors rs

  abbrev pub reasons_of : (padding : Visitor → Option PaddingInfo) → Rollup → List Reason
  reasons_of padding r =
      reasons_for_rollup (is_browser_useragent texts) rules r (gap_of (visitor_of r))
        (padding (visitor_of r))

  abbrev pub non_browser_ratio : PaddingInfo → Option (ℕ × ℕ)
  non_browser_ratio p =
      let all = length p.extra_window_useragents in
      if ltb 0 all
      then some (non_browser_count (is_browser_useragent texts) p.extra_window_useragents, all)
      else none

  abbrev pub finding : (padding : Visitor → Option PaddingInfo) → Rollup → Finding
  finding padding r =
      let gap = gap_of (visitor_of r) in
      let p = padding (visitor_of r) in
      let linked = opt_bind p (λ x. x.linked_click_count) in
      record {
        rollup = r;
        reasons = reasons_of padding r;
        min_click_to_conv_seconds = opt_bind gap (λ g. g.min_gap);
        max_click_to_conv_seconds = opt_bind gap (λ g. g.max_gap);
        linked_click_count = linked;
        linked_clicks_per_conversion = per_conversion r.conversion_count linked;
        extra_window_click_count = opt_bind p (λ x. x.extra_window_click_count);
        extra_window_non_browser_ratio = opt_bind p non_browser_ratio;
      }

  -- `if not reasons: continue`
  abbrev pub has_reason : List Reason → Bool
  has_reason [] = false
  has_reason (x ∷ xs) = true

  -- The loop over the rollups
  unfoldable pub findings_of : (padding : Visitor → Option PaddingInfo) → List Rollup → List Finding
  findings_of padding [] = []
  findings_of padding (r ∷ rs) =
      let rest = findings_of padding rs in
      if has_reason (reasons_of padding r) then finding padding r ∷ rest else rest

  -- `find_for_date`
  unfoldable pub find_for_date : List Finding
  unfolding findings_of append_candidates
  find_for_date = findings_of (q.padding_stats (visitors examined)) examined
