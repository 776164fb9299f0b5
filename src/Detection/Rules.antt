-- ===== src/Detection/Rules.antt =====
-- `suspicious.py`: the rule set, what is known of a rollup, and `_reasons_for_rollup`.
use fraudhunter.Common.{
  ℕ, suc, ◌-◌, ◌*◌, ◌/◌, String, Bool, true, false, not, ◌&&◌, Option, none, some, List, [], ◌∷◌,
  ltb, leb, length, count_where,
}
use fraudhunter.Common.Int.{ℤ, pos, negsuc, neg}
use fraudhunter.Common.Time.{seconds}

-- `ConversionSuspiciousRuleSet`
pub record RuleSet : Type 0 where
  pub conversion_threshold : ℕ
  pub media_threshold : ℕ
  pub program_threshold : ℕ
  pub burst_conversion_threshold : ℕ
  pub burst_window_seconds : ℕ
  pub min_click_to_conv_seconds : Option ℕ
  pub max_click_to_conv_seconds : Option ℕ
  pub browser_only : Bool
  pub exclude_datacenter_ip : Bool

-- The defaults of the dataclass.
abbrev pub default_rules : RuleSet
default_rules = record {
  conversion_threshold = 5;
  media_threshold = 2;
  program_threshold = 2;
  burst_conversion_threshold = 3;
  burst_window_seconds = 1800;
  min_click_to_conv_seconds = some 5;
  max_click_to_conv_seconds = some 2592000;
  browser_only = false;
  exclude_datacenter_ip = false;
}

-- `ConversionIpUaRollup`
pub record Rollup : Type 0 where
  pub date : ℕ
  pub ipaddress : String
  pub useragent : String
  pub conversion_count : ℕ
  pub media_count : ℕ
  pub program_count : ℕ
  pub first_conversion_time : ℕ
  pub last_conversion_time : ℕ

-- `gap_info`: the least and the greatest time from a click to its conversion, in microseconds, which is
-- negative where the click is recorded after the conversion.
pub record GapInfo : Type 0 where
  pub min_gap : Option ℤ
  pub max_gap : Option ℤ

-- `padding_info`
pub record PaddingInfo : Type 0 where
  pub linked_click_count : Option ℕ
  pub extra_window_click_count : Option ℕ
  pub extra_window_useragents : List String

-- The reasons, in place of their texts, with the numbers that the texts show. A ratio is its numerator
-- and its denominator.
pub data Reason : Type 0 where
  conversion_count : (threshold : ℕ) → Reason
  media_count : (threshold : ℕ) → Reason
  program_count : (threshold : ℕ) → Reason
  burst : (count duration_seconds window : ℕ) → Reason
  click_to_conversion_short : (limit : ℕ) (gap : ℤ) → Reason
  click_to_conversion_long : (limit : ℕ) (gap : ℤ) → Reason
  click_padding_linked_ratio : (clicks conversions : ℕ) → Reason
  click_padding_extra_window : (clicks : ℕ) → Reason
  click_padding_non_browser_ratio : (non_browser all : ℕ) → Reason

abbrev pub extra_window_threshold : ℕ
extra_window_threshold = 10

-- `if test: reasons.append(reason)`
abbrev pub reason_if : Bool → Reason → List Reason → List Reason
reason_if true reason rest = reason ∷ rest
reason_if false reason rest = rest

-- `last_conversion_time - first_conversion_time`, in microseconds
abbrev pub duration : Rollup → ℕ
duration r = r.last_conversion_time - r.first_conversion_time

abbrev pub is_burst : RuleSet → Rollup → Bool
is_burst rules r =
    leb rules.burst_conversion_threshold r.conversion_count
    && leb (duration r) (seconds rules.burst_window_seconds)

-- `gap is not None and limit is not None and gap < limit`
abbrev pub is_short : (gap : Option ℤ) (limit : Option ℕ) → Bool
is_short (some (pos gap)) (some limit) = ltb gap (seconds limit)
is_short (some (negsuc gap)) (some limit) = true
is_short _ _ = false

-- `gap is not None and limit is not None and gap > limit`
abbrev pub is_long : (gap : Option ℤ) (limit : Option ℕ) → Bool
is_long (some (pos gap)) (some limit) = ltb (seconds limit) gap
is_long _ _ = false

-- `int(gap)`, which rounds towards 0
abbrev pub whole_seconds : Option ℤ → ℤ
whole_seconds none = pos 0
whole_seconds (some (pos gap)) = pos (gap / 1_000_000)
whole_seconds (some (negsuc gap)) = neg (suc gap / 1_000_000)

abbrev pub value : Option ℕ → ℕ
value none = 0
value (some n) = n

-- The two reasons of `if gap_info:`, before the rest
abbrev pub gap_reasons : RuleSet → Option GapInfo → List Reason → List Reason
gap_reasons rules none rest = rest
gap_reasons rules (some gap) rest =
    reason_if (is_short gap.min_gap rules.min_click_to_conv_seconds)
      (click_to_conversion_short (value rules.min_click_to_conv_seconds)
        (whole_seconds gap.min_gap))
      (reason_if (is_long gap.max_gap rules.max_click_to_conv_seconds)
        (click_to_conversion_long (value rules.max_click_to_conv_seconds)
          (whole_seconds gap.max_gap))
        rest)

-- `linked_click_count / conversion_count >= CLICK_PADDING_LINKED_RATIO_THRESHOLD`, 2.0, without division
abbrev pub is_linked_padding : Option ℕ → (conversions : ℕ) → Bool
is_linked_padding none conversions = false
is_linked_padding (some clicks) conversions = ltb 0 conversions && leb (2 * conversions) clicks

-- `extra_window_click_count >= CLICK_PADDING_EXTRA_WINDOW_THRESHOLD`
abbrev pub is_extra_padding : Option ℕ → Bool
is_extra_padding none = false
is_extra_padding (some clicks) = leb extra_window_threshold clicks

-- `non_browser_count / len(useragents) >= CLICK_PADDING_NON_BROWSER_RATIO_THRESHOLD`, 0.7, without division
abbrev pub is_non_browser_padding : (non_browser all : ℕ) → Bool
is_non_browser_padding non_browser all = ltb 0 all && leb (7 * all) (10 * non_browser)

module _ (is_browser_useragent : String → Bool) where
  abbrev pub non_browser_count : List String → ℕ
  non_browser_count uas = count_where (λ ua. not (is_browser_useragent ua)) uas

  -- The three reasons of `if padding_info:`
  abbrev pub padding_reasons : Rollup → Option PaddingInfo → List Reason
  padding_reasons r none = []
  padding_reasons r (some p) =
      let non_browser = non_browser_count p.extra_window_useragents in
      let all = length p.extra_window_useragents in
      reason_if (is_linked_padding p.linked_click_count r.conversion_count)
        (click_padding_linked_ratio (value p.linked_click_count) r.conversion_count)
        (reason_if (is_extra_padding p.extra_window_click_count)
          (click_padding_extra_window (value p.extra_window_click_count))
          (reason_if
            (is_extra_padding p.extra_window_click_count && is_non_browser_padding non_browser all)
            (click_padding_non_browser_ratio non_browser all) []))

  -- `_reasons_for_rollup`
  unfoldable pub reasons_for_rollup :
      RuleSet → Rollup → Option GapInfo → Option PaddingInfo → List Reason
  reasons_for_rollup rules r gap padding =
      reason_if (leb rules.conversion_threshold r.conversion_count)
        (conversion_count rules.conversion_threshold)
        (reason_if (leb rules.media_threshold r.media_count) (media_count rules.media_threshold) (
          reason_if (leb rules.program_threshold r.program_count)
            (program_count rules.program_threshold)
            (reason_if (is_burst rules r)
              (burst r.conversion_count (duration r / 1_000_000) rules.burst_window_seconds)
              (gap_reasons rules gap (padding_reasons r padding)))))
