-- ===== src/Findings/Risk.antt =====
-- `calculate_risk_level` of `api_presenters.py`, on the reasons of the detection in place of their texts:
-- which of its tests on a text a reason passes is written out.
use fraudhunter.Common.{
  ℕ, ◌+◌, String, Bool, true, false, List, [], ◌∷◌, leb, if◌then◌else◌, exists_where,
}
use fraudhunter.Detection.Rules.{
  Reason, media_count, program_count, burst, click_to_conversion_short, click_padding_linked_ratio,
  click_padding_extra_window, click_padding_non_browser_ratio,
}

pub data RiskLevel : Type 0 where
  low medium high : RiskLevel

-- `RISK_LABELS`
abbrev pub risk_label : RiskLevel → String
risk_label high = "高リスク"
risk_label medium = "中リスク"
risk_label low = "低リスク"

pub record Risk : Type 0 where
  pub level : RiskLevel
  pub score : ℕ
  pub label : String

-- `reason.startswith("click_padding_")`
abbrev pub is_click_padding : Reason → Bool
is_click_padding (click_padding_linked_ratio c n) = true
is_click_padding (click_padding_extra_window c) = true
is_click_padding (click_padding_non_browser_ratio c n) = true
is_click_padding _ = false

-- What the loop adds for a reason: its text has `burst`, `click_to_conversion_seconds <=`, or `media_count`
-- or `program_count` in it.
abbrev pub extra_score : Reason → ℕ
extra_score (burst c d w) = 30
extra_score (click_to_conversion_short l g) = 25
extra_score (media_count t) = 15
extra_score (program_count t) = 15
extra_score _ = 0

-- `score` before the count is looked at, except what click padding adds
abbrev pub reasons_score : List Reason → ℕ
reasons_score [] = 0
reasons_score (r ∷ rs) = 25 + extra_score r + reasons_score rs

abbrev pub count_score : (is_conversion : Bool) (count : ℕ) → ℕ
count_score true count =
    if leb 10 count then 40 else if leb 5 count then 20 else if leb 3 count then 10 else 0
count_score false count =
    if leb 200 count then 40 else if leb 100 count then 25 else if leb 50 count then 10 else 0

abbrev pub level_of_score : ℕ → RiskLevel
level_of_score score = if leb 65 score then high else if leb 30 score then medium else low

-- `calculate_risk_level`
unfoldable pub calculate_risk_level : List Reason → (count : ℕ) (is_conversion : Bool) → Risk
calculate_risk_level reasons count is_conversion =
    let padding = if exists_where is_click_padding reasons then 25 else 0 in
    let score = reasons_score reasons + padding + count_score is_conversion count in
    record {
      level = level_of_score score;
      score = score;
      label = risk_label (level_of_score score);
    }
