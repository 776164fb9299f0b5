-- ===== src/Findings/Reasons.antt =====
-- The texts of the reasons, of `_reasons_for_rollup` in `suspicious.py`, and `format_reasons` of
-- `api_presenters.py`, which reads the numbers out of these texts again.
use Prim.Native.String.{◌++◌ as str_append}
use fraudhunter.Common.{ℕ, ◌/◌, String, List, [], ◌∷◌, leb, if◌then◌else◌}
use fraudhunter.Common.Int.{ℤ, pos, negsuc}
use fraudhunter.Detection.Rules.{
  Reason, conversion_count, media_count, program_count, burst, click_to_conversion_short,
  click_to_conversion_long, click_padding_linked_ratio, click_padding_extra_window,
  click_padding_non_browser_ratio, extra_window_threshold,
}

-- What Python prints: `str(n)` of integers, `f"{a / b:.2f}"`, and `int(float(text) * 100)` of that text.
pub record Numerals : Type 0 where
  pub show : ℕ → String
  pub show_int : ℤ → String
  pub ratio : (a b : ℕ) → String
  pub percent : (a b : ℕ) → ℕ

abbrev pub joined : List String → String
joined [] = ""
joined (s ∷ ss) = str_append s (joined ss)

module _ (n : Numerals) where
  open n use {show, show_int, ratio, percent}

  -- The text that the detector appends.
  abbrev pub reason_text : Reason → String
  reason_text (conversion_count t) = joined ("conversion_count >= " ∷ show t ∷ [])
  reason_text (media_count t) = joined ("media_count >= " ∷ show t ∷ [])
  reason_text (program_count t) = joined ("program_count >= " ∷ show t ∷ [])
  reason_text (burst c d w) =
      joined ("burst: " ∷ show c ∷ " conversions in " ∷ show d ∷ "s (<= " ∷ show w ∷ "s)" ∷ [])
  reason_text (click_to_conversion_short l g) =
      joined ("click_to_conversion_seconds <= " ∷ show l ∷ "s (min=" ∷ show_int g ∷ "s)" ∷ [])
  reason_text (click_to_conversion_long l g) =
      joined ("click_to_conversion_seconds >= " ∷ show l ∷ "s (max=" ∷ show_int g ∷ "s)" ∷ [])
  reason_text (click_padding_linked_ratio a b) =
      joined ("click_padding_linked_ratio >= 2.0 (actual=" ∷ ratio a b ∷ ")" ∷ [])
  reason_text (click_padding_extra_window c) = joined (
      "click_padding_extra_window >= "
      ∷ show extra_window_threshold
      ∷ " in 30m (actual="
      ∷ show c
      ∷ ")"
      ∷ [])
  reason_text (click_padding_non_browser_ratio a b) =
      joined ("click_padding_non_browser_ratio >= 0.7 (actual=" ∷ ratio a b ∷ ")" ∷ [])

  -- `_format_duration`
  abbrev pub format_duration : ℤ → String
  format_duration (negsuc s) = str_append (show_int (negsuc s)) "秒"
  format_duration (pos s) =
      if leb 86400 s
      then str_append (show (s / 86400)) "日"
      else if leb 3600 s
      then str_append (show (s / 3600)) "時間"
      else if leb 60 s
      then str_append (show (s / 60)) "分"
      else str_append (show s) "秒"

  -- `format_reasons` for one reason: the branch that its text takes, with the number that it extracts.
  abbrev pub format_reason : Reason → String
  format_reason (conversion_count t) = joined ("同一端末から" ∷ show t ∷ "件以上の成果が発生しています" ∷ [])
  format_reason (media_count t) = joined ("同一端末から" ∷ show t ∷ "つ以上の媒体で成果が発生しています" ∷ [])
  format_reason (program_count t) = joined ("同一端末から" ∷ show t ∷ "つ以上の案件で成果が発生しています" ∷ [])
  format_reason (burst c d w) =
      joined (format_duration (pos d) ∷ "間に" ∷ show c ∷ "件の成果が集中しています" ∷ [])
  format_reason (click_to_conversion_short l g) =
      joined ("クリックから成果まで最短" ∷ show_int g ∷ "秒しかなく、不自然に短い間隔です" ∷ [])
  format_reason (click_to_conversion_long l g) =
      joined ("クリックから成果まで最長" ∷ format_duration g ∷ "かかっており、不自然に長い間隔です" ∷ [])
  format_reason (click_padding_linked_ratio a b) =
      joined ("成果1件あたり" ∷ ratio a b ∷ "回のクリックが紐付いており、水増しの疑いがあります" ∷ [])
  format_reason (click_padding_extra_window c) =
      joined ("成果の前後30分に" ∷ show c ∷ "件の不審なクリックが集中しています" ∷ [])
  format_reason (click_padding_non_browser_ratio a b) =
      joined ("周辺クリックの" ∷ show (percent a b) ∷ "%がブラウザ以外からの発信で、自動化の疑いがあります" ∷ [])
