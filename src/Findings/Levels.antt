-- ===== src/Findings/Levels.antt =====
-- How the risk level follows the reasons and the count.
use fraudhunter.Common.{
  ℕ, ◌+◌, ◌≤◌, String, Bool, true, false, Option, none, some, List, [], ◌∷◌, ◌++◌, ◌≡◌, ◌/◌, arith,
  leb, if◌then◌else◌, inl, inr, Bool-cases, exists_where,
}
use fraudhunter.Detection.Rules.{
  RuleSet, Rollup, GapInfo, PaddingInfo, Reason, burst, conversion_count, media_count,
  program_count, duration, reason_if, is_burst, is_short, gap_reasons, padding_reasons,
  reasons_for_rollup,
}
use fraudhunter.Findings.Risk.{
  RiskLevel, low, medium, high, is_click_padding, extra_score, reasons_score, count_score,
  level_of_score, calculate_risk_level,
}

abbrev pub rank : RiskLevel → ℕ
rank low = 0
rank medium = 1
rank high = 2

rank_mono : (m n : ℕ) → m ≤ n → rank (level_of_score m) ≤ rank (level_of_score n)
rank_mono m n h = ground arith

count_mono : (c : Bool) (m n : ℕ) → m ≤ n → count_score c m ≤ count_score c n
count_mono true m n h = ground arith
count_mono false m n h = ground arith

reasons-append :
    (rs extra : List Reason) → reasons_score (rs ++ extra) ≡ reasons_score rs + reasons_score extra
reasons-append [] extra = omega arith
reasons-append (r ∷ rs) extra = omega (arith, reasons-append rs extra)

padding-append :
    (rs extra : List Reason)
    → exists_where is_click_padding rs ≡ true
    → exists_where is_click_padding (rs ++ extra) ≡ true
padding-append [] extra h = absurd (ground arith)
padding-append (r ∷ rs) extra h = ground (arith, padding-append rs extra)

-- With more reasons and a higher count, neither the score nor the level of the risk is lower.
pub calculate_risk_level_mono :
    (c : Bool) (rs extra : List Reason) (m n : ℕ)
    → m ≤ n
    → let less = calculate_risk_level rs m c in
      let more = calculate_risk_level (rs ++ extra) n c in
      (less.score ≤ more.score) × (rank less.level ≤ rank more.level)
unfolding calculate_risk_level
calculate_risk_level_mono c rs extra m n h =
    let less = calculate_risk_level rs m c in
    let more = calculate_risk_level (rs ++ extra) n c in
    let scores : less.score ≤ more.score =
      ground (arith, reasons-append rs extra, padding-append rs extra, count_mono c m n h) in
    (scores, rank_mono less.score more.score scores)

-- What a condition adds to the score.
reason_if_score :
    (b : Bool) (r : Reason) (rs : List Reason)
    → reasons_score (reason_if b r rs) ≡ (if b then 25 + extra_score r else 0) + reasons_score rs
reason_if_score true r rs = omega arith
reason_if_score false r rs = omega arith

-- The least time from a click to a conversion is below the limit.
abbrev pub has_short_gap : RuleSet → Option GapInfo → Bool
has_short_gap rules none = false
has_short_gap rules (some g) = is_short g.min_gap rules.min_click_to_conv_seconds

-- A short gap is a reason of 50 points, before what follows it.
gap_score :
    (rules : RuleSet) (gap : Option GapInfo) (rest : List Reason)
    → (if has_short_gap rules gap then 50 else 0) ≤ reasons_score (gap_reasons rules gap rest)
gap_score rules none rest = omega arith
gap_score rules (some g) rest = ground arith

-- The level of a score of `n` points and more.
high_of : (n p c : ℕ) → 55 ≤ n → 3 ≤ c → rank (level_of_score (n + p + count_score true c)) ≡ 2
high_of n p c points three = ground arith

medium_of : (n p c : ℕ) → 50 ≤ n → 1 ≤ rank (level_of_score (n + p + c))
medium_of n p c points = ground arith

module _ (browser : String → Bool) (rules : RuleSet) (r : Rollup) (gap : Option GapInfo)
    (padding : Option PaddingInfo) where
  -- What the burst and all after it add to the score.
  burst_score :
      let rest = gap_reasons rules gap (padding_reasons browser r padding) in
      (if is_burst rules r then 55 else 0) + reasons_score rest
      ≤ reasons_score (reasons_for_rollup browser rules r gap padding)
  unfolding reasons_for_rollup
  burst_score =
      let rest = gap_reasons rules gap (padding_reasons browser r padding) in
      let bursts =
        reason_if (is_burst rules r)
          (burst r.conversion_count (duration r / 1_000_000) rules.burst_window_seconds) rest in
      let programs =
        reason_if (leb rules.program_threshold r.program_count)
          (program_count rules.program_threshold) bursts in
      let medias =
        reason_if (leb rules.media_threshold r.media_count) (media_count rules.media_threshold)
          programs in
      omega (
        arith,
        reason_if_score (leb rules.conversion_threshold r.conversion_count)
            (conversion_count rules.conversion_threshold) medias,
        reason_if_score (leb rules.media_threshold r.media_count)
            (media_count rules.media_threshold) programs,
        reason_if_score (leb rules.program_threshold r.program_count)
            (program_count rules.program_threshold) bursts,
        reason_if_score (is_burst rules r)
            (burst r.conversion_count (duration r / 1_000_000) rules.burst_window_seconds) rest,
      )

  -- A burst of conversions is of high risk, and a visitor whose least time from a click to a conversion is
  -- below the limit is not of low risk, where the rules ask for three conversions of a burst or more.
  pub detection_risk :
      3 ≤ rules.burst_conversion_threshold
      → let risk =
          calculate_risk_level
            (reasons_for_rollup browser rules r gap padding)
            r.conversion_count
            true in
        (if is_burst rules r
          then rank high
          else if has_short_gap rules gap
          then rank medium
          else rank low)
        ≤ rank risk.level
  unfolding calculate_risk_level
  detection_risk three =
      let rs = reasons_for_rollup browser rules r gap padding in
      let padded : ℕ = if exists_where is_click_padding rs then 25 else 0 in
      let short = gap_score rules gap (padding_reasons browser r padding) in
      elim (Bool-cases (is_burst rules r)) [
        | inl bursts ↦
            let points : 55 ≤ reasons_score rs = ground (arith, burst_score) in
            rw bursts (
              omega
                (arith, high_of (reasons_score rs) padded r.conversion_count points (ground arith)))
        | inr calm ↦ rw calm (elim (Bool-cases (has_short_gap rules gap)) [
          | inl close ↦
              let points : 50 ≤ reasons_score rs = ground (arith, burst_score, short) in
              rw close
                (medium_of (reasons_score rs) padded (count_score true r.conversion_count) points)
          | inr far ↦ rw far (omega arith)
        ])
      ]
