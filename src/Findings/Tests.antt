-- ===== src/Findings/Tests.antt =====
-- The findings at concrete inputs: the theorems where their hypotheses hold.
use fraudhunter.Common.{
  ◌≤◌, ◌≡◌, ◌↔◌, refl, true, false, none, some, [], ◌∷◌, arith, All, max, exists_where,
  if◌then◌else◌, String, Bool, length, count_where, Memᴰ, false,
}
use fraudhunter.Detection.Rules.{default_rules, is_burst, reasons_for_rollup}
use fraudhunter.Findings.Damage.{
  damage_of, accounted, conversions_in, is_fallback, program_observed, estimate_damage_snapshot,
}
use fraudhunter.Findings.Accounts.{IsPriced, estimate_damage_snapshot_lem}
use fraudhunter.Findings.Risk.{low, medium, high, calculate_risk_level}
use fraudhunter.Findings.Levels.{rank, has_short_gap, detection_risk}
use mathlib.Core.Option
use fraudhunter.Detection.Filters.{passes_filters}
use fraudhunter.Detection.Detector.{visitor_of}
use fraudhunter.Cases.Tables.{StoredFinding}
use fraudhunter.Cases.Store.{is_current_of, is_current_on}
use fraudhunter.Cases.Replace.{finding_of}
use fraudhunter.Cases.Reach.{no_cases}
use fraudhunter.Findings.Recompute.{finding_key, findings_on, recompute_date}
use fraudhunter.Findings.Stored.{is_stored_under, recompute_date_lem, recompute_short_gap}
use fraudhunter.Findings.Samples.{detail, prices, busy, at_once, library, run, quick, reads}

-- Four conversions at the price of their program, and two that no detail has at the default.
damage_is : (estimate_damage_snapshot 6 (detail ∷ []) prices).estimated_damage ≡ 8000
unfolding estimate_damage_snapshot
damage_is = refl

estimate_damage_snapshot_lem_example :
    let s = estimate_damage_snapshot 6 (detail ∷ []) prices in
    (s.estimated_damage ≡ damage_of s.evidence)
    × (accounted s.evidence ≡ max 6 (conversions_in (detail ∷ [])))
    × All (IsPriced prices) s.evidence
    × ((s.unit_price_source ≡ program_observed) ↔ (exists_where is_fallback s.evidence ≡ false))
estimate_damage_snapshot_lem_example = estimate_damage_snapshot_lem 6 (detail ∷ []) prices

abbrev browser : String → Bool
browser ua = true

detection_risk_example :
    let risk =
      calculate_risk_level
        (reasons_for_rollup browser default_rules busy (some at_once) none)
        busy.conversion_count
        true in
    (if is_burst default_rules busy
      then rank high
      else if has_short_gap default_rules (some at_once)
      then rank medium
      else rank low)
    ≤ rank risk.level
detection_risk_example = detection_risk browser default_rules busy (some at_once) none (omega arith)

recompute_date_lem_example :
    let (count, after) = recompute_date library run reads 3 no_cases in
    let found = findings_on library run reads 3 in
    (count ≡ length found)
    × ((k : String)
        → Option.map (is_current_on 3) (finding_of k after.findings) ≡ (
            if exists_where (is_stored_under library run reads 3 k) found
            then some true
            else Option.map (λ _. false) (finding_of k no_cases.findings)))
    × (count_where (is_current_of "conversion" 3) after.generations ≡ 1)
recompute_date_lem_example = recompute_date_lem library run reads 3 no_cases

recompute_short_gap_example :
    (f : StoredFinding) × (finding_of
        (finding_key library run 3 (visitor_of quick))
        (recompute_date library run reads 3 no_cases).1.findings
      ≡ some f)
    × (is_current_on 3 f ≡ true)
unfolding passes_filters
recompute_short_gap_example =
    recompute_short_gap library run reads 3 quick at_once no_cases (Memᴰ.head refl) refl refl refl
      refl
