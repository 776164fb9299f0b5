-- ===== src/Cases/Tests.antt =====
-- The alert cases at concrete tables: the theorems at inputs that meet their hypotheses.
use fraudhunter.Common.{
  ℕ, String, true, false, ◌&&◌, some, none, [], ◌∷◌, ◌≡◌, refl, str_eq, if◌then◌else◌, count_where,
  exists_where, has, or_else, last_where,
}
use mathlib.Core.Option
use fraudhunter.Common.Result.{ok, err}
use fraudhunter.Cases.Tables.{
  StoredFinding, case_key_of, Generation, confirmed_fraud, TaskType, payout_hold, «open», completed,
  Cases,
}
use fraudhunter.Cases.Store.{
  Review, present_keys, is_present, is_matched, apply_alert_reviews, update_followup_task_status,
  is_current_of, is_current_on, replace_conversion_findings, sync_followup_tasks,
}
use fraudhunter.Cases.Followups.{task_status_of, followed_up}
use fraudhunter.Cases.Reviews.{status_of, is_reviewed, apply_alert_reviews_lem}
use fraudhunter.Cases.Replace.{finding_of, retired, is_for, replace_conversion_findings_lem}
use fraudhunter.Cases.Invariant.{IsConsistent}
use fraudhunter.Cases.Reach.{
  no_cases, empty, next, replaces, reviews, updates_task, reached-IsConsistent,
}

abbrev found : StoredFinding
found = record {
  finding_key = "f1";
  case_key = some "c1";
  date = 7;
  ipaddress = "i";
  useragent = "ua";
  ua_hash = "h";
  media_ids_json = none;
  program_ids_json = none;
  media_names_json = none;
  program_names_json = none;
  affiliate_ids_json = none;
  affiliate_names_json = none;
  risk_level = "high";
  risk_score = 90;
  reasons_json = "[]";
  reasons_formatted_json = "[]";
  metrics_json = "{}";
  total_conversions = 6;
  media_count = 1;
  program_count = 1;
  min_click_to_conv_seconds = none;
  max_click_to_conv_seconds = none;
  first_time = 700;
  last_time = 800;
  rule_version = "v1";
  computed_at = 900;
  computed_by_job_id = none;
  settings_updated_at_snapshot = none;
  source_click_watermark = none;
  source_conversion_watermark = none;
  estimated_damage_yen = some 18000;
  damage_unit_price_source = some "fallback_default";
  damage_evidence_json = none;
  generation_id = some "g1";
  is_current = true;
  search_text = "i ua";
}

abbrev other : StoredFinding
other = record found { finding_key = "f2"; case_key = some "c2" }

abbrev metadata : Generation
metadata = record {
  id = "fg-1";
  generation_id = "g1";
  finding_type = "conversion";
  target_date = 7;
  computed_by_job_id = none;
  settings_version_id = none;
  settings_fingerprint = "fp";
  detector_code_version = "d1";
  source_click_watermark = none;
  source_conversion_watermark = none;
  row_count = 2;
  is_current = true;
  created_at = 900;
}

abbrev computed : Cases
computed = replace_conversion_findings 7 (found ∷ other ∷ []) metadata no_cases

abbrev fraud : Review
fraud = record {
  status = confirmed_fraud;
  updated_at = 1000;
  reason = "burst";
  reviewed_by = "u1";
  source_surface = "console";
  request_id = "r1";
}

abbrev id_of : ℕ → String
id_of n = "id"

-- The tables after the review of one case as fraud.
abbrev reviewed : Cases
reviewed = elim (apply_alert_reviews id_of id_of ("c1" ∷ []) fraud computed) [
  | ok r ↦ r.1
  | err e ↦ computed
]

opens_tasks :
    (task_status_of "c1" payout_hold reviewed.tasks ≡ some «open»)
    × (task_status_of "c2" payout_hold reviewed.tasks ≡ none)
unfolding apply_alert_reviews replace_conversion_findings sync_followup_tasks
opens_tasks = (refl, refl)

apply_alert_reviews_lem_example :
    (n : ℕ) × (after : Cases) × (apply_alert_reviews id_of id_of ("c1" ∷ []) fraud computed
      ≡ ok (n, after))
    × (n
        ≡ count_where
            (λ f. is_matched (present_keys ("c1" ∷ [])) f && is_present (case_key_of f))
            computed.findings)
    × ((k : String) (ty : TaskType)
        → let touched = is_reviewed ("c1" ∷ []) k computed.findings in
          (status_of k after.review_states
            ≡ (if touched then some confirmed_fraud else status_of k computed.review_states))
          × (task_status_of k ty after.tasks ≡ (
              if touched
              then followed_up confirmed_fraud (task_status_of k ty computed.tasks)
              else task_status_of k ty computed.tasks)))
apply_alert_reviews_lem_example =
    apply_alert_reviews_lem id_of id_of ("c1" ∷ []) fraud computed refl

replace_conversion_findings_lem_example :
    let after = replace_conversion_findings 7 (other ∷ []) metadata computed in
    ((k : String)
      → (finding_of k after.findings
          ≡ or_else
              (last_where (has StoredFinding.finding_key str_eq k) (other ∷ []))
              (Option.map (retired 7) (finding_of k computed.findings)))
        × (Option.map (is_current_on 7) (finding_of k after.findings) ≡ (
            if exists_where (has StoredFinding.finding_key str_eq k) (other ∷ [])
            then some true
            else Option.map (λ _. false) (finding_of k computed.findings))))
    × ((ty : String) (d : ℕ)
        → count_where (is_current_of ty d) after.generations ≡ (
            if is_for metadata ty d
            then 1
            else count_where (is_current_of ty d) computed.generations))
replace_conversion_findings_lem_example =
    replace_conversion_findings_lem 7 (other ∷ []) metadata computed (refl, tt)

review_returns : apply_alert_reviews id_of id_of ("c1" ∷ []) fraud computed ≡ ok (1, reviewed)
unfolding apply_alert_reviews replace_conversion_findings
review_returns = refl

reached-IsConsistent_example :
    IsConsistent (update_followup_task_status "id" completed "u1" 1100 reviewed).1
reached-IsConsistent_example = reached-IsConsistent (
    next
      (next (next empty (replaces 7 (found ∷ other ∷ []) metadata refl))
        (reviews id_of id_of ("c1" ∷ []) fraud 1 review_returns))
      (updates_task "id" completed "u1" 1100 refl))
