-- ===== src/Console/Tests.antt =====
-- The console at concrete times: the theorems where their hypotheses hold.
use fraudhunter.Common.{
  ℕ, String, Option, true, not, [], ◌∷◌, arith, exists_where, if◌then◌else◌, ◌+◌, ◌-◌, ◌*◌, ◌≤◌,
  ◌≡◌, refl, some, none, Bool, false, ◌&&◌, str_eq, length, take, drop, ◌++◌, ltb, count_where,
}
use fraudhunter.Common.Time.{hours, days}
use fraudhunter.Access.Decisions.{ConsoleAccessContext}
use fraudhunter.Console.Schedules.{
  minutes, next_every_six_hours_run, six_hours_loop, build_schedule_metadata,
}
use fraudhunter.Console.Upcoming.{cadence, Follows, build_schedule_metadata-Follows}
use fraudhunter.Common.Result.{ok}
use fraudhunter.Cases.Tables.{case_key_of, confirmed_fraud, Cases}
use fraudhunter.Cases.Store.{is_present, present_keys, is_in, is_matched}
use fraudhunter.Cases.Reviews.{status_of, is_reviewed}
use fraudhunter.Console.Actions.{ReviewOutcome, apply_review_action}
use fraudhunter.Console.Answers.{answers_to, apply_review_action_lem}
use fraudhunter.Common.Int.{pos}
use fraudhunter.Cases.Tables.{StoredFinding}
use fraudhunter.Cases.Reach.{no_cases}
use fraudhunter.Console.Alerts.{
  Searching, Filters, windowed, fetch_alert_rows, is_selected, count_alert_rows, list_alerts,
}
use fraudhunter.Console.Pages.{list_alerts_lem}

-- On day 9 at 18:15, the backfill has just run.
six_hours_is :
    next_every_six_hours_run 7 (days 9 + hours 18 + minutes 15) 15 ≡ some (days 10 + minutes 15)
unfolding six_hours_loop
six_hours_is = refl

build_schedule_metadata-Follows_example :
    Follows
      (days 9 + hours 18 + minutes 15)
      (build_schedule_metadata 7 (days 9 + hours 18 + minutes 15))
      cadence
build_schedule_metadata-Follows_example =
    build_schedule_metadata-Follows (days 9 + hours 18 + minutes 15)

abbrev searching : Searching
searching = record {
  strip = λ s. s;
  lower = λ s. s;
  like = λ text part. str_eq text part;
  key_before = λ a b. false;
}

abbrev open_alerts : Filters
open_alerts = record {
  start_date = some 7;
  end_date = none;
  risk_level = some "high";
  search = none;
  status = some "unhandled";
}

abbrev found : StoredFinding
found = record {
  finding_key = "f1";
  case_key = some "c1";
  date = 7;
  ipaddress = "i";
  useragent = "ua";
  ua_hash = "h";
  media_ids_json = none;
  program_ids_json = none;
  media_names_json = none;
  program_names_json = none;
  affiliate_ids_json = none;
  affiliate_names_json = none;
  risk_level = "high";
  risk_score = 90;
  reasons_json = "[]";
  reasons_formatted_json = "[]";
  metrics_json = "{}";
  total_conversions = 6;
  media_count = 1;
  program_count = 1;
  min_click_to_conv_seconds = none;
  max_click_to_conv_seconds = none;
  first_time = 700;
  last_time = 800;
  rule_version = "v1";
  computed_at = 900;
  computed_by_job_id = none;
  settings_updated_at_snapshot = none;
  source_click_watermark = none;
  source_conversion_watermark = none;
  estimated_damage_yen = some 18000;
  damage_unit_price_source = some "fallback_default";
  damage_evidence_json = none;
  generation_id = some "g1";
  is_current = true;
  search_text = "i ua";
}

-- The tables with one finding.
abbrev stored : Cases
stored = record no_cases { findings = found ∷ [] }

list_alerts_lem_example :
    let l = list_alerts searching stored open_alerts "risk_desc" (pos 2) (pos 0) in
    let resolved = windowed open_alerts in
    let all = fetch_alert_rows searching stored resolved "risk_desc" in
    let offset = (l.page - 1) * l.page_size in
    (l.total ≡ length all)
    × ((q : StoredFinding → Bool)
        → count_where q all
          ≡ count_where (λ f. is_selected searching stored resolved f && q f) stored.findings)
    × (all ≡ take offset all ++ (l.items ++ drop (offset + l.page_size) all))
    × (length l.items ≤ l.page_size)
    × (l.has_next ≡ ltb 0 (length (drop (offset + l.page_size) all)))
    × (1 ≤ l.page_size)
    × (l.page_size ≤ 200)
    × (l.unhandled_count + l.investigating_count + l.confirmed_fraud_count + l.white_count
        ≡ count_alert_rows searching stored (record resolved { status = none }))
list_alerts_lem_example = list_alerts_lem searching stored open_alerts "risk_desc" (pos 2) (pos 0)

abbrev id_of : ℕ → String
id_of n = "id"

abbrev length_of : String → ℕ
length_of text = 5

abbrev no_date : String → Option ℕ
no_date text = none

abbrev viewer : ConsoleAccessContext
viewer = record {
  user_id = "u1";
  email = "u1@example.com";
  request_id = "r1";
  token_source = "console_proxy";
}

-- Of two keys that are asked for, one is missing.
apply_review_action_lem_example :
    (o : ReviewOutcome) × (after : Cases) × (apply_review_action searching length_of no_date id_of
        id_of 1000
        (some viewer)
        ("c1" ∷ "c9" ∷ [])
        "confirmed_fraud"
        (some "burst")
        none
        stored
      ≡ ok (o, after))
    × (o.updated_count
        ≡ count_where
            (λ f. is_matched (present_keys ("c1" ∷ "c9" ∷ [])) f && is_present (case_key_of f))
            stored.findings)
    × ((k : String)
        → (is_in o.missing_keys k ≡ (
            is_in (present_keys ("c1" ∷ "c9" ∷ [])) k
            && not (exists_where (answers_to k) stored.findings)))
          × (status_of k after.review_states ≡ (
              if is_reviewed ("c1" ∷ "c9" ∷ []) k stored.findings
              then some confirmed_fraud
              else status_of k stored.review_states)))
apply_review_action_lem_example =
    apply_review_action_lem searching length_of no_date id_of id_of 1000 (some viewer)
      ("c1" ∷ "c9" ∷ []) "confirmed_fraud" confirmed_fraud (some "burst") none stored refl refl
      (omega arith) refl
