-- ===== src/Cases/Tables.antt =====
-- The tables of the alert cases, `db/models.py`. A column of JSON is its text; times are microseconds and
-- dates are days.
use fraudhunter.Common.Int.{ℤ}
use fraudhunter.Common.{ℕ, String, Bool, true, false, Option, List, get_or}

-- `SuspiciousConversionFindingRecord`
pub record StoredFinding : Type 0 where
  pub finding_key : String
  pub case_key : Option String
  pub date : ℕ
  pub ipaddress : String
  pub useragent : String
  pub ua_hash : String
  pub media_ids_json : Option String
  pub program_ids_json : Option String
  pub media_names_json : Option String
  pub program_names_json : Option String
  pub affiliate_ids_json : Option String
  pub affiliate_names_json : Option String
  pub risk_level : String
  pub risk_score : ℕ
  pub reasons_json : String
  pub reasons_formatted_json : String
  pub metrics_json : String
  pub total_conversions : ℕ
  pub media_count : ℕ
  pub program_count : ℕ
  pub min_click_to_conv_seconds : Option ℤ
  pub max_click_to_conv_seconds : Option ℤ
  pub first_time : ℕ
  pub last_time : ℕ
  pub rule_version : String
  pub computed_at : ℕ
  pub computed_by_job_id : Option String
  pub settings_updated_at_snapshot : Option ℕ
  pub source_click_watermark : Option ℕ
  pub source_conversion_watermark : Option ℕ
  pub estimated_damage_yen : Option ℕ
  pub damage_unit_price_source : Option String
  pub damage_evidence_json : Option String
  pub generation_id : Option String
  pub is_current : Bool
  pub search_text : String

-- `COALESCE(case_key, finding_key)`
abbrev pub case_key_of : StoredFinding → String
case_key_of f = get_or f.case_key f.finding_key

-- `FindingsGeneration`
pub record Generation : Type 0 where
  pub id : String
  pub generation_id : String
  pub finding_type : String
  pub target_date : ℕ
  pub computed_by_job_id : Option String
  pub settings_version_id : Option String
  pub settings_fingerprint : String
  pub detector_code_version : String
  pub source_click_watermark : Option ℕ
  pub source_conversion_watermark : Option ℕ
  pub row_count : ℕ
  pub is_current : Bool
  pub created_at : ℕ

-- The values of `review_status`, `ALERT_REVIEW_STATUSES`.
pub data ReviewStatus : Type 0 where
  unhandled investigating confirmed_fraud white : ReviewStatus

-- `FraudAlertReviewState`
pub record ReviewState : Type 0 where
  pub case_key : String
  pub review_status : ReviewStatus
  pub reason : String
  pub reviewed_by : String
  pub source_surface : String
  pub request_id : String
  pub finding_key_at_review : Option String
  pub reviewed_at : ℕ
  pub updated_at : ℕ

-- `FraudAlertReviewEvent`
pub record ReviewEvent : Type 0 where
  pub id : String
  pub case_key : String
  pub finding_key_at_review : Option String
  pub review_status : ReviewStatus
  pub reason : String
  pub reviewed_by : String
  pub source_surface : String
  pub request_id : String
  pub reviewed_at : ℕ

-- `FraudAlertCaseAssignment`
pub record Assignment : Type 0 where
  pub case_key : String
  pub assignee_user_id : String
  pub assigned_by : String
  pub assigned_at : ℕ
  pub updated_at : ℕ

-- The values of `task_type`.
pub data TaskType : Type 0 where
  payout_hold partner_notice evidence_preservation : TaskType

-- The values of `task_status`.
pub data TaskStatus : Type 0 where
  «open» completed cancelled : TaskStatus

abbrev pub is_completed : TaskStatus → Bool
is_completed completed = true
is_completed _ = false

-- `FraudAlertFollowUpTask`
pub record Task : Type 0 where
  pub id : String
  pub case_key : String
  pub task_type : TaskType
  pub label : String
  pub task_status : TaskStatus
  pub created_by : String
  pub created_at : ℕ
  pub due_at : Option ℕ
  pub completed_by : Option String
  pub completed_at : Option ℕ

-- The tables together.
pub record Cases : Type 0 where
  pub findings : List StoredFinding
  pub generations : List Generation
  pub review_states : List ReviewState
  pub review_events : List ReviewEvent
  pub assignments : List Assignment
  pub tasks : List Task
