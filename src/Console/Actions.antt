-- ===== src/Console/Actions.antt =====
-- The review actions of `services/console.py`, which the routes of the console call.
use Prim.Native.String.{◌++◌ as str_append}
use Prim.Native.String.{compare as text_compare}
use Prim.Native.Nat.{Ordering}
use fraudhunter.Common.{
  ℕ, String, Bool, true, false, not, ◌&&◌, ◌||◌, Option, none, some, List, [], ◌∷◌, str_eq, ltb,
  if◌then◌else◌, length, map, exists_where, select_where, delete_where, order_by,
}
use fraudhunter.Common.Result.{Result, ok, err, value_error, ◌>>=◌}
use fraudhunter.Cases.Tables.{
  StoredFinding, case_key_of, ReviewStatus, unhandled, investigating, confirmed_fraud, white,
  «open», completed, Task, Cases,
}
use fraudhunter.Cases.Store.{
  is_present, present_keys, is_in, is_matched, distinct, Review, apply_alert_reviews,
  assign_alert_cases, update_followup_task_status,
}
use fraudhunter.Access.Decisions.{ConsoleAccessContext}
use fraudhunter.Console.Alerts.{Searching, fetch_alert_rows}

-- `status in ALERT_REVIEW_STATUSES`
abbrev pub parse_status : String → Option ReviewStatus
parse_status s =
    if str_eq s "unhandled"
    then some unhandled
    else if str_eq s "investigating"
    then some investigating
    else if str_eq s "confirmed_fraud"
    then some confirmed_fraud
    else if str_eq s "white"
    then some white
    else none

-- The order of Python's texts.
abbrev pub text_before : String → String → Bool
text_before a b = elim (text_compare a b) [ Ordering.lt ↦ true | _ ↦ false ]

-- `sorted(set(keys))`
abbrev pub sorted_keys : List String → List String
sorted_keys keys = order_by text_before (distinct keys)

-- `filters`, the dict of a request
pub record Selection : Type 0 where
  pub start_date : Option String
  pub end_date : Option String
  pub risk_level : Option String
  pub search : Option String
  pub status : Option String
  pub sort : Option String

pub record ReviewOutcome : Type 0 where
  pub requested_count : ℕ
  pub matched_current_count : ℕ
  pub updated_count : ℕ
  pub missing_keys : List String
  pub status : ReviewStatus

-- `_fetch_matching_case_keys`: the case keys of the current findings that match, and the keys that they match.
abbrev pub matched_case_keys : List String → Cases → List String
matched_case_keys keys c = distinct (
    present_keys (
      map (λ f. if is_present (case_key_of f) then case_key_of f else f.finding_key)
        (select_where (is_matched keys) c.findings)))

-- The finding is the one of the key, or of the case of the key.
abbrev pub is_under : String → StoredFinding → Bool
is_under k f =
    let case_key = if is_present (case_key_of f) then case_key_of f else f.finding_key in
    (is_present case_key && str_eq case_key k) || str_eq f.finding_key k

abbrev pub is_matched_input : List String → Cases → String → Bool
is_matched_input keys c k =
    is_in keys k && exists_where (is_under k) (select_where (is_matched keys) c.findings)

abbrev pub review_of :
    ReviewStatus → (now : ℕ) → (reason : String) → Option ConsoleAccessContext → Review
review_of status now reason none = record {
  status = status;
  updated_at = now;
  reason = reason;
  reviewed_by = "system";
  source_surface = "console";
  request_id = "system-request";
}
review_of status now reason (some context) = record {
  status = status;
  updated_at = now;
  reason = reason;
  reviewed_by = context.user_id;
  source_surface = "console";
  request_id = context.request_id;
}

-- The rest of the function, for keys that are resolved.
abbrev pub review_keys :
    (event_ids task_ids : ℕ → String) (keys : List String)
    → Review
    → Cases
    → Result (ReviewOutcome × Cases)
review_keys event_ids task_ids [] review c = ok (
  record {
    requested_count = 0;
    matched_current_count = 0;
    updated_count = 0;
    missing_keys = [];
    status = review.status;
  },
  c,
)
review_keys event_ids task_ids (k ∷ ks) review c = do
  (updated, after) ← apply_alert_reviews event_ids task_ids (k ∷ ks) review c
  ok (
    record {
      requested_count = length (k ∷ ks);
      matched_current_count = length (matched_case_keys (k ∷ ks) c);
      updated_count = updated;
      missing_keys = delete_where (is_matched_input (k ∷ ks) c) (k ∷ ks);
      status = review.status;
    },
    after,
  )

-- `len(text)`, and `parse_iso_date`, which raises a `ValueError` on other texts.
module _ (s : Searching) (text_length : String → ℕ) (parse_iso_date : String → Option ℕ) where
  -- `(value or "").strip()`
  abbrev pub stripped : Option String → String
  stripped none = s.strip ""
  stripped (some text) = s.strip text

  -- `(value or default).strip() or default`
  abbrev pub stripped_or : Option String → (default : String) → String
  stripped_or none default = default
  stripped_or (some text) default =
      if is_present text && is_present (s.strip text) then s.strip text else default

  -- `… or None`, and the date that is parsed of it for the query
  abbrev pub date_given : Option String → Result (Option ℕ)
  date_given value =
      if is_present (stripped value)
      then elim (parse_iso_date (stripped value)) [
        | none ↦ err (value_error "Invalid isoformat string")
        | some d ↦ ok (some d)
      ]
      else ok none

  -- The keys of the alerts that the filters select.
  abbrev pub filtered_keys : Selection → Cases → Result (List String)
  filtered_keys filters c = do
    start ← date_given filters.start_date
    last ← date_given filters.end_date
    ok (
        sorted_keys (
          map (λ f. if is_present (case_key_of f) then case_key_of f else f.finding_key)
            (fetch_alert_rows s c
              (record {
                start_date = start;
                end_date = last;
                risk_level = some (stripped filters.risk_level);
                search = some (stripped filters.search);
                status = some (stripped_or filters.status "unhandled");
              })
              (stripped_or filters.sort "risk_desc"))))

  -- `_resolve_review_case_keys`; a request without filters has none or an empty dict.
  abbrev pub keys_or_filtered : List String → Option Selection → Cases → Result (List String)
  keys_or_filtered (k ∷ ks) filters c = ok (k ∷ ks)
  keys_or_filtered [] none c = ok []
  keys_or_filtered [] (some filters) c = filtered_keys filters c

  abbrev pub resolve_review_case_keys :
      List String → Option Selection → Cases → Result (List String)
  resolve_review_case_keys finding_keys filters c =
      keys_or_filtered (sorted_keys (present_keys finding_keys)) filters c

  -- The checks of the reason, `normalized_reason`
  abbrev pub check_reason : (reason : String) → Result String
  check_reason reason =
      if not (is_present reason)
      then err (value_error "Review reason is required")
      else if ltb 500 (text_length reason)
      then err (value_error "Review reason must be 500 characters or fewer")
      else ok reason

  -- The review, where the status is known.
  abbrev pub review_as :
      (event_ids task_ids : ℕ → String) (now : ℕ)
      → Option ConsoleAccessContext
      → (finding_keys : List String) → (status : String) → (reason : Option String)
      → Option Selection
      → Option ReviewStatus
      → Cases
      → Result (ReviewOutcome × Cases)
  review_as event_ids task_ids now context finding_keys status reason filters none c =
      err (value_error (str_append "Unsupported review status: " status))
  review_as event_ids task_ids now context finding_keys status reason filters (some st) c = do
    text ← check_reason (stripped reason)
    keys ← resolve_review_case_keys finding_keys filters c
    review_keys event_ids task_ids keys (review_of st now text context) c

  -- `apply_review_action`
  unfoldable pub apply_review_action :
      (event_ids task_ids : ℕ → String) (now : ℕ)
      → Option ConsoleAccessContext
      → (finding_keys : List String) → (status : String) → (reason : Option String)
      → Option Selection
      → Cases
      → Result (ReviewOutcome × Cases)
  apply_review_action event_ids task_ids now context finding_keys status reason filters c =
      review_as event_ids task_ids now context finding_keys status reason filters
        (parse_status status) c

-- `assign_alert_cases`
unfoldable pub assign_cases :
    (now : ℕ)
    → ConsoleAccessContext
    → (finding_keys : List String) → (action : String) → Cases
    → Result (ℕ × Cases)
assign_cases now context finding_keys action c =
    let keys = sorted_keys (present_keys finding_keys) in
    elim keys [
      | [] ↦ ok (0, c)
      | k ∷ ks ↦
          if str_eq action "claim"
          then ok (assign_alert_cases (k ∷ ks) (some context.user_id) context.user_id now c)
          else if str_eq action "release"
          then ok (assign_alert_cases (k ∷ ks) none context.user_id now c)
          else err (value_error (str_append "Unsupported assignment action: " action))
    ]

-- `update_followup_task_status`
abbrev pub updated_task : Option Task × Cases → Result (Task × Cases)
updated_task (none, c) = err (value_error "Follow-up task not found")
updated_task (some task, c) = ok (task, c)

unfoldable pub update_task :
    (now : ℕ) → ConsoleAccessContext → (task_id status : String) → Cases → Result (Task × Cases)
update_task now context task_id status c =
    if str_eq status "open"
    then updated_task (update_followup_task_status task_id «open» context.user_id now c)
    else if str_eq status "completed"
    then updated_task (update_followup_task_status task_id completed context.user_id now c)
    else err (value_error (str_append "Unsupported follow-up status: " status))
