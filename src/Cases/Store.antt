-- ===== src/Cases/Store.antt =====
-- `SuspiciousFindingsWriteRepository` on a migrated database, where all tables and columns exist. An
-- `executemany` is its statement once for each row, in order; `uuid.uuid4().hex[:12]` is the next of the
-- identifiers that a call is given.
use fraudhunter.Common.{
  ℕ, suc, ◌+◌, String, Bool, true, false, not, ◌&&◌, ◌||◌, Option, none, some, List, [], ◌∷◌, ◌++◌,
  str_eq, ◌==◌, if◌then◌else◌, ltb, length, map, count_where, exists_where, find_where,
  select_where, update_where, delete_where, upsert_all,
}
use fraudhunter.Common.Result.{Result, ok, err, other_error}
use fraudhunter.Common.Time.{hours}
use fraudhunter.Cases.Tables.{
  StoredFinding, case_key_of, Generation, ReviewStatus, unhandled, investigating, confirmed_fraud,
  white, ReviewState, ReviewEvent, Assignment, TaskType, payout_hold, partner_notice,
  evidence_preservation, TaskStatus, «open», cancelled, is_completed, Task, Cases,
}

-- The values that are not empty; a list of keys is sorted and cleared of repetitions too, which `IN` does
-- not see.
abbrev pub is_present : String → Bool
is_present s = not (str_eq s "")

abbrev pub present_keys : List String → List String
present_keys = select_where is_present

-- `key IN (keys)`
abbrev pub is_in : List String → String → Bool
is_in keys key = exists_where (str_eq key) keys

-- `is_current = TRUE AND (finding_key IN (…) OR COALESCE(case_key, finding_key) IN (…))`
abbrev pub is_matched : List String → StoredFinding → Bool
is_matched keys f = f.is_current && (is_in keys f.finding_key || is_in keys (case_key_of f))

-- The arguments of a review.
pub record Review : Type 0 where
  pub status : ReviewStatus
  pub updated_at : ℕ
  pub reason : String
  pub reviewed_by : String
  pub source_surface : String
  pub request_id : String

-- `payload_rows`, of the matched rows
abbrev pub payload_rows : (ids : ℕ → String) → ℕ → Review → List StoredFinding → List ReviewEvent
payload_rows ids n review [] = []
payload_rows ids n review (f ∷ fs) =
    if is_present (case_key_of f)
    then record {
      id = ids n;
      case_key = case_key_of f;
      finding_key_at_review = some f.finding_key;
      review_status = review.status;
      reason = review.reason;
      reviewed_by = review.reviewed_by;
      source_surface = review.source_surface;
      request_id = review.request_id;
      reviewed_at = review.updated_at;
    }
      ∷ payload_rows ids (suc n) review fs
    else payload_rows ids n review fs

abbrev pub state_of : ReviewEvent → ReviewState
state_of e = record {
  case_key = e.case_key;
  review_status = e.review_status;
  reason = e.reason;
  reviewed_by = e.reviewed_by;
  source_surface = e.source_surface;
  request_id = e.request_id;
  finding_key_at_review = e.finding_key_at_review;
  reviewed_at = e.reviewed_at;
  updated_at = e.reviewed_at;
}

-- `state_statement`, for each row: all columns but the key are replaced.
abbrev pub save_states : List ReviewEvent → List ReviewState → List ReviewState
save_states rows =
    upsert_all ReviewState.case_key str_eq (λ row old. record row { case_key = old.case_key })
      (map state_of rows)

-- `FOLLOW_UP_TASK_DEFINITIONS`
abbrev pub task_label : TaskType → String
task_label payout_hold = "支払保留を実施"
task_label partner_notice = "関係者へ通知"
task_label evidence_preservation = "証跡を保全"

-- `FOLLOW_UP_TASK_DUE_HOURS`
abbrev pub due_hours : TaskType → ℕ
due_hours payout_hold = 1
due_hours partner_notice = 4
due_hours evidence_preservation = 24

abbrev pub same_type : TaskType → TaskType → Bool
same_type payout_hold payout_hold = true
same_type partner_notice partner_notice = true
same_type evidence_preservation evidence_preservation = true
same_type _ _ = false

-- `UniqueConstraint("case_key", "task_type")`
abbrev pub task_key : Task → String × TaskType
task_key t = (t.case_key, t.task_type)

abbrev pub same_task : String × TaskType → String × TaskType → Bool
same_task (k, ty) (k', ty') = str_eq k k' && same_type ty ty'

-- `CASE WHEN task_status = 'completed' THEN task_status ELSE … END`
abbrev pub unless_completed : TaskStatus → TaskStatus → TaskStatus
unless_completed other status = if is_completed status then status else other

abbrev pub new_task :
    (id case_key : String) → TaskType → (created_by : String) (created_at : ℕ) → Task
new_task id case_key ty created_by created_at = record {
  id = id;
  case_key = case_key;
  task_type = ty;
  label = task_label ty;
  task_status = «open»;
  created_by = created_by;
  created_at = created_at;
  due_at = some (created_at + hours (due_hours ty));
  completed_by = none;
  completed_at = none;
}

-- The rows for each case and each definition of a task.
abbrev pub new_tasks :
    (ids : ℕ → String) → ℕ → (created_by : String) (created_at : ℕ) → List ReviewEvent → List Task
new_tasks ids n by at [] = []
new_tasks ids n by at (e ∷ es) =
    new_task (ids n) e.case_key payout_hold by at
    ∷ new_task (ids (1 + n)) e.case_key partner_notice by at
    ∷ new_task (ids (2 + n)) e.case_key evidence_preservation by at
    ∷ new_tasks ids (3 + n) by at es

-- The statement for each row: a task that exists is due anew, and open again unless it is completed.
abbrev pub reopened : Task → Task → Task
reopened row old = record old {
  label = row.label;
  due_at = row.due_at;
  task_status = unless_completed «open» old.task_status;
}

abbrev pub open_tasks : List Task → List Task → List Task
open_tasks = upsert_all task_key same_task reopened

-- The rows are of the case.
abbrev pub is_case_event : String → ReviewEvent → Bool
is_case_event k e = str_eq e.case_key k

-- `UPDATE … WHERE case_key IN (…)`
abbrev pub cancel_tasks : List ReviewEvent → List Task → List Task
cancel_tasks rows =
    update_where (λ t. exists_where (is_case_event t.case_key) rows)
      (λ t. record t { task_status = unless_completed cancelled t.task_status })

-- `_sync_followup_tasks`
unfoldable pub sync_followup_tasks :
    (ids : ℕ → String)
    → List ReviewEvent
    → ReviewStatus
    → (created_by : String) (created_at : ℕ) → List Task
    → List Task
sync_followup_tasks ids rows confirmed_fraud by at t = open_tasks (new_tasks ids 0 by at rows) t
sync_followup_tasks ids rows white by at t = cancel_tasks rows t
sync_followup_tasks ids rows unhandled by at t = cancel_tasks rows t
sync_followup_tasks ids rows investigating by at t = t

-- The statements for the payload, if there is any.
abbrev pub save_reviews : (task_ids : ℕ → String) → Review → List ReviewEvent → Cases → Cases
save_reviews task_ids review [] c = c
save_reviews task_ids review (e ∷ es) c = record c {
  review_states = save_states (e ∷ es) c.review_states;
  review_events = c.review_events ++ e ∷ es;
  tasks =
      sync_followup_tasks task_ids (e ∷ es) review.status review.reviewed_by review.updated_at
        c.tasks;
}

-- The statements, of keys that are not empty. Without any, `IN ()` is a syntax error of the database.
abbrev pub review_matched :
    (event_ids task_ids : ℕ → String) → (keys : List String) → Review → Cases → Result (ℕ × Cases)
review_matched event_ids task_ids [] review c = err (other_error "syntax error at or near \")\"")
review_matched event_ids task_ids (key ∷ keys) review c =
    let rows =
      payload_rows event_ids 0 review (select_where (is_matched (key ∷ keys)) c.findings) in
    ok (length rows, save_reviews task_ids review rows c)

-- `apply_alert_reviews`
unfoldable pub apply_alert_reviews :
    (event_ids task_ids : ℕ → String) → List String → Review → Cases → Result (ℕ × Cases)
apply_alert_reviews event_ids task_ids [] review c = ok (0, c)
apply_alert_reviews event_ids task_ids (k ∷ ks) review c =
    review_matched event_ids task_ids (present_keys (k ∷ ks)) review c

-- `SELECT DISTINCT`
abbrev pub distinct : List String → List String
distinct [] = []
distinct (k ∷ ks) = let rest = distinct ks in if is_in rest k then rest else k ∷ rest

-- `resolved_case_keys`
abbrev pub resolved_case_keys : List String → List StoredFinding → List String
resolved_case_keys keys fs =
    present_keys (distinct (map case_key_of (select_where (is_matched keys) fs)))

abbrev pub assignment : (user by : String) (at : ℕ) → (case_key : String) → Assignment
assignment user by at k = record {
  case_key = k;
  assignee_user_id = user;
  assigned_by = by;
  assigned_at = at;
  updated_at = at;
}

-- The upsert for each case.
abbrev pub save_assignments :
    (user by : String) (at : ℕ) → List String → List Assignment → List Assignment
save_assignments user by at cases =
    upsert_all Assignment.case_key str_eq (λ row old. record row { case_key = old.case_key })
      (map (assignment user by at) cases)

-- `if not assignee_user_id`
abbrev pub assignee_of : Option String → Option String
assignee_of none = none
assignee_of (some user) = if is_present user then some user else none

-- The statements for the cases that are found: without a user the assignments are deleted.
abbrev pub assign_resolved :
    (cases : List String) (user : Option String) (by : String) (at : ℕ) → Cases → ℕ × Cases
assign_resolved [] user by at c = (0, c)
assign_resolved (k ∷ ks) none by at c = (
  length (k ∷ ks),
  record c { assignments = delete_where (λ a. is_in (k ∷ ks) a.case_key) c.assignments },
)
assign_resolved (k ∷ ks) (some user) by at c =
    (length (k ∷ ks), record c { assignments = save_assignments user by at (k ∷ ks) c.assignments })

-- `assign_alert_cases`. Without keys nothing is matched, so that early return is the one for no case.
unfoldable pub assign_alert_cases :
    List String
    → (assignee_user_id : Option String) (assigned_by : String) (assigned_at : ℕ) → Cases
    → ℕ × Cases
assign_alert_cases inputs assignee by at c =
    assign_resolved (resolved_case_keys (present_keys inputs) c.findings) (assignee_of assignee) by
      at c

abbrev pub has_task_id : String → Task → Bool
has_task_id id t = str_eq t.id id

-- The columns that the update sets.
abbrev pub finish : TaskStatus → (by : String) (at : ℕ) → Task → Task
finish status by at t = record t {
  task_status = status;
  completed_by = if is_completed status then some by else none;
  completed_at = if is_completed status then some at else none;
}

-- `UPDATE … WHERE id = …`
abbrev pub set_task : (id : String) → TaskStatus → (by : String) (at : ℕ) → List Task → List Task
set_task id status by at = update_where (has_task_id id) (finish status by at)

-- `update_followup_task_status`
unfoldable pub update_followup_task_status :
    (task_id : String)
    → TaskStatus
    → (updated_by : String) (updated_at : ℕ) → Cases
    → Option Task × Cases
update_followup_task_status id status by at c =
    let tasks = set_task id status by at c.tasks in
    if is_present id
    then (find_where (has_task_id id) tasks, record c { tasks = tasks })
    else (none, c)

abbrev pub is_current_of : (finding_type : String) (date : ℕ) → Generation → Bool
is_current_of ty date g = str_eq g.finding_type ty && (g.target_date == date) && g.is_current

-- `_replace_current_generation`
abbrev pub replace_current_generation : Generation → List Generation → List Generation
replace_current_generation g gs =
    update_where (is_current_of g.finding_type g.target_date)
      (λ old. record old { is_current = false }) gs
    ++ record g { is_current = true } ∷ []

-- The finding is one of the date that the console shows.
abbrev pub is_current_on : ℕ → StoredFinding → Bool
is_current_on date f = (f.date == date) && f.is_current

-- The upsert of each row, which replaces all columns but the key.
abbrev pub save_findings : List StoredFinding → List StoredFinding → List StoredFinding
save_findings =
    upsert_all StoredFinding.finding_key str_eq
      (λ row old. record row { finding_key = old.finding_key })

-- `replace_conversion_findings`
unfoldable pub replace_conversion_findings :
    (target_date : ℕ) → List StoredFinding → (generation_metadata : Generation) → Cases → Cases
replace_conversion_findings date rows metadata c = record c {
  findings =
      save_findings rows
        (update_where (is_current_on date) (λ f. record f { is_current = false }) c.findings);
  generations = replace_current_generation metadata c.generations;
}

-- `purge_findings_before` of `repositories/suspicious_findings_read.py`
unfoldable pub purge_findings_before : (cutoff : ℕ) → (execute : Bool) → Cases → ℕ × Cases
purge_findings_before cutoff execute c = (
  count_where (λ f. ltb f.date cutoff) c.findings,
  if execute then record c { findings = delete_where (λ f. ltb f.date cutoff) c.findings } else c,
)
