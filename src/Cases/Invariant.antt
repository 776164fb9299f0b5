-- ===== src/Cases/Invariant.antt =====
-- What holds of the tables of the alert cases between two calls, and that each call keeps it.
use fraudhunter.Common.{
  ℕ, ◌+◌, ◌≤◌, String, Bool, true, false, Option, none, some, List, [], ◌∷◌, ◌++◌, ◌≡◌, refl, sym,
  ap, ◌∙◌, arith, inl, inr, Bool-cases, str_eq, map, is_some, All, All-update, All-of_forall,
  All-upsert_all, find_where, has, HasUniqueKeys, upsert_all-HasUniqueKeys, or_else, last_where,
  last-append, find-upsert_all, count_where, update-HasUniqueKeys, delete-HasUniqueKeys,
  exists_where,
}
use mathlib.Core.Option
use fraudhunter.Cases.Tables.{
  StoredFinding, Generation, ReviewStatus, unhandled, investigating, confirmed_fraud, white,
  ReviewState, ReviewEvent, Assignment, TaskStatus, «open», cancelled, is_completed, Task, Cases,
}
use fraudhunter.Cases.Store.{
  Review, state_of, save_states, task_key, same_task, unless_completed, new_tasks, reopened,
  is_case_event, cancel_tasks, sync_followup_tasks, save_reviews, present_keys, assignment,
  assign_resolved, assign_alert_cases, assignee_of, resolved_case_keys, finish, set_task,
  has_task_id, is_present, update_followup_task_status, is_current_of, is_current_on,
  replace_conversion_findings, purge_findings_before,
}
use fraudhunter.Cases.Followups.{str-IsKey, task-IsKey}
use fraudhunter.Cases.Replace.{generations_count}

-- A task is completed exactly if it has a time of completion.
abbrev pub IsFinished : Task → Type 0
IsFinished t = is_completed t.task_status ≡ is_some t.completed_at

-- The state of each case is its last event.
abbrev pub IsLogged : List ReviewState → List ReviewEvent → Type 0
IsLogged states events =
    (k : String)
    → find_where (has ReviewState.case_key str_eq k) states
      ≡ Option.map state_of (last_where (is_case_event k) events)

pub record IsConsistent (c : Cases) : Type 0 where
  pub findings : HasUniqueKeys StoredFinding.finding_key str_eq c.findings
  pub generations : (ty : String) (d : ℕ) → count_where (is_current_of ty d) c.generations ≤ 1
  pub states : HasUniqueKeys ReviewState.case_key str_eq c.review_states
  pub logged : IsLogged c.review_states c.review_events
  pub assignments : HasUniqueKeys Assignment.case_key str_eq c.assignments
  pub tasks : HasUniqueKeys task_key same_task c.tasks
  pub finished : All IsFinished c.tasks

map-or_else :
    (a b : Option ReviewEvent)
    → or_else (Option.map state_of a) (Option.map state_of b) ≡ Option.map state_of (or_else a b)
map-or_else none b = refl
map-or_else (some a) b = refl

last-states :
    (k : String) (es : List ReviewEvent)
    → last_where (has ReviewState.case_key str_eq k) (map state_of es)
      ≡ Option.map state_of (last_where (is_case_event k) es)
last-states k [] = refl
last-states k (e ∷ es) = rw (last-states k es) (elim (Bool-cases (is_case_event k e)) [
  | inl this ↦ rw this (map-or_else (last_where (is_case_event k) es) (some e))
  | inr other ↦ rw other (map-or_else (last_where (is_case_event k) es) none)
])

save_states-IsLogged :
    (rows events : List ReviewEvent) (t : List ReviewState)
    → IsLogged t events
    → IsLogged (save_states rows t) (events ++ rows)
save_states-IsLogged rows events t h k =
    find-upsert_all ReviewState.case_key str_eq (str-IsKey ReviewState.case_key)
      (λ row old. record row { case_key = old.case_key }) (λ row old. refl)
      (λ row old e. ap (λ j. record row { case_key = j }) e) (map state_of rows) t k
    ∙ rw (last-states k rows, h k)
        (map-or_else (last_where (is_case_event k) rows) (last_where (is_case_event k) events)
          ∙ ap (Option.map state_of) (sym (last-append (is_case_event k) events rows)))

new-IsFinished :
    (ids : ℕ → String) (n : ℕ) (by : String) (at : ℕ) (es : List ReviewEvent)
    → All IsFinished (new_tasks ids n by at es)
new-IsFinished ids n by at [] = tt
new-IsFinished ids n by at (e ∷ es) = (refl, (refl, (refl, new-IsFinished ids (3 + n) by at es)))

stays-IsFinished :
    (other s : TaskStatus) (o : Option ℕ)
    → is_completed other ≡ false
    → is_completed s ≡ is_some o
    → is_completed (unless_completed other s) ≡ is_some o
stays-IsFinished other s o live h = elim (Bool-cases (is_completed s)) [
  | inl e ↦ rw e h
  | inr e ↦ rw e (live ∙ sym e ∙ h)
]

module _ (rows : List ReviewEvent) (t : List Task) where
  cancel-tasks :
      HasUniqueKeys task_key same_task t → HasUniqueKeys task_key same_task (cancel_tasks rows t)
  cancel-tasks h =
      update-HasUniqueKeys task_key same_task (λ x. exists_where (is_case_event x.case_key) rows)
        (λ x. record x { task_status = unless_completed cancelled x.task_status }) t (λ x. refl) h

  cancel-IsFinished : All IsFinished t → All IsFinished (cancel_tasks rows t)
  cancel-IsFinished h =
      All-update IsFinished (λ x. exists_where (is_case_event x.case_key) rows)
        (λ x. record x { task_status = unless_completed cancelled x.task_status }) t
        (All-of_forall _ t
          (λ x _ done. stays-IsFinished cancelled x.task_status x.completed_at refl done))
        h

module _ (ids : ℕ → String) (rows : List ReviewEvent) (by : String) (at : ℕ) (t : List Task) where
  sync-tasks :
      (status : ReviewStatus)
      → HasUniqueKeys task_key same_task t
      → HasUniqueKeys task_key same_task (sync_followup_tasks ids rows status by at t)
  unfolding sync_followup_tasks
  sync-tasks confirmed_fraud h =
      upsert_all-HasUniqueKeys task_key same_task task-IsKey reopened (λ row old. refl)
        (new_tasks ids 0 by at rows) t h
  sync-tasks investigating h = h
  sync-tasks white h = cancel-tasks rows t h
  sync-tasks unhandled h = cancel-tasks rows t h

  sync-IsFinished :
      (status : ReviewStatus)
      → All IsFinished t
      → All IsFinished (sync_followup_tasks ids rows status by at t)
  unfolding sync_followup_tasks
  sync-IsFinished confirmed_fraud h =
      All-upsert_all IsFinished task_key same_task reopened (new_tasks ids 0 by at rows) t
        (λ row x _ done. stays-IsFinished «open» x.task_status x.completed_at refl done)
        (new-IsFinished ids 0 by at rows) h
  sync-IsFinished investigating h = h
  sync-IsFinished white h = cancel-IsFinished rows t h
  sync-IsFinished unhandled h = cancel-IsFinished rows t h

pub save_reviews-IsConsistent :
    (ids : ℕ → String) (review : Review) (rows : List ReviewEvent) (c : Cases)
    → IsConsistent c
    → IsConsistent (save_reviews ids review rows c)
save_reviews-IsConsistent ids review [] c h = h
save_reviews-IsConsistent ids review (e ∷ es) c h = record {
  findings = h.findings;
  generations = h.generations;
  states =
      upsert_all-HasUniqueKeys ReviewState.case_key str_eq (str-IsKey ReviewState.case_key) _
        (λ row old. refl) (map state_of (e ∷ es)) c.review_states h.states;
  logged = save_states-IsLogged (e ∷ es) c.review_events c.review_states h.logged;
  assignments = h.assignments;
  tasks =
      sync-tasks ids (e ∷ es) review.reviewed_by review.updated_at c.tasks review.status h.tasks;
  finished =
      sync-IsFinished ids (e ∷ es) review.reviewed_by review.updated_at c.tasks review.status
        h.finished;
}

resolved-IsConsistent :
    (cases : List String) (user : Option String) (by : String) (at : ℕ) (c : Cases)
    → IsConsistent c
    → IsConsistent (assign_resolved cases user by at c).1
resolved-IsConsistent [] user by at c h = h
resolved-IsConsistent (k ∷ ks) none by at c h = record {
  findings = h.findings;
  generations = h.generations;
  states = h.states;
  logged = h.logged;
  assignments = delete-HasUniqueKeys Assignment.case_key str_eq _ c.assignments h.assignments;
  tasks = h.tasks;
  finished = h.finished;
}
resolved-IsConsistent (k ∷ ks) (some user) by at c h = record {
  findings = h.findings;
  generations = h.generations;
  states = h.states;
  logged = h.logged;
  assignments =
      upsert_all-HasUniqueKeys Assignment.case_key str_eq (str-IsKey Assignment.case_key) _
        (λ row old. refl) (map (assignment user by at) (k ∷ ks)) c.assignments h.assignments;
  tasks = h.tasks;
  finished = h.finished;
}

pub assign_alert_cases-IsConsistent :
    (inputs : List String) (user : Option String) (by : String) (at : ℕ) (c : Cases)
    → IsConsistent c
    → IsConsistent (assign_alert_cases inputs user by at c).1
unfolding assign_alert_cases
assign_alert_cases-IsConsistent inputs user by at c =
    resolved-IsConsistent (resolved_case_keys (present_keys inputs) c.findings) (assignee_of user)
      by at c

finish-IsFinished :
    (status : TaskStatus) (by : String) (at : ℕ) (x : Task) → IsFinished (finish status by at x)
finish-IsFinished status by at x = elim (Bool-cases (is_completed status)) [
  | inl e ↦ rw e refl
  | inr e ↦ rw e refl
]

set-IsConsistent :
    (id : String) (status : TaskStatus) (by : String) (at : ℕ) (c : Cases)
    → IsConsistent c
    → IsConsistent (record c { tasks = set_task id status by at c.tasks })
set-IsConsistent id status by at c h = record {
  findings = h.findings;
  generations = h.generations;
  states = h.states;
  logged = h.logged;
  assignments = h.assignments;
  tasks =
      update-HasUniqueKeys task_key same_task (has_task_id id) (finish status by at) c.tasks
        (λ x. refl) h.tasks;
  finished =
      All-update IsFinished (has_task_id id) (finish status by at) c.tasks
        (All-of_forall _ c.tasks (λ x _ _. finish-IsFinished status by at x)) h.finished;
}

pub update_followup_task_status-IsConsistent :
    (id : String) (status : TaskStatus) (by : String) (at : ℕ) (c : Cases)
    → IsConsistent c
    → IsConsistent (update_followup_task_status id status by at c).1
unfolding update_followup_task_status
update_followup_task_status-IsConsistent id status by at c h = elim (Bool-cases (is_present id)) [
  | inl present ↦ rw present (set-IsConsistent id status by at c h)
  | inr blank ↦ rw blank h
]

pub replace_conversion_findings-IsConsistent :
    (date : ℕ) (rows : List StoredFinding) (metadata : Generation) (c : Cases)
    → IsConsistent c
    → IsConsistent (replace_conversion_findings date rows metadata c)
unfolding replace_conversion_findings
replace_conversion_findings-IsConsistent date rows metadata c h = record {
  findings =
      upsert_all-HasUniqueKeys StoredFinding.finding_key str_eq
        (str-IsKey StoredFinding.finding_key) _ (λ row old. refl) rows _
        (update-HasUniqueKeys StoredFinding.finding_key str_eq (is_current_on date)
          (λ f. record f { is_current = false }) c.findings (λ x. refl) h.findings);
  generations =
      λ ty d. ground (arith, generations_count metadata ty d c.generations, h.generations ty d);
  states = h.states;
  logged = h.logged;
  assignments = h.assignments;
  tasks = h.tasks;
  finished = h.finished;
}

pub purge-IsConsistent :
    (cutoff : ℕ) (execute : Bool) (c : Cases)
    → IsConsistent c
    → IsConsistent (purge_findings_before cutoff execute c).1
unfolding purge_findings_before
purge-IsConsistent cutoff false c h = h
purge-IsConsistent cutoff true c h = record {
  findings = delete-HasUniqueKeys StoredFinding.finding_key str_eq _ c.findings h.findings;
  generations = h.generations;
  states = h.states;
  logged = h.logged;
  assignments = h.assignments;
  tasks = h.tasks;
  finished = h.finished;
}
