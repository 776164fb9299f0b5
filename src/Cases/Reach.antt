-- ===== src/Cases/Reach.antt =====
-- The calls of the repository as a step relation, and the tables that they reach from empty ones.
use fraudhunter.Common.{ℕ, String, Bool, Option, List, [], ◌∷◌, ◌≡◌, refl, subst, arith}
use fraudhunter.Common.Result.{Result, ok, err}
use fraudhunter.Cases.Tables.{StoredFinding, Generation, TaskStatus, Cases}
use fraudhunter.Cases.Store.{
  Review, review_matched, present_keys, apply_alert_reviews, assign_alert_cases,
  update_followup_task_status, replace_conversion_findings, purge_findings_before,
}
use fraudhunter.Cases.Invariant.{
  IsConsistent, save_reviews-IsConsistent, assign_alert_cases-IsConsistent,
  update_followup_task_status-IsConsistent, replace_conversion_findings-IsConsistent,
  purge-IsConsistent,
}

-- One call of a method, by any user or job, at any time.
pub data Step (c d : Cases) : Type 0 where
  reviews :
      (event_ids task_ids : ℕ → String) (inputs : List String) (review : Review) (n : ℕ)
      → apply_alert_reviews event_ids task_ids inputs review c ≡ ok (n, d)
      → Step c d
  assigns :
      (inputs : List String) (user : Option String) (by : String) (at : ℕ)
      → (assign_alert_cases inputs user by at c).1 ≡ d
      → Step c d
  updates_task :
      (id : String) (status : TaskStatus) (by : String) (at : ℕ)
      → (update_followup_task_status id status by at c).1 ≡ d
      → Step c d
  replaces :
      (date : ℕ) (rows : List StoredFinding) (metadata : Generation)
      → replace_conversion_findings date rows metadata c ≡ d
      → Step c d
  purges : (cutoff : ℕ) (execute : Bool) → (purge_findings_before cutoff execute c).1 ≡ d → Step c d

abbrev pub no_cases : Cases
no_cases = record {
  findings = [];
  generations = [];
  review_states = [];
  review_events = [];
  assignments = [];
  tasks = [];
}

pub data Reach : Cases → Type 0 where
  empty : Reach no_cases
  next : {c d : Cases} → Reach c → Step c d → Reach d

-- What a returned call leaves.
abbrev Leaves : Result (ℕ × Cases) → Type 0
Leaves (ok r) = IsConsistent r.1
Leaves (err raised) = Unit

matched-IsConsistent :
    (event_ids task_ids : ℕ → String) (keys : List String) (review : Review) (c : Cases)
    → IsConsistent c
    → Leaves (review_matched event_ids task_ids keys review c)
matched-IsConsistent event_ids task_ids [] review c h = tt
matched-IsConsistent event_ids task_ids (k ∷ ks) review c h =
    save_reviews-IsConsistent task_ids review _ c h

review-IsConsistent :
    (event_ids task_ids : ℕ → String) (inputs : List String) (review : Review) (c : Cases)
    → IsConsistent c
    → Leaves (apply_alert_reviews event_ids task_ids inputs review c)
unfolding apply_alert_reviews
review-IsConsistent event_ids task_ids [] review c h = h
review-IsConsistent event_ids task_ids (k ∷ ks) review c h =
    matched-IsConsistent event_ids task_ids (present_keys (k ∷ ks)) review c h

pub Step-IsConsistent : {c d : Cases} → Step c d → IsConsistent c → IsConsistent d
Step-IsConsistent {c} {d} (reviews event_ids task_ids inputs review n e) h =
    subst Leaves e (review-IsConsistent event_ids task_ids inputs review c h)
Step-IsConsistent {c} (assigns inputs user by at e) h =
    subst IsConsistent e (assign_alert_cases-IsConsistent inputs user by at c h)
Step-IsConsistent {c} (updates_task id status by at e) h =
    subst IsConsistent e (update_followup_task_status-IsConsistent id status by at c h)
Step-IsConsistent {c} (replaces date rows metadata e) h =
    subst IsConsistent e (replace_conversion_findings-IsConsistent date rows metadata c h)
Step-IsConsistent {c} (purges cutoff execute e) h =
    subst IsConsistent e (purge-IsConsistent cutoff execute c h)

empty-IsConsistent : IsConsistent no_cases
empty-IsConsistent = record {
  findings = λ k. omega arith;
  generations = λ ty d. omega arith;
  states = λ k. omega arith;
  logged = λ k. refl;
  assignments = λ k. omega arith;
  tasks = λ k. omega arith;
  finished = tt;
}

-- In the tables that any sequence of calls reaches from empty ones, the state of each case is its last
-- event, a task is completed exactly if it has a time of completion, each date has at most one current
-- generation of a type, and no two findings, states, assignments or tasks have the same key.
pub reached-IsConsistent : {c : Cases} → Reach c → IsConsistent c
reached-IsConsistent empty = empty-IsConsistent
reached-IsConsistent (next reached step) = Step-IsConsistent step (reached-IsConsistent reached)
