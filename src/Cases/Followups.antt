-- ===== src/Cases/Followups.antt =====
-- The follow-up tasks: their key, and what opening and cancelling makes of the status of one.
use fraudhunter.Common.{
  ℕ, ◌+◌, String, Bool, true, false, Option, none, some, List, [], ◌∷◌, ◌≡◌, refl, ap, ◌∙◌, arith,
  inl, inr, Bool-cases, Option-cases, str_eq, eq_iff, if◌then◌else◌, All, exists_where, find_where,
  upsert, has, IsKey, find-upsert, find-update, find_passes,
}
use mathlib.Core.Option
use fraudhunter.Cases.Tables.{
  ReviewStatus, unhandled, investigating, confirmed_fraud, white, ReviewEvent, TaskType,
  payout_hold, partner_notice, evidence_preservation, TaskStatus, «open», completed, cancelled,
  Task,
}
use fraudhunter.Cases.Store.{
  same_type, task_key, same_task, unless_completed, new_tasks, reopened, open_tasks, is_case_event,
  cancel_tasks,
}

pub str-IsKey {ℓ} : {A : Type ℓ} (key : A → String) → IsKey key str_eq
str-IsKey key = record { sound = λ a b h. (eq_iff a b).0 h; self = λ a. (eq_iff a a).1 refl }

type_eq : (a b : TaskType) → same_type a b ≡ true → a ≡ b
type_eq payout_hold payout_hold h = refl
type_eq partner_notice partner_notice h = refl
type_eq evidence_preservation evidence_preservation h = refl
type_eq payout_hold partner_notice h = absurd (ground arith)
type_eq payout_hold evidence_preservation h = absurd (ground arith)
type_eq partner_notice payout_hold h = absurd (ground arith)
type_eq partner_notice evidence_preservation h = absurd (ground arith)
type_eq evidence_preservation payout_hold h = absurd (ground arith)
type_eq evidence_preservation partner_notice h = absurd (ground arith)

type_self : (a : TaskType) → same_type a a ≡ true
type_self payout_hold = refl
type_self partner_notice = refl
type_self evidence_preservation = refl

same_task_eq : (a b : String × TaskType) → same_task a b ≡ true → a ≡ b
same_task_eq (k, ty) (k', ty') h =
    let keys : k ≡ k' = (eq_iff k k').0 (ground arith) in
    let types : ty ≡ ty' = type_eq ty ty' (ground arith) in
    ap (λ x. (x, ty)) keys ∙ ap (λ x. (k', x)) types

same_task_self : (a : String × TaskType) → same_task a a ≡ true
same_task_self (k, ty) = ground (arith, (eq_iff k k).1 refl, type_self ty)

pub task-IsKey : IsKey task_key same_task
task-IsKey = record { sound = same_task_eq; self = same_task_self }

-- The status of a task of a case.
abbrev pub task_status_of : String → TaskType → List Task → Option TaskStatus
task_status_of k ty t = Option.map Task.task_status (find_where (has task_key same_task (k, ty)) t)

-- What a review makes of a task of the case: fraud opens what is not completed, and a case that is cleared or
-- put back cancels it.
abbrev pub opened : Option TaskStatus → TaskStatus
opened none = «open»
opened (some completed) = completed
opened (some «open») = «open»
opened (some cancelled) = «open»

abbrev pub closed : TaskStatus → TaskStatus
closed completed = completed
closed «open» = cancelled
closed cancelled = cancelled

abbrev pub followed_up : ReviewStatus → Option TaskStatus → Option TaskStatus
followed_up confirmed_fraud s = some (opened s)
followed_up investigating s = s
followed_up white s = Option.map closed s
followed_up unhandled s = Option.map closed s

opened_lem : (s : TaskStatus) → unless_completed «open» s ≡ opened (some s)
opened_lem completed = refl
opened_lem «open» = refl
opened_lem cancelled = refl

closed_lem : (s : TaskStatus) → unless_completed cancelled s ≡ closed s
closed_lem completed = refl
closed_lem «open» = refl
closed_lem cancelled = refl

-- To open a task twice is to open it once.
again :
    (s : Option TaskStatus) (b c : Bool)
    → (if c
        then some (opened (if b then some (opened s) else s))
        else (if b then some (opened s) else s))
      ≡ (if (if b then true else c) then some (opened s) else s)
again none true true = refl
again (some completed) true true = refl
again (some «open») true true = refl
again (some cancelled) true true = refl
again s true false = refl
again s false c = refl

-- The upsert of one task.
module _ (k : String) (ty : TaskType) where
  open_one :
      (row : Task) (t : List Task)
      → row.task_status ≡ «open»
      → task_status_of k ty (upsert task_key same_task (reopened row) row t) ≡ (
          if same_task (task_key row) (k, ty)
          then some (opened (task_status_of k ty t))
          else task_status_of k ty t)
  open_one row t fresh =
      ap (Option.map Task.task_status)
        (find-upsert task_key same_task task-IsKey (reopened row) (λ x. refl) row t (k, ty))
      ∙ elim (Bool-cases (same_task (task_key row) (k, ty))) [
        | inl this ↦ rw this (elim (Option-cases (find_where (has task_key same_task (k, ty)) t)) [
          | inl e ↦ rw e (ap (λ s. some s) fresh)
          | inr (old, e) ↦ rw e (ap (λ s. some s) (opened_lem old.task_status))
        ])
        | inr other ↦ rw other refl
      ]

  pub open_all :
      (rows t : List Task)
      → All (λ r. r.task_status ≡ «open») rows
      → task_status_of k ty (open_tasks rows t) ≡ (
          if exists_where (has task_key same_task (k, ty)) rows
          then some (opened (task_status_of k ty t))
          else task_status_of k ty t)
  open_all [] t fresh = refl
  open_all (row ∷ rows) t fresh =
      open_all rows _ fresh.1
      ∙ rw (open_one row t fresh.0) (
          again (task_status_of k ty t) (same_task (task_key row) (k, ty))
            (exists_where (has task_key same_task (k, ty)) rows))

  pub tasks_exist :
      (ids : ℕ → String) (n : ℕ) (by : String) (at : ℕ) (es : List ReviewEvent)
      → exists_where (has task_key same_task (k, ty)) (new_tasks ids n by at es)
        ≡ exists_where (is_case_event k) es
  tasks_exist ids n by at [] = refl
  tasks_exist ids n by at (e ∷ es) =
      let rest = tasks_exist ids (3 + n) by at es in
      elim ty [
        | payout_hold ↦ ground (arith, rest)
        | partner_notice ↦ ground (arith, rest)
        | evidence_preservation ↦ ground (arith, rest)
      ]

  pub new-open :
      (ids : ℕ → String) (n : ℕ) (by : String) (at : ℕ) (es : List ReviewEvent)
      → All (λ r. r.task_status ≡ «open») (new_tasks ids n by at es)
  new-open ids n by at [] = tt
  new-open ids n by at (e ∷ es) = (refl, (refl, (refl, new-open ids (3 + n) by at es)))

  pub cancel_all :
      (rows : List ReviewEvent) (t : List Task)
      → task_status_of k ty (cancel_tasks rows t) ≡ (
          if exists_where (is_case_event k) rows
          then Option.map closed (task_status_of k ty t)
          else task_status_of k ty t)
  cancel_all rows t =
      ap (Option.map Task.task_status) (
        find-update (has task_key same_task (k, ty))
          (λ x. exists_where (is_case_event x.case_key) rows)
          (λ x. record x { task_status = unless_completed cancelled x.task_status }) t (λ x. refl))
      ∙ elim (Option-cases (find_where (has task_key same_task (k, ty)) t)) [
        | inl e ↦ rw e (ground arith)
        | inr (x, e) ↦
            let this : x.case_key ≡ k =
              (eq_iff x.case_key k).0
                (ground (arith, find_passes (has task_key same_task (k, ty)) t x e)) in
            rw (e, this) (ground (arith, closed_lem x.task_status))
      ]
