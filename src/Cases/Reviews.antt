-- ===== src/Cases/Reviews.antt =====
-- The status of a case and of its tasks after a review.
use fraudhunter.Common.{
  ℕ, suc, String, Bool, true, false, ◌&&◌, Option, some, List, [], ◌∷◌, ◌≡◌, refl, sym, ap, subst,
  ◌∙◌, arith, inl, inr, Bool-cases, str_eq, eq_iff, if◌then◌else◌, length, map, All, exists_where,
  find_where, select_where, has, find-upsert_all, last_value, if_same, count_where,
}
use mathlib.Core.Option
use fraudhunter.Common.Result.{ok}
use fraudhunter.Cases.Tables.{
  StoredFinding, case_key_of, ReviewStatus, unhandled, investigating, confirmed_fraud, white,
  ReviewState, ReviewEvent, TaskType, Task, Cases,
}
use fraudhunter.Cases.Followups.{
  str-IsKey, task_status_of, followed_up, open_all, tasks_exist, new-open, cancel_all,
}
use fraudhunter.Cases.Store.{
  is_present, present_keys, is_matched, Review, payload_rows, state_of, save_states, new_tasks,
  is_case_event, sync_followup_tasks, save_reviews, apply_alert_reviews,
}

-- The review status of a case.
abbrev pub status_of : String → List ReviewState → Option ReviewStatus
status_of k t =
    Option.map ReviewState.review_status (find_where (has ReviewState.case_key str_eq k) t)

-- The keys of a review match a current finding of the case.
abbrev pub is_reviewed : (inputs : List String) → (case_key : String) → List StoredFinding → Bool
is_reviewed inputs k fs =
    is_present k
    && exists_where (λ f. is_matched (present_keys inputs) f && str_eq (case_key_of f) k) fs

module _ (ids : ℕ → String) (review : Review) where
  payload_status :
      (n : ℕ) (fs : List StoredFinding)
      → All (λ s. s.review_status ≡ review.status) (map state_of (payload_rows ids n review fs))
  payload_status n [] = tt
  payload_status n (f ∷ fs) = elim (Bool-cases (is_present (case_key_of f))) [
    | inl present ↦ rw present (refl, payload_status (suc n) fs)
    | inr blank ↦ rw blank (payload_status n fs)
  ]

  -- The payload has a row of the case exactly if the case is reviewed.
  payload_exists :
      (keys : List String) (k : String) (n : ℕ) (fs : List StoredFinding)
      → exists_where
          (is_case_event k)
          (payload_rows ids n review (select_where (is_matched keys) fs))
        ≡ (is_present k && exists_where (λ f. is_matched keys f && str_eq (case_key_of f) k) fs)
  payload_exists keys k n [] = ground arith
  payload_exists keys k n (f ∷ fs) = elim (Bool-cases (is_matched keys f)) [
    | inr other ↦ rw other (payload_exists keys k n fs)
    | inl matched ↦ elim (Bool-cases (is_present (case_key_of f))) [
      | inl present ↦ elim (Bool-cases (str_eq (case_key_of f) k)) [
        | inl this ↦
            let key : is_present k ≡ true =
              subst (λ j. is_present j ≡ true) ((eq_iff (case_key_of f) k).0 this) present in
            rw (matched, present, this, key) refl
        | inr that ↦ rw (matched, present, that) (payload_exists keys k (suc n) fs)
      ]
      | inr blank ↦ elim (Bool-cases (str_eq (case_key_of f) k)) [
        | inl this ↦
            let key : is_present k ≡ false =
              subst (λ j. is_present j ≡ false) ((eq_iff (case_key_of f) k).0 this) blank in
            rw (matched, blank) (payload_exists keys k n fs ∙ rw key refl)
        | inr that ↦ rw (matched, blank, that) (payload_exists keys k n fs)
      ]
    ]
  ]

  payload_length :
      (keys : List String) (n : ℕ) (fs : List StoredFinding)
      → length (payload_rows ids n review (select_where (is_matched keys) fs))
        ≡ count_where (λ f. is_matched keys f && is_present (case_key_of f)) fs
  payload_length keys n [] = refl
  payload_length keys n (f ∷ fs) = elim (Bool-cases (is_matched keys f)) [
    | inr other ↦ rw other (payload_length keys n fs)
    | inl matched ↦ elim (Bool-cases (is_present (case_key_of f))) [
      | inl present ↦ rw (matched, present) (ap (λ m. suc m) (payload_length keys (suc n) fs))
      | inr blank ↦ rw (matched, blank) (payload_length keys n fs)
    ]
  ]

states_exist :
    (k : String) (rows : List ReviewEvent)
    → exists_where (has ReviewState.case_key str_eq k) (map state_of rows)
      ≡ exists_where (is_case_event k) rows
states_exist k [] = refl
states_exist k (e ∷ rows) = ground (arith, states_exist k rows)

module _ (task_ids : ℕ → String) (k : String) (ty : TaskType) (by : String) (at : ℕ) where
  sync_status :
      (status : ReviewStatus) (rows : List ReviewEvent) (t : List Task)
      → task_status_of k ty (sync_followup_tasks task_ids rows status by at t) ≡ (
          if exists_where (is_case_event k) rows
          then followed_up status (task_status_of k ty t)
          else task_status_of k ty t)
  unfolding sync_followup_tasks
  sync_status confirmed_fraud rows t =
      open_all k ty (new_tasks task_ids 0 by at rows) t (new-open k ty task_ids 0 by at rows)
      ∙ rw (tasks_exist k ty task_ids 0 by at rows) refl
  sync_status investigating rows t =
      sym (if_same (exists_where (is_case_event k) rows) (task_status_of k ty t))
  sync_status white rows t = cancel_all k ty rows t
  sync_status unhandled rows t = cancel_all k ty rows t

module _ (task_ids : ℕ → String) (review : Review) (k : String) (ty : TaskType) where
  states_status :
      (rows : List ReviewEvent) (t : List ReviewState)
      → All (λ s. s.review_status ≡ review.status) (map state_of rows)
      → status_of k (save_states rows t)
        ≡ (if exists_where (is_case_event k) rows then some review.status else status_of k t)
  states_status rows t h =
      ap (Option.map ReviewState.review_status) (
        find-upsert_all ReviewState.case_key str_eq (str-IsKey ReviewState.case_key)
          (λ row old. record row { case_key = old.case_key }) (λ row old. refl)
          (λ row old e. ap (λ j. record row { case_key = j }) e) (map state_of rows) t k)
      ∙ last_value ReviewState.review_status review.status (has ReviewState.case_key str_eq k)
          (map state_of rows) (find_where (has ReviewState.case_key str_eq k) t) h
      ∙ rw (states_exist k rows) refl

  -- What a review of the rows makes of the case and of its task.
  save_reviews_lem :
      (rows : List ReviewEvent) (c : Cases)
      → All (λ s. s.review_status ≡ review.status) (map state_of rows)
      → let after = save_reviews task_ids review rows c in
        let reviewed = exists_where (is_case_event k) rows in
        (status_of k after.review_states
          ≡ (if reviewed then some review.status else status_of k c.review_states))
        × (task_status_of k ty after.tasks ≡ (
            if reviewed
            then followed_up review.status (task_status_of k ty c.tasks)
            else task_status_of k ty c.tasks))
  save_reviews_lem [] c h = (refl, refl)
  save_reviews_lem (e ∷ es) c h = (
    states_status (e ∷ es) c.review_states h,
    sync_status task_ids k ty review.reviewed_by review.updated_at review.status (e ∷ es) c.tasks,
  )

present_some :
    (inputs : List String)
    → exists_where is_present inputs ≡ true
    → (k : String) × (ks : List String) × (present_keys inputs ≡ k ∷ ks)
present_some [] h = absurd (ground arith)
present_some (k ∷ ks) h = elim (Bool-cases (is_present k)) [
  | inl e ↦ (k, present_keys ks, rw e refl)
  | inr e ↦ let rest = present_some ks (ground arith) in (rest.0, rest.1, rw e rest.2)
]

-- A review with a key that is not empty returns the number of the current findings that its keys match. It
-- sets the status of their cases, and of no other case; and it moves every follow-up task of these cases as
-- the status asks, and no task of another case.
pub apply_alert_reviews_lem :
    (event_ids task_ids : ℕ → String) (inputs : List String) (review : Review) (c : Cases)
    → exists_where is_present inputs ≡ true
    → (n : ℕ) × (after : Cases) × (apply_alert_reviews event_ids task_ids inputs review c
        ≡ ok (n, after))
      × (n
          ≡ count_where
              (λ f. is_matched (present_keys inputs) f && is_present (case_key_of f))
              c.findings)
      × ((k : String) (ty : TaskType)
          → let reviewed = is_reviewed inputs k c.findings in
            (status_of k after.review_states
              ≡ (if reviewed then some review.status else status_of k c.review_states))
            × (task_status_of k ty after.tasks ≡ (
                if reviewed
                then followed_up review.status (task_status_of k ty c.tasks)
                else task_status_of k ty c.tasks)))
unfolding apply_alert_reviews
apply_alert_reviews_lem event_ids task_ids [] review c h = absurd (ground arith)
apply_alert_reviews_lem event_ids task_ids (i ∷ is) review c h =
    let (k0, ks, e) = present_some (i ∷ is) h in
    let rows =
      payload_rows event_ids 0 review
        (select_where (is_matched (present_keys (i ∷ is))) c.findings) in
    (
      length rows,
      save_reviews task_ids review rows c,
      rw e refl,
      payload_length event_ids review (present_keys (i ∷ is)) 0 c.findings,
      λ k ty.
          subst
            (λ b.
              let after = save_reviews task_ids review rows c in
              (status_of k after.review_states
                ≡ (if b then some review.status else status_of k c.review_states))
              × (task_status_of k ty after.tasks ≡ (
                  if b
                  then followed_up review.status (task_status_of k ty c.tasks)
                  else task_status_of k ty c.tasks)))
            (payload_exists event_ids review (present_keys (i ∷ is)) k 0 c.findings)
            (save_reviews_lem task_ids review k ty rows c (
              payload_status event_ids review 0
                (select_where (is_matched (present_keys (i ∷ is))) c.findings))),
    )
