-- ===== src/Console/Answers.antt =====
-- What a review from the console does and answers.
use fraudhunter.Common.{
  ℕ, ◌≤◌, String, Bool, true, not, ◌&&◌, ◌||◌, Option, none, some, List, [], ◌∷◌, ◌≡◌, refl, sym,
  ap, subst, ◌∙◌, arith, inl, inr, Bool-cases, str_eq, eq_iff, if◌then◌else◌, length, exists_where,
  delete_where, count_where,
}
use fraudhunter.Common.Result.{ok}
use fraudhunter.Cases.Tables.{StoredFinding, case_key_of, ReviewStatus, payout_hold, Cases}
use fraudhunter.Cases.Store.{
  is_present, present_keys, is_in, is_matched, Review, apply_alert_reviews,
}
use fraudhunter.Cases.Reviews.{status_of, is_reviewed, apply_alert_reviews_lem}
use fraudhunter.Access.Decisions.{ConsoleAccessContext}
use fraudhunter.Console.Alerts.{Searching}
use fraudhunter.Console.Pages.{count_same}
use fraudhunter.Console.Keys.{
  exists-select, exists_same, in-present, in-sorted, in-delete, matched_same, reviewed_same,
  keys-present,
}
use fraudhunter.Console.Actions.{
  parse_status, sorted_keys, Selection, ReviewOutcome, stripped, keys_or_filtered,
  matched_case_keys, is_under, is_matched_input, review_of, review_keys, check_reason,
  apply_review_action,
}

-- A current finding has the key, or its case has it.
abbrev pub answers_to : String → StoredFinding → Bool
answers_to k f = f.is_current && (str_eq (case_key_of f) k || str_eq f.finding_key k)

under_matched :
    (keys : List String) (k : String) (f : StoredFinding)
    → is_in keys k ≡ true
    → is_present k ≡ true
    → (is_matched keys f && is_under k f) ≡ answers_to k f
under_matched keys k f listed present = elim (Bool-cases (str_eq (case_key_of f) k)) [
  | inl case_is ↦
      let e : case_key_of f ≡ k = (eq_iff (case_key_of f) k).0 case_is in
      let p : is_present (case_key_of f) ≡ true =
        subst (λ j. is_present j ≡ true) (sym e) present in
      let m : is_in keys (case_key_of f) ≡ true = subst (λ j. is_in keys j ≡ true) (sym e) listed in
      rw (m, p, case_is) (ground arith)
  | inr case_not ↦ elim (Bool-cases (str_eq f.finding_key k)) [
    | inl key_is ↦
        let m : is_in keys f.finding_key ≡ true =
          subst (λ j. is_in keys j ≡ true) (sym ((eq_iff f.finding_key k).0 key_is)) listed in
        rw (m, case_not, key_is) (ground arith)
    | inr key_not ↦ elim (Bool-cases (is_present (case_key_of f))) [
      | inl p ↦ rw (p, case_not, key_not) (ground arith)
      | inr p ↦ rw (p, case_not, key_not) (ground arith)
    ]
  ]
]

-- With a key, the answer follows the repository's.
review_keys_ran :
    (event_ids task_ids : ℕ → String) (keys : List String) (review : Review) (c : Cases) (n : ℕ)
    (after : Cases)
    → exists_where is_present keys ≡ true
    → apply_alert_reviews event_ids task_ids keys review c ≡ ok (n, after)
    → review_keys event_ids task_ids keys review c
      ≡ ok (
        record {
          requested_count = length keys;
          matched_current_count = length (matched_case_keys keys c);
          updated_count = n;
          missing_keys = delete_where (is_matched_input keys c) keys;
          status = review.status;
        },
        after,
      )
review_keys_ran event_ids task_ids [] review c n after h ran = absurd (ground arith)
review_keys_ran event_ids task_ids (k ∷ ks) review c n after h ran = rw ran refl

module _ (fk : List String) (c : Cases) where
  -- The keys that are reported as missing.
  missing_lem :
      (k : String)
      → let keys = sorted_keys (present_keys fk) in
        is_in (delete_where (is_matched_input keys c) keys) k
        ≡ (is_in (present_keys fk) k && not (exists_where (answers_to k) c.findings))
  missing_lem k =
      let keys = sorted_keys (present_keys fk) in
      in-delete (is_matched_input keys c) k keys ∙ elim (Bool-cases (is_in (present_keys fk) k)) [
        | inr absent ↦ rw (in-sorted k fk ∙ absent, absent) refl
        | inl listed ↦
            let l : is_in keys k ≡ true = in-sorted k fk ∙ listed in
            let present : is_present k ≡ true = ground (arith, in-present k fk, listed) in
            rw (l, listed)
              (ap (λ b. not b)
                (exists-select (is_under k) (is_matched keys) c.findings
                  ∙ exists_same _ (answers_to k) c.findings
                      (λ f. under_matched keys k f l present)))
      ]

  -- What the review of the resolved keys does.
  review_keys_lem :
      (event_ids task_ids : ℕ → String) (review : Review)
      → exists_where is_present fk ≡ true
      → (o : ReviewOutcome) × (after : Cases) × (review_keys event_ids task_ids
            (sorted_keys (present_keys fk))
            review
            c
          ≡ ok (o, after))
        × (o.updated_count
            ≡ count_where
                (λ f. is_matched (present_keys fk) f && is_present (case_key_of f))
                c.findings)
        × ((k : String)
            → (is_in o.missing_keys k
                ≡ (is_in (present_keys fk) k && not (exists_where (answers_to k) c.findings)))
              × (status_of k after.review_states ≡ (
                  if is_reviewed fk k c.findings
                  then some review.status
                  else status_of k c.review_states)))
  review_keys_lem event_ids task_ids review h =
      let keys = sorted_keys (present_keys fk) in
      let some_present = keys-present fk c h in
      let (n, after, ran, counted, effect) =
        apply_alert_reviews_lem event_ids task_ids keys review c some_present in
      (
        record {
          requested_count = length keys;
          matched_current_count = length (matched_case_keys keys c);
          updated_count = n;
          missing_keys = delete_where (is_matched_input keys c) keys;
          status = review.status;
        },
        after,
        review_keys_ran event_ids task_ids keys review c n after some_present ran,
        counted
            ∙ count_same _ _ c.findings
                (λ f. ap (λ b. b && is_present (case_key_of f)) (matched_same fk c f)),
        λ k. (missing_lem k, (effect k payout_hold).0 ∙ rw (reviewed_same fk c k) refl),
      )

resolved_keys :
    (s : Searching) (text_length : String → ℕ) (parse_iso_date : String → Option ℕ)
    (keys : List String)
    → (filters : Option Selection) (c : Cases) → exists_where is_present keys ≡ true
    → keys_or_filtered s text_length parse_iso_date keys filters c ≡ ok keys
resolved_keys s text_length parse_iso_date [] filters c h = absurd (ground arith)
resolved_keys s text_length parse_iso_date (k ∷ ks) filters c h = refl

review_status_lem :
    (st : ReviewStatus) (now : ℕ) (reason : String) (context : Option ConsoleAccessContext)
    → (review_of st now reason context).status ≡ st
review_status_lem st now reason none = refl
review_status_lem st now reason (some context) = refl

-- A review from the console with a known status, a reason of 1 to 500 characters and a key that is not empty
-- returns. It sets the status of the cases that its keys match, and of no other case; it answers the number of
-- the current findings that they match; and a key is reported as missing exactly if it was asked for and
-- neither a current finding nor the case of one has it.
pub apply_review_action_lem :
    (s : Searching) (text_length : String → ℕ) (parse_iso_date : String → Option ℕ)
    → (event_ids task_ids : ℕ → String) (now : ℕ) (context : Option ConsoleAccessContext)
      (fk : List String)
    → (status : String) (st : ReviewStatus) (reason : Option String) (filters : Option Selection)
      (c : Cases)
    → parse_status status ≡ some st
    → is_present (stripped s text_length parse_iso_date reason) ≡ true
    → text_length (stripped s text_length parse_iso_date reason) ≤ 500
    → exists_where is_present fk ≡ true
    → (o : ReviewOutcome) × (after : Cases) × (apply_review_action s text_length parse_iso_date
          event_ids task_ids now context fk status reason filters c
        ≡ ok (o, after))
      × (o.updated_count
          ≡ count_where
              (λ f. is_matched (present_keys fk) f && is_present (case_key_of f))
              c.findings)
      × ((k : String)
          → (is_in o.missing_keys k
              ≡ (is_in (present_keys fk) k && not (exists_where (answers_to k) c.findings)))
            × (status_of k after.review_states
                ≡ (if is_reviewed fk k c.findings then some st else status_of k c.review_states)))
unfolding apply_review_action
apply_review_action_lem s text_length parse_iso_date event_ids task_ids now context fk status st
      reason filters c known given short some_key =
    let text = stripped s text_length parse_iso_date reason in
    let checked : check_reason s text_length parse_iso_date text ≡ ok text =
      ground (arith, given, short) in
    let (o, after, ran, counted, effect) =
      review_keys_lem fk c event_ids task_ids (review_of st now text context) some_key in
    (
      o,
      after,
      rw
          (
            known,
            checked,
            resolved_keys s text_length parse_iso_date (sorted_keys (present_keys fk)) filters c
                (keys-present fk c some_key),
          )
          ran,
      counted,
      λ k. (
        (effect k).0,
        subst
            (λ x.
              status_of k after.review_states
              ≡ (if is_reviewed fk k c.findings then some x else status_of k c.review_states))
            (review_status_lem st now text context) (effect k).1,
      ),
    )
