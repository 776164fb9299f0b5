-- ===== src/Console/Pages.antt =====
-- What the pages of the alerts have, and what is counted beside them.
use fraudhunter.Common.{
  ℕ, zero, suc, ◌+◌, ◌-◌, ◌*◌, ◌≤◌, min, String, Bool, true, false, ◌&&◌, none, List, [], ◌∷◌, ◌++◌,
  ◌≡◌, refl, sym, ap, ◌∙◌, arith, ltb, str_eq, if◌then◌else◌, length, take, drop, count_where,
  select_where, insert_by, order_by,
}
use fraudhunter.Common.Int.{ℤ, pos, negsuc}
use fraudhunter.Cases.Tables.{
  StoredFinding, ReviewStatus, unhandled, investigating, confirmed_fraud, white, Cases,
}
use fraudhunter.Console.Alerts.{
  Searching, Filters, windowed, review_status_text, review_status_of, is_listed, is_selected,
  stands_before, fetch_alert_rows, count_alert_rows, resolve_page, resolve_page_size, list_alerts,
}

the {ℓ} : (A : Type ℓ) → A → A
the A a = a

module _ {ℓ} {A : Type ℓ} where
  count-insert :
      (q : A → Bool) (before : A → A → Bool) (x : A) (t : List A)
      → count_where q (insert_by before x t) ≡ count_where q (x ∷ t)
  count-insert q before x [] = refl
  count-insert q before x (y ∷ t) = ground (arith, count-insert q before x t)

  count-order :
      (q : A → Bool) (before : A → A → Bool) (t : List A)
      → count_where q (order_by before t) ≡ count_where q t
  count-order q before [] = refl
  count-order q before (x ∷ t) =
      count-insert q before x (order_by before t) ∙ ground (arith, count-order q before t)

  count-select :
      (q p : A → Bool) (t : List A)
      → count_where q (select_where p t) ≡ count_where (λ x. p x && q x) t
  count-select q p [] = refl
  count-select q p (x ∷ t) = ground (arith, count-select q p t)

  count_all : (t : List A) → count_where (λ x. true) t ≡ length t
  count_all [] = refl
  count_all (x ∷ t) = ap (λ n. suc n) (count_all t)

  pub count_same :
      (p q : A → Bool) (t : List A) → ((x : A) → p x ≡ q x) → count_where p t ≡ count_where q t
  count_same p q [] same = refl
  count_same p q (x ∷ t) same = rw (same x, count_same p q t same) refl

  take-drop : (n : ℕ) (t : List A) → take n t ++ drop n t ≡ t
  take-drop zero t = refl
  take-drop (suc n) [] = refl
  take-drop (suc n) (x ∷ t) = ap (λ s. x ∷ s) (take-drop n t)

  drop-drop : (m n : ℕ) (t : List A) → drop n (drop m t) ≡ drop (m + n) t
  drop-drop zero n t = ap (λ k. drop k t) (the (n ≡ 0 + n) (omega arith))
  drop-drop (suc m) zero [] = ap (λ k. drop k []) (the (suc m ≡ suc m + 0) (omega arith))
  drop-drop (suc m) (suc n) [] =
      ap (λ k. drop k []) (the (suc (suc m + n) ≡ suc m + suc n) (omega arith))
  drop-drop (suc m) n (x ∷ t) =
      drop-drop m n t ∙ ap (λ k. drop k (x ∷ t)) (the (suc (m + n) ≡ suc m + n) (omega arith))

  length-take : (n : ℕ) (t : List A) → length (take n t) ≡ min n (length t)
  length-take zero t = omega arith
  length-take (suc n) [] = omega arith
  length-take (suc n) (x ∷ t) = omega (arith, length-take n t)

  length-drop : (n : ℕ) (t : List A) → length (drop n t) ≡ length t - n
  length-drop zero t = omega arith
  length-drop (suc n) [] = omega arith
  length-drop (suc n) (x ∷ t) = omega (arith, length-drop n t)

  -- A page of a list, with what is before it and after it.
  page_of :
      (t : List A) (offset size : ℕ)
      → (t ≡ take offset t ++ (take size (drop offset t) ++ drop (offset + size) t))
        × (length (take size (drop offset t)) ≤ size)
        × (ltb (offset + length (take size (drop offset t))) (length t)
            ≡ ltb 0 (length (drop (offset + size) t)))
  page_of t offset size =
      let page = length-take size (drop offset t) in
      let rest = length-drop offset t in
      let beyond = length-drop (offset + size) t in
      (
        sym (
            ap (λ s. take offset t ++ s)
              (ap (λ s. take size (drop offset t) ++ s) (sym (drop-drop offset size t))
                ∙ take-drop size (drop offset t))
            ∙ take-drop offset t),
        omega (arith, page),
        ground (arith, page, rest, beyond),
      )

-- One more finding is counted under one status.
status_step :
    (r : ReviewStatus) (b : Bool) (u i f w n : ℕ)
    → u + i + f + w ≡ n
    → (if b && str_eq (review_status_text r) "unhandled" then suc u else u)
        + (if b && str_eq (review_status_text r) "investigating" then suc i else i)
        + (if b && str_eq (review_status_text r) "confirmed_fraud" then suc f else f)
        + (if b && str_eq (review_status_text r) "white" then suc w else w)
      ≡ (if b then suc n else n)
status_step unhandled true u i f w n h = omega (arith, h)
status_step investigating true u i f w n h = omega (arith, h)
status_step confirmed_fraud true u i f w n h = omega (arith, h)
status_step white true u i f w n h = omega (arith, h)
status_step r false u i f w n h = h

size_bounds : (n : ℤ) → (1 ≤ resolve_page_size n) × (resolve_page_size n ≤ 200)
size_bounds (pos zero) = (omega arith, omega arith)
size_bounds (pos (suc n)) = (omega arith, omega arith)
size_bounds (negsuc n) = (omega arith, omega arith)

true_right : (b : Bool) → b && true ≡ b
true_right true = refl
true_right false = refl

module _ (s : Searching) (c : Cases) (filters : Filters) where
  -- Each listed finding is counted under exactly one status.
  statuses_add :
      (t : List StoredFinding)
      → count_where
            (λ f.
              is_listed s filters f
              && str_eq (review_status_text (review_status_of c f)) "unhandled")
            t
          + count_where
              (λ f.
                is_listed s filters f
                && str_eq (review_status_text (review_status_of c f)) "investigating")
              t
          + count_where
              (λ f.
                is_listed s filters f
                && str_eq (review_status_text (review_status_of c f)) "confirmed_fraud")
              t
          + count_where
              (λ f.
                is_listed s filters f && str_eq (review_status_text (review_status_of c f)) "white")
              t
        ≡ count_where (is_listed s filters) t
  statuses_add [] = refl
  statuses_add (f ∷ t) =
      status_step (review_status_of c f) (is_listed s filters f) _ _ _ _ _ (statuses_add t)

module _ (s : Searching) (c : Cases) (filters : Filters) where
  -- The total is the number of the selected findings, which stand on the pages, each as often as it is stored:
  -- the page asked for, of at most its size, between those before it and those after it; and there is a next
  -- page exactly if some come after it. The page size is from 1 to 200. The counts by status add up to the
  -- total that there is without a filter on the status.
  pub list_alerts_lem :
      (sort : String) (page page_size : ℤ)
      → let l = list_alerts s c filters sort page page_size in
        let resolved = windowed filters in
        let all = fetch_alert_rows s c resolved sort in
        let offset = (l.page - 1) * l.page_size in
        (l.total ≡ length all)
        × ((q : StoredFinding → Bool)
            → count_where q all ≡ count_where (λ f. is_selected s c resolved f && q f) c.findings)
        × (all ≡ take offset all ++ (l.items ++ drop (offset + l.page_size) all))
        × (length l.items ≤ l.page_size)
        × (l.has_next ≡ ltb 0 (length (drop (offset + l.page_size) all)))
        × (1 ≤ l.page_size)
        × (l.page_size ≤ 200)
        × (l.unhandled_count + l.investigating_count + l.confirmed_fraud_count + l.white_count
            ≡ count_alert_rows s c (record resolved { status = none }))
  unfolding list_alerts fetch_alert_rows
  list_alerts_lem sort page page_size =
      let resolved = windowed filters in
      let selected = select_where (is_selected s c resolved) c.findings in
      let all = order_by (stands_before s sort) selected in
      let size = resolve_page_size page_size in
      let offset = (resolve_page page - 1) * size in
      let counts = λ (q : StoredFinding → Bool).
        count-order q (stands_before s sort) selected
        ∙ count-select q (is_selected s c resolved) c.findings in
      let total : count_alert_rows s c resolved ≡ length all =
        count_same (is_selected s c resolved) (λ f. is_selected s c resolved f && true) c.findings
          (λ f. sym (true_right (is_selected s c resolved f)))
        ∙ sym (counts (λ f. true))
        ∙ count_all all in
      let (parts, short, next) = page_of all offset size in
      let (low, high) = size_bounds page_size in
      (
        total,
        counts,
        parts,
        short,
        rw total next,
        low,
        high,
        statuses_add s c resolved c.findings
            ∙ count_same (is_listed s resolved) (λ f. is_listed s resolved f && true) c.findings
                (λ f. sym (true_right (is_listed s resolved f))),
      )
