-- ===== src/Ingestion/Paging.antt =====
-- The loops of `ingestion.py` that fetch page after page from the ACS until one is empty or short.
use fraudhunter.Common.{
  ℕ, zero, suc, ◌+◌, ◌-◌, ◌*◌, ◌≤◌, ◌<◌, Bool, Option, none, some, List, [], ◌∷◌, ◌++◌, ◌≡◌, refl,
  ap, sym, subst, ◌∙◌, arith, ltb, leb, if◌then◌else◌, inl, inr, Bool-cases, length, take, drop,
  select_where, min,
}

-- The tests on a batch: `if not batch` and `if len(batch) < self.page_size`.
abbrev pub after_batch {ℓ κ} :
    {A : Type ℓ} {B : Type κ}
    → (page_size : ℕ) (batch : List A) (all all' : B) (rest : Option B) → Option B
after_batch page_size [] all all' rest = some all
after_batch page_size (x ∷ xs) all all' rest =
    if ltb (length (x ∷ xs)) page_size then some all' else rest

module _ {ℓ} {A : Type ℓ} (fetch : (page limit : ℕ) → List A) (page_size : ℕ)
    (keep : A → Bool) where
  -- The loop of each `run_for_time_range`, from a page, with the entries so far: what a batch has of the
  -- range is kept, and its length before that decides whether the loop goes on. `run_for_date` keeps all
  -- entries. The loop is on fuel: `none` if that runs out.
  unfoldable pub fetch_pages : (fuel page : ℕ) (all : List A) → Option (List A)
  fetch_pages zero page all = none
  fetch_pages (suc fuel) page all =
      let batch = fetch page page_size in
      let all' = all ++ select_where keep batch in
      after_batch page_size batch all all' (fetch_pages fuel (page + 1) all')

-- What the ACS documents of its pages: page `p`, from 1, has the entries from `(p - 1) * limit` on.
abbrev pub page_of {ℓ} : {A : Type ℓ} → List A → (page limit : ℕ) → List A
page_of log page limit = take limit (drop ((page - 1) * limit) log)

module _ {ℓ} {A : Type ℓ} where
  select-take-drop :
      (keep : A → Bool) (n : ℕ) (xs : List A)
      → select_where keep (take n xs) ++ select_where keep (drop n xs) ≡ select_where keep xs
  select-take-drop keep zero xs = refl
  select-take-drop keep (suc n) [] = refl
  select-take-drop keep (suc n) (x ∷ xs) = ground (arith, select-take-drop keep n xs)

  drop-nil : (n : ℕ) → drop {A = A} n [] ≡ []
  drop-nil zero = refl
  drop-nil (suc n) = refl

  drop-drop : (m n k : ℕ) (xs : List A) → k ≡ m + n → drop n (drop m xs) ≡ drop k xs
  drop-drop zero n k xs e = let same : n ≡ k = omega (arith, e) in ap (λ i. drop i xs) same
  drop-drop (suc m) n k [] e = drop-nil n ∙ sym (drop-nil k)
  drop-drop (suc m) n k (x ∷ xs) e =
      let next : k ≡ suc (m + n) = omega (arith, e) in rw next (drop-drop m n (m + n) xs refl)

  take-all : (n : ℕ) (xs : List A) → length xs ≤ n → take n xs ≡ xs
  take-all zero [] h = refl
  take-all zero (x ∷ xs) h = absurd (ground arith)
  take-all (suc n) [] h = refl
  take-all (suc n) (x ∷ xs) h = ap (λ t. x ∷ t) (take-all n xs (omega (arith, h)))

  length-take : (n : ℕ) (xs : List A) → length (take n xs) ≡ min n (length xs)
  length-take zero xs = omega arith
  length-take (suc n) [] = omega arith
  length-take (suc n) (x ∷ xs) = omega (arith, length-take n xs)

  length-drop : (n : ℕ) (xs : List A) → length (drop n xs) ≡ length xs - n
  length-drop zero xs = omega arith
  length-drop (suc n) [] = omega arith
  length-drop (suc n) (x ∷ xs) = omega (arith, length-drop n xs)

  append-nil : (xs : List A) → xs ++ [] ≡ xs
  append-nil [] = refl
  append-nil (x ∷ xs) = ap (λ t. x ∷ t) (append-nil xs)

  append_assoc : (xs ys zs : List A) → (xs ++ ys) ++ zs ≡ xs ++ (ys ++ zs)
  append_assoc [] ys zs = refl
  append_assoc (x ∷ xs) ys zs = ap (λ t. x ∷ t) (append_assoc xs ys zs)

  after_batch_lem :
      (keep : A → Bool) (size : ℕ) (tail all : List A) (rest : Option (List A))
      → 0 < size
      → (size ≤ length tail
          → rest
            ≡ some
                ((all ++ select_where keep (take size tail)) ++ select_where keep (drop size tail)))
      → after_batch size (take size tail) all (all ++ select_where keep (take size tail)) rest
        ≡ some (all ++ select_where keep tail)
  after_batch_lem keep zero tail all rest h more = absurd (ground arith)
  after_batch_lem keep (suc n) [] all rest h more = ap some (sym (append-nil all))
  after_batch_lem keep (suc n) (x ∷ xs) all rest h more =
      elim (Bool-cases (ltb (suc (length (take n xs))) (suc n))) [
        | inl short ↦
            let whole : take n xs ≡ xs = take-all n xs (ground (arith, length-take n xs)) in
            rw short (ap (λ t. some (all ++ select_where keep (x ∷ t))) whole)
        | inr full ↦ rw full (
            more (ground (arith, length-take n xs))
            ∙ ap some (
                append_assoc all (select_where keep (take (suc n) (x ∷ xs)))
                  (select_where keep (drop n xs))
                ∙ ap (λ t. all ++ t) (select-take-drop keep (suc n) (x ∷ xs))))
      ]

  module _ (fetch : (page limit : ℕ) → List A) (size : ℕ) (keep : A → Bool) (log : List A) where
    pages_lem :
        (fuel p : ℕ) (all : List A)
        → ((q : ℕ) → fetch (q + 1) size ≡ page_of log (q + 1) size)
        → 0 < size
        → length (drop (p * size) log) < fuel
        → fetch_pages fetch size keep fuel (p + 1) all
          ≡ some (all ++ select_where keep (drop (p * size) log))
    unfolding fetch_pages
    pages_lem zero p all served h few = absurd (ground arith)
    pages_lem (suc fuel) p all served h few =
        let tail = drop (p * size) log in
        let before : p + 1 - 1 ≡ p = omega arith in
        let at : (p + 1 - 1) * size ≡ p * size = ap (λ i. i * size) before in
        let batch : fetch (p + 1) size ≡ take size tail =
          served p ∙ ap (λ i. take size (drop i log)) at in
        let next : drop size tail ≡ drop ((p + 1) * size) log =
          drop-drop (p * size) size ((p + 1) * size) log (omega arith) in
        let all' = all ++ select_where keep (take size tail) in
        rw batch (
          after_batch_lem keep size tail all _ h (λ full.
            let fewer : length (drop ((p + 1) * size) log) < fuel =
              omega (arith, ap length next, length-drop size tail, few, h, full) in
            pages_lem fuel (p + 1) all' served h fewer
            ∙ ap (λ t. some (all' ++ select_where keep t)) (sym next)))

  -- Against pages that hold a log in order, as the ACS documents, the loop ends with exactly the entries of
  -- the log that are to be kept, in order, on fuel of more than the entries.
  pub fetch_pages_complete :
      (fetch : (page limit : ℕ) → List A) (size : ℕ) (keep : A → Bool) (log : List A) (fuel : ℕ)
      → ((q : ℕ) → fetch (q + 1) size ≡ page_of log (q + 1) size)
      → 0 < size
      → length log < fuel
      → fetch_pages fetch size keep fuel 1 [] ≡ some (select_where keep log)
  fetch_pages_complete fetch size keep log fuel served h enough =
      let first : 0 + 1 ≡ 1 = omega arith in
      let start : 0 * size ≡ 0 = omega arith in
      let whole : drop (0 * size) log ≡ log = ap (λ i. drop i log) start in
      subst (λ (p : ℕ). fetch_pages fetch size keep fuel p [] ≡ some (select_where keep log)) first
        (pages_lem fetch size keep log fuel 0 [] served h (omega (arith, ap length whole, enough))
          ∙ ap (λ t. some (select_where keep t)) whole)

times_grows : (m n : ℕ) → m ≤ m * suc n
times_grows zero n = omega arith
times_grows (suc m) n = omega (arith, times_grows m n)

module _ {ℓ} {A : Type ℓ} where
  after_batch_ends :
      {B : Type ℓ} (size : ℕ) (batch : List A) (all all' r : B)
      → (b : B) × (after_batch size batch all all' (some r) ≡ some b)
  after_batch_ends size [] all all' r = (all, refl)
  after_batch_ends size (x ∷ xs) all all' r = elim (Bool-cases (ltb (length (x ∷ xs)) size)) [
    | inl short ↦ (all', rw short refl)
    | inr full ↦ (r, rw full refl)
  ]

  -- Where all pages from some number on are empty, the loop ends on fuel that reaches that page.
  pub fetch_pages_ends :
      (fetch : (page limit : ℕ) → List A) (size : ℕ) (keep : A → Bool) (bound fuel page : ℕ)
      (all : List A)
      → ((p : ℕ) → bound ≤ p → fetch p size ≡ [])
      → bound < page + fuel
      → 0 < fuel
      → (b : List A) × (fetch_pages fetch size keep fuel page all ≡ some b)
  unfolding fetch_pages
  fetch_pages_ends fetch size keep bound zero page all finite reached h = absurd (ground arith)
  fetch_pages_ends fetch size keep bound (suc fuel) page all finite reached h =
      let all' = all ++ select_where keep (fetch page size) in
      elim (Bool-cases (leb bound page)) [
        | inl last ↦
            let none_left : fetch page size ≡ [] = finite page (ground arith) in
            (all, rw none_left refl)
        | inr before ↦
            let (r, ends) =
              fetch_pages_ends fetch size keep bound fuel (page + 1) all' finite
                (omega (arith, reached)) (ground arith) in
            let (b, done) = after_batch_ends size (fetch page size) all all' r in (b, rw ends done)
      ]

  drop-past : (n : ℕ) (xs : List A) → length xs ≤ n → drop n xs ≡ []
  drop-past zero [] h = refl
  drop-past zero (x ∷ xs) h = absurd (ground arith)
  drop-past (suc n) [] h = refl
  drop-past (suc n) (x ∷ xs) h = drop-past n xs (omega (arith, h))

  -- The pages of a log after as many as it has entries are empty.
  pub page_of_past : (log : List A) (page size : ℕ) → length log < page → page_of log page size ≡ []
  page_of_past log page zero h = refl
  page_of_past log page (suc n) h =
      let past : length log ≤ (page - 1) * suc n = omega (arith, h, times_grows (page - 1) n) in
      rw (drop-past ((page - 1) * suc n) log past) refl
