-- ===== src/Console/Keys.antt =====
-- The keys of a request, sorted and without repetition: what they match.
use fraudhunter.Common.{
  String, Bool, true, false, not, ◌&&◌, List, [], ◌∷◌, ◌≡◌, refl, ap, subst, ◌∙◌, arith, inl, inr,
  Bool-cases, str_eq, eq_iff, exists_where, select_where, delete_where, insert_by, order_by,
}
use fraudhunter.Cases.Tables.{StoredFinding, case_key_of, Cases}
use fraudhunter.Cases.Store.{is_present, present_keys, is_in, is_matched, distinct}
use fraudhunter.Cases.Reviews.{is_reviewed}
use fraudhunter.Console.Actions.{text_before, sorted_keys}

module _ {ℓ} {A : Type ℓ} where
  exists-insert :
      (p : A → Bool) (before : A → A → Bool) (x : A) (t : List A)
      → exists_where p (insert_by before x t) ≡ exists_where p (x ∷ t)
  exists-insert p before x [] = refl
  exists-insert p before x (y ∷ t) = ground (arith, exists-insert p before x t)

  exists-order :
      (p : A → Bool) (before : A → A → Bool) (t : List A)
      → exists_where p (order_by before t) ≡ exists_where p t
  exists-order p before [] = refl
  exists-order p before (x ∷ t) =
      exists-insert p before x (order_by before t) ∙ ground (arith, exists-order p before t)

  pub exists-select :
      (p q : A → Bool) (t : List A)
      → exists_where p (select_where q t) ≡ exists_where (λ x. q x && p x) t
  exists-select p q [] = refl
  exists-select p q (x ∷ t) = ground (arith, exists-select p q t)

  pub exists_same :
      (p q : A → Bool) (t : List A) → ((x : A) → p x ≡ q x) → exists_where p t ≡ exists_where q t
  exists_same p q [] same = refl
  exists_same p q (x ∷ t) same = rw (same x, exists_same p q t same) refl

the {ℓ} : (A : Type ℓ) → A → A
the A a = a

twice : (p q : Bool) → (p && (p && q)) ≡ (p && q)
twice true q = refl
twice false q = refl

in_exists :
    (p : String → Bool) (k : String) (t : List String)
    → p k ≡ true
    → is_in t k ≡ true
    → exists_where p t ≡ true
in_exists p k [] h m = absurd (ground arith)
in_exists p k (x ∷ t) h m = elim (Bool-cases (str_eq k x)) [
  | inl this ↦ rw (the (p x ≡ true) (subst (λ j. p j ≡ true) ((eq_iff k x).0 this) h)) refl
  | inr other ↦ rw (in_exists p k t h (ground arith)) (ground arith)
]

exists-distinct :
    (p : String → Bool) (t : List String) → exists_where p (distinct t) ≡ exists_where p t
exists-distinct p [] = refl
exists-distinct p (x ∷ t) = elim (Bool-cases (is_in (distinct t) x)) [
  | inr new ↦ rw new (ground (arith, exists-distinct p t))
  | inl old ↦ elim (Bool-cases (p x)) [
    | inr other ↦ rw (old, other) (exists-distinct p t)
    | inl this ↦ rw (old, this) (in_exists p x (distinct t) this old)
  ]
]

pub in-present :
    (k : String) (t : List String) → is_in (present_keys t) k ≡ (is_present k && is_in t k)
in-present k [] = ground arith
in-present k (x ∷ t) = elim (Bool-cases (str_eq k x)) [
  | inl this ↦
      let e : k ≡ x = (eq_iff k x).0 this in
      elim (Bool-cases (is_present x)) [
        | inl present ↦ rw (present, this, e, present) refl
        | inr blank ↦ rw (blank, in-present k t, e, blank) refl
      ]
  | inr other ↦ elim (Bool-cases (is_present x)) [
    | inl e ↦ rw (e, other) (in-present k t)
    | inr e ↦ rw (e, other) (in-present k t)
  ]
]

-- The keys of a request, as they are resolved.
pub in-sorted :
    (k : String) (t : List String)
    → is_in (sorted_keys (present_keys t)) k ≡ is_in (present_keys t) k
in-sorted k t =
    exists-order (str_eq k) text_before (distinct (present_keys t))
    ∙ exists-distinct (str_eq k) (present_keys t)

module _ (fk : List String) (c : Cases) where
  -- What the resolved keys match.
  pub matched_same :
      (f : StoredFinding)
      → is_matched (present_keys (sorted_keys (present_keys fk))) f ≡ is_matched (present_keys fk) f
  matched_same f =
      rw
        (
          in-present f.finding_key (sorted_keys (present_keys fk)),
          in-present (case_key_of f) (sorted_keys (present_keys fk)),
          in-sorted f.finding_key fk,
          in-sorted (case_key_of f) fk,
          in-present f.finding_key fk,
          in-present (case_key_of f) fk,
        )
        (rw
          (
            twice (is_present f.finding_key) (is_in fk f.finding_key),
            twice (is_present (case_key_of f)) (is_in fk (case_key_of f)),
          )
          refl)

  pub reviewed_same :
      (k : String)
      → is_reviewed (sorted_keys (present_keys fk)) k c.findings ≡ is_reviewed fk k c.findings
  reviewed_same k =
      ap (λ b. is_present k && b)
        (exists_same _ _ c.findings (λ f. ap (λ b. b && str_eq (case_key_of f) k) (matched_same f)))

  pub keys-present :
      exists_where is_present fk ≡ true
      → exists_where is_present (sorted_keys (present_keys fk)) ≡ true
  keys-present h =
      exists-order is_present text_before (distinct (present_keys fk))
      ∙ exists-distinct is_present (present_keys fk)
      ∙ exists-select is_present is_present fk
      ∙ exists_same _ is_present fk (λ x. ground arith)
      ∙ h

pub in-delete :
    (m : String → Bool) (k : String) (t : List String)
    → is_in (delete_where m t) k ≡ (is_in t k && not (m k))
in-delete m k [] = refl
in-delete m k (x ∷ t) = elim (Bool-cases (str_eq k x)) [
  | inl this ↦
      let e : m k ≡ m x = ap m ((eq_iff k x).0 this) in
      elim (Bool-cases (m x)) [
        | inl gone ↦ rw (gone, in-delete m k t, e, gone) (ground arith)
        | inr kept ↦ rw (kept, this, e, kept) refl
      ]
  | inr other ↦ elim (Bool-cases (m x)) [
    | inl gone ↦ rw (gone, other) (in-delete m k t)
    | inr kept ↦ rw (kept, other) (in-delete m k t)
  ]
]
