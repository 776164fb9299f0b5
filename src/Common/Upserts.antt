-- ===== src/Common/Upserts.antt =====
-- `INSERT … ON CONFLICT (key) DO UPDATE` on a table with a key, and what it does to the row of each key.
use Prim.Native.Nat.{◌≤◌}
use mathlib.Core.Path.{◌≡◌, refl, subst, ap, ◌∙◌}
use mathlib.Core.Logic.{inl, inr}
use mathlib.Core.Bool.{Bool, true, false}
use mathlib.Core.Option.{Option, none, some}
use mathlib.Core.List.{List, [], ◌∷◌, ◌++◌}
use native.Mathlib.Omega.{arith}
use fraudhunter.Common.Tests.{if◌then◌else◌, Bool-cases}
use fraudhunter.Common.Tables.{count_where, update_where, exists_where, find_where}
use fraudhunter.Common.Updates.{count-append, count_of_not_exists, count-update_same}

module _ {ℓ} {A : Type ℓ} where
  -- The row is inserted, or the row in conflict with it is merged.
  abbrev pub upsert_where : (A → Bool) → (A → A) → A → List A → List A
  upsert_where conflicts merge row t =
      if exists_where conflicts t then update_where conflicts merge t else t ++ row ∷ []

  -- The row that an upsert leaves, of the one that was there.
  abbrev pub merged : (A → A) → A → Option A → A
  merged merge row none = row
  merged merge row (some x) = merge x

  pub find-append :
      (q : A → Bool) (s t : List A)
      → exists_where q s ≡ false
      → find_where q (s ++ t) ≡ find_where q t
  find-append q [] t h = refl
  find-append q (x ∷ s) t h = ground (arith, find-append q s t)

  pub find_none : (q : A → Bool) (t : List A) → exists_where q t ≡ false → find_where q t ≡ none
  find_none q [] h = refl
  find_none q (x ∷ t) h = ground (arith, find_none q t)

  pub find-append_left :
      (q : A → Bool) (s t : List A)
      → exists_where q t ≡ false
      → find_where q (s ++ t) ≡ find_where q s
  find-append_left q [] t h = find_none q t h
  find-append_left q (x ∷ s) t h = ground (arith, find-append_left q s t)

  find-update_other :
      (q test : A → Bool) (set : A → A) (t : List A)
      → ((x : A) → test x ≡ true → (q x ≡ false) × (q (set x) ≡ false))
      → find_where q (update_where test set t) ≡ find_where q t
  find-update_other q test set [] apart = refl
  find-update_other q test set (x ∷ t) apart =
      ground (arith, apart x, find-update_other q test set t apart)

  find-update_merged :
      (q : A → Bool) (merge : A → A) (row : A) (t : List A)
      → ((x : A) → q (merge x) ≡ q x)
      → exists_where q t ≡ true
      → find_where q (update_where q merge t) ≡ some (merged merge row (find_where q t))
  find-update_merged q merge row [] keeps h = absurd (ground arith)
  find-update_merged q merge row (x ∷ t) keeps h =
      ground (arith, keeps x, find-update_merged q merge row t keeps)

  find-last : (q : A → Bool) (row : A) → q row ≡ true → find_where q (row ∷ []) ≡ some row
  find-last q row h = ground arith

-- A table with a key: `key`, and the comparison of keys.
module _ {ℓ κ} {A : Type ℓ} {K : Type κ} (key : A → K) (same : K → K → Bool) where
  abbrev pub has : K → A → Bool
  has k x = same (key x) k

  -- What the comparison must satisfy.
  pub record IsKey : Type κ where
    pub sound : (a b : K) → same a b ≡ true → a ≡ b
    pub self : (a : K) → same a a ≡ true

  abbrev pub upsert : (A → A) → A → List A → List A
  upsert merge row = upsert_where (has (key row)) merge row

  abbrev pub HasUniqueKeys : List A → Type κ
  HasUniqueKeys t = (k : K) → count_where (has k) t ≤ 1

  module _ (laws : IsKey) (merge : A → A) (keeps : (x : A) → key (merge x) ≡ key x) (row : A) where
    -- The key of the row has the merged row, and every other key the row that it had.
    pub find-upsert :
        (t : List A) (k : K)
        → find_where (has k) (upsert merge row t) ≡ (
            if same (key row) k
            then some (merged merge row (find_where (has k) t))
            else find_where (has k) t)
    find-upsert t k = elim (Bool-cases (same (key row) k)) [
      | inl this ↦
          let e : key row ≡ k = laws.sound (key row) k this in
          subst
            (λ j. find_where (has j) (upsert merge row t) ≡ (
              if same (key row) j
              then some (merged merge row (find_where (has j) t))
              else find_where (has j) t))
            e
            (rw (laws.self (key row)) (elim (Bool-cases (exists_where (has (key row)) t)) [
              | inl old ↦ rw old (
                  find-update_merged (has (key row)) merge row t
                    (λ x. ap (λ j. same j (key row)) (keeps x)) old)
              | inr new ↦ rw new (
                  rw (find_none (has (key row)) t new) (
                    find-append (has (key row)) t (row ∷ []) new
                    ∙ find-last (has (key row)) row (laws.self (key row))))
            ]))
      | inr other ↦ rw other (elim (Bool-cases (exists_where (has (key row)) t)) [
        | inl old ↦ rw old (
            find-update_other (has k) (has (key row)) merge t (λ x h.
              let e : key x ≡ key row = laws.sound (key x) (key row) h in
              let out : same (key x) k ≡ false = ap (λ j. same j k) e ∙ other in
              (out, ap (λ j. same j k) (keeps x) ∙ out)))
        | inr new ↦ rw new (find-append_left (has k) t (row ∷ []) (ground arith))
      ])
    ]

    pub upsert-HasUniqueKeys : (t : List A) → HasUniqueKeys t → HasUniqueKeys (upsert merge row t)
    upsert-HasUniqueKeys t unique k = elim (Bool-cases (exists_where (has (key row)) t)) [
      | inl old ↦ rw old (
          omega (
            arith,
            count-update_same (has k) (has (key row)) merge t (λ x. ap (λ j. same j k) (keeps x)),
            unique k,
          ))
      | inr new ↦
          let added = count-append (has k) t (row ∷ []) in
          rw new (elim (Bool-cases (same (key row) k)) [
            | inl this ↦
                let absent : count_where (has k) t ≡ 0 =
                  subst (λ j. count_where (has j) t ≡ 0) (laws.sound (key row) k this)
                    (count_of_not_exists (has (key row)) t new) in
                ground (arith, added)
            | inr other ↦ ground (arith, added, unique k)
          ])
    ]
