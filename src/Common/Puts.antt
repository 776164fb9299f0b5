-- ===== src/Common/Puts.antt =====
-- An `executemany` of `INSERT … ON CONFLICT (key) DO UPDATE`: the upsert of each row, in order.
use Prim.Native.Nat.{◌≤◌}
use mathlib.Core.Path.{◌≡◌, refl, sym, subst, ap, ◌∙◌}
use mathlib.Core.Logic.{inl, inr}
use mathlib.Core.Bool.{Bool, true, false, not}
use mathlib.Core.Option
use mathlib.Core.Option.{Option, none, some}
use mathlib.Core.List.{List, [], ◌∷◌, ◌++◌}
use native.Mathlib.Omega.{arith}
use fraudhunter.Common.Tests.{if◌then◌else◌, Bool-cases, Option-cases}
use fraudhunter.Common.Lists.{All, All-append}
use fraudhunter.Common.Tables.{exists_where, update_where, delete_where, find_where}
use fraudhunter.Common.Updates.{
  count-update_same, count-select-le, find_passes, All-update, All-of_forall,
}
use fraudhunter.Common.Upserts.{
  has, IsKey, upsert, merged, HasUniqueKeys, find-upsert, upsert-HasUniqueKeys,
}

module _ {ℓ} {A : Type ℓ} where
  abbrev pub or_else : Option A → Option A → Option A
  or_else none o = o
  or_else (some a) o = some a

  -- The last row that passes the test.
  abbrev pub last_where : (A → Bool) → List A → Option A
  last_where q [] = none
  last_where q (x ∷ xs) = or_else (last_where q xs) (if q x then some x else none)

  pub or_else_assoc : (a b c : Option A) → or_else (or_else a b) c ≡ or_else a (or_else b c)
  or_else_assoc none b c = refl
  or_else_assoc (some a) b c = refl

  pub last-append :
      (q : A → Bool) (s t : List A)
      → last_where q (s ++ t) ≡ or_else (last_where q t) (last_where q s)
  last-append q [] t = elim (Option-cases (last_where q t)) [
    | inl e ↦ rw e refl
    | inr (x, e) ↦ rw e refl
  ]
  last-append q (x ∷ s) t =
      rw (last-append q s t)
        (or_else_assoc (last_where q t) (last_where q s) (if q x then some x else none))

module _ {ℓ κ} {A : Type ℓ} {K : Type κ} (key : A → K) (same : K → K → Bool) where
  abbrev pub upsert_all : (put : A → A → A) → List A → List A → List A
  upsert_all put [] t = t
  upsert_all put (row ∷ rows) t = upsert_all put rows (upsert key same (put row) row t)

  -- An update that keeps the keys keeps them unique.
  pub update-HasUniqueKeys :
      (test : A → Bool) (set : A → A) (t : List A)
      → ((x : A) → key (set x) ≡ key x)
      → HasUniqueKeys key same t
      → HasUniqueKeys key same (update_where test set t)
  update-HasUniqueKeys test set t keeps unique k =
      subst (λ n. n ≤ 1)
        (sym (count-update_same (has key same k) test set t (λ x. ap (λ j. same j k) (keeps x))))
        (unique k)

  -- So does a deletion.
  pub delete-HasUniqueKeys :
      (test : A → Bool) (t : List A)
      → HasUniqueKeys key same t
      → HasUniqueKeys key same (delete_where test t)
  delete-HasUniqueKeys test t unique k =
      omega (arith, count-select-le (has key same k) (λ x. not (test x)) t, unique k)

  module _ (laws : IsKey key same) (put : A → A → A)
      (keeps : (row old : A) → key (put row old) ≡ key old) where
    pub upsert_all-HasUniqueKeys :
        (rows t : List A)
        → HasUniqueKeys key same t
        → HasUniqueKeys key same (upsert_all put rows t)
    upsert_all-HasUniqueKeys [] t unique = unique
    upsert_all-HasUniqueKeys (row ∷ rows) t unique =
        upsert_all-HasUniqueKeys rows _
          (upsert-HasUniqueKeys key same laws (put row) (keeps row) row t unique)

    module _ (replaces : (row old : A) → key old ≡ key row → put row old ≡ row) where
      merged_row :
          (row : A) (k : K) (o : Option A)
          → key row ≡ k
          → ((a : A) → o ≡ some a → same (key a) k ≡ true)
          → merged (put row) row o ≡ row
      merged_row row k none e h = refl
      merged_row row k (some a) e h = replaces row a (laws.sound (key a) k (h a refl) ∙ sym e)

      one_put :
          (row : A) (t : List A) (k : K)
          → find_where (has key same k) (upsert key same (put row) row t)
            ≡ or_else (if same (key row) k then some row else none) (find_where (has key same k) t)
      one_put row t k =
          find-upsert key same laws (put row) (keeps row) row t k
          ∙ elim (Bool-cases (same (key row) k)) [
            | inl this ↦ rw this (
                ap (λ x. some x)
                  (merged_row row k (find_where (has key same k) t) (laws.sound (key row) k this)
                    (find_passes (has key same k) t)))
            | inr other ↦ rw other refl
          ]

      -- The row of a key is the last one that was put under it, or the one that it had.
      pub find-upsert_all :
          (rows t : List A) (k : K)
          → find_where (has key same k) (upsert_all put rows t)
            ≡ or_else (last_where (has key same k) rows) (find_where (has key same k) t)
      find-upsert_all [] t k = refl
      find-upsert_all (row ∷ rows) t k =
          find-upsert_all rows _ k
          ∙ ap (or_else (last_where (has key same k) rows)) (one_put row t k)
          ∙ sym (
              or_else_assoc (last_where (has key same k) rows)
                (if same (key row) k then some row else none) (find_where (has key same k) t))

pub if_same {ℓ} : {B : Type ℓ} (c : Bool) (y : B) → (if c then y else y) ≡ y
if_same true y = refl
if_same false y = refl

module _ {ℓ} {A : Type ℓ} where
  -- What an update that keeps `q` does to the row that is found.
  pub find-update :
      (q test : A → Bool) (set : A → A) (t : List A)
      → ((x : A) → q (set x) ≡ q x)
      → find_where q (update_where test set t)
        ≡ Option.map (λ x. if test x then set x else x) (find_where q t)
  find-update q test set [] keeps = refl
  find-update q test set (x ∷ t) keeps = elim (Bool-cases (test x)) [
    | inl e ↦ elim (Bool-cases (q x)) [
      | inl f ↦ rw (e, keeps x, f, e) refl
      | inr f ↦ rw (e, keeps x, f) (find-update q test set t keeps)
    ]
    | inr e ↦ elim (Bool-cases (q x)) [
      | inl f ↦ rw (e, f, e) refl
      | inr f ↦ rw (e, f) (find-update q test set t keeps)
    ]
  ]

  -- Where all rows have one value, the last that passes has it.
  pub last_value {κ} :
      {B : Type κ} (value : A → B) (b : B) (q : A → Bool) (t : List A) (o : Option A)
      → All (λ x. value x ≡ b) t
      → Option.map value (or_else (last_where q t) o)
        ≡ (if exists_where q t then some b else Option.map value o)
  last_value value b q [] o h = refl
  last_value value b q (x ∷ t) o h = elim (Bool-cases (q x)) [
    | inl e ↦ rw e (
        ap (Option.map value) (or_else_assoc (last_where q t) (some x) o)
        ∙ last_value value b q t (some x) h.1
        ∙ rw h.0 (if_same (exists_where q t) (some b)))
    | inr e ↦ rw e (
        ap (Option.map value) (or_else_assoc (last_where q t) none o)
        ∙ last_value value b q t o h.1)
  ]

module _ {ℓ κ μ} {A : Type ℓ} {K : Type κ} (P : A → Type μ) (key : A → K)
    (same : K → K → Bool) where
  All-upsert :
      (merge : A → A) (row : A) (t : List A)
      → ((x : A) → P x → P (merge x))
      → P row
      → All P t
      → All P (upsert key same merge row t)
  All-upsert merge row t keeps new h = elim (Bool-cases (exists_where (has key same (key row)) t)) [
    | inl old ↦
        rw old
          (All-update P (has key same (key row)) merge t (All-of_forall _ t (λ x _. keeps x)) h)
    | inr fresh ↦ rw fresh (All-append P t (row ∷ []) h (new, tt))
  ]

  pub All-upsert_all :
      (put : A → A → A) (rows t : List A)
      → ((row x : A) → P row → P x → P (put row x))
      → All P rows
      → All P t
      → All P (upsert_all key same put rows t)
  All-upsert_all put [] t keeps new h = h
  All-upsert_all put (row ∷ rows) t keeps new h =
      All-upsert_all put rows _ keeps new.1
        (All-upsert (put row) row t (λ x. keeps row x new.0) new.0 h)
