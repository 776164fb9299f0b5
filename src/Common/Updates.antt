-- ===== src/Common/Updates.antt =====
-- What the statements of `Tables` do to the counts of rows and to a predicate on all rows.
use fraudhunter.Common.Tests.{if◌then◌else◌, Bool-cases}
use fraudhunter.Common.Lists.{length, All}
use fraudhunter.Common.Tables.{count_where, update_where, select_where, exists_where, find_where}
use Prim.Native.Nat.{◌+◌, ◌≤◌}
use mathlib.Core.Path.{◌≡◌, refl, ap}
use mathlib.Core.Logic.{inl, inr}
use mathlib.Core.Bool.{Bool, true, false, not}
use mathlib.Core.Option.{some}
use mathlib.Core.List.{List, [], ◌∷◌, ◌++◌, Memᴰ}
use native.Mathlib.Omega.{arith}

module _ {ℓ κ} {A : Type ℓ} where
  -- Where no row passes the test, what holds of the rows that do holds of all.
  pub All-of_none :
      (q : A → Bool) (P : A → Type κ) (t : List A)
      → count_where q t ≡ 0
      → All (λ x. q x ≡ true → P x) t
  All-of_none q P [] h = tt
  All-of_none q P (x ∷ t) h = elim (Bool-cases (q x)) [
    | inl e ↦ absurd (ground arith)
    | inr e ↦ (λ e'. absurd (ground arith), All-of_none q P t (ground arith))
  ]

  pub All-of_forall : (P : A → Type κ) (t : List A) → ((x : A) → P x) → All P t
  All-of_forall P [] f = tt
  All-of_forall P (x ∷ t) f = (f x, All-of_forall P t f)

module _ {ℓ} {A : Type ℓ} where
  -- An update that makes no row pass `q` leaves no more rows that pass it.
  pub count-update-le :
      (q test : A → Bool) (set : A → A) (t : List A)
      → ((x : A) → test x ≡ true → q (set x) ≡ true → q x ≡ true)
      → count_where q (update_where test set t) ≤ count_where q t
  count-update-le q test set [] keeps = omega arith
  count-update-le q test set (x ∷ t) keeps =
      ground (arith, keeps x, count-update-le q test set t keeps)

  -- The same, where the rows of the table have the property that keeps `q` from being made true.
  pub count-update-le_of_All :
      (q test : A → Bool) (set : A → A) (t : List A)
      → All (λ x. test x ≡ true → q (set x) ≡ true → q x ≡ true) t
      → count_where q (update_where test set t) ≤ count_where q t
  count-update-le_of_All q test set [] keeps = omega arith
  count-update-le_of_All q test set (x ∷ t) keeps =
      ground (arith, keeps.0, count-update-le_of_All q test set t keeps.1)

  -- A row that is found is the only one, if no two rows pass the test.
  pub find_unique :
      (q : A → Bool) (t : List A) (a : A)
      → count_where q t ≤ 1
      → find_where q t ≡ some a
      → All (λ x. q x ≡ true → x ≡ a) t
  find_unique q [] a few h = tt
  find_unique q (x ∷ t) a few h = elim (Bool-cases (q x)) [
    | inl e ↦ (λ _. ground arith, All-of_none q (λ r. r ≡ a) t (ground arith))
    | inr e ↦ (λ e'. ground arith, find_unique q t a (ground arith) (ground arith))
  ]

  -- An update that changes `q` in no row leaves as many rows that pass it.
  pub count-update_same :
      (q test : A → Bool) (set : A → A) (t : List A)
      → ((x : A) → q (set x) ≡ q x)
      → count_where q (update_where test set t) ≡ count_where q t
  count-update_same q test set [] same = refl
  count-update_same q test set (x ∷ t) same =
      ground (arith, same x, count-update_same q test set t same)

  -- An update adds to the rows that pass `q` at most the rows that it changes.
  pub count-update-le_add :
      (q test : A → Bool) (set : A → A) (t : List A)
      → count_where q (update_where test set t) ≤ count_where q t + count_where test t
  count-update-le_add q test set [] = omega arith
  count-update-le_add q test set (x ∷ t) = ground (arith, count-update-le_add q test set t)

  pub count-append :
      (q : A → Bool) (s t : List A) → count_where q (s ++ t) ≡ count_where q s + count_where q t
  count-append q [] t = omega arith
  count-append q (x ∷ s) t = ground (arith, count-append q s t)

  pub All-of_not_exists :
      (q : A → Bool) (t : List A) → exists_where q t ≡ false → All (λ x. q x ≡ false) t
  All-of_not_exists q [] h = tt
  All-of_not_exists q (x ∷ t) h = (ground arith, All-of_not_exists q t (ground arith))

  pub count-select-le :
      (q test : A → Bool) (t : List A) → count_where q (select_where test t) ≤ count_where q t
  count-select-le q test [] = omega arith
  count-select-le q test (x ∷ t) = ground (arith, count-select-le q test t)

  pub count_of_not_exists :
      (q : A → Bool) (t : List A) → exists_where q t ≡ false → count_where q t ≡ 0
  count_of_not_exists q [] h = refl
  count_of_not_exists q (x ∷ t) h = ground (arith, count_of_not_exists q t)

  pub not_exists_of_count :
      (q : A → Bool) (t : List A) → count_where q t ≡ 0 → exists_where q t ≡ false
  not_exists_of_count q [] h = refl
  not_exists_of_count q (x ∷ t) h = ground (arith, not_exists_of_count q t)

  -- After an update of the rows that pass the test, the row that is found is the updated one.
  pub find-update_self :
      (q : A → Bool) (set : A → A) (t : List A) (a : A)
      → ((x : A) → q (set x) ≡ q x)
      → find_where q t ≡ some a
      → find_where q (update_where q set t) ≡ some (set a)
  find-update_self q set [] a same h = ground arith
  find-update_self q set (x ∷ t) a same h = elim (Bool-cases (q x)) [
    | inl e ↦ let this : x ≡ a = ground arith in rw (e, same x, e) (ap (λ v. some (set v)) this)
    | inr e ↦ rw (e, e) (find-update_self q set t a same (ground arith))
  ]

  pub find-mem : (q : A → Bool) (t : List A) {a : A} → find_where q t ≡ some a → Memᴰ a t
  find-mem q [] h = ground arith
  find-mem q (x ∷ t) h = elim (Bool-cases (q x)) [
    | inl found ↦ Memᴰ.head (ground arith)
    | inr other ↦ Memᴰ.tail (find-mem q t (ground arith))
  ]

  pub find_passes : (q : A → Bool) (t : List A) (a : A) → find_where q t ≡ some a → q a ≡ true
  find_passes q [] a h = ground arith
  find_passes q (x ∷ t) a h = ground (arith, find_passes q t a)

module _ {ℓ κ} {A : Type ℓ} (P : A → Type κ) where
  pub All-update :
      (test : A → Bool) (set : A → A) (t : List A)
      → All (λ x. test x ≡ true → P x → P (set x)) t
      → All P t
      → All P (update_where test set t)
  All-update test set [] keeps h = h
  All-update test set (x ∷ t) keeps h = elim (Bool-cases (test x)) [
    | inl e ↦ rw e (keeps.0 e h.0, All-update test set t keeps.1 h.1)
    | inr e ↦ rw e (h.0, All-update test set t keeps.1 h.1)
  ]

  pub All-updated :
      (test : A → Bool) (set : A → A) (t : List A)
      → ((x : A) → P (if test x then set x else x))
      → All P (update_where test set t)
  All-updated test set [] h = tt
  All-updated test set (x ∷ t) h = (h x, All-updated test set t h)

  pub All-select : (test : A → Bool) (t : List A) → All P t → All P (select_where test t)
  All-select test [] h = h
  All-select test (x ∷ t) h = elim (Bool-cases (test x)) [
    | inl e ↦ rw e (h.0, All-select test t h.1)
    | inr e ↦ rw e (All-select test t h.1)
  ]

module _ {ℓ} {A : Type ℓ} where
  -- What holds of every row after an update, said of the rows before it.
  pub All-of_update {κ} :
      (P : A → Type κ) (test : A → Bool) (set : A → A) (t : List A)
      → All P (update_where test set t)
      → All (λ x. P (if test x then set x else x)) t
  All-of_update P test set [] h = tt
  All-of_update P test set (x ∷ t) h = (h.0, All-of_update P test set t h.1)

  pub count_zero_of_All :
      (test : A → Bool) (t : List A) → All (λ x. test x ≡ false) t → count_where test t ≡ 0
  count_zero_of_All test [] h = refl
  count_zero_of_All test (x ∷ t) h = ground (arith, h.0, count_zero_of_All test t h.1)

  pub not_exists_of_All :
      (test : A → Bool) (t : List A) → All (λ x. test x ≡ false) t → exists_where test t ≡ false
  not_exists_of_All test [] h = refl
  not_exists_of_All test (x ∷ t) h = ground (arith, h.0, not_exists_of_All test t h.1)

  pub length-delete :
      (test : A → Bool) (t : List A)
      → length (select_where (λ x. not (test x)) t) + count_where test t ≡ length t
  length-delete test [] = refl
  length-delete test (x ∷ t) = ground (arith, length-delete test t)

  pub count-select_of_All :
      (q test : A → Bool) (t : List A)
      → All (λ x. q x ≡ true → test x ≡ true) t
      → count_where q (select_where test t) ≡ count_where q t
  count-select_of_All q test [] h = refl
  count-select_of_All q test (x ∷ t) h = ground (arith, h.0, count-select_of_All q test t h.1)

  pub select_passes :
      (test : A → Bool) (t : List A) → All (λ x. test x ≡ true) (select_where test t)
  select_passes test [] = tt
  select_passes test (x ∷ t) = elim (Bool-cases (test x)) [
    | inl e ↦ rw e (e, select_passes test t)
    | inr e ↦ rw e (select_passes test t)
  ]

module _ {ℓ κ} {A : Type ℓ} (P Q : A → Type κ) where
  pub All-imp : (t : List A) → ((x : A) → P x → Q x) → All P t → All Q t
  All-imp [] f h = h
  All-imp (x ∷ t) f h = (f x h.0, All-imp t f h.1)

module _ {ℓ κ μ ν} {A : Type ℓ} (P : A → Type κ) (Q : A → Type μ) (R : A → Type ν) where
  pub All-zip : (t : List A) → ((x : A) → P x → Q x → R x) → All P t → All Q t → All R t
  All-zip [] f h k = tt
  All-zip (x ∷ t) f h k = (f x h.0 k.0, All-zip t f h.1 k.1)
