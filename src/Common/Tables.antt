-- ===== src/Common/Tables.antt =====
-- A database table as the list of its rows: what the SQL statements of the repositories do to it.
use Prim.Native.Nat.{ℕ, suc}
use mathlib.Core.Bool.{Bool, true, false, not}
use mathlib.Core.Option.{Option, none, some}
use mathlib.Core.List.{List, [], ◌∷◌}
use fraudhunter.Common.Tests.{if◌then◌else◌}

module _ {ℓ} {A : Type ℓ} where
  -- `SELECT COUNT(*) … WHERE test`
  abbrev pub count_where : (A → Bool) → List A → ℕ
  count_where test [] = 0
  count_where test (x ∷ xs) = if test x then suc (count_where test xs) else count_where test xs

  -- `UPDATE … SET … WHERE test`
  abbrev pub update_where : (A → Bool) → (A → A) → List A → List A
  update_where test set [] = []
  update_where test set (x ∷ xs) = (if test x then set x else x) ∷ update_where test set xs

  -- `SELECT … WHERE test`
  abbrev pub select_where : (A → Bool) → List A → List A
  select_where test [] = []
  select_where test (x ∷ xs) = let rest = select_where test xs in if test x then x ∷ rest else rest

  -- `DELETE … WHERE test`
  abbrev pub delete_where : (A → Bool) → List A → List A
  delete_where test = select_where (λ x. not (test x))

  abbrev pub exists_where : (A → Bool) → List A → Bool
  exists_where test [] = false
  exists_where test (x ∷ xs) = if test x then true else exists_where test xs

  -- `SELECT … WHERE key = …`, of a table in which the key is unique
  abbrev pub find_where : (A → Bool) → List A → Option A
  find_where test [] = none
  find_where test (x ∷ xs) = if test x then some x else find_where test xs

  -- `… ORDER BY … LIMIT 1`: a row that no other row stands strictly before. SQL leaves the choice
  -- among ties open; this takes the first.
  abbrev pub first_by : (A → A → Bool) → List A → Option A
  first_by before [] = none
  first_by before (x ∷ xs) = elim (first_by before xs) [
    | none ↦ some x
    | some y ↦ some (if before y x then y else x)
  ]

  abbrev pub insert_by : (A → A → Bool) → A → List A → List A
  insert_by before x [] = x ∷ []
  insert_by before x (y ∷ ys) =
      let rest = insert_by before x ys in if before y x then y ∷ rest else x ∷ y ∷ ys

  -- `ORDER BY`
  abbrev pub order_by : (A → A → Bool) → List A → List A
  order_by before [] = []
  order_by before (x ∷ xs) = insert_by before x (order_by before xs)
