-- ===== src/Common/Choice.antt =====
-- `ORDER BY … LIMIT 1`: the row that `first_by` chooses.
use Prim.Native.Nat.{◌≤◌}
use fraudhunter.Common.Tests.{Bool-cases, Option-cases}
use fraudhunter.Common.Lists.{All}
use fraudhunter.Common.Tables.{select_where, first_by, count_where, find_where}
use fraudhunter.Common.Updates.{All-imp, All-of_none}
use mathlib.Core.Path.{◌≡◌, refl, subst, sym, ap}
use mathlib.Core.Logic.{inl, inr}
use mathlib.Core.Bool.{Bool, true, false}
use mathlib.Core.Option.{none, some}
use mathlib.Core.List.{List, [], ◌∷◌, Memᴰ}
use native.Mathlib.Omega.{arith}

module _ {ℓ} {A : Type ℓ} where
  -- Membership in a longer list with the same head.
  mem-cons_map :
      {a : A} (x : A) {s t : List A} → (Memᴰ a s → Memᴰ a t) → Memᴰ a (x ∷ s) → Memᴰ a (x ∷ t)
  mem-cons_map x f (Memᴰ.head e) = Memᴰ.head e
  mem-cons_map x f (Memᴰ.tail m) = Memᴰ.tail (f m)

  pub select-mem : {a : A} (test : A → Bool) (t : List A) → Memᴰ a (select_where test t) → Memᴰ a t
  select-mem test [] m = m
  select-mem test (x ∷ t) m = elim (Bool-cases (test x)) [
    | inl e ↦ mem-cons_map x (select-mem test t) (rw e at m)
    | inr e ↦ Memᴰ.tail (select-mem test t (rw e at m))
  ]

  -- What holds of the selected rows holds of all rows that pass the test.
  pub All-of_select {κ} :
      (P : A → Type κ) (test : A → Bool) (t : List A)
      → All P (select_where test t)
      → All (λ x. test x ≡ true → P x) t
  All-of_select P test [] h = tt
  All-of_select P test (x ∷ t) h = elim (Bool-cases (test x)) [
    | inl e ↦
        let h' : All P (x ∷ select_where test t) = rw e at h in
        (λ _. h'.0, All-of_select P test t h'.1)
    | inr e ↦ (λ e'. absurd (ground arith), All-of_select P test t (rw e at h))
  ]

  pub select_nil :
      (test : A → Bool) (t : List A) → select_where test t ≡ [] → All (λ x. test x ≡ false) t
  select_nil test [] h = tt
  select_nil test (x ∷ t) h = (ground arith, select_nil test t (ground arith))

  pub count_pos_of_mem :
      (q : A → Bool) (a : A) (t : List A) → Memᴰ a t → q a ≡ true → 1 ≤ count_where q t
  count_pos_of_mem q a [] m e = elim m [ ]
  count_pos_of_mem q a (x ∷ t) (Memᴰ.head h) e = ground (arith, ap q h)
  count_pos_of_mem q a (x ∷ t) (Memᴰ.tail m) e = ground (arith, count_pos_of_mem q a t m e)

  -- A row that passes the test is the only one, if no two rows do.
  pub mem_unique :
      (q : A → Bool) (a : A) (t : List A)
      → count_where q t ≤ 1
      → Memᴰ a t
      → q a ≡ true
      → All (λ x. q x ≡ true → x ≡ a) t
  mem_unique q a [] few m e = tt
  mem_unique q a (x ∷ t) few (Memᴰ.head h) e =
      let passes : q x ≡ true = ground (arith, ap q h) in
      (λ _. sym h, All-of_none q (λ r. r ≡ a) t (ground arith))
  mem_unique q a (x ∷ t) few (Memᴰ.tail m) e =
      let some_left : 1 ≤ count_where q t = count_pos_of_mem q a t m e in
      (λ e'. absurd (ground arith), mem_unique q a t (ground arith) m e)

  pub find_of_mem :
      (q : A → Bool) (a : A) (t : List A)
      → Memᴰ a t
      → q a ≡ true
      → All (λ x. q x ≡ true → x ≡ a) t
      → find_where q t ≡ some a
  find_of_mem q a [] m e only = elim m [ ]
  find_of_mem q a (x ∷ t) m e only = elim (Bool-cases (q x)) [
    | inl here ↦ rw here (ap some (only.0 here))
    | inr there ↦ rw there (find_of_mem q a t (later m there) e only.1)
  ]
    where
      later : Memᴰ a (x ∷ t) → q x ≡ false → Memᴰ a t
      later (Memᴰ.head h) f = absurd (ground (arith, ap q h))
      later (Memᴰ.tail r) f = r

  pub first_by-none : (before : A → A → Bool) (t : List A) → first_by before t ≡ none → t ≡ []
  first_by-none before [] h = refl
  first_by-none before (x ∷ t) h = ground arith

  pub first_by-mem :
      (before : A → A → Bool) (t : List A) {a : A} → first_by before t ≡ some a → Memᴰ a t
  first_by-mem before [] h = ground arith
  first_by-mem before (x ∷ t) h = elim (Option-cases (first_by before t)) [
    | inl e ↦ Memᴰ.head (ground arith)
    | inr (y, e) ↦ elim (Bool-cases (before y x)) [
      | inl b ↦ Memᴰ.tail (first_by-mem before t (ground arith))
      | inr b ↦ Memᴰ.head (ground arith)
    ]
  ]

  -- No row stands before the chosen one, if `before` is a strict weak order.
  pub first_by-least :
      (before : A → A → Bool)
      → ((x y : A) → before x y ≡ true → before y x ≡ false)
      → ((x y z : A) → before x y ≡ false → before y z ≡ false → before x z ≡ false)
      → (t : List A) (a : A) → first_by before t ≡ some a
      → All (λ x. before x a ≡ false) t
  first_by-least before asym trans [] a h = tt
  first_by-least before asym trans (x ∷ t) a h =
      let irrefl : before x x ≡ false = ground (arith, asym x x) in
      elim (Option-cases (first_by before t)) [
        | inl e ↦
            let here : x ≡ a = ground arith in
            subst (λ v. All (λ r. before r v ≡ false) (x ∷ t)) here
              (irrefl, rw (first_by-none before t e) tt)
        | inr (y, e) ↦ elim (Bool-cases (before y x)) [
          | inl b ↦
              let there : y ≡ a = ground arith in
              subst (λ v. All (λ r. before r v ≡ false) (x ∷ t)) there
                (asym y x b, first_by-least before asym trans t y e)
          | inr b ↦
              let here : x ≡ a = ground arith in
              subst (λ v. All (λ r. before r v ≡ false) (x ∷ t)) here
                (
                  irrefl,
                  All-imp (λ r. before r y ≡ false) (λ r. before r x ≡ false) t
                      (λ r c. trans r y x c b) (first_by-least before asym trans t y e),
                )
        ]
      ]
