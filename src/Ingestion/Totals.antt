-- ===== src/Ingestion/Totals.antt =====
-- What the daily tables count, and the upsert.
use fraudhunter.Common.{
  ℕ, ◌+◌, ◌≤◌, Bool, true, List, [], ◌∷◌, ◌++◌, ◌≡◌, refl, ap, subst, arith, inl, inr, Bool-cases,
  eq_iff, if◌then◌else◌, count_where, update_where, exists_where, count-append, count_of_not_exists,
  count-update_same, All, All-update, All-append, All-of_forall,
}
use fraudhunter.Common.Time.{date_of}
use fraudhunter.Ingestion.Logs.{DailyKey, DailyRow, same_key}
use fraudhunter.Ingestion.Repository.{has_key, bumped, first_row, upsert_daily}

same_key_refl : (k : DailyKey) → same_key k k ≡ true
unfolding same_key
same_key_refl k = ground (
  arith,
  (eq_iff k.media_id k.media_id).1 refl,
  (eq_iff k.program_id k.program_id).1 refl,
  (eq_iff k.ipaddress k.ipaddress).1 refl,
  (eq_iff k.useragent k.useragent).1 refl,
)

pub same_key_eq : (a b : DailyKey) → same_key a b ≡ true → a ≡ b
unfolding same_key
same_key_eq a b h = ground (
  arith,
  eq_iff a.media_id b.media_id,
  eq_iff a.program_id b.program_id,
  eq_iff a.ipaddress b.ipaddress,
  eq_iff a.useragent b.useragent,
)

-- The total that the table has under a key.
abbrev pub total : DailyKey → List DailyRow → ℕ
total k [] = 0
total k (row ∷ rows) = (if same_key row.key k then row.count else 0) + total k rows

abbrev pub one_if : Bool → ℕ
one_if b = if b then 1 else 0

-- The key is unique.
abbrev pub HasUniqueKeys : List DailyRow → Type 0
HasUniqueKeys rows = (k : DailyKey) → count_where (has_key k) rows ≤ 1

-- An update that no row passes changes nothing.
update_none {ℓ} :
    {A : Type ℓ} (q : A → Bool) (set : A → A) (t : List A)
    → count_where q t ≡ 0
    → update_where q set t ≡ t
update_none q set [] h = refl
update_none q set (x ∷ t) h = ground (arith, update_none q set t)

total-append : (k : DailyKey) (s t : List DailyRow) → total k (s ++ t) ≡ total k s + total k t
total-append k [] t = omega arith
total-append k (x ∷ s) t = omega (arith, total-append k s t)

-- The keys of a row and of the upsert are the same, so they agree on any third key.
key_swap : (a b k : DailyKey) → same_key a b ≡ true → same_key a k ≡ same_key b k
key_swap a b k h = ap (λ x. same_key x k) (same_key_eq a b h)

total-bump :
    (k k' : DailyKey) (time now : ℕ) (rows : List DailyRow)
    → exists_where (has_key k') rows ≡ true
    → count_where (has_key k') rows ≤ 1
    → total k (update_where (has_key k') (bumped time now) rows)
      ≡ total k rows + one_if (same_key k' k)
total-bump k k' time now [] found few = absurd (ground arith)
total-bump k k' time now (row ∷ rows) found few = elim (Bool-cases (has_key k' row)) [
  | inl here ↦
      let rest : update_where (has_key k') (bumped time now) rows ≡ rows =
        update_none (has_key k') (bumped time now) rows (ground arith) in
      ground (arith, ap (total k) rest, key_swap row.key k' k here)
  | inr other ↦
      let found' : exists_where (has_key k') rows ≡ true = ground arith in
      let few' : count_where (has_key k') rows ≤ 1 = ground arith in
      ground (arith, total-bump k k' time now rows found' few')
]

-- An upsert counts one more under its key, and as before under any other.
pub total-upsert :
    (k k' : DailyKey) (time now : ℕ) (rows : List DailyRow)
    → HasUniqueKeys rows
    → total k (upsert_daily k' time now rows) ≡ total k rows + one_if (same_key k' k)
unfolding upsert_daily
total-upsert k k' time now rows unique = elim (Bool-cases (exists_where (has_key k') rows)) [
  | inl found ↦ rw found (total-bump k k' time now rows found (unique k'))
  | inr new ↦ rw new (ground (arith, total-append k rows (first_row k' time now ∷ [])))
]

pub upsert-HasUniqueKeys :
    (k' : DailyKey) (time now : ℕ) (rows : List DailyRow)
    → HasUniqueKeys rows
    → HasUniqueKeys (upsert_daily k' time now rows)
unfolding upsert_daily
upsert-HasUniqueKeys k' time now rows unique k =
    elim (Bool-cases (exists_where (has_key k') rows)) [
      | inl found ↦ rw found (
          omega (
            arith,
            count-update_same (has_key k) (has_key k') (bumped time now) rows (λ r. refl),
            unique k,
          ))
      | inr new ↦
          let added = count-append (has_key k) rows (first_row k' time now ∷ []) in
          rw new (elim (Bool-cases (same_key k' k)) [
            | inl same ↦
                let absent : count_where (has_key k') rows ≡ 0 =
                  count_of_not_exists (has_key k') rows new in
                let none_under : count_where (has_key k) rows ≡ 0 =
                  subst (λ (x : DailyKey). count_where (has_key x) rows ≡ 0) (same_key_eq k' k same)
                    absent in
                ground (arith, added)
            | inr other ↦ ground (arith, added, unique k)
          ])
    ]

-- A row counts something, and its times are of its date, in order.
pub record IsDaily (row : DailyRow) : Type 0 where
  pub counted : 1 ≤ row.count
  pub ordered : row.first_time ≤ row.last_time
  pub first_on_date : date_of row.first_time ≡ row.key.date
  pub last_on_date : date_of row.last_time ≡ row.key.date

pub upsert-IsDaily :
    (k : DailyKey) (time now : ℕ) (rows : List DailyRow)
    → date_of time ≡ k.date
    → All IsDaily rows
    → All IsDaily (upsert_daily k time now rows)
unfolding upsert_daily
upsert-IsDaily k time now rows on sound = elim (Bool-cases (exists_where (has_key k) rows)) [
  | inl found ↦ rw found (
      All-update IsDaily (has_key k) (bumped time now) rows
        (All-of_forall _ rows (λ r here d.
          let same : r.key ≡ k = same_key_eq r.key k here in
          let date : r.key.date ≡ k.date = ap DailyKey.date same in
          record {
            counted = omega arith;
            ordered = omega (arith, d.ordered);
            first_on_date = ground (arith, d.first_on_date);
            last_on_date = ground (arith, d.last_on_date);
          }))
        sound)
  | inr new ↦ rw new (
      All-append IsDaily rows (first_row k time now ∷ []) sound (
        record {
          counted = omega arith;
          ordered = omega arith;
          first_on_date = on;
          last_on_date = on;
        },
        tt,
      ))
]
