-- ===== src/Ingestion/Reingest.antt =====
-- `ingest_clicks`, and what `ingest_conversions` shares with it: a day of the daily table.
use fraudhunter.Common.{
  ℕ, suc, ◌+◌, Bool, true, false, ◌&&◌, not, Option, none, some, List, [], ◌∷◌, ◌≡◌, ap, arith, inl,
  inr, Bool-cases, ◌==◌, if◌then◌else◌, count_where, delete_where, count-select-le,
}
use fraudhunter.Common.Time.{date_of}
use fraudhunter.Ingestion.Logs.{ClickLog, ConversionLog, DailyKey, DailyRow, Logs, same_key}
use fraudhunter.Ingestion.Repository.{
  Environment, has_key, on_date, click_key, conversion_key, clear_date, ingest_click,
  ingest_clicks_loop, ingest_clicks,
}
use fraudhunter.Ingestion.Totals.{
  total, HasUniqueKeys, total-upsert, upsert-HasUniqueKeys, same_key_eq,
}

pub same_date : (a b : DailyKey) → same_key a b ≡ true → a.date ≡ b.date
same_date a b h = ap DailyKey.date (same_key_eq a b h)

-- What is left under a key when the rows of a day are deleted.
pub total-delete :
    (k : DailyKey) (d : ℕ) (rows : List DailyRow)
    → total k (delete_where (on_date d) rows) ≡ (if k.date == d then 0 else total k rows)
total-delete k d [] = ground arith
total-delete k d (row ∷ rows) = ground (arith, total-delete k d rows, same_date row.key k)

pub delete-HasUniqueKeys :
    (d : ℕ) (rows : List DailyRow)
    → HasUniqueKeys rows
    → HasUniqueKeys (delete_where (on_date d) rows)
delete-HasUniqueKeys d rows unique k =
    omega (arith, unique k, count-select-le (has_key k) (λ r. not (on_date d r)) rows)

-- What the daily table must have under a key after the day `d` was ingested from entries of which `n`
-- are under it: those, if it is a key of the day, and else what it had.
abbrev pub replaced : (d n : ℕ) → DailyKey → List DailyRow → ℕ
replaced d n k rows = if k.date == d then n else total k rows

abbrev pub click_on : ℕ → ClickLog → Bool
click_on d click = date_of click.click_time == d

abbrev pub click_under : DailyKey → ClickLog → Bool
click_under k click = same_key (click_key click) k

abbrev pub conversion_on : ℕ → ConversionLog → Bool
conversion_on d conv = date_of conv.conversion_time == d

abbrev pub is_key : Option DailyKey → DailyKey → Bool
is_key none k = false
is_key (some k') k = same_key k' k

-- A conversion under a key has a known visitor.
abbrev pub conversion_under : DailyKey → ConversionLog → Bool
conversion_under k conv = is_key (conversion_key conv) k

module _ (env : Environment) (d : ℕ) where
  clicks_loop :
      (store_raw : Bool) (n count : ℕ) (clicks : List ClickLog) (db : Logs)
      → HasUniqueKeys db.click_daily
      → let (c, db') = ingest_clicks_loop env d store_raw n count clicks db in
        (c ≡ count + count_where (click_on d) clicks)
        × HasUniqueKeys db'.click_daily
        × ((k : DailyKey)
            → total k db'.click_daily
              ≡ total k db.click_daily + count_where (λ x. click_on d x && click_under k x) clicks)
  unfolding ingest_clicks_loop
  clicks_loop store_raw n count [] db unique = (omega arith, unique, λ k. omega arith)
  clicks_loop store_raw n count (click ∷ clicks) db unique = elim (Bool-cases (click_on d click)) [
    | inl on ↦
        let key = click_key click in
        let now = env.daily_now n in
        let next = ingest_click env store_raw n click db in
        let unique' = upsert-HasUniqueKeys key click.click_time now db.click_daily unique in
        let (counts, keys, totals) =
          clicks_loop store_raw (suc n) (count + 1) clicks next unique' in
        rw on (
          omega (arith, counts),
          keys,
          λ k.
              ground
                (arith, totals k, total-upsert k key click.click_time now db.click_daily unique),
        )
    | inr off ↦ rw off (clicks_loop store_raw (suc n) count clicks db unique)
  ]

  clicks_of_day :
      (k : DailyKey) (clicks : List ClickLog)
      → count_where (λ x. click_on d x && click_under k x) clicks
        ≡ (if k.date == d then count_where (click_under k) clicks else 0)
  clicks_of_day k [] = ground arith
  clicks_of_day k (click ∷ clicks) =
      ground (arith, clicks_of_day k clicks, same_date (click_key click) k)

  -- Ingesting the clicks of a day replaces that day: it returns the number of the clicks that are of the
  -- day, the daily table counts under each key of the day exactly the clicks of the batch, whatever it
  -- had of that day before, and it is unchanged under the keys of other days.
  pub ingest_clicks_replaces :
      (store_raw : Bool) (clicks : List ClickLog) (db : Logs)
      → HasUniqueKeys db.click_daily
      → let (c, db') = ingest_clicks env d store_raw clicks db in
        (c ≡ count_where (click_on d) clicks)
        × HasUniqueKeys db'.click_daily
        × ((k : DailyKey)
            → total k db'.click_daily
              ≡ replaced d (count_where (click_under k) clicks) k db.click_daily)
  unfolding ingest_clicks clear_date
  ingest_clicks_replaces store_raw clicks db unique =
      let cleared = clear_date d store_raw db in
      let (counts, keys, totals) =
        clicks_loop store_raw 0 0 clicks cleared (delete-HasUniqueKeys d db.click_daily unique) in
      (
        omega (arith, counts),
        keys,
        λ k. ground (arith, totals k, total-delete k d db.click_daily, clicks_of_day k clicks),
      )
