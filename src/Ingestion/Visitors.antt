-- ===== src/Ingestion/Visitors.antt =====
-- `ingest_conversions`: the daily table and the visitors, the entry addresses and user agents.
use fraudhunter.Common.{
  ℕ, suc, ◌+◌, true, ◌&&◌, Option, none, some, List, [], ◌∷◌, ◌≡◌, arith, inl, inr, Bool-cases,
  Option-cases, ◌==◌, if◌then◌else◌, count_where,
}
use fraudhunter.Common.Time.{date_of}
use fraudhunter.Ingestion.Logs.{ConversionLog, DailyKey, DailyRow, Logs, same_key}
use fraudhunter.Ingestion.Repository.{
  Environment, conversion_key, upsert_known, upsert_conversion_aggregate, clear_conversions_date,
  ingest_conversion, ingest_conversions_loop, ingest_conversions,
}
use fraudhunter.Ingestion.Totals.{total, one_if, HasUniqueKeys, total-upsert, upsert-HasUniqueKeys}
use fraudhunter.Ingestion.Reingest.{
  conversion_on, is_key, conversion_under, replaced, same_date, total-delete, delete-HasUniqueKeys,
}

conversion_key_date :
    (conv : ConversionLog) (k : DailyKey)
    → conversion_key conv ≡ some k
    → k.date ≡ date_of conv.conversion_time
conversion_key_date conv k h = ground arith

total-upsert_known :
    (k : DailyKey) (o : Option DailyKey) (time now : ℕ) (rows : List DailyRow)
    → HasUniqueKeys rows
    → total k (upsert_known o time now rows) ≡ total k rows + one_if (is_key o k)
total-upsert_known k none time now rows unique = omega arith
total-upsert_known k (some k') time now rows unique = total-upsert k k' time now rows unique

upsert_known-HasUniqueKeys :
    (o : Option DailyKey) (time now : ℕ) (rows : List DailyRow)
    → HasUniqueKeys rows
    → HasUniqueKeys (upsert_known o time now rows)
upsert_known-HasUniqueKeys none time now rows unique = unique
upsert_known-HasUniqueKeys (some k) time now rows unique =
    upsert-HasUniqueKeys k time now rows unique

pub total-conversion :
    (k : DailyKey) (conv : ConversionLog) (now : ℕ) (rows : List DailyRow)
    → HasUniqueKeys rows
    → total k (upsert_conversion_aggregate now conv rows)
      ≡ total k rows + one_if (conversion_under k conv)
total-conversion k conv now rows unique =
    total-upsert_known k (conversion_key conv) conv.conversion_time now rows unique

pub conversion-HasUniqueKeys :
    (conv : ConversionLog) (now : ℕ) (rows : List DailyRow)
    → HasUniqueKeys rows
    → HasUniqueKeys (upsert_conversion_aggregate now conv rows)
conversion-HasUniqueKeys conv now rows unique =
    upsert_known-HasUniqueKeys (conversion_key conv) conv.conversion_time now rows unique

under_on :
    (d : ℕ) (k : DailyKey) (conv : ConversionLog)
    → conversion_under k conv ≡ true
    → conversion_on d conv ≡ (k.date == d)
under_on d k conv h = elim (Option-cases (conversion_key conv)) [
  | inl absent ↦ absurd (ground arith)
  | inr (k', e) ↦
      let same : same_key k' k ≡ true = ground arith in
      ground (arith, same_date k' k same, conversion_key_date conv k' e)
]

module _ (env : Environment) (d : ℕ) where
  conversions_loop :
      (n count : ℕ) (convs : List ConversionLog) (db : Logs)
      → HasUniqueKeys db.conversion_daily
      → let (c, db') = ingest_conversions_loop env d n count convs db in
        (c ≡ count + count_where (conversion_on d) convs)
        × HasUniqueKeys db'.conversion_daily
        × ((k : DailyKey)
            → total k db'.conversion_daily
              ≡ total k db.conversion_daily
                + count_where (λ x. conversion_on d x && conversion_under k x) convs)
  unfolding ingest_conversions_loop
  conversions_loop n count [] db unique = (omega arith, unique, λ k. omega arith)
  conversions_loop n count (conv ∷ convs) db unique = elim (Bool-cases (conversion_on d conv)) [
    | inl on ↦
        let now = env.daily_now n in
        let unique' = conversion-HasUniqueKeys conv now db.conversion_daily unique in
        let (counts, keys, totals) =
          conversions_loop (suc n) (count + 1) convs (ingest_conversion env n conv db) unique' in
        rw on (
          omega (arith, counts),
          keys,
          λ k. ground (arith, totals k, total-conversion k conv now db.conversion_daily unique),
        )
    | inr off ↦ rw off (conversions_loop (suc n) count convs db unique)
  ]

  conversions_of_day :
      (k : DailyKey) (convs : List ConversionLog)
      → count_where (λ x. conversion_on d x && conversion_under k x) convs
        ≡ (if k.date == d then count_where (conversion_under k) convs else 0)
  conversions_of_day k [] = ground arith
  conversions_of_day k (conv ∷ convs) =
      ground (arith, conversions_of_day k convs, under_on d k conv)

  -- Ingesting the conversions of a day replaces that day: it returns the number of the conversions that
  -- are of the day, the daily table counts under each key of the day exactly those of the batch whose
  -- visitor is known and under the key, and it is unchanged under the keys of other days.
  pub ingest_conversions_replaces :
      (convs : List ConversionLog) (db : Logs)
      → HasUniqueKeys db.conversion_daily
      → let (c, db') = ingest_conversions env d convs db in
        (c ≡ count_where (conversion_on d) convs)
        × HasUniqueKeys db'.conversion_daily
        × ((k : DailyKey)
            → total k db'.conversion_daily
              ≡ replaced d (count_where (conversion_under k) convs) k db.conversion_daily)
  unfolding ingest_conversions
  ingest_conversions_replaces convs db unique =
      let (counts, keys, totals) =
        conversions_loop 0 0 convs (clear_conversions_date d db)
          (delete-HasUniqueKeys d db.conversion_daily unique) in
      (
        omega (arith, counts),
        keys,
        λ k.
            ground
              (arith, totals k, total-delete k d db.conversion_daily, conversions_of_day k convs),
      )
