-- ===== src/Ingestion/Agreement.antt =====
-- `merge_conversions`: the raw conversions and what the daily table counts of them.
use fraudhunter.Common.{
  ℕ, suc, ◌+◌, ◌≤◌, String, Bool, false, List, [], ◌∷◌, ◌++◌, ◌≡◌, refl, subst, arith, inl, inr,
  Bool-cases, str_eq, eq_iff, length, length-append, count_where, exists_where, count-append,
  count_of_not_exists,
}
use fraudhunter.Ingestion.Logs.{ConversionLog, ConversionRaw, DailyKey, Logs}
use fraudhunter.Ingestion.Repository.{
  Environment, conversion_row, has_conversion_id, upsert_conversion_aggregate,
}
use fraudhunter.Ingestion.Merge.{
  Merged, merge_conversion, merge_conversions_loop, merge_conversions,
}
use fraudhunter.Ingestion.Totals.{total, HasUniqueKeys}
use fraudhunter.Ingestion.Reingest.{conversion_under}
use fraudhunter.Ingestion.Visitors.{total-conversion, conversion-HasUniqueKeys}

-- A stored conversion whose visitor is known, under a key.
abbrev pub converted_under : DailyKey → ConversionRaw → Bool
converted_under k row = conversion_under k row.log

-- The daily table counts, under each key, exactly the stored conversions whose visitor is known.
pub record CountsConversions (db : Logs) : Type 0 where
  pub ids : (i : String) → count_where (has_conversion_id i) db.conversion_raw ≤ 1
  pub keys : HasUniqueKeys db.conversion_daily
  pub totals :
      (k : DailyKey)
      → total k db.conversion_daily ≡ count_where (converted_under k) db.conversion_raw

-- The tables after a conversion that was not stored.
abbrev stored : (row : ConversionRaw) (now : ℕ) → Logs → Logs
stored row now db = record db {
  conversion_raw = db.conversion_raw ++ row ∷ [];
  conversion_daily = upsert_conversion_aggregate now row.log db.conversion_daily;
}

stored-CountsConversions :
    (row : ConversionRaw) (now : ℕ) (db : Logs)
    → exists_where (has_conversion_id row.log.conversion_id) db.conversion_raw ≡ false
    → CountsConversions db
    → CountsConversions (stored row now db)
stored-CountsConversions row now db new c = record {
  ids = λ i. elim (Bool-cases (str_eq row.log.conversion_id i)) [
    | inl same ↦
        let absent : count_where (has_conversion_id i) db.conversion_raw ≡ 0 =
          count_of_not_exists (has_conversion_id i) db.conversion_raw (
            subst (λ (x : String). exists_where (has_conversion_id x) db.conversion_raw ≡ false)
              ((eq_iff row.log.conversion_id i).0 same) new) in
        ground (arith, count-append (has_conversion_id i) db.conversion_raw (row ∷ []))
    | inr other ↦
        ground (arith, count-append (has_conversion_id i) db.conversion_raw (row ∷ []), c.ids i)
  ];
  keys = conversion-HasUniqueKeys row.log now db.conversion_daily c.keys;
  totals = λ k. ground (
    arith,
    total-conversion k row.log now db.conversion_daily c.keys,
    c.totals k,
    count-append (converted_under k) db.conversion_raw (row ∷ []),
  );
}

-- What one conversion does to the counts and the tables.
record Counts (m m' : Merged) : Type 0 where
  agrees : CountsConversions m.db → CountsConversions m'.db
  each : m'.new_count + m'.skip_count ≡ suc (m.new_count + m.skip_count)
  grows : length m'.db.conversion_raw + m.new_count ≡ length m.db.conversion_raw + m'.new_count

module _ (env : Environment) where
  merge_conversion-Counts :
      (n : ℕ) (conv : ConversionLog) (m : Merged) → Counts m (merge_conversion env n conv m)
  unfolding merge_conversion
  merge_conversion-Counts n conv m =
      let row = conversion_row (env.raw_now n) conv in
      elim (Bool-cases (exists_where (has_conversion_id conv.conversion_id) m.db.conversion_raw)) [
        | inl old ↦ rw old (record { agrees = λ c. c; each = omega arith; grows = refl })
        | inr new ↦ rw new (record {
          agrees = stored-CountsConversions row (env.daily_now n) m.db new;
          each = omega arith;
          grows = omega (arith, length-append m.db.conversion_raw (row ∷ []));
        })
      ]

  loop-CountsConversions :
      (n : ℕ) (convs : List ConversionLog) (m : Merged)
      → let m' = merge_conversions_loop env n convs m in
        (CountsConversions m.db → CountsConversions m'.db)
        × (m'.new_count + m'.skip_count ≡ m.new_count + m.skip_count + length convs)
        × (length m'.db.conversion_raw + m.new_count ≡ length m.db.conversion_raw + m'.new_count)
  unfolding merge_conversions_loop
  loop-CountsConversions n [] m = (λ c. c, omega arith, refl)
  loop-CountsConversions n (conv ∷ convs) m =
      let one = merge_conversion-Counts n conv m in
      let (agrees, each, grows) =
        loop-CountsConversions (suc n) convs (merge_conversion env n conv m) in
      (λ c. agrees (one.agrees c), omega (arith, each, one.each), omega (arith, grows, one.grows))

  -- Merging a batch of conversions keeps their two tables in agreement: the ids and the keys are unique,
  -- and the daily table counts, under each key, exactly the stored conversions whose visitor is known.
  -- Each conversion is counted as new or as skipped, and exactly the new ones are stored.
  pub merge_conversions-CountsConversions :
      (convs : List ConversionLog) (db : Logs)
      → CountsConversions db
      → let m = merge_conversions env convs db in
        CountsConversions m.db
        × (m.new_count + m.skip_count ≡ length convs)
        × (length m.db.conversion_raw ≡ length db.conversion_raw + m.new_count)
  unfolding merge_conversions
  merge_conversions-CountsConversions convs db c =
      let start : Merged = record { new_count = 0; skip_count = 0; affected_dates = []; db = db } in
      let (agrees, each, grows) = loop-CountsConversions 0 convs start in
      (agrees c, omega (arith, each), omega (arith, grows))
