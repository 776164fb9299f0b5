-- ===== src/Ingestion/Merge.antt =====
-- `IngestionRepository`, continued: the merges of a time range, the look-up of the click of a conversion,
-- and the purges.
use fraudhunter.Common.{
  ℕ, suc, ◌+◌, String, Bool, Option, none, some, List, [], ◌∷◌, ◌++◌, ltb, ◌==◌, str_eq,
  if◌then◌else◌, exists_where, find_where, count_where, delete_where, update_where,
}
use fraudhunter.Common.Time.{date_of}
use fraudhunter.Ingestion.Logs.{
  ClickLog, ConversionLog, ConversionWithClickInfo, DailyRow, ClickRaw, ConversionRaw, Logs,
}
use fraudhunter.Ingestion.Repository.{
  Environment, click_row, conversion_row, has_click_id, has_conversion_id, upsert_click_aggregate,
  upsert_conversion_aggregate,
}

-- `new_count`, `skip_count` and `affected_dates`, sorted, while a merge goes on, and the tables.
pub record Merged : Type 0 where
  pub new_count : ℕ
  pub skip_count : ℕ
  pub affected_dates : List ℕ
  pub db : Logs

-- `affected_dates.add(d)`, of a set that is kept sorted
abbrev pub add_date : ℕ → List ℕ → List ℕ
add_date d [] = d ∷ []
add_date d (e ∷ ds) =
    let rest = add_date d ds in if d == e then e ∷ ds else if ltb d e then d ∷ e ∷ ds else e ∷ rest

abbrev pub counted : (date : ℕ) → Logs → Merged → Merged
counted d db m = record m {
  new_count = m.new_count + 1;
  affected_dates = add_date d m.affected_dates;
  db = db;
}

module _ (env : Environment) where
  -- The body of the loop of `merge_clicks`: `ON CONFLICT (id) DO NOTHING`, and the row count 0 of a click
  -- whose id is stored
  unfoldable pub merge_click : (store_raw : Bool) (n : ℕ) → ClickLog → Merged → Merged
  merge_click store_raw n click m =
      let db = m.db in
      let row = click_row (env.uuid n) (env.raw_now n) click in
      let daily = upsert_click_aggregate (env.daily_now n) click db.click_daily in
      let date = date_of click.click_time in
      if store_raw
      then (if exists_where (has_click_id row.id) db.click_raw
          then record m { skip_count = m.skip_count + 1 }
          else counted date
              (record db { click_raw = db.click_raw ++ row ∷ []; click_daily = daily }) m)
      else counted date (record db { click_daily = daily }) m

  unfoldable pub merge_clicks_loop : (store_raw : Bool) (n : ℕ) → List ClickLog → Merged → Merged
  unfolding merge_click
  merge_clicks_loop store_raw n [] m = m
  merge_clicks_loop store_raw n (click ∷ clicks) m =
      merge_clicks_loop store_raw (suc n) clicks (merge_click store_raw n click m)

  -- `merge_clicks`; `affected_dates` is `last_merged_click_dates`
  unfoldable pub merge_clicks : (store_raw : Bool) → List ClickLog → Logs → Merged
  unfolding merge_clicks_loop
  merge_clicks store_raw clicks db =
      merge_clicks_loop store_raw 0 clicks
        (record { new_count = 0; skip_count = 0; affected_dates = []; db = db })

  -- The body of the loop of `merge_conversions`
  unfoldable pub merge_conversion : (n : ℕ) → ConversionLog → Merged → Merged
  merge_conversion n conv m =
      let db = m.db in
      if exists_where (has_conversion_id conv.conversion_id) db.conversion_raw
      then record m { skip_count = m.skip_count + 1 }
      else counted (date_of conv.conversion_time)
          (record db {
            conversion_raw = db.conversion_raw ++ conversion_row (env.raw_now n) conv ∷ [];
            conversion_daily =
                upsert_conversion_aggregate (env.daily_now n) conv db.conversion_daily;
          })
          m

  unfoldable pub merge_conversions_loop : (n : ℕ) → List ConversionLog → Merged → Merged
  unfolding merge_conversion
  merge_conversions_loop n [] m = m
  merge_conversions_loop n (conv ∷ convs) m =
      merge_conversions_loop (suc n) convs (merge_conversion n conv m)

  -- `merge_conversions`
  unfoldable pub merge_conversions : List ConversionLog → Logs → Merged
  unfolding merge_conversions_loop
  merge_conversions convs db =
      merge_conversions_loop 0 convs
        (record { new_count = 0; skip_count = 0; affected_dates = []; db = db })

-- `lookup_click_by_cid`, and the entry of `cid` in the dict of `lookup_clicks_by_cids`
abbrev pub lookup_click : String → List ClickRaw → Option ClickLog
lookup_click cid rows = elim (find_where (has_click_id cid) rows) [
  | none ↦ none
  | some row ↦ some row.log
]

-- The click of a conversion: none if its `cid` is missing, empty or not stored.
abbrev pub click_of : ConversionLog → List ClickRaw → Option ClickLog
click_of conv rows = elim conv.cid [
  | none ↦ none
  | some cid ↦ if str_eq cid "" then none else lookup_click cid rows
]

-- The assignments to `conv.click_ipaddress` and `conv.click_useragent`
abbrev pub with_click : ClickLog → ConversionLog → ConversionLog
with_click click conv = record conv {
  click_ipaddress = some click.ipaddress;
  click_useragent = some click.useragent;
}

-- The loop of `enrich_conversions_with_click_info`: the list that it returns, and the conversions, which
-- it changes in place. Without any `cid` it returns an empty list, as the loop would.
unfoldable pub enrich_conversions_with_click_info :
    List ClickRaw → List ConversionLog → List ConversionWithClickInfo × List ConversionLog
enrich_conversions_with_click_info rows [] = ([], [])
enrich_conversions_with_click_info rows (conv ∷ convs) =
    let (infos, rest) = enrich_conversions_with_click_info rows convs in
    elim (click_of conv rows) [
      | none ↦ (infos, conv ∷ rest)
      | some click ↦ (
        record {
          conversion = with_click click conv;
          click_ipaddress = click.ipaddress;
          click_useragent = click.useragent;
          click_time = click.click_time;
        }
            ∷ infos,
        with_click click conv ∷ rest,
      )
    ]

-- `update_conversion_click_info`
pub update_conversion_click_info : (now : ℕ) (conversion_id ip ua : String) → Logs → Logs
update_conversion_click_info now i ip ua db = record db {
  conversion_raw =
      update_where (has_conversion_id i)
        (λ row. record row {
          log = record row.log { click_ipaddress = some ip; click_useragent = some ua };
          updated_at = now;
        })
        db.conversion_raw;
}

-- `get_existing_click_ids`, as the test of one id
pub is_existing_click : String → Logs → Bool
is_existing_click i db = exists_where (has_click_id i) db.click_raw

-- `get_existing_conversion_ids`, as the test of one id
pub is_existing_conversion : String → Logs → Bool
is_existing_conversion i db = exists_where (has_conversion_id i) db.conversion_raw

-- One target of `_purge_targets`: `delete_rows` or `count_rows`
abbrev pub purge_target {ℓ} : {A : Type ℓ} → (A → Bool) → (execute : Bool) → List A → ℕ × List A
purge_target test execute rows =
    (count_where test rows, if execute then delete_where test rows else rows)

-- `purge_raw_before`, with the counts of `click_raw` and of `conversion_raw`
unfoldable pub purge_raw_before : (cutoff : ℕ) (execute : Bool) → Logs → ℕ × ℕ × Logs
purge_raw_before cutoff execute db =
    let (clicks, click_raw) =
      purge_target (λ (r : ClickRaw). ltb r.log.click_time cutoff) execute db.click_raw in
    let (convs, conversion_raw) =
      purge_target (λ (r : ConversionRaw). ltb r.log.conversion_time cutoff) execute
        db.conversion_raw in
    (clicks, convs, record db { click_raw = click_raw; conversion_raw = conversion_raw })

-- `purge_aggregates_before`
unfoldable pub purge_aggregates_before : (cutoff : ℕ) (execute : Bool) → Logs → ℕ × ℕ × Logs
purge_aggregates_before cutoff execute db =
    let (clicks, click_daily) =
      purge_target (λ (r : DailyRow). ltb r.key.date cutoff) execute db.click_daily in
    let (convs, conversion_daily) =
      purge_target (λ (r : DailyRow). ltb r.key.date cutoff) execute db.conversion_daily in
    (clicks, convs, record db { click_daily = click_daily; conversion_daily = conversion_daily })
