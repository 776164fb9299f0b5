-- ===== src/Ingestion/Overlap.antt =====
-- `merge_clicks`: the raw clicks and what the daily table counts of them.
use fraudhunter.Common.{
  ℕ, suc, ◌+◌, ◌≤◌, String, Bool, true, false, List, [], ◌∷◌, ◌++◌, ◌≡◌, refl, subst, arith, inl,
  inr, Bool-cases, str_eq, eq_iff, length, length-append, All, count_where, exists_where,
  count-append, count_of_not_exists,
}
use fraudhunter.Ingestion.Logs.{ClickLog, ClickRaw, DailyKey, Logs, same_key}
use fraudhunter.Ingestion.Repository.{
  Environment, click_row, has_click_id, click_key, upsert_click_aggregate,
}
use fraudhunter.Ingestion.Merge.{Merged, merge_click, merge_clicks_loop, merge_clicks}
use fraudhunter.Ingestion.Totals.{
  total, HasUniqueKeys, total-upsert, upsert-HasUniqueKeys, IsDaily, upsert-IsDaily,
}

abbrev pub clicked_under : DailyKey → ClickRaw → Bool
clicked_under k row = same_key (click_key row.log) k

-- The daily table counts exactly the raw clicks, under each key.
pub record CountsClicks (db : Logs) : Type 0 where
  pub ids : (i : String) → count_where (has_click_id i) db.click_raw ≤ 1
  pub keys : HasUniqueKeys db.click_daily
  pub rows : All IsDaily db.click_daily
  pub totals : (k : DailyKey) → total k db.click_daily ≡ count_where (clicked_under k) db.click_raw

-- The tables after a click that was not stored.
abbrev stored : (row : ClickRaw) (now : ℕ) → Logs → Logs
stored row now db = record db {
  click_raw = db.click_raw ++ row ∷ [];
  click_daily = upsert_click_aggregate now row.log db.click_daily;
}

stored-CountsClicks :
    (row : ClickRaw) (now : ℕ) (db : Logs)
    → exists_where (has_click_id row.id) db.click_raw ≡ false
    → CountsClicks db
    → CountsClicks (stored row now db)
stored-CountsClicks row now db new c = record {
  ids = λ i. elim (Bool-cases (str_eq row.id i)) [
    | inl same ↦
        let absent : count_where (has_click_id i) db.click_raw ≡ 0 =
          count_of_not_exists (has_click_id i) db.click_raw (
            subst (λ (x : String). exists_where (has_click_id x) db.click_raw ≡ false)
              ((eq_iff row.id i).0 same) new) in
        ground (arith, count-append (has_click_id i) db.click_raw (row ∷ []))
    | inr other ↦ ground (arith, count-append (has_click_id i) db.click_raw (row ∷ []), c.ids i)
  ];
  keys = upsert-HasUniqueKeys (click_key row.log) row.log.click_time now db.click_daily c.keys;
  rows = upsert-IsDaily (click_key row.log) row.log.click_time now db.click_daily refl c.rows;
  totals = λ k. ground (
    arith,
    total-upsert k (click_key row.log) row.log.click_time now db.click_daily c.keys,
    c.totals k,
    count-append (clicked_under k) db.click_raw (row ∷ []),
  );
}

-- What one click does to the counts and the tables.
record Counts (m m' : Merged) : Type 0 where
  agrees : CountsClicks m.db → CountsClicks m'.db
  each : m'.new_count + m'.skip_count ≡ suc (m.new_count + m.skip_count)
  grows : length m'.db.click_raw + m.new_count ≡ length m.db.click_raw + m'.new_count

module _ (env : Environment) where
  merge_click-Counts :
      (n : ℕ) (click : ClickLog) (m : Merged) → Counts m (merge_click env true n click m)
  unfolding merge_click
  merge_click-Counts n click m =
      let row = click_row (env.uuid n) (env.raw_now n) click in
      elim (Bool-cases (exists_where (has_click_id row.id) m.db.click_raw)) [
        | inl old ↦ rw old (record { agrees = λ c. c; each = omega arith; grows = refl })
        | inr new ↦ rw new (record {
          agrees = stored-CountsClicks row (env.daily_now n) m.db new;
          each = omega arith;
          grows = omega (arith, length-append m.db.click_raw (row ∷ []));
        })
      ]

  loop-CountsClicks :
      (n : ℕ) (clicks : List ClickLog) (m : Merged)
      → let m' = merge_clicks_loop env true n clicks m in
        (CountsClicks m.db → CountsClicks m'.db)
        × (m'.new_count + m'.skip_count ≡ m.new_count + m.skip_count + length clicks)
        × (length m'.db.click_raw + m.new_count ≡ length m.db.click_raw + m'.new_count)
  unfolding merge_clicks_loop
  loop-CountsClicks n [] m = (λ c. c, omega arith, refl)
  loop-CountsClicks n (click ∷ clicks) m =
      let one = merge_click-Counts n click m in
      let (agrees, each, grows) =
        loop-CountsClicks (suc n) clicks (merge_click env true n click m) in
      (λ c. agrees (one.agrees c), omega (arith, each, one.each), omega (arith, grows, one.grows))

  -- Merging a batch of clicks with their raw rows keeps the two tables in agreement: the ids and the keys
  -- are unique, and the daily table counts, under each key, exactly the stored clicks. Each click of the
  -- batch is counted as new or as skipped, and exactly the new ones are added to the raw table.
  pub merge_clicks-CountsClicks :
      (clicks : List ClickLog) (db : Logs)
      → CountsClicks db
      → let m = merge_clicks env true clicks db in
        CountsClicks m.db
        × (m.new_count + m.skip_count ≡ length clicks)
        × (length m.db.click_raw ≡ length db.click_raw + m.new_count)
  unfolding merge_clicks
  merge_clicks-CountsClicks clicks db c =
      let start : Merged = record { new_count = 0; skip_count = 0; affected_dates = []; db = db } in
      let (agrees, each, grows) = loop-CountsClicks 0 clicks start in
      (agrees c, omega (arith, each), omega (arith, grows))
