-- ===== src/Ingestion/Runs.antt =====
-- `ClickLogIngestor.run_for_date` from the pages of the ACS to the daily table.
use fraudhunter.Common.{
  ℕ, ◌+◌, ◌<◌, Bool, true, Option, none, some, List, [], ◌∷◌, ◌≡◌, refl, ap, ◌∙◌, length,
  count_where, select_where,
}
use fraudhunter.Ingestion.Logs.{ClickLog, DailyKey, Logs}
use fraudhunter.Ingestion.Repository.{Environment, ingest_clicks, ingest_clicks_loop}
use fraudhunter.Ingestion.Paging.{fetch_pages, page_of, fetch_pages_complete}
use fraudhunter.Ingestion.Totals.{total, HasUniqueKeys}
use fraudhunter.Ingestion.Reingest.{click_on, click_under, replaced, ingest_clicks_replaces}
use fraudhunter.Ingestion.Ingestors.{ClickRun, write_date, run_for_date}

select_true {ℓ} : {A : Type ℓ} (xs : List A) → select_where (λ x. true) xs ≡ xs
select_true [] = refl
select_true (x ∷ xs) = ap (λ t. x ∷ t) (select_true xs)

-- What a run for the day `d` must end with, if the ACS has the clicks `log`.
abbrev pub Ingests : (d : ℕ) (log : List ClickLog) (db : Logs) → Option ClickRun → Type 0
Ingests d log db none = ⊥
Ingests d log db (some run) =
    (run.new_count ≡ count_where (click_on d) log)
    × HasUniqueKeys run.db.click_daily
    × ((k : DailyKey)
        → total k run.db.click_daily
          ≡ replaced d (count_where (click_under k) log) k db.click_daily)

module _ (env : Environment) (store_raw : Bool) (fetch : (page limit : ℕ) → List ClickLog)
    (page_size : ℕ) where
  write_date-Ingests :
      (fuel d : ℕ) (log : List ClickLog) (db : Logs)
      → HasUniqueKeys db.click_daily
      → Ingests d log db (some (write_date env store_raw fetch page_size fuel d log db))
  unfolding ingest_clicks ingest_clicks_loop
  write_date-Ingests fuel d [] db unique = ingest_clicks_replaces env d store_raw [] db unique
  write_date-Ingests fuel d (click ∷ clicks) db unique =
      ingest_clicks_replaces env d store_raw (click ∷ clicks) db unique

  -- Against an ACS that serves a log of clicks in pages, the run for a day ends, on fuel of more than the
  -- clicks. It returns the number of the clicks that are of the day, and the daily table then counts,
  -- under each key of the day, exactly those of the log, and is unchanged under the keys of other days.
  -- So a second run for the day counts no click twice.
  pub run_for_date-Ingests :
      (d : ℕ) (log : List ClickLog) (db : Logs) (fuel : ℕ)
      → ((q : ℕ) → fetch (q + 1) page_size ≡ page_of log (q + 1) page_size)
      → 0 < page_size
      → length log < fuel
      → HasUniqueKeys db.click_daily
      → Ingests d log db (run_for_date env store_raw fetch page_size fuel d db)
  unfolding run_for_date
  run_for_date-Ingests d log db fuel served h enough unique =
      let fetched : fetch_pages fetch page_size (λ x. true) fuel 1 [] ≡ some log =
        fetch_pages_complete fetch page_size (λ x. true) log fuel served h enough
        ∙ ap some (select_true log) in
      rw (fetched, Ingests) (write_date-Ingests fuel d log db unique)
