-- ===== src/Ingestion/Ingestors.antt =====
-- `ClickLogIngestor` and `ConversionIngestor` of `ingestion.py`: fetch the pages, then write. The client is
-- a parameter: what `fetch_…_logs` returns for a page and a limit.
use fraudhunter.Common.{
  ℕ, Bool, true, ◌&&◌, Option, none, some, List, [], ◌∷◌, leb, ltb, if◌then◌else◌, length,
  count_where,
}
use fraudhunter.Common.Time.{date_of}
use fraudhunter.Ingestion.Logs.{ClickLog, ConversionLog, Logs, has_text}
use fraudhunter.Ingestion.Repository.{Environment, clear_date, ingest_clicks, ingest_conversions}
use fraudhunter.Ingestion.Merge.{
  add_date, merge_clicks, merge_conversions, enrich_conversions_with_click_info,
}
use fraudhunter.Ingestion.Paging.{fetch_pages}

-- What a run returns, `last_affected_dates`, and the tables. `none` if the fuel of its loop ran out.
pub record ClickRun : Type 0 where
  pub new_count : ℕ
  pub skip_count : ℕ
  pub last_affected_dates : List ℕ
  pub db : Logs

pub record ConversionRun : Type 0 where
  pub total_count : ℕ
  pub skip_count : ℕ
  pub valid_entry_count : ℕ
  pub click_enriched_count : ℕ
  pub last_affected_dates : List ℕ
  pub db : Logs

-- `sorted({click.click_time.date() for click in all_clicks})`
abbrev pub dates_of : List ClickLog → List ℕ
dates_of [] = []
dates_of (click ∷ clicks) = add_date (date_of click.click_time) (dates_of clicks)

abbrev pub has_entry : ConversionLog → Bool
has_entry conv = has_text conv.entry_ipaddress && has_text conv.entry_useragent

module _ (env : Environment) (store_raw : Bool) (fetch : (page limit : ℕ) → List ClickLog)
    (page_size fuel : ℕ) where
  -- The rest of `ClickLogIngestor.run_for_date`, after its loop; the count is `new_count`.
  abbrev pub write_date : (target_date : ℕ) → List ClickLog → Logs → ClickRun
  write_date d [] db = record {
    new_count = 0;
    skip_count = 0;
    last_affected_dates = d ∷ [];
    db = clear_date d store_raw db;
  }
  write_date d (click ∷ clicks) db =
      let (count, db') = ingest_clicks env d store_raw (click ∷ clicks) db in
      record {
        new_count = count;
        skip_count = 0;
        last_affected_dates = dates_of (click ∷ clicks);
        db = db';
      }

  -- `ClickLogIngestor.run_for_date`
  unfoldable pub run_for_date : (target_date : ℕ) → Logs → Option ClickRun
  run_for_date d db = elim (fetch_pages fetch page_size (λ x. true) fuel 1 []) [
    | none ↦ none
    | some clicks ↦ some (write_date d clicks db)
  ]

  abbrev pub write_range : List ClickLog → Logs → ClickRun
  write_range [] db = record { new_count = 0; skip_count = 0; last_affected_dates = []; db = db }
  write_range (click ∷ clicks) db =
      let m = merge_clicks env store_raw (click ∷ clicks) db in
      record {
        new_count = m.new_count;
        skip_count = m.skip_count;
        last_affected_dates = m.affected_dates;
        db = m.db;
      }

  -- `ClickLogIngestor.run_for_time_range`
  unfoldable pub run_for_time_range : (start_time end_time : ℕ) → Logs → Option ClickRun
  run_for_time_range start_time end_time db =
      let keep : ClickLog → Bool = λ x. leb start_time x.click_time && leb x.click_time end_time in
      elim (fetch_pages fetch page_size keep fuel 1 []) [
        | none ↦ none
        | some clicks ↦ some (write_range clicks db)
      ]

module _ (env : Environment) (fetch : (page limit : ℕ) → List ConversionLog)
    (page_size fuel : ℕ) where
  -- The rest of `ConversionIngestor.run_for_date`; `total_count` is what was ingested.
  abbrev pub write_conversions_date : (target_date : ℕ) → List ConversionLog → Logs → ConversionRun
  write_conversions_date d [] db = record {
    total_count = 0;
    skip_count = 0;
    valid_entry_count = 0;
    click_enriched_count = 0;
    last_affected_dates = [];
    db = db;
  }
  write_conversions_date d (conv ∷ convs) db =
      let all = conv ∷ convs in
      let (infos, enriched) = enrich_conversions_with_click_info db.click_raw all in
      let (count, db') = ingest_conversions env d enriched db in
      record {
        total_count = count;
        skip_count = 0;
        valid_entry_count = count_where has_entry all;
        click_enriched_count = length infos;
        last_affected_dates = if ltb 0 count then d ∷ [] else [];
        db = db';
      }

  -- `ConversionIngestor.run_for_date`
  unfoldable pub run_conversions_for_date : (target_date : ℕ) → Logs → Option ConversionRun
  run_conversions_for_date d db = elim (fetch_pages fetch page_size (λ x. true) fuel 1 []) [
    | none ↦ none
    | some convs ↦ some (write_conversions_date d convs db)
  ]

  abbrev pub write_conversions_range : List ConversionLog → Logs → ConversionRun
  write_conversions_range [] db = record {
    total_count = 0;
    skip_count = 0;
    valid_entry_count = 0;
    click_enriched_count = 0;
    last_affected_dates = [];
    db = db;
  }
  write_conversions_range (conv ∷ convs) db =
      let all = conv ∷ convs in
      let (infos, enriched) = enrich_conversions_with_click_info db.click_raw all in
      let m = merge_conversions env enriched db in
      record {
        total_count = m.new_count;
        skip_count = m.skip_count;
        valid_entry_count = count_where has_entry all;
        click_enriched_count = length infos;
        last_affected_dates = m.affected_dates;
        db = m.db;
      }

  -- `ConversionIngestor.run_for_time_range`
  unfoldable pub run_conversions_for_time_range :
      (start_time end_time : ℕ) → Logs → Option ConversionRun
  run_conversions_for_time_range start_time end_time db =
      let keep : ConversionLog → Bool =
        λ x. leb start_time x.conversion_time && leb x.conversion_time end_time in
      elim (fetch_pages fetch page_size keep fuel 1 []) [
        | none ↦ none
        | some convs ↦ some (write_conversions_range convs db)
      ]
