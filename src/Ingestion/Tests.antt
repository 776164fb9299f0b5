-- ===== src/Ingestion/Tests.antt =====
-- The ingestion at concrete logs: its theorems at inputs that meet their hypotheses.
use fraudhunter.Common.{◌+◌, ◌≡◌, refl, true, [], arith, length}
use fraudhunter.Common.Time.{days}
use fraudhunter.Ingestion.Logs.{DailyKey, same_key}
use fraudhunter.Ingestion.Repository.{upsert_daily, insert_click_raw, click_key, ingest_clicks}
use fraudhunter.Ingestion.Merge.{merge_clicks, merge_conversions}
use fraudhunter.Ingestion.Totals.{total}
use fraudhunter.Ingestion.Overlap.{CountsClicks, merge_clicks-CountsClicks}
use fraudhunter.Ingestion.Repeat.{merge_clicks_idem}
use fraudhunter.Ingestion.Agreement.{CountsConversions, merge_conversions-CountsConversions}
use fraudhunter.Ingestion.Paging.{page_of}
use fraudhunter.Ingestion.Ingestors.{run_for_date}
use fraudhunter.Ingestion.Runs.{Ingests, run_for_date-Ingests}
use fraudhunter.Ingestion.Samples.{env, click, batch, conversions, nothing}

nothing-CountsClicks : CountsClicks nothing
nothing-CountsClicks = record {
  ids = λ i. omega arith;
  keys = λ k. omega arith;
  rows = tt;
  totals = λ k. refl;
}

nothing-CountsConversions : CountsConversions nothing
nothing-CountsConversions = record {
  ids = λ i. omega arith;
  keys = λ k. omega arith;
  totals = λ k. refl;
}

abbrev visitor : DailyKey
visitor = click_key (click "c1" (days 3) "i")

-- The merge skips the click that occurs twice.
merges : (merge_clicks env true batch nothing).new_count ≡ 4
unfolding merge_clicks upsert_daily same_key
merges = refl

-- The ingestion of the day counts it twice in the daily table, and stores it once.
ingests_twice :
    (total visitor (ingest_clicks env 3 true batch nothing).1.click_daily ≡ 3)
    × (length (ingest_clicks env 3 true batch nothing).1.click_raw ≡ 3)
unfolding ingest_clicks upsert_daily same_key insert_click_raw
ingests_twice = (refl, refl)

merge_clicks-CountsClicks_example :
    let m = merge_clicks env true batch nothing in
    CountsClicks m.db
    × (m.new_count + m.skip_count ≡ 5)
    × (length m.db.click_raw ≡ length nothing.click_raw + m.new_count)
merge_clicks-CountsClicks_example = merge_clicks-CountsClicks env batch nothing nothing-CountsClicks

merge_clicks_idem_example :
    let m = merge_clicks env true batch nothing in
    merge_clicks env true batch m.db
    ≡ record { new_count = 0; skip_count = 5; affected_dates = []; db = m.db }
merge_clicks_idem_example =
    merge_clicks_idem env env batch nothing (refl, (refl, (refl, (refl, (refl, tt)))))

merge_conversions-CountsConversions_example :
    let m = merge_conversions env conversions nothing in
    CountsConversions m.db
    × (m.new_count + m.skip_count ≡ 2)
    × (length m.db.conversion_raw ≡ length nothing.conversion_raw + m.new_count)
merge_conversions-CountsConversions_example =
    merge_conversions-CountsConversions env conversions nothing nothing-CountsConversions

run_for_date-Ingests_example :
    Ingests 3 batch nothing (run_for_date env true (page_of batch) 2 6 3 nothing)
run_for_date-Ingests_example =
    run_for_date-Ingests env true (page_of batch) 2 3 batch nothing 6 (λ q. refl) (omega arith)
      (omega arith) nothing-CountsClicks.keys
