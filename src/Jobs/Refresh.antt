-- ===== src/Jobs/Refresh.antt =====
-- `run_refresh` and `run_master_sync` of `services/jobs.py`, which queue recomputations, and all jobs together.
use Prim.Native.String.{◌++◌ as str_append}
use fraudhunter.Common.{
  ℕ, String, Bool, true, false, Option, none, some, List, [], ◌∷◌, map, if◌then◌else◌,
}
use fraudhunter.Common.Int.{ℤ}
use fraudhunter.Common.Json.{Json, Fields, null, num, flag, text, arr, obj, end, field}
use fraudhunter.Common.Result.{Result, ok, err}
use fraudhunter.Common.Time.{hours}
use fraudhunter.Queue.Run.{JobRun}
use fraudhunter.Ingestion.Paging.{fetch_pages}
use fraudhunter.Ingestion.Ingestors.{
  ClickRun, ConversionRun, run_for_time_range, run_conversions_for_time_range,
}
use fraudhunter.Masters.Tables.{Masters}
use fraudhunter.Masters.Store.{bulk_upsert_media, bulk_upsert_promotions, bulk_upsert_users}
use fraudhunter.Jobs.Formats.{Formats}
use fraudhunter.Jobs.Execute.{Outcome, Handlers, after}
use fraudhunter.Jobs.Requests.{enqueue_findings_recompute_jobs}
use fraudhunter.Jobs.Actions.{returns, lift, ◌>>=◌}
use fraudhunter.Jobs.Setup.{
  get_available_dates, Database, Pages, Setup, out_of_fuel, add_dates, dates_from, texts, or_fresh,
  start_of, show_whole,
}
use fraudhunter.Jobs.Bodies.{
  Job, acs_settings, clicks_stored, conversions_stored, run_click_ingestion,
  run_conversion_ingestion, run_recompute_findings_for_date,
}

-- The entries of the two kinds of log in the result of a refresh, with the dates that they affected.
abbrev pub clicks_part : ClickRun → Json × List ℕ
clicks_part run = (
  obj (field "new" (num run.new_count) (field "skipped" (num run.skip_count) end)),
  run.last_affected_dates,
)

abbrev pub conversions_part : ConversionRun → Json × List ℕ
conversions_part run = (
  obj (
      field "new" (num run.total_count) (
        field "skipped" (num run.skip_count) (
          field "valid_entry" (num run.valid_entry_count)
            (field "click_enriched" (num run.click_enriched_count) end)))),
  run.last_affected_dates,
)

-- What `run_refresh` and `run_master_sync` return.
abbrev pub refreshed :
    Formats → (hours : ℤ) (click_part conv_part : Json) (queued : Fields) → Outcome
refreshed f hours click_part conv_part queued = (
  field "success" (flag true) (field "clicks" click_part (field "conversions" conv_part queued)),
  str_append "Refresh completed for last " (str_append (show_whole f hours) " hours"),
)

abbrev pub synced : (media_count promo_count user_count : ℕ) (queued : Fields) → Outcome
synced media_count promo_count user_count queued = (
  field "success" (flag true) (
      field "media_count" (num media_count)
        (field "promotion_count" (num promo_count) (field "user_count" (num user_count) queued))),
  "Master sync completed",
)

-- The records of all pages.
abbrev pub fetched : {E : Type 0} → Option (List E) → Job (List E)
fetched none w = out_of_fuel w
fetched (some es) w = (ok es, w)

-- What a bulk upsert has stored of the masters.
abbrev pub masters_put : {A : Type 0} → (put : Masters → A → Masters) → Result (ℕ × A) → Job ℕ
masters_put put (err e) w = (err e, w)
masters_put put (ok (n, t)) w =
    (ok n, record w { rest = record w.rest { masters = put w.rest.masters t } })

-- What `enqueue_findings_recompute_jobs` answered, as the entry of the result that tells of it.
abbrev pub queued_entry :
    Formats → (dates : List ℕ) (generation_id : String) → Result (List JobRun) → Result Fields
queued_entry f dates generation (err e) = err e
queued_entry f dates generation (ok jobs) = ok (
    field "findings_recompute"
      (obj (
        field "mode" (text "queued") (
          field "generation_id" (text generation) (
            field "job_ids" (arr (texts (map JobRun.id jobs)))
              (field "target_dates" (arr (texts (map f.isoformat dates))) end)))))
      end)

module _ (f : Formats) (s : Setup) where
  open s use {client, environment, enqueues, library, uuid, fuel}

  -- `enqueue_findings_recompute_jobs`, and the entry of the result that tells of it
  abbrev pub queue_recompute :
      (dates : List ℕ) (generation_id trigger source_job_id : String) → Job Fields
  queue_recompute dates generation trigger source w =
      let (r, t) =
        enqueue_findings_recompute_jobs f false enqueues 0 dates generation trigger (some source)
          w.table in
      (queued_entry f dates generation r, record w { table = t })

  -- What a refresh has of one kind of log: its entry in the result, and the dates it affected.
  abbrev pub refresh_clicks :
      (enabled : Bool) (start_time end_time page_size : ℕ) → Job (Json × List ℕ)
  refresh_clicks false start_time end_time size = returns (null, [])
  refresh_clicks true start_time end_time size = do
    run ← after (client.clicks_between start_time end_time) (λ fetch w.
        clicks_stored
          (run_for_time_range (environment w.clock) true fetch size fuel start_time end_time
            w.rest.logs)
          w)
    returns (clicks_part run)

  abbrev pub refresh_conversions :
      (enabled : Bool) (start_time end_time page_size : ℕ) → Job (Json × List ℕ)
  refresh_conversions false start_time end_time size = returns (null, [])
  refresh_conversions true start_time end_time size = do
    run ← after (client.conversions_between start_time end_time) (λ fetch w.
        conversions_stored
          (run_conversions_for_time_range (environment w.clock) fetch size fuel start_time end_time
            w.rest.logs)
          w)
    returns (conversions_part run)

  -- `if detect and dates_to_recompute`, or `if dates`
  abbrev pub queue_if :
      (wanted : Bool) (dates : List ℕ) (generation_id trigger source_job_id : String) → Job Fields
  queue_if wanted [] generation trigger source = returns end
  queue_if wanted (d ∷ dates) generation trigger source =
      if wanted then queue_recompute (d ∷ dates) generation trigger source else returns end

  -- `run_refresh`, from its time on
  abbrev pub run_refresh_until :
      (end_time : ℕ) (hours : ℤ) (clicks conversions detect : Bool) (job_run_id : String)
      → Job Outcome
  run_refresh_until end_time hours clicks conversions detect job = do
    start_time ← lift (start_of end_time hours)
    acs ← acs_settings f s
    (click_part, click_dates) ← refresh_clicks clicks start_time end_time acs.page_size
    (conv_part, conv_dates) ← refresh_conversions conversions start_time end_time acs.page_size
    queued ←
        queue_if detect (add_dates conv_dates (add_dates click_dates []))
          (str_append "refresh-" (or_fresh job uuid)) "refresh" job
    returns (refreshed f hours click_part conv_part queued)

  -- `run_refresh`
  unfoldable pub run_refresh :
      (hours : ℤ) (clicks conversions detect : Bool) (job_run_id : String) → Job Outcome
  run_refresh hours clicks conversions detect job w =
      run_refresh_until w.clock hours clicks conversions detect job w

  -- `_fetch_all_paged` of `acs_client.py`, after the requests
  abbrev pub fetch_all : {E : Type 0} → Result (Pages E) → Job (List E)
  fetch_all pages = after pages (λ fetch. fetched (fetch_pages fetch 500 (λ e. true) fuel 1 []))

  abbrev pub sync_media : Job ℕ
  sync_media = do
    media_list ← fetch_all client.media
    λ w.
        masters_put (λ m t. record m { media = t })
          (bulk_upsert_media w.clock library.dumps_texts media_list w.rest.masters.media) w

  abbrev pub sync_promotions : Job ℕ
  sync_promotions = do
    promo_list ← fetch_all client.promotions
    λ w.
        masters_put (λ m t. record m { promotions = t })
          (bulk_upsert_promotions w.clock library.dumps_texts promo_list w.rest.masters.promotions)
          w

  abbrev pub sync_users : Job ℕ
  sync_users = do
    user_list ← fetch_all client.users
    λ w.
        masters_put (λ m t. record m { users = t })
          (bulk_upsert_users w.clock library.dumps_texts user_list w.rest.masters.users) w

  -- The dates that have logs.
  abbrev pub dates_of_logs : Job (List ℕ)
  dates_of_logs w = (dates_from f (get_available_dates f w.rest.logs), w)

  -- `run_master_sync`
  unfoldable pub run_master_sync : (job_run_id : String) → Job Outcome
  run_master_sync job = do
    acs ← acs_settings f s
    media_count ← sync_media
    promo_count ← sync_promotions
    user_count ← sync_users
    dates ← dates_of_logs
    queued ← queue_if true dates (str_append "master-sync-" (or_fresh job uuid)) "master_sync" job
    returns (synced media_count promo_count user_count queued)

-- A job of the worker: it runs in what its run and the clock find, and takes its time.
abbrev pub during :
    (setup : (job_run_id : String) (clock : ℕ) → Setup) (job_run_id : String)
    (body : Setup → Job Outcome)
    → Job Outcome
during setup job body w =
    let (r, v) = body (setup job w.clock) w in
    (r, record v { clock = (setup job w.clock).ends_at w.clock })

-- The functions that `_dispatch_job` calls.
abbrev pub job_handlers :
    Formats → (setup : (job_run_id : String) (clock : ℕ) → Setup) → Handlers Database
job_handlers f setup = record {
  run_click_ingestion = λ d job. during setup job (λ s. run_click_ingestion f s d job);
  run_conversion_ingestion = λ d job. during setup job (λ s. run_conversion_ingestion f s d job);
  run_refresh = λ hours clicks conversions detect job.
      during setup job (λ s. run_refresh f s hours clicks conversions detect job);
  run_recompute_findings_for_date = λ d generation trigger job source.
      during setup job (λ s. run_recompute_findings_for_date f s d generation trigger job source);
  run_master_sync = λ job. during setup job (λ s. run_master_sync f s job);
}
