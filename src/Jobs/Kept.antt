-- ===== src/Jobs/Kept.antt =====
-- The functions of `services/jobs.py` that a worker calls leave the locks, and the worker's run in place.
use fraudhunter.Common.{
  ℕ, String, Bool, true, false, Option, none, some, List, [], ◌∷◌, ◌≡◌, refl, sym, subst,
}
use fraudhunter.Common.Int.{ℤ}
use fraudhunter.Common.Json.{Json, null, end}
use fraudhunter.Ingestion.Paging.{fetch_pages}
use fraudhunter.Masters.Store.{bulk_upsert_media, bulk_upsert_promotions, bulk_upsert_users}
use fraudhunter.Common.Result.{Result, ok, err}
use fraudhunter.Queue.Handover.{IsReady}
use fraudhunter.Ingestion.Logs.{ClickLog, ConversionLog}
use fraudhunter.Ingestion.Ingestors.{
  ClickRun, ConversionRun, run_for_date, run_for_time_range, run_conversions_for_date,
  run_conversions_for_time_range,
}
use fraudhunter.Masters.Tables.{Masters}
use fraudhunter.Jobs.Formats.{Formats}
use fraudhunter.Jobs.Execute.{World, Outcome, after}
use fraudhunter.Jobs.Ready.{LeavesReady, enqueue_findings_recompute_jobs-IsReady}
use fraudhunter.Jobs.Actions.{Keeps, returns, lift-Keeps, bind-Keeps, after-Keeps, if-Keeps}
use fraudhunter.Jobs.Setup.{Database, Setup, Pages, start_of, add_dates}
use fraudhunter.Jobs.Bodies.{
  Job, clicks_stored, conversions_stored, clicks_on, conversions_on, recompute, run_click_ingestion,
  run_conversion_ingestion, run_recompute_findings_for_date, clicks_outcome, conversions_outcome,
  recomputed_outcome,
}
use fraudhunter.Jobs.Refresh.{
  queue_recompute, queue_if, refresh_clicks, refresh_conversions, run_refresh, fetch_all, fetched,
  during, masters_put, clicks_part, conversions_part, refreshed, synced, dates_of_logs,
  run_refresh_until, sync_media, sync_promotions, sync_users, run_master_sync,
}

-- A job that changes neither the locks nor the runs.
still-Keeps :
    {A : Type 0} (i : String) (a : Job A)
    → ((w : World Database) → ((a w).1.held ≡ w.held) × ((a w).1.table ≡ w.table))
    → Keeps i a
still-Keeps i a still = record {
  locks = λ w. (still w).0;
  ready = λ w h. subst (IsReady i) (sym (still w).1) h;
}

clicks_still :
    (run : Option ClickRun) (w : World Database)
    → ((clicks_stored run w).1.held ≡ w.held) × ((clicks_stored run w).1.table ≡ w.table)
clicks_still none w = (refl, refl)
clicks_still (some run) w = (refl, refl)

conversions_still :
    (run : Option ConversionRun) (w : World Database)
    → ((conversions_stored run w).1.held ≡ w.held) × ((conversions_stored run w).1.table ≡ w.table)
conversions_still none w = (refl, refl)
conversions_still (some run) w = (refl, refl)

clicks-Keeps :
    (i : String) (pages : Result (Pages ClickLog))
    (run : Pages ClickLog → World Database → Option ClickRun)
    → Keeps i (after pages (λ fetch w. clicks_stored (run fetch w) w))
clicks-Keeps i pages run =
    after-Keeps i pages (λ fetch w. clicks_stored (run fetch w) w)
      (λ fetch.
        still-Keeps i (λ w. clicks_stored (run fetch w) w) (λ w. clicks_still (run fetch w) w))

conversions-Keeps :
    (i : String) (pages : Result (Pages ConversionLog))
    (run : Pages ConversionLog → World Database → Option ConversionRun)
    → Keeps i (after pages (λ fetch w. conversions_stored (run fetch w) w))
conversions-Keeps i pages run =
    after-Keeps i pages (λ fetch w. conversions_stored (run fetch w) w)
      (λ fetch.
        still-Keeps i (λ w. conversions_stored (run fetch w) w)
          (λ w. conversions_still (run fetch w) w))

fetched_still :
    {E : Type 0} (es : Option (List E)) (w : World Database)
    → ((fetched es w).1.held ≡ w.held) × ((fetched es w).1.table ≡ w.table)
fetched_still none w = (refl, refl)
fetched_still (some es) w = (refl, refl)

pub during-Keeps :
    (setup : (job_run_id : String) (clock : ℕ) → Setup) (i job : String)
    (body : Setup → Job Outcome)
    → ((clock : ℕ) → Keeps i (body (setup job clock)))
    → Keeps i (during setup job body)
during-Keeps setup i job body keeps = record {
  locks = λ w. (keeps w.clock).locks w;
  ready = λ w h. (keeps w.clock).ready w h;
}

module _ (f : Formats) (s : Setup) (i : String) where
  clicks_on-Keeps : (d size : ℕ) → Keeps i (clicks_on f s d size)
  clicks_on-Keeps d size =
      clicks-Keeps i (s.client.clicks d)
        (λ fetch w. run_for_date (s.environment w.clock) true fetch size s.fuel d w.rest.logs)

  conversions_on-Keeps : (d size : ℕ) → Keeps i (conversions_on f s d size)
  conversions_on-Keeps d size =
      conversions-Keeps i (s.client.conversions d) (λ fetch w.
        run_conversions_for_date (s.environment w.clock) fetch size s.fuel d w.rest.logs)

  recompute-Keeps : (d : ℕ) (job generation : String) → Keeps i (recompute f s d job generation)
  recompute-Keeps d job generation = still-Keeps i _ (λ w. (refl, refl))

  pub click-Keeps : (d : ℕ) (job : String) → Keeps i (run_click_ingestion f s d job)
  unfolding run_click_ingestion
  click-Keeps d job = bind-Keeps i _ _ (lift-Keeps i _) (λ acs.
      bind-Keeps i _ _ (clicks_on-Keeps d acs.page_size) (λ run.
        bind-Keeps i _ _ (recompute-Keeps d job job)
          (λ counts. lift-Keeps i (ok (clicks_outcome f s d run counts)))))

  pub conversion-Keeps : (d : ℕ) (job : String) → Keeps i (run_conversion_ingestion f s d job)
  unfolding run_conversion_ingestion
  conversion-Keeps d job = bind-Keeps i _ _ (lift-Keeps i _) (λ acs.
      bind-Keeps i _ _ (conversions_on-Keeps d acs.page_size) (λ run.
        bind-Keeps i _ _ (recompute-Keeps d job job)
          (λ counts. lift-Keeps i (ok (conversions_outcome f s d run counts)))))

  pub recomputation-Keeps :
      (d : ℕ) (generation trigger job : String) (source : Option Json)
      → Keeps i (run_recompute_findings_for_date f s d generation trigger job source)
  unfolding run_recompute_findings_for_date
  recomputation-Keeps d generation trigger job source =
      bind-Keeps i _ _ (recompute-Keeps d job generation)
        (λ counts. lift-Keeps i (ok (recomputed_outcome f s d generation trigger source counts)))

  refresh_clicks-Keeps :
      (enabled : Bool) (start end_time size : ℕ)
      → Keeps i (refresh_clicks f s enabled start end_time size)
  refresh_clicks-Keeps false start end_time size = lift-Keeps i (ok (null, []))
  refresh_clicks-Keeps true start end_time size =
      bind-Keeps i _ _
        (clicks-Keeps i (s.client.clicks_between start end_time) (λ fetch w.
          run_for_time_range (s.environment w.clock) true fetch size s.fuel start end_time
            w.rest.logs))
        (λ run. lift-Keeps i (ok (clicks_part run)))

  refresh_conversions-Keeps :
      (enabled : Bool) (start end_time size : ℕ)
      → Keeps i (refresh_conversions f s enabled start end_time size)
  refresh_conversions-Keeps false start end_time size = lift-Keeps i (ok (null, []))
  refresh_conversions-Keeps true start end_time size =
      bind-Keeps i _ _
        (conversions-Keeps i (s.client.conversions_between start end_time) (λ fetch w.
          run_conversions_for_time_range (s.environment w.clock) fetch size s.fuel start end_time
            w.rest.logs))
        (λ run. lift-Keeps i (ok (conversions_part run)))

  fetch_all-Keeps : {E : Type 0} (pages : Result (Pages E)) → Keeps i (fetch_all f s pages)
  fetch_all-Keeps pages =
      after-Keeps i pages (λ fetch. fetched (fetch_pages fetch 500 (λ e. true) s.fuel 1 []))
        (λ fetch.
          still-Keeps i (fetched (fetch_pages fetch 500 (λ e. true) s.fuel 1 []))
            (λ w. fetched_still (fetch_pages fetch 500 (λ e. true) s.fuel 1 []) w))

  put_still :
      {A : Type 0} (put : Masters → A → Masters) (r : Result (ℕ × A)) (w : World Database)
      → ((masters_put put r w).1.held ≡ w.held) × ((masters_put put r w).1.table ≡ w.table)
  put_still put (err e) w = (refl, refl)
  put_still put (ok (n, t)) w = (refl, refl)

  sync_media-Keeps : Keeps i (sync_media f s)
  sync_media-Keeps = bind-Keeps i _ _ (fetch_all-Keeps s.client.media) (λ es. still-Keeps i _ (λ w.
      put_still (λ (m : Masters) t. record m { media = t })
        (bulk_upsert_media w.clock s.library.dumps_texts es w.rest.masters.media) w))

  sync_promotions-Keeps : Keeps i (sync_promotions f s)
  sync_promotions-Keeps = bind-Keeps i _ _ (fetch_all-Keeps s.client.promotions) (λ es.
      still-Keeps i _ (λ w.
        put_still (λ (m : Masters) t. record m { promotions = t })
          (bulk_upsert_promotions w.clock s.library.dumps_texts es w.rest.masters.promotions) w))

  sync_users-Keeps : Keeps i (sync_users f s)
  sync_users-Keeps = bind-Keeps i _ _ (fetch_all-Keeps s.client.users) (λ es. still-Keeps i _ (λ w.
      put_still (λ (m : Masters) t. record m { users = t })
        (bulk_upsert_users w.clock s.library.dumps_texts es w.rest.masters.users) w))

  module _ (leaves : (n : ℕ) → LeavesReady i (s.enqueues n)) where
    queue_recompute-Keeps :
        (dates : List ℕ) (generation trigger source : String)
        → Keeps i (queue_recompute f s dates generation trigger source)
    queue_recompute-Keeps dates generation trigger source = record {
      locks = λ w. refl;
      ready = λ w h.
          enqueue_findings_recompute_jobs-IsReady f false i s.enqueues 0 dates generation trigger
            (some source) w.table leaves h;
    }

    queue_if-Keeps :
        (wanted : Bool) (dates : List ℕ) (generation trigger source : String)
        → Keeps i (queue_if f s wanted dates generation trigger source)
    queue_if-Keeps wanted [] generation trigger source = lift-Keeps i (ok end)
    queue_if-Keeps wanted (d ∷ dates) generation trigger source =
        if-Keeps i wanted (queue_recompute f s (d ∷ dates) generation trigger source) (returns end)
          (queue_recompute-Keeps (d ∷ dates) generation trigger source) (lift-Keeps i (ok end))

    refreshing-Keeps :
        (end_time : ℕ) (hours : ℤ) (clicks conversions detect : Bool) (job : String)
        → Keeps i (run_refresh_until f s end_time hours clicks conversions detect job)
    refreshing-Keeps end_time hours clicks conversions detect job =
        bind-Keeps i _ _ (lift-Keeps i (start_of end_time hours)) (λ start.
          bind-Keeps i _ _ (lift-Keeps i _) (λ acs.
            bind-Keeps i _ _ (refresh_clicks-Keeps clicks start end_time acs.page_size) (λ c.
              bind-Keeps i _ _ (refresh_conversions-Keeps conversions start end_time acs.page_size)
                (λ v.
                  bind-Keeps i _ _
                    (queue_if-Keeps detect (add_dates v.1 (add_dates c.1 [])) _ "refresh" job)
                    (λ queued. lift-Keeps i (ok (refreshed f hours c.0 v.0 queued)))))))

    pub refresh-Keeps :
        (hours : ℤ) (clicks conversions detect : Bool) (job : String)
        → Keeps i (run_refresh f s hours clicks conversions detect job)
    unfolding run_refresh
    refresh-Keeps hours clicks conversions detect job = record {
      locks = λ w. (refreshing-Keeps w.clock hours clicks conversions detect job).locks w;
      ready = λ w. (refreshing-Keeps w.clock hours clicks conversions detect job).ready w;
    }

    pub sync-Keeps : (job : String) → Keeps i (run_master_sync f s job)
    unfolding run_master_sync
    sync-Keeps job = bind-Keeps i _ _ (lift-Keeps i _) (λ acs.
        bind-Keeps i _ _ sync_media-Keeps (λ media.
          bind-Keeps i _ _ sync_promotions-Keeps (λ promotions.
            bind-Keeps i _ _ sync_users-Keeps (λ users.
              bind-Keeps i _ _ (still-Keeps i (dates_of_logs f s) (λ w. (refl, refl))) (λ dates.
                bind-Keeps i _ _ (queue_if-Keeps true dates _ "master_sync" job)
                  (λ queued. lift-Keeps i (ok (synced media promotions users queued))))))))
