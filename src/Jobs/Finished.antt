-- ===== src/Jobs/Finished.antt =====
-- The functions of `services/jobs.py` that a worker calls come to the end of their loops over the pages of an
-- ACS whose lists are finite.
use fraudhunter.Common.{
  ℕ, ◌≤◌, ◌<◌, String, Bool, true, false, Option, some, List, [], ◌∷◌, ◌≡◌, refl, ◌∙◌, arith, leb,
  ◌&&◌, if◌then◌else◌,
}
use fraudhunter.Common.Int.{ℤ}
use fraudhunter.Common.Json.{Json, null, end}
use fraudhunter.Common.Result.{Result, ok, err}
use fraudhunter.Ingestion.Paging.{fetch_pages, fetch_pages_ends}
use fraudhunter.Ingestion.Ingestors.{
  run_for_date, run_for_time_range, run_conversions_for_date, run_conversions_for_time_range,
}
use fraudhunter.Masters.Tables.{Masters}
use fraudhunter.Masters.Store.{bulk_upsert_media, bulk_upsert_promotions, bulk_upsert_users}
use fraudhunter.Jobs.Formats.{Formats}
use fraudhunter.Jobs.Execute.{World, Outcome, after}
use fraudhunter.Jobs.Actions.{returns, lift, continue, ◌>>=◌}
use fraudhunter.Jobs.Setup.{Database, Setup, Pages, start_of, add_dates}
use fraudhunter.Jobs.Bodies.{
  Job, clicks_stored, conversions_stored, clicks_on, conversions_on, recompute, run_click_ingestion,
  run_conversion_ingestion, run_recompute_findings_for_date, clicks_outcome, conversions_outcome,
  recomputed_outcome,
}
use fraudhunter.Jobs.Refresh.{
  queue_recompute, queue_if, refresh_clicks, refresh_conversions, run_refresh, fetch_all, fetched,
  masters_put, clicks_part, conversions_part, refreshed, synced, dates_of_logs, run_refresh_until,
  sync_media, sync_promotions, sync_users, run_master_sync, during,
}

-- Where the requests for a list are answered, its pages are empty from the page `fuel` on.
abbrev pub IsFinite : {A : Type 0} → (fuel : ℕ) → Result (Pages A) → Type 0
IsFinite fuel (err e) = Unit
IsFinite fuel (ok pages) = (page size : ℕ) → fuel ≤ page → pages page size ≡ []

-- The lists of the ACS are finite, and the fuel is enough for each of them.
pub record ServesFinitely (s : Setup) : Type 0 where
  pub fuelled : 0 < s.fuel
  pub clicks : (d : ℕ) → IsFinite s.fuel (s.client.clicks d)
  pub conversions : (d : ℕ) → IsFinite s.fuel (s.client.conversions d)
  pub clicks_between : (a b : ℕ) → IsFinite s.fuel (s.client.clicks_between a b)
  pub conversions_between : (a b : ℕ) → IsFinite s.fuel (s.client.conversions_between a b)
  pub media : IsFinite s.fuel s.client.media
  pub promotions : IsFinite s.fuel s.client.promotions
  pub users : IsFinite s.fuel s.client.users

-- The job cuts no loop short.
pub record Finishes {A : Type 0} (a : Job A) : Type 0 where
  pub ends : (w : World Database) → w.rest.ended ≡ true → (a w).1.rest.ended ≡ true

-- A job that leaves the note as it is.
still-Finishes :
    {A : Type 0} (a : Job A)
    → ((w : World Database) → (a w).1.rest.ended ≡ w.rest.ended)
    → Finishes a
still-Finishes a still = record { ends = λ w h. still w ∙ h }

pub lift-Finishes : {A : Type 0} (r : Result A) → Finishes (lift {R = Database} r)
lift-Finishes r = record { ends = λ w h. h }

continue-Finishes :
    {A B : Type 0} (rest : A → Job B) (x : Result A × World Database)
    → x.1.rest.ended ≡ true
    → ((a : A) → Finishes (rest a))
    → (continue rest x).1.rest.ended ≡ true
continue-Finishes rest (err e, v) h each = h
continue-Finishes rest (ok a, v) h each = (each a).ends v h

bind-Finishes :
    {A B : Type 0} (m : Job A) (rest : A → Job B)
    → Finishes m
    → ((a : A) → Finishes (rest a))
    → Finishes (m >>= rest)
bind-Finishes m rest first each = record {
  ends = λ w h. continue-Finishes rest (m w) (first.ends w h) each;
}

pub after-Finishes :
    {A B : Type 0} (r : Result A) (rest : A → Job B)
    → ((a : A) → Finishes (rest a))
    → Finishes (after r rest)
after-Finishes (ok a) rest each = record { ends = λ w h. (each a).ends w h }
after-Finishes (err e) rest each = record { ends = λ w h. h }

pub if-Finishes :
    {A : Type 0} (b : Bool) (x y : Job A) → Finishes x → Finishes y → Finishes (if b then x else y)
if-Finishes true x y h k = h
if-Finishes false x y h k = k

pub during-Finishes :
    (setup : (job_run_id : String) (clock : ℕ) → Setup) (job : String) (body : Setup → Job Outcome)
    → ((clock : ℕ) → Finishes (body (setup job clock)))
    → Finishes (during setup job body)
during-Finishes setup job body each = record { ends = λ w h. (each w.clock).ends w h }

-- A loop over the pages of a finite list, and what follows it.
module _ {E : Type 0} (fuel size : ℕ) (keep : E → Bool) (fuelled : 0 < fuel) where
  paged :
      (pages : Pages E)
      → ((page limit : ℕ) → fuel ≤ page → pages page limit ≡ [])
      → (es : List E) × (fetch_pages pages size keep fuel 1 [] ≡ some es)
  paged pages finite =
      fetch_pages_ends pages size keep fuel fuel 1 [] (λ p h. finite p size h) (omega arith) fuelled

  paging-Finishes :
      {A : Type 0} (answer : Result (Pages E)) (use_pages : Pages E → Job A)
      → IsFinite fuel answer
      → ((pages : Pages E) (es : List E)
          → fetch_pages pages size keep fuel 1 [] ≡ some es
          → Finishes (use_pages pages))
      → Finishes (after answer use_pages)
  paging-Finishes (err e) use_pages finite each = record { ends = λ w h. h }
  paging-Finishes (ok pages) use_pages finite each = record {
    ends = λ w h. (let (es, e) = paged pages finite in (each pages es e).ends w h);
  }

module _ (f : Formats) (s : Setup) (serves : ServesFinitely s) where
  clicks_on-Finishes : (d size : ℕ) → Finishes (clicks_on f s d size)
  unfolding run_for_date
  clicks_on-Finishes d size =
      paging-Finishes s.fuel size (λ x. true) serves.fuelled (s.client.clicks d) _ (serves.clicks d)
        (λ pages es e. still-Finishes _ (λ w. rw (clicks_stored, e) refl))

  conversions_on-Finishes : (d size : ℕ) → Finishes (conversions_on f s d size)
  unfolding run_conversions_for_date
  conversions_on-Finishes d size =
      paging-Finishes s.fuel size (λ x. true) serves.fuelled (s.client.conversions d) _
        (serves.conversions d)
        (λ pages es e. still-Finishes _ (λ w. rw (conversions_stored, e) refl))

  pub click-Finishes : (d : ℕ) (job : String) → Finishes (run_click_ingestion f s d job)
  unfolding run_click_ingestion
  click-Finishes d job = bind-Finishes _ _ (lift-Finishes _) (λ acs.
      bind-Finishes _ _ (clicks_on-Finishes d acs.page_size) (λ run.
        bind-Finishes (recompute f s d job job) _ (still-Finishes _ (λ w. refl))
          (λ counts. lift-Finishes (ok (clicks_outcome f s d run counts)))))

  pub conversion-Finishes : (d : ℕ) (job : String) → Finishes (run_conversion_ingestion f s d job)
  unfolding run_conversion_ingestion
  conversion-Finishes d job = bind-Finishes _ _ (lift-Finishes _) (λ acs.
      bind-Finishes _ _ (conversions_on-Finishes d acs.page_size) (λ run.
        bind-Finishes (recompute f s d job job) _ (still-Finishes _ (λ w. refl))
          (λ counts. lift-Finishes (ok (conversions_outcome f s d run counts)))))

  pub recomputation-Finishes :
      (d : ℕ) (generation trigger job : String) (source : Option Json)
      → Finishes (run_recompute_findings_for_date f s d generation trigger job source)
  unfolding run_recompute_findings_for_date
  recomputation-Finishes d generation trigger job source =
      bind-Finishes (recompute f s d job generation) _ (still-Finishes _ (λ w. refl))
        (λ counts. lift-Finishes (ok (recomputed_outcome f s d generation trigger source counts)))

  refresh_clicks-Finishes :
      (enabled : Bool) (start end_time size : ℕ)
      → Finishes (refresh_clicks f s enabled start end_time size)
  unfolding run_for_time_range
  refresh_clicks-Finishes false start end_time size = lift-Finishes (ok (null, []))
  refresh_clicks-Finishes true start end_time size =
      bind-Finishes _ _
        (paging-Finishes s.fuel size (λ x. leb start x.click_time && leb x.click_time end_time)
          serves.fuelled (s.client.clicks_between start end_time) _
          (serves.clicks_between start end_time)
          (λ pages es e. still-Finishes _ (λ w. rw (clicks_stored, e) refl)))
        (λ run. lift-Finishes (ok (clicks_part run)))

  refresh_conversions-Finishes :
      (enabled : Bool) (start end_time size : ℕ)
      → Finishes (refresh_conversions f s enabled start end_time size)
  unfolding run_conversions_for_time_range
  refresh_conversions-Finishes false start end_time size = lift-Finishes (ok (null, []))
  refresh_conversions-Finishes true start end_time size =
      bind-Finishes _ _
        (paging-Finishes s.fuel size
          (λ x. leb start x.conversion_time && leb x.conversion_time end_time) serves.fuelled
          (s.client.conversions_between start end_time) _
          (serves.conversions_between start end_time)
          (λ pages es e. still-Finishes _ (λ w. rw (conversions_stored, e) refl)))
        (λ run. lift-Finishes (ok (conversions_part run)))

  fetch_all-Finishes :
      {E : Type 0} (pages : Result (Pages E))
      → IsFinite s.fuel pages
      → Finishes (fetch_all f s pages)
  fetch_all-Finishes pages finite =
      paging-Finishes s.fuel 500 (λ e. true) serves.fuelled pages _ finite
        (λ fetch es e. still-Finishes _ (λ w. rw (fetched, e) refl))

  put_still :
      {A : Type 0} (put : Masters → A → Masters) (r : Result (ℕ × A)) (w : World Database)
      → (masters_put put r w).1.rest.ended ≡ w.rest.ended
  put_still put (err e) w = refl
  put_still put (ok (n, t)) w = refl

  sync_media-Finishes : Finishes (sync_media f s)
  sync_media-Finishes = bind-Finishes _ _ (fetch_all-Finishes s.client.media serves.media) (λ es.
      still-Finishes _ (λ w.
        put_still (λ (m : Masters) t. record m { media = t })
          (bulk_upsert_media w.clock s.library.dumps_texts es w.rest.masters.media) w))

  sync_promotions-Finishes : Finishes (sync_promotions f s)
  sync_promotions-Finishes =
      bind-Finishes _ _ (fetch_all-Finishes s.client.promotions serves.promotions) (λ es.
        still-Finishes _ (λ w.
          put_still (λ (m : Masters) t. record m { promotions = t })
            (bulk_upsert_promotions w.clock s.library.dumps_texts es w.rest.masters.promotions) w))

  sync_users-Finishes : Finishes (sync_users f s)
  sync_users-Finishes = bind-Finishes _ _ (fetch_all-Finishes s.client.users serves.users) (λ es.
      still-Finishes _ (λ w.
        put_still (λ (m : Masters) t. record m { users = t })
          (bulk_upsert_users w.clock s.library.dumps_texts es w.rest.masters.users) w))

  queue_if-Finishes :
      (wanted : Bool) (dates : List ℕ) (generation trigger source : String)
      → Finishes (queue_if f s wanted dates generation trigger source)
  queue_if-Finishes wanted [] generation trigger source = lift-Finishes (ok end)
  queue_if-Finishes wanted (d ∷ dates) generation trigger source =
      if-Finishes wanted (queue_recompute f s (d ∷ dates) generation trigger source) (returns end)
        (still-Finishes _ (λ w. refl)) (lift-Finishes (ok end))

  refreshing-Finishes :
      (end_time : ℕ) (hours : ℤ) (clicks conversions detect : Bool) (job : String)
      → Finishes (run_refresh_until f s end_time hours clicks conversions detect job)
  refreshing-Finishes end_time hours clicks conversions detect job =
      bind-Finishes _ _ (lift-Finishes (start_of end_time hours)) (λ start.
        bind-Finishes _ _ (lift-Finishes _) (λ acs.
          bind-Finishes _ _ (refresh_clicks-Finishes clicks start end_time acs.page_size) (λ c.
            bind-Finishes _ _
              (refresh_conversions-Finishes conversions start end_time acs.page_size)
              (λ v.
                bind-Finishes _ _
                  (queue_if-Finishes detect (add_dates v.1 (add_dates c.1 [])) _ "refresh" job)
                  (λ queued. lift-Finishes (ok (refreshed f hours c.0 v.0 queued)))))))

  pub refresh-Finishes :
      (hours : ℤ) (clicks conversions detect : Bool) (job : String)
      → Finishes (run_refresh f s hours clicks conversions detect job)
  unfolding run_refresh
  refresh-Finishes hours clicks conversions detect job = record {
    ends = λ w. (refreshing-Finishes w.clock hours clicks conversions detect job).ends w;
  }

  pub sync-Finishes : (job : String) → Finishes (run_master_sync f s job)
  unfolding run_master_sync
  sync-Finishes job = bind-Finishes _ _ (lift-Finishes _) (λ acs.
      bind-Finishes _ _ sync_media-Finishes (λ media.
        bind-Finishes _ _ sync_promotions-Finishes (λ promotions.
          bind-Finishes _ _ sync_users-Finishes (λ users.
            bind-Finishes _ _ (still-Finishes (dates_of_logs f s) (λ w. refl)) (λ dates.
              bind-Finishes _ _ (queue_if-Finishes true dates _ "master_sync" job)
                (λ queued. lift-Finishes (ok (synced media promotions users queued))))))))
