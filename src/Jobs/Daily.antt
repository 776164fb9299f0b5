-- ===== src/Jobs/Daily.antt =====
-- `run_click_ingestion` of `services/jobs.py` from the pages of the ACS to the findings of the day.
use fraudhunter.Common.{
  ◌<◌, ℕ, ◌+◌, String, true, false, Option, none, some, List, ◌≡◌, refl, eq_iff, if◌then◌else◌,
  length, exists_where, count_where,
}
use mathlib.Core.Option
use Prim.Native.String.{◌++◌ as str_append}
use fraudhunter.Common.Json.{num, flag, obj, end, field}
use fraudhunter.Common.Result.{Result, ok}
use fraudhunter.Cases.Store.{is_current_of, is_current_on}
use fraudhunter.Cases.Replace.{finding_of}
use fraudhunter.Detection.Detector.{Finding}
use fraudhunter.Findings.Recompute.{findings_on}
use fraudhunter.Findings.Stored.{is_stored_under, recompute_date_lem}
use fraudhunter.Ingestion.Logs.{ClickLog, DailyKey}
use fraudhunter.Ingestion.Ingestors.{ClickRun, run_for_date}
use fraudhunter.Ingestion.Paging.{page_of}
use fraudhunter.Ingestion.Reingest.{click_on, click_under, replaced}
use fraudhunter.Ingestion.Runs.{Ingests, run_for_date-Ingests}
use fraudhunter.Ingestion.Totals.{total, HasUniqueKeys}
use fraudhunter.Settings.Acs.{AcsSettings, no_arguments, resolve_acs_settings}
use fraudhunter.Settings.AcsLaws.{resolve_acs_settings_lem}
use fraudhunter.Jobs.Formats.{Formats}
use fraudhunter.Jobs.Execute.{World, Outcome}
use fraudhunter.Jobs.Setup.{Database, Pages, Setup}
use fraudhunter.Jobs.Bodies.{dated_library, run_at, run_click_ingestion}

module _ (f : Formats) (s : Setup) (d : ℕ) (job : String) (log : List ClickLog) where
  -- The findings that the detection has on the tables of the world.
  abbrev pub detected : (now : ℕ) → World Database → List Finding
  detected now v =
      findings_on (dated_library f s) (run_at f s now job job) (s.reads v.rest.logs v.rest.masters)
        d

  -- What the ingestion of the clicks of a day must leave, where the ACS has the clicks `log`.
  abbrev pub Refreshes : World Database → Result Outcome × World Database → Type 0
  Refreshes w (r, v) =
      let count = count_where (click_on d) log in
      let found = detected w.clock v in
      (r
        ≡ ok (
          field "success" (flag true) (
              field "count" (num count) (
                field "findings" (obj (field "suspicious_conversions" (num (length found)) end))
                  end)),
          str_append "Ingested "
              (str_append (f.show_int count) (str_append " clicks for " (f.isoformat d))),
        ))
      × (v.table ≡ w.table)
      × (v.held ≡ w.held)
      × HasUniqueKeys v.rest.logs.click_daily
      × ((k : DailyKey)
          → total k v.rest.logs.click_daily
            ≡ replaced d (count_where (click_under k) log) k w.rest.logs.click_daily)
      × ((k : String)
          → Option.map (is_current_on d) (finding_of k v.rest.cases.findings) ≡ (
              if exists_where
                (is_stored_under (dated_library f s) (run_at f s w.clock job job)
                  (s.reads v.rest.logs v.rest.masters) d k)
                found
              then some true
              else Option.map (λ _. false) (finding_of k w.rest.cases.findings)))
      × (count_where (is_current_of "conversion" d) v.rest.cases.generations ≡ 1)

  ran :
      (w : World Database) (acs : AcsSettings) (fetch : Pages ClickLog) (o : Option ClickRun)
      → resolve_acs_settings s.ops s.getenv no_arguments ≡ ok acs
      → s.client.clicks d ≡ ok fetch
      → run_for_date (s.environment w.clock) true fetch acs.page_size s.fuel d w.rest.logs ≡ o
      → Ingests d log w.rest.logs o
      → Refreshes w (run_click_ingestion f s d job w)
  unfolding run_click_ingestion
  ran w acs fetch none settings pages run h = absurd h
  ran w acs fetch (some r) settings pages run (count, unique, totals) =
      let (number, keys, generations) =
        recompute_date_lem (dated_library f s) (run_at f s w.clock job job)
          (s.reads r.db w.rest.masters) d w.rest.cases in
      rw (settings, pages, run, count, number, (eq_iff (f.isoformat d) (f.isoformat d)).1 refl)
        (refl, refl, refl, unique, totals, keys, generations)

  -- Against an ACS that serves a log of clicks in pages, with settings that `resolve_acs_settings` accepts, the
  -- job for a day returns the number of the clicks that are of the day, and that of the findings. The daily
  -- table then counts, under each key of the day, exactly the clicks of the log, and is unchanged under
  -- those of other days. A finding is current on the day exactly if the detection on these tables has it,
  -- and the day has one current generation. The runs and the locks are left as they were.
  pub run_click_ingestion_lem :
      (w : World Database) (acs : AcsSettings) (fetch : Pages ClickLog)
      → resolve_acs_settings s.ops s.getenv no_arguments ≡ ok acs
      → s.client.clicks d ≡ ok fetch
      → ((q : ℕ) → fetch (q + 1) acs.page_size ≡ page_of log (q + 1) acs.page_size)
      → length log < s.fuel
      → HasUniqueKeys w.rest.logs.click_daily
      → Refreshes w (run_click_ingestion f s d job w)
  run_click_ingestion_lem w acs fetch settings pages served enough unique =
      let above = (resolve_acs_settings_lem s.ops s.getenv no_arguments acs settings).0 in
      ran w acs fetch _ settings pages refl (
        run_for_date-Ingests (s.environment w.clock) true fetch acs.page_size d log w.rest.logs
          s.fuel served above enough unique)
