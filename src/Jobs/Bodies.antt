-- ===== src/Jobs/Bodies.antt =====
-- The jobs of one date: `run_click_ingestion`, `run_conversion_ingestion` and
-- `run_recompute_findings_for_date` of `services/jobs.py`.
use Prim.Native.String.{◌++◌ as str_append}
use fraudhunter.Common.{ℕ, String, true, Option, none, some, List, [], ◌∷◌}
use fraudhunter.Common.Json.{Json, null, num, flag, text, obj, end, field}
use fraudhunter.Common.Result.{ok}
use fraudhunter.Ingestion.Ingestors.{
  ClickRun, ConversionRun, run_for_date, run_conversions_for_date,
}
use fraudhunter.Findings.Recompute.{Library, Run, recompute_findings_for_dates}
use fraudhunter.Settings.Acs.{AcsSettings, no_arguments, resolve_acs_settings}
use fraudhunter.Jobs.Formats.{Formats}
use fraudhunter.Jobs.Execute.{Action, Outcome, after}
use fraudhunter.Jobs.Actions.{returns, lift, ◌>>=◌}
use fraudhunter.Jobs.Setup.{Database, Setup, out_of_fuel, counts_of}

abbrev pub Job : Type 0 → Type 0
Job A = Action Database A

-- What a run of an ingestor leaves.
abbrev pub clicks_stored : Option ClickRun → Job ClickRun
clicks_stored none w = out_of_fuel w
clicks_stored (some run) w = (ok run, record w { rest = record w.rest { logs = run.db } })

abbrev pub conversions_stored : Option ConversionRun → Job ConversionRun
conversions_stored none w = out_of_fuel w
conversions_stored (some run) w = (ok run, record w { rest = record w.rest { logs = run.db } })

module _ (f : Formats) (s : Setup) where
  open s use {ops, getenv, client, environment, enqueues, library, reads, settings, uuid, fuel}

  -- `resolve_acs_settings()`, in `RuntimeDependencies.acs_client` and in the job
  abbrev pub acs_settings : Job AcsSettings
  acs_settings = lift (resolve_acs_settings ops getenv no_arguments)

  -- `ClickLogIngestor(…, store_raw=True).run_for_date(target_date)`
  abbrev pub clicks_on : (target_date page_size : ℕ) → Job ClickRun
  clicks_on d size = after (client.clicks d) (λ fetch w.
      clicks_stored (run_for_date (environment w.clock) true fetch size fuel d w.rest.logs) w)

  -- `ConversionIngestor(…).run_for_date(target_date)`
  abbrev pub conversions_on : (target_date page_size : ℕ) → Job ConversionRun
  conversions_on d size = after (client.conversions d) (λ fetch w.
      conversions_stored
        (run_conversions_for_date (environment w.clock) fetch size fuel d w.rest.logs) w)

  -- The two parameters have one `date.isoformat`.
  abbrev pub dated_library : Library
  dated_library = record library { isoformat = f.isoformat }

  abbrev pub run_at : (now : ℕ) (job_run_id generation_id : String) → Run
  run_at now job generation = record settings {
    computed_at = now;
    computed_by_job_id = some job;
    generation_id = some generation;
  }

  -- `recompute_findings_for_dates(repo, [target_date], …)`
  abbrev pub recompute :
      (target_date : ℕ) (job_run_id generation_id : String) → Job (List (String × ℕ))
  recompute d job generation w =
      let run = run_at w.clock job generation in
      let db = w.rest in
      let (results, cases) =
        recompute_findings_for_dates dated_library run (reads db.logs db.masters) (d ∷ [])
          db.cases in
      (ok results, record w { rest = record db { cases = cases } })

  -- What it returns.
  abbrev pub recomputed_outcome :
      (target_date : ℕ) (generation_id trigger : String) (source_job_id : Option Json)
      → List (String × ℕ)
      → Outcome
  recomputed_outcome d generation trigger source recomputed = (
    field "success" (flag true) (
        field "target_date" (text (f.isoformat d)) (
          field "generation_id" (text generation) (
            field "trigger" (text trigger) (
              field "source_job_id" (elim source [ none ↦ null | some j ↦ j ])
                (field "findings" (obj (counts_of (f.isoformat d) recomputed)) end))))),
    str_append "Recomputed findings for " (f.isoformat d),
  )

  -- `run_recompute_findings_for_date`
  unfoldable pub run_recompute_findings_for_date :
      (target_date : ℕ) (generation_id trigger job_run_id : String) (source_job_id : Option Json)
      → Job Outcome
  run_recompute_findings_for_date d generation trigger job source = do
    recomputed ← recompute d job generation
    returns (recomputed_outcome d generation trigger source recomputed)

  -- What it returns.
  abbrev pub clicks_outcome : (target_date : ℕ) → ClickRun → List (String × ℕ) → Outcome
  clicks_outcome d run counts = (
    field "success" (flag true) (
        field "count" (num run.new_count)
          (field "findings" (obj (counts_of (f.isoformat d) counts)) end)),
    str_append "Ingested "
        (str_append (f.show_int run.new_count) (str_append " clicks for " (f.isoformat d))),
  )

  -- `run_click_ingestion`
  unfoldable pub run_click_ingestion : (target_date : ℕ) (job_run_id : String) → Job Outcome
  run_click_ingestion d job = do
    acs ← acs_settings
    run ← clicks_on d acs.page_size
    counts ← recompute d job job
    returns (clicks_outcome d run counts)

  -- What it returns.
  abbrev pub conversions_outcome : (target_date : ℕ) → ConversionRun → List (String × ℕ) → Outcome
  conversions_outcome d run counts = (
    field "success" (flag true) (
        field "total" (num run.total_count) (
          field "enriched" (num run.valid_entry_count) (
            field "click_enriched" (num run.click_enriched_count)
              (field "findings" (obj (counts_of (f.isoformat d) counts)) end)))),
    str_append "Ingested "
        (str_append (f.show_int run.total_count) (str_append " conversions for " (f.isoformat d))),
  )

  -- `run_conversion_ingestion`
  unfoldable pub run_conversion_ingestion : (target_date : ℕ) (job_run_id : String) → Job Outcome
  run_conversion_ingestion d job = do
    acs ← acs_settings
    run ← conversions_on d acs.page_size
    counts ← recompute d job job
    returns (conversions_outcome d run counts)
