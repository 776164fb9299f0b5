-- ===== src/Jobs/Drained.antt =====
-- `process_queued_jobs` with the functions of `services/jobs.py` that it calls.
use fraudhunter.Common.{ℕ, String, Bool, true, false, Option, if◌then◌else◌, str_eq, ◌≡◌}
use fraudhunter.Common.Int.{ℤ}
use fraudhunter.Common.Json.{Json}
use fraudhunter.Common.Result.{Result, Exn, err, ok, ◌>>=◌}
use fraudhunter.Queue.Run.{JobRun}
use fraudhunter.Queue.Invariant.{IsConsistent}
use fraudhunter.Jobs.Formats.{Formats}
use fraudhunter.Jobs.Execute.{
  World, Action, Outcome, Handlers, after, flag_or, required, int_of_json, dispatch_job,
  process_queued_jobs,
}
use fraudhunter.Jobs.Outcome.{KeepsRun}
use fraudhunter.Jobs.Drain.{Drains, process_queued_jobs-Drains}
use fraudhunter.Jobs.Ready.{LeavesReady}
use fraudhunter.Jobs.Kinds.{
  get_field, click_ingest, conversion_ingest, refresh, recompute_findings_date, master_sync,
  or_empty, date_of_json,
}
use fraudhunter.Jobs.Actions.{Keeps, lift-Keeps}
use fraudhunter.Jobs.Setup.{Database, Setup}
use fraudhunter.Jobs.Bodies.{
  run_click_ingestion, run_conversion_ingestion, run_recompute_findings_for_date,
}
use fraudhunter.Jobs.Refresh.{run_refresh, run_master_sync, job_handlers}
use fraudhunter.Jobs.Rest.{process_queued_jobs_keeps}
use fraudhunter.Jobs.Finished.{
  ServesFinitely, Finishes, click-Finishes, conversion-Finishes, recomputation-Finishes,
  refresh-Finishes, sync-Finishes, lift-Finishes, during-Finishes,
}
use fraudhunter.Jobs.Kept.{
  during-Keeps, click-Keeps, conversion-Keeps, recomputation-Keeps, refresh-Keeps, sync-Keeps,
}

-- What the functions that `_dispatch_job` calls have in common, it has too, if a raised exception has it.
module _ {R : Type 0} (f : Formats) (handlers : Handlers R) (run : JobRun)
    (Q : Action R Outcome → Type 0) (raises : (e : Exn) → Q (λ w. (err e, w))) where
  if_has : (b : Bool) (x y : Action R Outcome) → Q x → Q y → Q (if b then x else y)
  if_has true x y h k = h
  if_has false x y h k = k

  after_has :
      {A : Type 0} (r : Result A) (rest : A → Action R Outcome)
      → ((a : A) → Q (rest a))
      → Q (after r rest)
  after_has (ok a) rest each = each a
  after_has (err e) rest each = raises e

  dispatch_has :
      ((d : ℕ) → Q (handlers.run_click_ingestion d run.id))
      → ((d : ℕ) → Q (handlers.run_conversion_ingestion d run.id))
      → ((hours : ℤ) (clicks conversions detect : Bool)
          → Q (handlers.run_refresh hours clicks conversions detect run.id))
      → ((d : ℕ) (generation trigger : String) (source : Option Json)
          → Q (handlers.run_recompute_findings_for_date d generation trigger run.id source))
      → Q (handlers.run_master_sync run.id)
      → Q (dispatch_job f handlers run)
  unfolding dispatch_job
  dispatch_has clicks conversions refreshes recomputes syncs =
      let params = or_empty run.params in
      let date : Result ℕ = required "date" params >>= date_of_json f in
      let hours : Result ℤ = (do v ← required "hours" params; int_of_json f v) in
      let dated : Result (ℕ × String) = (do
        d ← date
        g ← required "generation_id" params
        ok (d, f.show g)) in
      if_has (str_eq run.job_type click_ingest) _ _ (after_has date _ clicks) (
        if_has (str_eq run.job_type conversion_ingest) _ _ (after_has date _ conversions) (
          if_has (str_eq run.job_type refresh) _ _
            (after_has hours _ (λ h.
              refreshes h (flag_or "clicks" true params) (flag_or "conversions" true params)
                (flag_or "detect" false params)))
            (if_has (str_eq run.job_type recompute_findings_date) _ _
              (after_has dated _ (λ p. recomputes p.0 p.1 _ (get_field "source_job_id" params)))
              (if_has (str_eq run.job_type master_sync) _ _ syncs (raises _)))))

-- The jobs of a worker, each in what its run and the clock find.
module _ (f : Formats) (setup : (job_run_id : String) (clock : ℕ) → Setup) (run : JobRun) where
  jobs-KeepsRun :
      ((clock n : ℕ) → LeavesReady run.id ((setup run.id clock).enqueues n))
      → KeepsRun f (job_handlers f setup) run
  jobs-KeepsRun leaves =
      let i = run.id in
      let keeps : Keeps i (dispatch_job f (job_handlers f setup) run) =
        dispatch_has f (job_handlers f setup) run (Keeps i) (λ e. lift-Keeps i (err e))
          (λ d.
            during-Keeps setup i i (λ s. run_click_ingestion f s d i)
              (λ c. click-Keeps f (setup i c) i d i))
          (λ d.
            during-Keeps setup i i (λ s. run_conversion_ingestion f s d i)
              (λ c. conversion-Keeps f (setup i c) i d i))
          (λ h x y z.
            during-Keeps setup i i (λ s. run_refresh f s h x y z i)
              (λ c. refresh-Keeps f (setup i c) i (leaves c) h x y z i))
          (λ d g t j.
            during-Keeps setup i i (λ s. run_recompute_findings_for_date f s d g t i j)
              (λ c. recomputation-Keeps f (setup i c) i d g t i j))
          (during-Keeps setup i i (λ s. run_master_sync f s i)
            (λ c. sync-Keeps f (setup i c) i (leaves c) i)) in
      record { locks = keeps.locks; ready = keeps.ready }

  dispatch_job-Finishes :
      ((clock : ℕ) → ServesFinitely (setup run.id clock))
      → Finishes (dispatch_job f (job_handlers f setup) run)
  dispatch_job-Finishes serves =
      let i = run.id in
      dispatch_has f (job_handlers f setup) run Finishes (λ e. lift-Finishes (err e))
        (λ d.
          during-Finishes setup i (λ s. run_click_ingestion f s d i)
            (λ c. click-Finishes f (setup i c) (serves c) d i))
        (λ d.
          during-Finishes setup i (λ s. run_conversion_ingestion f s d i)
            (λ c. conversion-Finishes f (setup i c) (serves c) d i))
        (λ h x y z.
          during-Finishes setup i (λ s. run_refresh f s h x y z i)
            (λ c. refresh-Finishes f (setup i c) (serves c) h x y z i))
        (λ d g t j.
          during-Finishes setup i (λ s. run_recompute_findings_for_date f s d g t i j)
            (λ c. recomputation-Finishes f (setup i c) (serves c) d g t i j))
        (during-Finishes setup i (λ s. run_master_sync f s i)
          (λ c. sync-Finishes f (setup i c) (serves c) i))

-- With the functions of `services/jobs.py` as its jobs, on a consistent table, `process_queued_jobs` returns
-- and raises nothing, if each list of the ACS is answered with pages that are empty from some number on, or
-- not answered at all; no loop over pages is cut short by its fuel. It has then processed at most
-- `max_jobs` runs, and if fewer, no run is due; the table is consistent, and no lock is left behind. What
-- the ACS answers, the settings and the time that a job takes may differ from run to run. Other clients that
-- write while a job enqueues must leave the run of the job in place.
pub jobs-Drains :
    (f : Formats) (setup : (job_run_id : String) (clock : ℕ) → Setup) (lease : ℕ) (worker : String)
    (max_jobs : ℕ) (w : World Database)
    → ((i : String) (clock n : ℕ) → LeavesReady i ((setup i clock).enqueues n))
    → ((i : String) (clock : ℕ) → ServesFinitely (setup i clock))
    → w.rest.ended ≡ true
    → IsConsistent w.table
    → let x = process_queued_jobs f (job_handlers f setup) max_jobs lease worker w in
      Drains f (job_handlers f setup) lease worker w.held max_jobs 0 x × (x.1.rest.ended ≡ true)
jobs-Drains f setup lease worker max_jobs w leaves serves begun c = (
  process_queued_jobs-Drains f (job_handlers f setup) lease worker max_jobs w
      (λ run. jobs-KeepsRun f setup run (leaves run.id)) c,
  process_queued_jobs_keeps f (job_handlers f setup) (λ db. db.ended ≡ true)
      (λ run w' h. (dispatch_job-Finishes f setup run (serves run.id)).ends w' h) max_jobs lease
      worker w begun,
)
