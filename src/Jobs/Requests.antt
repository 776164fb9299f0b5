-- ===== src/Jobs/Requests.antt =====
-- The `enqueue_…_job` functions of `services/jobs.py`: the request of each kind of job.
use Prim.Native.String.{◌++◌ as str_append}
use fraudhunter.Common.{
  ℕ, suc, String, Bool, Option, none, some, List, [], ◌∷◌, str_eq, if◌then◌else◌,
}
use fraudhunter.Common.Json.{Fields, num, flag, text, end, field}
use fraudhunter.Common.Result.{Result, ok, err, ◌>>=◌}
use fraudhunter.Queue.Run.{JobRun}
use fraudhunter.Queue.Store.{Table}
use fraudhunter.Jobs.Formats.{Formats}
use fraudhunter.Jobs.Kinds.{
  click_ingest, conversion_ingest, refresh, recompute_findings_date, master_sync,
}
use fraudhunter.Jobs.Enqueue.{Request, Environment, Enqueued, lock_key_of, enqueue_job}

-- A call of `enqueue_job` without keys of its own.
abbrev pub request :
    (job_type : String) (params : Option Fields) (start_message : String)
    (has_background_tasks : Bool)
    → Request
request job_type params start_message has_background_tasks = record {
  job_type = job_type;
  params = params;
  start_message = start_message;
  dedupe_key = none;
  concurrency_key = none;
  has_background_tasks = has_background_tasks;
}

-- `f"{text}（{target_date.isoformat()}）"`
abbrev pub dated : Formats → String → ℕ → String
dated f s d = str_append s (str_append "（" (str_append (f.isoformat d) "）"))

module _ (f : Formats) (has_background_tasks : Bool) where
  -- `{"date": …, "generation_id": …, "trigger": …}`, and `source_job_id` if it is not empty
  abbrev pub recompute_params :
      (target_date : ℕ) (generation_id trigger : String) (source_job_id : Option String) → Fields
  recompute_params d generation_id trigger source_job_id =
      let source : Fields = elim source_job_id [
        | none ↦ end
        | some s ↦ if str_eq s "" then end else field "source_job_id" (text s) end
      ] in
      field "date" (text (f.isoformat d))
        (field "generation_id" (text generation_id) (field "trigger" (text trigger) source))

  -- `enqueue_recompute_findings_job`
  abbrev pub recompute_request :
      (target_date : ℕ) (generation_id trigger : String) (source_job_id : Option String) → Request
  recompute_request d generation_id trigger source_job_id =
      request recompute_findings_date
        (some (recompute_params d generation_id trigger source_job_id))
        (dated f "finding 再計算ジョブを登録しました" d) has_background_tasks

  -- `enqueue_click_ingestion_job`
  abbrev pub click_request : (target_date : ℕ) → Request
  click_request d =
      request click_ingest (some (field "date" (text (f.isoformat d)) end))
        (dated f "クリック取り込みジョブを登録しました" d) has_background_tasks

  -- `enqueue_conversion_ingestion_job`
  abbrev pub conversion_request : (target_date : ℕ) → Request
  conversion_request d =
      request conversion_ingest (some (field "date" (text (f.isoformat d)) end))
        (dated f "成果取り込みジョブを登録しました" d) has_background_tasks

  -- `enqueue_refresh_job`; the API takes no negative number of hours
  abbrev pub refresh_request : (hours : ℕ) (clicks conversions detect : Bool) → Request
  refresh_request hours clicks conversions detect =
      request refresh
        (some (
          field "hours" (num hours) (
            field "clicks" (flag clicks)
              (field "conversions" (flag conversions) (field "detect" (flag detect) end)))))
        (str_append "直近" (str_append (f.show_int hours) "時間の再取得ジョブを登録しました")) has_background_tasks

  -- `enqueue_master_sync_job`
  abbrev pub master_sync_request : Request
  master_sync_request = request master_sync none "マスタ同期ジョブを登録しました" has_background_tasks

  -- The table that an `enqueue_job` which raised has left: the other clients may have written.
  abbrev pub left_by : Environment → Request → Table → Table
  left_by env r t = elim (lock_key_of f r) [ ok k ↦ env.meanwhile t | err e ↦ t ]

  -- After one of the calls: the rest of the loop, or the exception, which leaves the runs before it in place.
  abbrev pub and_then :
      (rest : Table → Result (List JobRun) × Table) (left : Table)
      → Result Enqueued
      → Result (List JobRun) × Table
  and_then rest left (err e) = (err e, left)
  and_then rest left (ok (run, u, kicked)) =
      let (runs, v) = rest u in (do more ← runs; ok (run ∷ more), v)

  -- `enqueue_findings_recompute_jobs`, where the n-th call of `enqueue_job` has the environment `env n`
  unfoldable pub enqueue_findings_recompute_jobs :
      (env : ℕ → Environment) (n : ℕ) (dates : List ℕ) (generation_id trigger : String)
      (source_job_id : Option String)
      → Table
      → Result (List JobRun) × Table
  enqueue_findings_recompute_jobs env n [] generation_id trigger source_job_id t = (ok [], t)
  enqueue_findings_recompute_jobs env n (d ∷ dates) generation_id trigger source_job_id t =
      let r = recompute_request d generation_id trigger source_job_id in
      and_then
        (λ u.
          enqueue_findings_recompute_jobs env (suc n) dates generation_id trigger source_job_id u)
        (left_by (env n) r t) (enqueue_job f (env n) r t)
