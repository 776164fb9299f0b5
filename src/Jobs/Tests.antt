-- ===== src/Jobs/Tests.antt =====
-- The jobs at concrete inputs: the theorems at inputs that meet their hypotheses.
use fraudhunter.Common.{
  All, ◌↔◌, ℕ, suc, ◌+◌, ◌≡◌, refl, sym, subst, String, Bool, true, false, none, some, [], ◌∷◌,
  find_where, str_eq, if◌then◌else◌,
}
use fraudhunter.Common.Int.{ℤ, pos}
use fraudhunter.Common.Json.{end, text}
use fraudhunter.Common.Result.{Result, ok, err, ◌>>=◌}
use fraudhunter.Common.Time.{seconds}
use fraudhunter.Queue.Run.{JobRun, queued}
use fraudhunter.Queue.Store.{has_id, new_run, acquired, enqueue, acquire_next}
use fraudhunter.Queue.Invariant.{IsConsistent}
use fraudhunter.Queue.Reach.{Reach, empty, next, enqueues, Reach-IsConsistent}
use fraudhunter.Queue.Handover.{IsReady, acquire_next-IsReady}
use fraudhunter.Jobs.Samples.{ticks, sample}
use fraudhunter.Jobs.Kinds.{
  concurrency_key_of, dedupe_key_of, or_empty, date_of_json, click_ingest, conversion_ingest,
  refresh, recompute_findings_date, master_sync,
}
use fraudhunter.Jobs.Enqueue.{Request, Environment, key_of, lock_key_of, enqueue_job}
use fraudhunter.Jobs.Dedupe.{Enqueues, enqueue_job-Enqueues}
use fraudhunter.Jobs.Execute.{
  World, Action, Outcome, Handlers, after, required, int_of_json, contains, dispatch_job,
  execute_job_run, lock_of,
}
use fraudhunter.Jobs.Outcome.{KeepsRun, RunEnds}
use fraudhunter.Jobs.Locks.{locking, execute_job_run-Ends, execute_job_run_blocked}
use fraudhunter.Jobs.Requests.{
  click_request, conversion_request, refresh_request, recompute_request, master_sync_request,
}
use fraudhunter.Jobs.Dispatch.{run_of, dispatch_round_trip, date_requests, date_jobs_exclude}

-- Two runs, of which the second has a lock, and a worker that has acquired the second.
abbrev sync : Request
sync = record {
  job_type = "master_sync";
  params = none;
  start_message = "start";
  dedupe_key = none;
  concurrency_key = none;
  has_background_tasks = true;
}

abbrev sync_run : JobRun
sync_run =
    new_run 500 "s" "master_sync" none (some "start") 3 (some "master_sync:{}") 50
      (some "master-sync")

abbrev syncing : JobRun
syncing = acquired 600 (600 + seconds 300) "w" sync_run

-- The other client enqueues the same job between the look-up and the insert.
abbrev env : Environment
env = record { now = 510; run_id = "t"; uses_kick = true; meanwhile = λ t. sync_run ∷ [] }

enqueues_sync :
    enqueue 500 "s" "master_sync" none
      (some "start")
      3
      (some "master_sync:{}")
      50
      (some "master-sync")
      []
    ≡ ok (sync_run, sync_run ∷ [])
unfolding enqueue
enqueues_sync = refl

sync-Reach : Reach (sync_run ∷ [])
sync-Reach = next empty (
    enqueues 500 "s" "master_sync" none (some "start") 3 (some "master_sync:{}") 50
      (some "master-sync") sync_run enqueues_sync)

acquires_sync : acquire_next 600 600 300 "w" (sync_run ∷ []) ≡ (some syncing, syncing ∷ [])
unfolding acquire_next
acquires_sync = refl

syncing-IsReady : IsReady "s" (syncing ∷ [])
unfolding sync-Reach
syncing-IsReady =
    acquire_next-IsReady 600 600 300 "w" (sync_run ∷ []) (syncing ∷ []) syncing
      (Reach-IsConsistent sync-Reach (tt, tt)) acquires_sync

enqueue_job-Enqueues_example : Enqueues "master_sync:{}" (enqueue_job sample env sync [])
unfolding concurrency_key_of dedupe_key_of sync-Reach
enqueue_job-Enqueues_example =
    enqueue_job-Enqueues sample env sync [] (some "master-sync") (Reach-IsConsistent empty tt)
      (Reach-IsConsistent sync-Reach (tt, tt)) refl refl

-- Jobs that count how often one ran.
abbrev counts : Action ℕ Outcome
counts w = (ok (end, "done"), record w { rest = suc w.rest })

abbrev counting : Handlers ℕ
counting = record {
  run_click_ingestion = λ d i. counts;
  run_conversion_ingestion = λ d i. counts;
  run_refresh = λ h c v d i. counts;
  run_recompute_findings_for_date = λ d g t i s. counts;
  run_master_sync = λ i. counts;
}

abbrev free : World ℕ
free = record { table = syncing ∷ []; held = []; clock = 700; rest = 0 }

abbrev locked : World ℕ
locked = record { table = syncing ∷ []; held = 11 ∷ []; clock = 700; rest = 0 }

-- The action leaves the locks and the table.
record IsStill (a : Action ℕ Outcome) : Type 0 where
  locks : (w : World ℕ) → (a w).1.held ≡ w.held
  rows : (w : World ℕ) → (a w).1.table ≡ w.table

after-IsStill : {A : Type 0} (a : Result A) → IsStill (after a (λ x. counts))
after-IsStill (ok a) = record { locks = λ w. refl; rows = λ w. refl }
after-IsStill (err e) = record { locks = λ w. refl; rows = λ w. refl }

if_IsStill :
    (b : Bool) (x y : Action ℕ Outcome) → IsStill x → IsStill y → IsStill (if b then x else y)
if_IsStill true x y h k = h
if_IsStill false x y h k = k

counting-IsStill : (run : JobRun) → IsStill (dispatch_job sample counting run)
unfolding dispatch_job
counting-IsStill run =
    let params = or_empty run.params in
    let date : Result ℕ = required "date" params >>= date_of_json sample in
    let hours : Result ℤ = (do v ← required "hours" params; int_of_json sample v) in
    let dated : Result (ℕ × String) = (do
      d ← date
      g ← required "generation_id" params
      ok (d, sample.show g)) in
    if_IsStill (str_eq run.job_type click_ingest) _ _ (after-IsStill date) (
      if_IsStill (str_eq run.job_type conversion_ingest) _ _ (after-IsStill date) (
        if_IsStill (str_eq run.job_type refresh) _ _ (after-IsStill hours) (
          if_IsStill (str_eq run.job_type recompute_findings_date) _ _ (after-IsStill dated) (
            if_IsStill (str_eq run.job_type master_sync) _ _
              (record { locks = λ w. refl; rows = λ w. refl })
              (record { locks = λ w. refl; rows = λ w. refl })))))

counting-KeepsRun : (run : JobRun) → KeepsRun sample counting run
counting-KeepsRun run = record {
  locks = (counting-IsStill run).locks;
  ready = λ w h. subst (IsReady run.id) (sym ((counting-IsStill run).rows w)) h;
}

execute_job_run_blocked_example :
    let (o, v) = execute_job_run sample counting syncing locked in
    (o ≡ ok tt)
    × (v.held ≡ 11 ∷ [])
    × (v.rest ≡ 0)
    × IsConsistent v.table
    × ((b : JobRun) × (find_where (has_id "s") v.table ≡ some b)
        × (b.status ≡ queued)
        × (b.attempt_count ≡ syncing-IsReady.row.attempt_count)
        × (b.next_retry_at ≡ some (700 + seconds 15))
        × (b.locked_until ≡ none)
        × (b.worker_id ≡ none))
unfolding contains
execute_job_run_blocked_example =
    execute_job_run_blocked sample counting syncing locked syncing-IsReady refl

execute_job_run-Ends_example :
    let (r, w1) =
      dispatch_job sample counting syncing (locking (lock_of sample (some "master-sync")) free) in
    let (o, v) = execute_job_run sample counting syncing free in
    (o ≡ ok tt)
    × (v.held ≡ [])
    × (v.rest ≡ w1.rest)
    × IsConsistent v.table
    × RunEnds w1.clock "s" w1.table r v.table
unfolding contains
execute_job_run-Ends_example =
    execute_job_run-Ends sample counting syncing free refl syncing-IsReady
      (counting-KeepsRun syncing)

dispatch_round_trip_example :
    (dispatch_job sample counting (run_of (click_request sample true 3) syncing) free
      ≡ counting.run_click_ingestion 3 "s" free)
    × (dispatch_job sample counting (run_of (conversion_request sample true 3) syncing) free
        ≡ counting.run_conversion_ingestion 3 "s" free)
    × (dispatch_job sample counting
          (run_of (refresh_request sample true 24 true false true) syncing)
          free
        ≡ counting.run_refresh (pos 24) true false true "s" free)
    × (dispatch_job sample counting
          (run_of (recompute_request sample true 3 "g" "refresh" (some "j")) syncing)
          free
        ≡ counting.run_recompute_findings_for_date 3 "g" "refresh" "s" (some (text "j")) free)
    × (dispatch_job sample counting (run_of (master_sync_request sample true) syncing) free
        ≡ counting.run_master_sync "s" free)
dispatch_round_trip_example =
    dispatch_round_trip sample counting true syncing free 3 24 true false true "g" "refresh" "j"
      refl refl

date_jobs_exclude_example :
    All
      (λ r.
        All
          (λ r'. (lock_key_of sample r ≡ lock_key_of sample r') ↔ (◌≡◌ {A = ℕ} 3 4))
          (date_requests sample true 4 "h" "job" (some "j")))
      (date_requests sample true 3 "g" "refresh" none)
    × ((key_of sample (recompute_request sample true 3 "g" "refresh" none)
          ≡ key_of sample (recompute_request sample true 4 "h" "job" (some "j")))
        ↔ (◌≡◌ {A = ℕ} 3 4))
    × (lock_key_of sample (refresh_request sample true 24 true true true) ≡ ok none)
    × (lock_key_of sample (master_sync_request sample true) ≡ ok (some "master-sync"))
unfolding ticks
date_jobs_exclude_example =
    date_jobs_exclude sample true 3 4 24 true true true "g" "refresh" "h" "job" none (some "j") refl
      refl
