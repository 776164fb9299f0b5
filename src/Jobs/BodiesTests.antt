-- ===== src/Jobs/BodiesTests.antt =====
-- The functions that a worker calls, at concrete inputs.
use fraudhunter.Common.{
  ℕ, ◌+◌, String, ◌<◌, ◌∙◌, sym, ap, Bool-cases, inl, inr, eq_iff, str_eq, ◌≡◌, refl, true, false,
  none, some, [], ◌∷◌, arith,
}
use fraudhunter.Common.Int.{pos}
use fraudhunter.Common.Result.{ok, err, other_error}
use fraudhunter.Common.Time.{days}
use fraudhunter.Cases.Reach.{no_cases}
use fraudhunter.Ingestion.Paging.{page_of, page_of_past}
use fraudhunter.Ingestion.Samples.{batch, nothing, env}
use fraudhunter.Findings.Samples.{library, reads, run}
use fraudhunter.Settings.Env.{TextOps}
use fraudhunter.Settings.Acs.{AcsSettings, no_arguments, resolve_acs_settings}
use fraudhunter.Common.Json.{field, text, end}
use fraudhunter.Queue.Run.{JobRun}
use fraudhunter.Queue.Store.{new_run, enqueue}
use fraudhunter.Queue.Reach.{Reach, Reach-IsConsistent, empty, next, enqueues}
use fraudhunter.Jobs.Kinds.{click_ingest}
use fraudhunter.Jobs.Execute.{World, process_queued_jobs}
use fraudhunter.Jobs.Drain.{Drains}
use fraudhunter.Jobs.Samples.{ticks, ticks_of, ticks_round_trip, sample}
use fraudhunter.Jobs.Enqueue.{Environment}
use fraudhunter.Jobs.Requests.{enqueue_findings_recompute_jobs}
use fraudhunter.Jobs.Recomputed.{Recomputes, enqueue_findings_recompute_jobs-Recomputes}
use fraudhunter.Jobs.Setup.{Database, Setup}
use fraudhunter.Jobs.Bodies.{run_click_ingestion}
use fraudhunter.Jobs.Refresh.{job_handlers}
use fraudhunter.Jobs.Daily.{Refreshes, run_click_ingestion_lem}
use fraudhunter.Jobs.Finished.{ServesFinitely}
use fraudhunter.Jobs.Drained.{jobs-Drains}

-- Texts without blanks or slashes at the end, and pages of two.
abbrev ops : TextOps
ops = record {
  strip = λ s. s;
  lower = λ s. s;
  lstrip_slash = λ s. s;
  rstrip_slash = λ s. s;
  starts_with = λ p s. true;
  split_colon = λ s. none;
  parse_int = λ s. some (pos 2);
}

-- An ACS that has clicks, and fails to answer for the rest.
abbrev setup : Setup
setup = record {
  ops = ops;
  getenv = λ name. some "2";
  client = record {
    clicks = λ d. ok (page_of batch);
    conversions = λ d. err (other_error "timeout");
    clicks_between = λ a b. ok (page_of batch);
    conversions_between = λ a b. err (other_error "timeout");
    media = err (other_error "timeout");
    promotions = err (other_error "timeout");
    users = err (other_error "timeout");
  };
  environment = λ now. env;
  enqueues = λ n. record { now = days 4; run_id = "t"; uses_kick = false; meanwhile = λ t. t };
  library = library;
  reads = λ logs masters. reads;
  settings = run;
  uuid = "0";
  ends_at = λ clock. clock + 1;
  fuel = 6;
}

abbrev world : World Database
world = record {
  table = [];
  held = [];
  clock = days 4;
  rest = record {
    ended = true;
    logs = nothing;
    cases = no_cases;
    masters = record { media = []; promotions = []; users = [] };
  };
}

abbrev acs : AcsSettings
acs = record {
  base_url = "2";
  access_key = "2";
  secret_key = "2";
  page_size = 2;
  log_endpoint = "2";
}

accepts : resolve_acs_settings ops (λ name. some "2") no_arguments ≡ ok acs
unfolding resolve_acs_settings
accepts = refl

run_click_ingestion_lem_example :
    Refreshes sample setup 3 "run-1" batch world (run_click_ingestion sample setup 3 "run-1" world)
run_click_ingestion_lem_example =
    run_click_ingestion_lem sample setup 3 "run-1" batch world acs (page_of batch) accepts refl
      (λ q. refl) (omega arith) (λ k. omega arith)

-- A run that ingests the clicks of day 3.
abbrev click_run : JobRun
click_run =
    new_run 500 "c" click_ingest (some (field "date" (text (ticks 3)) end)) (some "start") 3
      (some "clicks") 50 (some "day")

enqueues_clicks :
    enqueue 500 "c" click_ingest
      (some (field "date" (text (ticks 3)) end))
      (some "start")
      3
      (some "clicks")
      50
      (some "day")
      []
    ≡ ok (click_run, click_run ∷ [])
unfolding enqueue
enqueues_clicks = refl

clicks-Reach : Reach (click_run ∷ [])
clicks-Reach = next empty (
    enqueues 500 "c" click_ingest (some (field "date" (text (ticks 3)) end)) (some "start") 3
      (some "clicks") 50 (some "day") click_run enqueues_clicks)

abbrev waiting : World Database
waiting = record world { table = click_run ∷ [] }

-- Every run finds the same ACS, whose clicks are on pages of two.
abbrev setup_at : String → ℕ → Setup
setup_at job clock = setup

setup-ServesFinitely : ServesFinitely setup
setup-ServesFinitely = record {
  fuelled = omega arith;
  clicks = λ d page size h. page_of_past batch page size (omega (arith, h));
  conversions = λ d. tt;
  clicks_between = λ a b page size h. page_of_past batch page size (omega (arith, h));
  conversions_between = λ a b. tt;
  media = tt;
  promotions = tt;
  users = tt;
}

jobs-Drains_example :
    let x = process_queued_jobs sample (job_handlers sample setup_at) 5 300 "w" waiting in
    Drains sample (job_handlers sample setup_at) 300 "w" [] 5 0 x × (x.1.rest.ended ≡ true)
unfolding clicks-Reach
jobs-Drains_example =
    jobs-Drains sample setup_at 300 "w" 5 waiting (λ i clock n t h. h)
      (λ i clock. setup-ServesFinitely) refl (Reach-IsConsistent clicks-Reach (tt, tt))

-- Two dates, one of which is enqueued twice, by calls with the ids of their numbers.
abbrev numbered : ℕ → Environment
numbered n = record { now = 600; run_id = ticks n; uses_kick = false; meanwhile = λ t. t }

numbered_differ : (a b : ℕ) → a < b → str_eq (ticks a) (ticks b) ≡ false
numbered_differ a b h = elim (Bool-cases (str_eq (ticks a) (ticks b))) [
  | inl same ↦
      let equal : a ≡ b =
        sym (ticks_round_trip a)
        ∙ ap ticks_of ((eq_iff (ticks a) (ticks b)).0 same)
        ∙ ticks_round_trip b in
      absurd (omega (arith, h, equal))
  | inr other ↦ other
]

enqueue_findings_recompute_jobs-Recomputes_example :
    Recomputes sample false numbered "g" "refresh" (some "j") (3 ∷ 4 ∷ 3 ∷ []) (
      enqueue_findings_recompute_jobs sample false numbered 0
        (3 ∷ 4 ∷ 3 ∷ [])
        "g"
        "refresh"
        (some "j")
        [])
unfolding ticks
enqueue_findings_recompute_jobs-Recomputes_example =
    enqueue_findings_recompute_jobs-Recomputes sample false numbered "g" "refresh" (some "j")
      (λ n u. refl) 0 (3 ∷ 4 ∷ 3 ∷ []) [] numbered_differ (refl, (refl, (refl, tt)))
      (Reach-IsConsistent empty tt) (λ m h. refl)
