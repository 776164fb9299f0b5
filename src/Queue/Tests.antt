-- ===== src/Queue/Tests.antt =====
-- The queue at concrete tables: runs of its methods, and its theorems at inputs that meet their
-- hypotheses.
use fraudhunter.Common.{
  ◌+◌, ◌*◌, ◌≤◌, ◌≡◌, ◌≢◌, refl, String, true, false, Option, none, some, [], ◌∷◌, arith,
  exists_where, min, ap,
}
use fraudhunter.Common.Result.{ok}
use fraudhunter.Common.Time.{seconds}
use fraudhunter.Queue.Run.{JobRun}
use fraudhunter.Queue.Store.{
  blocked, requeue_blocked, Table, new_run, acquired, enqueue, acquire_next, recover_stale_runs,
  heartbeat, fail, retry_backoff_seconds,
}
use fraudhunter.Queue.Invariant.{IsConsistent}
use fraudhunter.Queue.Steps.{IsActiveRun}
use fraudhunter.Queue.Reach.{Reach, empty, next, enqueues, acquires, requeues, Reach-IsConsistent}
use fraudhunter.Queue.First.{TakesFirst, acquire_next_lem}
use fraudhunter.Queue.Acquire.{is_held, acquire_next_exclusive, heartbeat_keeps_run}
use fraudhunter.Queue.Retry.{Fails, fail-Fails, backoff_schedule}

-- Two queued runs; the second goes first, by its priority.
abbrev slow : JobRun
slow = new_run 1000 "a" "ingest_clicks" none (some "start") 3 (some "k1") 20 (some "date-write:d")

abbrev fast : JobRun
fast = new_run 2000 "b" "refresh" none none 4 (some "k2") 10 none

abbrev waiting : Table
waiting = slow ∷ fast ∷ []

abbrev leased : Table
leased = slow ∷ acquired 3000 (3000 + seconds 300) "w1" fast ∷ []

enqueues_slow :
    enqueue 1000 "a" "ingest_clicks" none (some "start") 3 (some "k1") 20 (some "date-write:d") []
    ≡ ok (slow, slow ∷ [])
unfolding enqueue
enqueues_slow = refl

enqueues_fast :
    enqueue 2000 "b" "refresh" none none 4 (some "k2") 10 none (slow ∷ []) ≡ ok (fast, waiting)
unfolding enqueue
enqueues_fast = refl

acquires_fast :
    acquire_next 3000 3000 300 "w1" waiting
    ≡ (some (acquired 3000 (3000 + seconds 300) "w1" fast), leased)
unfolding acquire_next
acquires_fast = refl

waiting-Reach : Reach waiting
waiting-Reach =
    next
      (next empty (
        enqueues 1000 "a" "ingest_clicks" none (some "start") 3 (some "k1") 20 (some "date-write:d")
          slow enqueues_slow))
      (enqueues 2000 "b" "refresh" none none 4 (some "k2") 10 none fast enqueues_fast)

leased-Reach : Reach leased
leased-Reach =
    next waiting-Reach
      (acquires 3000 3000 300 "w1" (ap (λ (p : Option JobRun × Table). p.1) acquires_fast))

waiting-IsConsistent : IsConsistent waiting
unfolding waiting-Reach
waiting-IsConsistent = Reach-IsConsistent waiting-Reach ((tt, tt), tt)

leased-IsConsistent : IsConsistent leased
unfolding leased-Reach waiting-Reach
leased-IsConsistent = Reach-IsConsistent leased-Reach (((tt, tt), tt), tt)

-- The worker finds the lock of its run held, and puts it back.
abbrev put_back : Table
put_back =
    slow ∷ blocked "waiting" (4000 + seconds 15) (acquired 3000 (3000 + seconds 300) "w1" fast) ∷ []

requeues_fast : requeue_blocked 4000 "b" "waiting" 15 leased ≡ ok put_back
unfolding requeue_blocked
requeues_fast = refl

Reach-IsConsistent_example : IsConsistent put_back
unfolding leased-Reach waiting-Reach
Reach-IsConsistent_example =
    Reach-IsConsistent (next leased-Reach (requeues 4000 "b" "waiting" 15 requeues_fast))
      ((((tt, tt), tt), tt), (λ h. refl, (λ h. refl, tt)))

acquire_next_lem_example :
    TakesFirst 3000 300 "w1"
      (recover_stale_runs 3000 waiting).1
      (acquire_next 3000 3000 300 "w1" waiting)
acquire_next_lem_example = acquire_next_lem 3000 3000 300 "w1" waiting

acquire_next_exclusive_example : exists_where (is_held 3000 "b") waiting ≡ false
acquire_next_exclusive_example =
    acquire_next_exclusive 3000 3000 300 "w1" waiting leased
      (acquired 3000 (3000 + seconds 300) "w1" fast) waiting-IsConsistent acquires_fast

-- The worker of `fast` beats; then another worker gets `slow`.
abbrev beaten_run : JobRun
beaten_run = acquired 3000 (3000 + seconds 300) "w1" fast

abbrev beaten : Table
beaten =
    slow
    ∷ record beaten_run { heartbeat_at = some 5000; locked_until = some (5000 + seconds 300) }
    ∷ []

beats_fast : heartbeat 5000 300 "b" "w1" leased ≡ (true, beaten)
unfolding heartbeat
beats_fast = refl

abbrev both : Table
both =
    acquired 6000 (6000 + seconds 300) "w2" slow
    ∷ record beaten_run { heartbeat_at = some 5000; locked_until = some (5000 + seconds 300) }
    ∷ []

acquires_slow :
    acquire_next 6000 6000 300 "w2" beaten
    ≡ (some (acquired 6000 (6000 + seconds 300) "w2" slow), both)
unfolding acquire_next
acquires_slow = refl

heartbeat_keeps_run_example : ◌≢◌ {A = String} "a" "b"
heartbeat_keeps_run_example =
    heartbeat_keeps_run 5000 300 "b" "w1" leased beaten 6000 6000 300 "w2" both
      (acquired 6000 (6000 + seconds 300) "w2" slow) leased-IsConsistent beats_fast (omega arith)
      acquires_slow

fast_active : IsActiveRun "b" leased
fast_active = (λ h. refl, (λ h. refl, tt))

fail-Fails_example :
    Fails 9000 "b" true beaten_run (fail 9000 "b" "failed" none (some "boom") true none leased)
fail-Fails_example =
    fail-Fails 9000 "b" "failed" none (some "boom") true leased beaten_run leased-IsConsistent refl
      fast_active

backoff_schedule_example :
    (retry_backoff_seconds 1 ≡ 30)
    × (30 ≤ retry_backoff_seconds 4)
    × (retry_backoff_seconds 4 ≤ 900)
    × (retry_backoff_seconds 6 ≡ min 900 (2 * retry_backoff_seconds 5))
backoff_schedule_example = backoff_schedule 4
