-- ===== src/Queue/Retry.antt =====
-- How `fail` spends a run's attempts, and how long it makes the run wait.
use native.Mathlib.Nat.{one-le-pow, two-pow-succ}
use fraudhunter.Common.{
  ℕ, suc, ◌+◌, ◌-◌, ◌*◌, ◌^◌, ◌≤◌, ◌<◌, String, Bool, true, false, Option, none, some, ◌≡◌, refl,
  arith, inl, inr, Bool-cases, find_where, find-update_self, not_exists_of_All, find-mem,
  find_passes, All-mem, All-imp, update_where, exists_where, ◌⊎◌, ◌&&◌, not, if◌then◌else◌, min,
}
use fraudhunter.Common.Json.{Fields}
use fraudhunter.Common.Result.{Result, ok, err}
use fraudhunter.Common.Time.{seconds}
use fraudhunter.Queue.Run.{JobRun, RunStatus, queued, failed, is_active}
use fraudhunter.Queue.Invariant.{IsSound, IsConsistent}
use fraudhunter.Queue.Steps.{IsActiveRun}
use fraudhunter.Queue.Store.{
  Table, has_id, get_attempt_state, or_default, should_retry, retry_backoff_seconds, failed_run,
  reactivate, fail, is_taken,
}

doubles : (n : ℕ) → 30 ≤ 30 * 2 ^ n
doubles n = omega (arith, one-le-pow n 2 (omega arith))

-- The first retry waits 30 seconds, no retry waits longer than 900, and each wait is twice the one
-- before it until that bound is met.
pub backoff_schedule :
    (n : ℕ)
    → (retry_backoff_seconds 1 ≡ 30)
      × (30 ≤ retry_backoff_seconds n)
      × (retry_backoff_seconds n ≤ 900)
      × (retry_backoff_seconds (n + 2) ≡ min 900 (2 * retry_backoff_seconds (n + 1)))
unfolding retry_backoff_seconds
backoff_schedule n = (
  refl,
  omega (arith, doubles (n - 1)),
  omega arith,
  let up : n + 2 - 1 ≡ suc n = omega arith in
      let same : n + 1 - 1 ≡ n = omega arith in rw (up, same) (omega (arith, two-pow-succ n)),
)

-- A failure for good: the run is not to be retried, or its attempts are used up.
abbrev pub GivenUp : (now : ℕ) (retryable : Bool) (a b : JobRun) → Type 0
GivenUp now retryable a b =
    ((retryable ≡ false) ⊎ (a.max_attempts ≤ b.attempt_count))
    × (b.status ≡ failed)
    × (b.finished_at ≡ some now)
    × (b.next_retry_at ≡ none)

-- A failure with a retry: attempts are left, and the next one is due 30 to 900 seconds later.
abbrev pub Retried : (now : ℕ) (retryable : Bool) (a b : JobRun) → Type 0
Retried now retryable a b =
    (wait : ℕ) × (retryable ≡ true)
    × (b.attempt_count < a.max_attempts)
    × (b.status ≡ queued)
    × (b.finished_at ≡ none)
    × (b.next_retry_at ≡ some (now + seconds wait))
    × (30 ≤ wait)
    × (wait ≤ 900)

-- What a call of `fail` for the run `a` answers: it raises nothing, returns the status that it wrote,
-- spends one attempt, gives up the lease, and retries or gives up.
abbrev pub Fails :
    (now : ℕ) (i : String) (retryable : Bool) (a : JobRun) → Result (RunStatus × Table) → Type 0
Fails now i retryable a (err e) = ⊥
Fails now i retryable a (ok (s, u)) =
    (b : JobRun) × (find_where (has_id i) u ≡ some b)
    × (b.status ≡ s)
    × (b.attempt_count ≡ a.attempt_count + 1)
    × (b.locked_until ≡ none)
    × (b.worker_id ≡ none)
    × (GivenUp now retryable a b ⊎ Retried now retryable a b)

failed_splits :
    (now : ℕ) (message : String) (result : Option Fields) (error : Option String) (retryable : Bool)
    (a : JobRun)
    → 0 < a.max_attempts
    → let retry = should_retry retryable (a.attempt_count + 1) (or_default a.max_attempts 1) in
      let b = failed_run now message result error none (a.attempt_count + 1) retry a in
      GivenUp now retryable a b ⊎ Retried now retryable a b
failed_splits now message result error retryable a pos =
    let n = a.attempt_count + 1 in
    elim (Bool-cases (should_retry retryable n (or_default a.max_attempts 1))) [
      | inl e ↦ rw e (
          inr (
            retry_backoff_seconds n,
            ground arith,
            ground arith,
            refl,
            refl,
            refl,
            (backoff_schedule n).1,
            (backoff_schedule n).2,
          ))
      | inr e ↦ rw e (inl (ground arith, refl, refl, refl))
    ]

pub reactivate_active :
    (i : String) (set : JobRun → JobRun) (t : Table)
    → IsActiveRun i t
    → reactivate i set t ≡ ok (update_where (has_id i) set t)
unfolding reactivate
reactivate_active i set t active =
    let admitted : exists_where
          (λ row. has_id i row && not (is_active row.status) && is_taken row.dedupe_key t) t
        ≡ false =
      not_exists_of_All _ t (All-imp _ _ t (λ r live. ground (arith, live)) active) in
    rw (admitted, reactivate)

written_ok :
    (i : String) (set : JobRun → JobRun) (t : Table) (retry : Bool)
    → IsActiveRun i t
    → (if retry then reactivate i set t else ok (update_where (has_id i) set t))
      ≡ ok (update_where (has_id i) set t)
written_ok i set t true active = reactivate_active i set t active
written_ok i set t false active = refl

-- Failing an active run of a consistent table raises nothing and spends one attempt. The run is given
-- up, with its end time and no retry, exactly if it is not to be retried or its attempts are used up;
-- else it is queued again, due 30 to 900 seconds later.
pub fail-Fails :
    (now : ℕ) (i message : String) (result : Option Fields) (error : Option String)
    (retryable : Bool) (t : Table) (a : JobRun)
    → IsConsistent t
    → find_where (has_id i) t ≡ some a
    → IsActiveRun i t
    → Fails now i retryable a (fail now i message result error retryable none t)
unfolding fail get_attempt_state
fail-Fails now i message result error retryable t a c found active =
    let retry = should_retry retryable (a.attempt_count + 1) (or_default a.max_attempts 1) in
    let set = failed_run now message result error none (a.attempt_count + 1) retry in
    let pos : 0 < a.max_attempts = omega (
      arith,
      (All-mem IsSound t c.rows (find-mem (has_id i) t found)).attempts_left
          (All-mem _ t active (find-mem (has_id i) t found) (find_passes (has_id i) t a found)),
    ) in
    rw (found, get_attempt_state)
      (rw (written_ok i set t retry active) (
        set a,
        find-update_self (has_id i) set t a (λ x. refl) found,
        refl,
        refl,
        refl,
        refl,
        failed_splits now message result error retryable a pos,
      ))
