-- ===== src/Queue/Refusals.antt =====
-- The steps of the queue that can be refused: inserting a run, and failing one.
use fraudhunter.Common.{
  ℕ, ◌+◌, String, Bool, true, false, subst, Option, none, some, [], ◌∷◌, ◌++◌, ◌≡◌, refl, ap, arith,
  inl, inr, All-append, All-zip, find_unique, Option-cases, count_where, update_where, exists_where,
  find_where, count-append, count_of_not_exists, eq_iff,
}
use fraudhunter.Common.Json.{Fields}
use fraudhunter.Common.Result.{ok}
use fraudhunter.Queue.Run.{JobRun, RunStatus, is_active}
use fraudhunter.Queue.Store.{
  Table, has_id, opt_has, is_active_under, is_taken, or_default, new_run, insert_run, enqueue,
  should_retry, failed_run, fail,
}
use fraudhunter.Queue.Invariant.{IsSound, IsConsistent}
use fraudhunter.Queue.Steps.{Keeps, update-IsConsistent, IsActiveRun}

fresh_id :
    (row : JobRun) (t : Table) (i : String)
    → exists_where (has_id row.id) t ≡ false
    → has_id i row ≡ true
    → count_where (has_id i) t ≡ 0
fresh_id row t i new e =
    subst (λ j. count_where (has_id j) t ≡ 0) ((eq_iff row.id i).0 e)
      (count_of_not_exists (has_id row.id) t new)

fresh_key :
    (d : Option String) (t : Table) (k : String)
    → is_taken d t ≡ false
    → opt_has d k ≡ true
    → count_where (is_active_under k) t ≡ 0
fresh_key none t k new e = absurd (ground arith)
fresh_key (some j) t k new e =
    subst (λ j. count_where (is_active_under j) t ≡ 0) ((eq_iff j k).0 e)
      (count_of_not_exists (is_active_under j) t new)

inserted-IsConsistent :
    (row : JobRun) (t : Table)
    → IsSound row
    → exists_where (has_id row.id) t ≡ false
    → is_taken row.dedupe_key t ≡ false
    → IsConsistent t
    → IsConsistent (t ++ row ∷ [])
inserted-IsConsistent row t sound new free c = record {
  rows = All-append IsSound t (row ∷ []) c.rows (sound, tt);
  ids = λ i. ground (arith, c.ids i, count-append (has_id i) t (row ∷ []), fresh_id row t i new);
  keys = λ k. ground (
    arith,
    c.keys k,
    count-append (is_active_under k) t (row ∷ []),
    fresh_key row.dedupe_key t k free,
  );
}

pub insert_run-IsConsistent :
    (row : JobRun) (t u : Table)
    → IsSound row
    → insert_run row t ≡ ok u
    → IsConsistent t
    → IsConsistent u
unfolding insert_run
insert_run-IsConsistent row t u sound e c =
    let new : exists_where (has_id row.id) t ≡ false = ground arith in
    let free : is_taken row.dedupe_key t ≡ false = ground arith in
    let grown : t ++ row ∷ [] ≡ u = ground arith in
    subst IsConsistent grown (inserted-IsConsistent row t sound new free c)

pub new_run-IsSound :
    (now : ℕ) (run_id job_type : String) (params : Option Fields) (message : Option String)
    (max_attempts : ℕ) (dedupe_key : Option String) (priority : ℕ) (concurrency_key : Option String)
    → IsSound (
        new_run now run_id job_type params message max_attempts dedupe_key priority concurrency_key)
new_run-IsSound now run_id job_type params message max_attempts dedupe_key priority
      concurrency_key =
    ground arith

pub enqueue-IsConsistent :
    (now : ℕ) (run_id job_type : String) (params : Option Fields) (message : Option String)
    (max_attempts : ℕ) (dedupe_key : Option String) (priority : ℕ) (concurrency_key : Option String)
    (t u : Table) (run : JobRun)
    → enqueue now run_id job_type params message max_attempts dedupe_key priority concurrency_key t
      ≡ ok (run, u)
    → IsConsistent t
    → IsConsistent u
unfolding enqueue
enqueue-IsConsistent now run_id job_type params message max_attempts dedupe_key priority
      concurrency_key t u run e c =
    let row =
      new_run now run_id job_type params message max_attempts dedupe_key priority concurrency_key in
    insert_run-IsConsistent row t u
      (new_run-IsSound now run_id job_type params message max_attempts dedupe_key priority
        concurrency_key)
      (ground arith) c

failed-Keeps :
    (now : ℕ) (message : String) (result : Option Fields) (error : Option String) (retryable : Bool)
    (backoff_seconds : Option ℕ) (i : String) (a r : JobRun)
    → r ≡ a
    → is_active r.status ≡ true
    → let attempts = a.attempt_count in
      Keeps
        (has_id i)
        (failed_run now message result error backoff_seconds
          (attempts + 1)
          (should_retry retryable (attempts + 1) (or_default a.max_attempts 1)))
        r
failed-Keeps now message result error retryable backoff_seconds i a r same live e =
    let attempts : r.attempt_count ≡ a.attempt_count = ap JobRun.attempt_count same in
    let limit : r.max_attempts ≡ a.max_attempts = ap JobRun.max_attempts same in
    (λ _. live, λ h. ground arith)

pub fail-IsConsistent :
    (now : ℕ) (run_id message : String) (result : Option Fields) (error : Option String)
    (retryable : Bool) (backoff_seconds : Option ℕ) (t u : Table) (s : RunStatus)
    → IsActiveRun run_id t
    → fail now run_id message result error retryable backoff_seconds t ≡ ok (s, u)
    → IsConsistent t
    → IsConsistent u
unfolding fail
fail-IsConsistent now run_id message result error retryable backoff_seconds t u s active e c =
    elim (Option-cases (find_where (has_id run_id) t)) [
      | inl absent ↦ absurd (ground arith)
      | inr (a, found) ↦
          let attempts = a.attempt_count in
          let set =
            failed_run now message result error backoff_seconds (attempts + 1)
              (should_retry retryable (attempts + 1) (or_default a.max_attempts 1)) in
          let written : update_where (has_id run_id) set t ≡ u = ground arith in
          subst IsConsistent written (
            update-IsConsistent (has_id run_id) set t (λ r. refl) (λ r. refl)
              (All-zip _ _ (Keeps (has_id run_id) set) t
                (λ r same live e'.
                  failed-Keeps now message result error retryable backoff_seconds run_id a r
                    (same e') (live e') e')
                (find_unique (has_id run_id) t a (c.ids run_id) found) active)
              c)
    ]
