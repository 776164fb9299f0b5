-- ===== src/Jobs/Dedupe.antt =====
-- `enqueue_job` and the dedupe key of its run.
use fraudhunter.Common.{
  String, Bool, true, false, ◌&&◌, Option, none, some, List, [], ◌∷◌, ◌++◌, ◌≡◌, refl, ap, ◌∙◌,
  arith, inl, inr, Memᴰ, All-mem, Bool-cases, Option-cases, eq_iff, count_where, select_where,
  exists_where, first_by, first_by-none, first_by-mem, select-mem, select_passes, select_nil,
  not_exists_of_All, count_of_not_exists, count-append, count_pos_of_mem,
}
use fraudhunter.Common.Result.{Result, ok, err, integrity_error}
use fraudhunter.Queue.Run.{JobRun}
use fraudhunter.Queue.Store.{
  Table, to_run, has_id, is_active_under, is_taken, queued_later, find_active_duplicate, new_run,
  insert_run, enqueue,
}
use fraudhunter.Queue.Invariant.{IsConsistent}
use fraudhunter.Queue.Refusals.{enqueue-IsConsistent}
use fraudhunter.Jobs.Formats.{Formats}
use fraudhunter.Jobs.Kinds.{default_attempts_of, default_priority_of}
use fraudhunter.Jobs.Enqueue.{
  Request, Environment, Enqueued, key_of, lock_key_of, store_enqueue, insert_or_duplicate,
  enqueue_job,
}

-- What a duplicate is: an active run under the key, as the table has it.
find_active_duplicate-some :
    (key : String) (t : Table) (run : JobRun)
    → find_active_duplicate key t ≡ some run
    → (row : JobRun) × Memᴰ row t × (is_active_under key row ≡ true) × (run ≡ to_run row)
unfolding find_active_duplicate
find_active_duplicate-some key t run e =
    elim (Option-cases (first_by queued_later (select_where (is_active_under key) t))) [
      | inl absent ↦ absurd (ground arith)
      | inr (row, found) ↦ (
        row,
        select-mem (is_active_under key) t (first_by-mem queued_later _ found),
        All-mem (λ x. is_active_under key x ≡ true) _ (select_passes (is_active_under key) t)
            (first_by-mem queued_later _ found),
        ground arith,
      )
    ]

find_active_duplicate-none :
    (key : String) (t : Table)
    → find_active_duplicate key t ≡ none
    → exists_where (is_active_under key) t ≡ false
unfolding find_active_duplicate
find_active_duplicate-none key t e =
    not_exists_of_All _ t
      (select_nil (is_active_under key) t (first_by-none queued_later _ (ground arith)))

-- What `enqueue_job` must answer under `key`: it raises nothing; the table is consistent, with exactly
-- one active run under the key, and that run, or its like as `_to_run` reads it, is what is returned.
abbrev pub Enqueues : (key : String) → Result Enqueued → Type 0
Enqueues key (err e) = ⊥
Enqueues key (ok (run, u, kicked)) =
    IsConsistent u
    × (count_where (is_active_under key) u ≡ 1)
    × ((row : JobRun) × Memᴰ row u × (is_active_under key row ≡ true) × (to_run run ≡ to_run row))

to_run_idem : (r : JobRun) → to_run (to_run r) ≡ to_run r
unfolding to_run
to_run_idem r = ground arith

duplicate-Enqueues :
    (key : String) (t : Table) (run : JobRun)
    → IsConsistent t
    → find_active_duplicate key t ≡ some run
    → Enqueues key (ok (run, t, false))
duplicate-Enqueues key t run c e =
    let (row, m, active, same) = find_active_duplicate-some key t run e in
    (
      c,
      omega (arith, c.keys key, count_pos_of_mem (is_active_under key) row t m active),
      (row, m, active, ap to_run same ∙ to_run_idem row),
    )

mem_last {ℓ} : {A : Type ℓ} (a : A) (t : List A) → Memᴰ a (t ++ a ∷ [])
mem_last a [] = Memᴰ.head refl
mem_last a (x ∷ t) = Memᴰ.tail (mem_last a t)

-- The run that `enqueue_job` inserts.
abbrev pub row_of : Environment → Request → (key : String) (lock_key : Option String) → JobRun
row_of env r key lock_key =
    new_run env.now env.run_id r.job_type r.params (some r.start_message)
      (default_attempts_of r.job_type) (some key) (default_priority_of r.job_type) lock_key

module _ (env : Environment) (r : Request) (key : String) (lock_key : Option String)
    (t : Table) where
  store_enqueue_free :
      exists_where (has_id env.run_id) t ≡ false
      → is_taken (some key) t ≡ false
      → store_enqueue env r key lock_key t
        ≡ ok (row_of env r key lock_key, t ++ row_of env r key lock_key ∷ [])
  unfolding enqueue insert_run
  store_enqueue_free new free = rw (new, free)

  store_enqueue_taken :
      exists_where (has_id env.run_id) t ≡ false
      → is_taken (some key) t ≡ true
      → store_enqueue env r key lock_key t ≡ err integrity_error
  unfolding enqueue insert_run
  store_enqueue_taken new taken = rw (new, taken)

  inserted-Enqueues :
      (kicked : Bool)
      → IsConsistent t
      → exists_where (has_id env.run_id) t ≡ false
      → is_taken (some key) t ≡ false
      → Enqueues key (ok (row_of env r key lock_key, t ++ row_of env r key lock_key ∷ [], kicked))
  inserted-Enqueues kicked c new free =
      let row = row_of env r key lock_key in
      let under : is_active_under key row ≡ true = ground (arith, (eq_iff key key).1 refl) in
      (
        enqueue-IsConsistent env.now env.run_id r.job_type r.params (some r.start_message)
            (default_attempts_of r.job_type) (some key) (default_priority_of r.job_type) lock_key t
            (t ++ row ∷ []) row (store_enqueue_free new free) c,
        ground (
          arith,
          under,
          count-append (is_active_under key) t (row ∷ []),
          count_of_not_exists (is_active_under key) t free,
        ),
        (row, mem_last row t, under, refl),
      )

  insert_or_duplicate-Enqueues :
      IsConsistent t
      → exists_where (has_id env.run_id) t ≡ false
      → Enqueues key (insert_or_duplicate env r key lock_key t)
  unfolding insert_or_duplicate
  insert_or_duplicate-Enqueues c new = elim (Bool-cases (is_taken (some key) t)) [
    | inr free ↦
        rw (store_enqueue_free new free, insert_or_duplicate)
          (inserted-Enqueues (r.has_background_tasks && env.uses_kick) c new free)
    | inl taken ↦
        rw (store_enqueue_taken new taken, insert_or_duplicate)
          (elim (Option-cases (find_active_duplicate key t)) [
            | inl absent ↦ absurd (ground (arith, find_active_duplicate-none key t absent))
            | inr (run, found) ↦ rw found (duplicate-Enqueues key t run c found)
          ])
  ]

-- Whatever another client does to the table between the look-up and the insert, `enqueue_job` raises
-- nothing and leaves exactly one active run under its key, the new one or one that was there, and that
-- is the run that it returns. It needs a consistent table, also after the other client, a fresh id,
-- and a date in the parameters that has a concurrency key.
pub enqueue_job-Enqueues :
    (f : Formats) (env : Environment) (r : Request) (t : Table) (lock_key : Option String)
    → IsConsistent t
    → IsConsistent (env.meanwhile t)
    → exists_where (has_id env.run_id) (env.meanwhile t) ≡ false
    → lock_key_of f r ≡ ok lock_key
    → Enqueues (key_of f r) (enqueue_job f env r t)
unfolding enqueue_job
enqueue_job-Enqueues f env r t lock_key c c' new locks =
    rw (locks, enqueue_job)
      (elim (Option-cases (find_active_duplicate (key_of f r) t)) [
        | inl absent ↦
            rw absent
              (insert_or_duplicate-Enqueues env r (key_of f r) lock_key (env.meanwhile t) c' new)
        | inr (run, found) ↦ rw found (duplicate-Enqueues (key_of f r) t run c found)
      ])
