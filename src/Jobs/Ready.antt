-- ===== src/Jobs/Ready.antt =====
-- A run that a worker has stays ready while `enqueue_job` adds other runs.
use fraudhunter.Common.{
  ℕ, suc, String, Bool, true, Option, some, List, [], ◌∷◌, ◌++◌, ◌≡◌, ◌⊎◌, ◌||◌, refl, subst, sym,
  arith, inl, inr, Bool-cases, Option-cases, All-append, find_where, exists_where,
}
use fraudhunter.Common.Result.{Result, Exn, ok, err, integrity_error, ◌>>=◌}
use fraudhunter.Queue.Run.{JobRun, is_active}
use fraudhunter.Queue.Store.{Table, has_id, is_taken, insert_run, enqueue, find_active_duplicate}
use fraudhunter.Queue.Invariant.{IsConsistent}
use fraudhunter.Queue.Refusals.{insert_run-IsConsistent, new_run-IsSound}
use fraudhunter.Queue.Handover.{IsReady}
use fraudhunter.Jobs.Formats.{Formats}
use fraudhunter.Jobs.Enqueue.{
  Request, Environment, Enqueued, lock_key_of, key_of, store_enqueue, insert_or_duplicate,
  enqueue_job,
}
use fraudhunter.Jobs.Dedupe.{row_of}
use fraudhunter.Jobs.Requests.{
  left_by, and_then, recompute_request, enqueue_findings_recompute_jobs,
}

find-append_found {ℓ} :
    {A : Type ℓ} (q : A → Bool) (s t : List A) (x : A)
    → find_where q s ≡ some x
    → find_where q (s ++ t) ≡ some x
find-append_found q [] t x h = absurd (ground arith)
find-append_found q (y ∷ s) t x h = ground (arith, find-append_found q s t x)

-- Whoever writes between the look-up and the insert leaves the run of the worker ready.
abbrev pub LeavesReady : (i : String) → Environment → Type 0
LeavesReady i env = (t : Table) → IsReady i t → IsReady i (env.meanwhile t)

inserted-IsReady :
    (i : String) (env : Environment) (r : Request) (key : String) (lock_key : Option String)
    (t u : Table)
    → insert_run (row_of env r key lock_key) t ≡ ok u
    → IsReady i t
    → IsReady i u
unfolding insert_run
inserted-IsReady i env r key lock_key t u e h =
    let row = row_of env r key lock_key in
    let grown : t ++ row ∷ [] ≡ u = ground arith in
    subst (IsReady i) grown (record {
      consistent =
          subst IsConsistent (sym grown)
            (insert_run-IsConsistent row t u (new_run-IsSound _ _ _ _ _ _ _ _ _) e h.consistent);
      active =
          All-append (λ x. has_id i x ≡ true → is_active x.status ≡ true) t (row ∷ []) h.active
            (λ _. refl, tt);
      row = h.row;
      found = find-append_found (has_id i) t (row ∷ []) h.row h.found;
    })

-- The table of an answer, or the one that was left.
abbrev pub table_of : (left : Table) → Result Enqueued → Table
table_of left (err e) = left
table_of left (ok (run, u, kicked)) = u

pub insert_run_cases :
    (row : JobRun) (t : Table)
    → ((u : Table) × (insert_run row t ≡ ok u)) ⊎ (insert_run row t ≡ err integrity_error)
unfolding insert_run
insert_run_cases row t =
    elim (Bool-cases (exists_where (has_id row.id) t || is_taken row.dedupe_key t)) [
      | inl taken ↦ inr (rw taken refl)
      | inr free ↦ inl (t ++ row ∷ [], rw free refl)
    ]

pub Result-cases : {A : Type 0} (r : Result A) → ((a : A) × (r ≡ ok a)) ⊎ ((e : Exn) × (r ≡ err e))
Result-cases (ok a) = inl (a, refl)
Result-cases (err e) = inr (e, refl)

module _ (i : String) (env : Environment) (r : Request) where
  pub stored :
      (key : String) (lock_key : Option String) (t : Table) (a : Result Table)
      → insert_run (row_of env r key lock_key) t ≡ a
      → store_enqueue env r key lock_key t ≡ (do u ← a; ok (row_of env r key lock_key, u))
  unfolding enqueue
  stored key lock_key t a e = rw (sym e) refl

  insert_or_duplicate-IsReady :
      (key : String) (lock_key : Option String) (t : Table)
      → IsReady i t
      → IsReady i (table_of t (insert_or_duplicate env r key lock_key t))
  unfolding insert_or_duplicate
  insert_or_duplicate-IsReady key lock_key t h =
      elim (insert_run_cases (row_of env r key lock_key) t) [
        | inl (u, e) ↦
            rw (table_of, insert_or_duplicate, stored key lock_key t (ok u) e)
              (inserted-IsReady i env r key lock_key t u e h)
        | inr refused ↦ elim (Option-cases (find_active_duplicate key t)) [
          | inl absent ↦
              rw
                (
                  table_of,
                  insert_or_duplicate,
                  stored key lock_key t (err integrity_error) refused,
                  absent,
                )
                h
          | inr (run, found) ↦
              rw
                (
                  table_of,
                  insert_or_duplicate,
                  stored key lock_key t (err integrity_error) refused,
                  found,
                )
                h
        ]
      ]

  left-raised :
      (f : Formats) (bg : Bool) (t : Table) (e : Exn)
      → lock_key_of f r ≡ err e
      → left_by f bg env r t ≡ t
  left-raised f bg t e raised = rw (left_by, raised) refl

  left-locks :
      (f : Formats) (bg : Bool) (t : Table) (k : Option String)
      → lock_key_of f r ≡ ok k
      → left_by f bg env r t ≡ env.meanwhile t
  left-locks f bg t k locks = rw (left_by, locks) refl

  -- A run that was ready before a call of `enqueue_job` is ready after it, also if it raised.
  pub enqueue_job-IsReady :
      (f : Formats) (bg : Bool) (t : Table)
      → LeavesReady i env
      → IsReady i t
      → IsReady i (table_of (left_by f bg env r t) (enqueue_job f env r t))
  unfolding enqueue_job
  enqueue_job-IsReady f bg t leaves h = elim (Result-cases (lock_key_of f r)) [
    | inl (k, locks) ↦ elim (Option-cases (find_active_duplicate (key_of f r) t)) [
      | inl absent ↦
          rw (enqueue_job, locks, left-locks f bg t k locks, absent)
            (insert_or_duplicate-IsReady (key_of f r) k (env.meanwhile t) (leaves t h))
      | inr (run, found) ↦ rw (table_of, enqueue_job, locks, found) h
    ]
    | inr (e, raised) ↦
        rw (table_of, enqueue_job, raised) (subst (IsReady i) (sym (left-raised f bg t e raised)) h)
  ]

module _ (f : Formats) (bg : Bool) (i : String) where
  and_then-IsReady :
      (rest : Table → Result (List JobRun) × Table) (left : Table) (a : Result Enqueued)
      → ((u : Table) → IsReady i u → IsReady i (rest u).1)
      → IsReady i (table_of left a)
      → IsReady i (and_then f bg rest left a).1
  and_then-IsReady rest left (err e) keeps h = h
  and_then-IsReady rest left (ok (run, u, kicked)) keeps h = keeps u h

  pub enqueue_findings_recompute_jobs-IsReady :
      (env : ℕ → Environment) (n : ℕ) (dates : List ℕ) (generation trigger : String)
      (source : Option String) (t : Table)
      → ((k : ℕ) → LeavesReady i (env k))
      → IsReady i t
      → IsReady i (enqueue_findings_recompute_jobs f bg env n dates generation trigger source t).1
  unfolding enqueue_findings_recompute_jobs
  enqueue_findings_recompute_jobs-IsReady env n [] generation trigger source t leaves h = h
  enqueue_findings_recompute_jobs-IsReady env n (d ∷ dates) generation trigger source t leaves h =
      let r = recompute_request f bg d generation trigger source in
      and_then-IsReady
        (λ u. enqueue_findings_recompute_jobs f bg env (suc n) dates generation trigger source u)
        (left_by f bg (env n) r t) (enqueue_job f (env n) r t)
        (λ u.
          enqueue_findings_recompute_jobs-IsReady env (suc n) dates generation trigger source u
            leaves)
        (enqueue_job-IsReady i (env n) r f bg t (leaves n) h)
