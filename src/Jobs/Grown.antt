-- ===== src/Jobs/Grown.antt =====
-- What `enqueue_job` adds to the queue, without other clients.
use fraudhunter.Common.{
  String, Bool, true, false, Option, List, [], ◌∷◌, ◌++◌, ◌≡◌, ◌⊎◌, refl, ap, sym, ◌∙◌, arith, inl,
  inr, Option-cases, Memᴰ, str_eq, exists_where,
}
use fraudhunter.Common.Result.{ok, err, integrity_error}
use fraudhunter.Queue.Run.{JobRun}
use fraudhunter.Queue.Store.{Table, has_id, is_active_under, insert_run, find_active_duplicate}
use fraudhunter.Jobs.Formats.{Formats}
use fraudhunter.Jobs.Enqueue.{
  Request, Environment, lock_key_of, key_of, insert_or_duplicate, enqueue_job,
}
use fraudhunter.Jobs.Dedupe.{row_of}
use fraudhunter.Jobs.Ready.{table_of, stored, insert_run_cases, Result-cases}

-- A table with at most one more run, which has the id.
abbrev pub Grows : (i : String) → Table → Table → Type 0
Grows i t u = (u ≡ t) ⊎ ((row : JobRun) × (row.id ≡ i) × (u ≡ t ++ row ∷ []))

inserted-Grows : (row : JobRun) (t u : Table) → insert_run row t ≡ ok u → Grows row.id t u
unfolding insert_run
inserted-Grows row t u e =
    let grown : t ++ row ∷ [] ≡ u = ground arith in inr (row, refl, sym grown)

module _ (env : Environment) (r : Request) where
  insert_or_duplicate-Grows :
      (key : String) (lock_key : Option String) (t : Table)
      → Grows env.run_id t (table_of t (insert_or_duplicate env r key lock_key t))
  unfolding insert_or_duplicate
  insert_or_duplicate-Grows key lock_key t = elim (insert_run_cases (row_of env r key lock_key) t) [
    | inl (u, e) ↦
        rw (table_of, insert_or_duplicate, stored env.run_id env r key lock_key t (ok u) e)
          (inserted-Grows (row_of env r key lock_key) t u e)
    | inr refused ↦ elim (Option-cases (find_active_duplicate key t)) [
      | inl absent ↦
          rw
            (
              table_of,
              insert_or_duplicate,
              stored env.run_id env r key lock_key t (err integrity_error) refused,
              absent,
            )
            (inl refl)
      | inr (run, found) ↦
          rw
            (
              table_of,
              insert_or_duplicate,
              stored env.run_id env r key lock_key t (err integrity_error) refused,
              found,
            )
            (inl refl)
    ]
  ]

  pub enqueue_job-Grows :
      (f : Formats) (t : Table)
      → ((u : Table) → env.meanwhile u ≡ u)
      → Grows env.run_id t (table_of t (enqueue_job f env r t))
  unfolding enqueue_job
  enqueue_job-Grows f t alone = elim (Result-cases (lock_key_of f r)) [
    | inl (k, locks) ↦ elim (Option-cases (find_active_duplicate (key_of f r) t)) [
      | inl absent ↦
          rw (enqueue_job, locks, absent, alone t) (insert_or_duplicate-Grows (key_of f r) k t)
      | inr (run, found) ↦ rw (table_of, enqueue_job, locks, found) (inl refl)
    ]
    | inr (e, raised) ↦ rw (table_of, enqueue_job, raised) (inl refl)
  ]

exists-append {ℓ} :
    {A : Type ℓ} (q : A → Bool) (t : List A) (x : A)
    → exists_where q t ≡ true
    → exists_where q (t ++ x ∷ []) ≡ true
exists-append q [] x h = absurd (ground arith)
exists-append q (y ∷ t) x h = ground (arith, exists-append q t x)

not_exists-append {ℓ} :
    {A : Type ℓ} (q : A → Bool) (t : List A) (x : A)
    → exists_where q t ≡ false
    → q x ≡ false
    → exists_where q (t ++ x ∷ []) ≡ false
not_exists-append q [] x h k = ground arith
not_exists-append q (y ∷ t) x h k = ground (arith, not_exists-append q t x)

-- The active runs under a key stay, and an id that is not taken stays free, unless it is the new one.
pub kept_under :
    (i k : String) (t u : Table)
    → Grows i t u
    → exists_where (is_active_under k) t ≡ true
    → exists_where (is_active_under k) u ≡ true
kept_under i k t u (inl same) h = rw same h
kept_under i k t u (inr (row, id, more)) h = rw more (exists-append (is_active_under k) t row h)

mem-append {ℓ} : {A : Type ℓ} (a x : A) (t : List A) → Memᴰ a t → Memᴰ a (t ++ x ∷ [])
mem-append a x [] m = elim m [ ]
mem-append a x (y ∷ t) (Memᴰ.head e) = Memᴰ.head e
mem-append a x (y ∷ t) (Memᴰ.tail m) = Memᴰ.tail (mem-append a x t m)

-- So do the rows.
pub kept_member : (i : String) (a : JobRun) (t u : Table) → Grows i t u → Memᴰ a t → Memᴰ a u
kept_member i a t u (inl same) h = rw same h
kept_member i a t u (inr (row, id, more)) h = rw more (mem-append a row t h)

pub kept_free :
    (i j : String) (t u : Table)
    → Grows i t u
    → str_eq i j ≡ false
    → exists_where (has_id j) t ≡ false
    → exists_where (has_id j) u ≡ false
kept_free i j t u (inl same) other h = rw same h
kept_free i j t u (inr (row, id, more)) other h =
    rw more (not_exists-append (has_id j) t row h (ap (λ x. str_eq x j) id ∙ other))
