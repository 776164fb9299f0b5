-- ===== src/Jobs/Recomputed.antt =====
-- `enqueue_findings_recompute_jobs`: every date has its recomputation in the queue.
use fraudhunter.Common.{
  Memᴰ, ℕ, suc, ◌≤◌, ◌<◌, String, Bool, true, false, Option, List, [], ◌∷◌, ◌≡◌, refl, sym, subst,
  arith, inl, inr, Bool-cases, str_eq, All, count_where, exists_where,
}
use fraudhunter.Common.Result.{Result, ok, err, ◌>>=◌}
use fraudhunter.Queue.Run.{JobRun}
use fraudhunter.Queue.Store.{Table, to_run, has_id, is_active_under}
use fraudhunter.Queue.Invariant.{IsConsistent}
use fraudhunter.Jobs.Formats.{Formats}
use fraudhunter.Jobs.Enqueue.{Request, Environment, Enqueued, lock_key_of, enqueue_job}
use fraudhunter.Jobs.Dispatch.{date_key, recompute_key, date_locks}
use fraudhunter.Jobs.Dedupe.{Enqueues, enqueue_job-Enqueues}
use fraudhunter.Jobs.Ready.{table_of, Result-cases}
use fraudhunter.Jobs.Requests.{
  left_by, and_then, recompute_request, enqueue_findings_recompute_jobs,
}
use fraudhunter.Jobs.Grown.{enqueue_job-Grows, Grows, kept_under, kept_free, kept_member}

count_of_exists {ℓ} :
    {A : Type ℓ} (q : A → Bool) (t : List A)
    → exists_where q t ≡ true
    → count_where q t ≤ 1
    → count_where q t ≡ 1
count_of_exists q [] h few = absurd (ground arith)
count_of_exists q (x ∷ t) h few = elim (Bool-cases (q x)) [
  | inl this ↦ ground arith
  | inr other ↦ ground (arith, count_of_exists q t)
]

exists_of_count {ℓ} :
    {A : Type ℓ} (q : A → Bool) (t : List A) → count_where q t ≡ 1 → exists_where q t ≡ true
exists_of_count q [] h = absurd (ground arith)
exists_of_count q (x ∷ t) h = elim (Bool-cases (q x)) [
  | inl this ↦ ground arith
  | inr other ↦ ground (arith, exists_of_count q t)
]

module _ (f : Formats) (bg : Bool) (env : ℕ → Environment) (generation trigger : String)
    (source : Option String) where
  abbrev pub request_at : ℕ → Request
  request_at d = recompute_request f bg d generation trigger source

  -- The runs are those of the dates, one by one: the run of a date is an active row of the table under the
  -- key of the date, as `_to_run` reads it.
  abbrev pub AreRunsOf : List ℕ → Table → List JobRun → Type 0
  AreRunsOf [] v [] = Unit
  AreRunsOf [] v (run ∷ runs) = ⊥
  AreRunsOf (d ∷ dates) v [] = ⊥
  AreRunsOf (d ∷ dates) v (run ∷ runs) =
      ((row : JobRun) × Memᴰ row v
        × (is_active_under (date_key f d) row ≡ true)
        × (to_run run ≡ to_run row))
      × AreRunsOf dates v runs

  -- What the calls for the dates must answer: the run of each date, and a consistent table with exactly one
  -- active run under the key of each date.
  abbrev pub Recomputes : List ℕ → Result (List JobRun) × Table → Type 0
  Recomputes dates (err e, v) = ⊥
  Recomputes dates (ok runs, v) =
      AreRunsOf dates v runs
      × IsConsistent v
      × All (λ d. count_where (is_active_under (date_key f d)) v ≡ 1) dates

  -- The ids of the calls from the n-th on are not taken.
  abbrev pub AreFresh : ℕ → Table → Type 0
  AreFresh n t = (m : ℕ) → n ≤ m → exists_where (has_id (env m).run_id) t ≡ false

  abbrev all_from : ℕ → List ℕ → Table → Result (List JobRun) × Table
  all_from n dates t = enqueue_findings_recompute_jobs f bg env n dates generation trigger source t

  module _ (alone : (n : ℕ) (u : Table) → (env n).meanwhile u ≡ u) where
    left_alone : (n : ℕ) (r : Request) (t : Table) → left_by f bg (env n) r t ≡ t
    left_alone n r t = elim (Result-cases (lock_key_of f r)) [
      | inl (k, locks) ↦ rw (left_by, locks) (alone n t)
      | inr (e, raised) ↦ rw (left_by, raised) refl
    ]

    module _ (P : Table → Type 0)
        (grown : (i : String) (t u : Table) → Grows i t u → P t → P u) where
      one-kept :
          (left : Table) (rest : Table → Result (List JobRun) × Table) (a : Result Enqueued)
          → P (table_of left a)
          → ((u : Table) → P u → P (rest u).1)
          → P (and_then f bg rest left a).1
      one-kept left rest (err e) h more = h
      one-kept left rest (ok (run, u, kicked)) h more = more u h

      -- What additions to the table keep, the calls keep.
      all-kept : (n : ℕ) (dates : List ℕ) (t : Table) → P t → P (all_from n dates t).1
      unfolding enqueue_findings_recompute_jobs
      all-kept n [] t h = h
      all-kept n (d ∷ dates) t h =
          let r = request_at d in
          one-kept (left_by f bg (env n) r t) (all_from (suc n) dates) (enqueue_job f (env n) r t)
            (subst (λ (left : Table). P (table_of left (enqueue_job f (env n) r t)))
              (sym (left_alone n r t))
              (grown (env n).run_id t _ (enqueue_job-Grows (env n) r f t (alone n)) h))
            (λ u. all-kept (suc n) dates u)

    joined :
        (d : ℕ) (dates : List ℕ) (run row : JobRun) (x : Result (List JobRun) × Table)
        → Recomputes dates x
        → exists_where (is_active_under (date_key f d)) x.1 ≡ true
        → Memᴰ row x.1
        → is_active_under (date_key f d) row ≡ true
        → to_run run ≡ to_run row
        → Recomputes (d ∷ dates) ((do more ← x.0; ok (run ∷ more)), x.1)
    joined d dates run row (err e, v) h there m active same = h
    joined d dates run row (ok runs, v) (listed, c, keyed) there m active same = (
      ((row, m, active, same), listed),
      c,
      (count_of_exists (is_active_under (date_key f d)) v there (c.keys _), keyed),
    )

    one-Recomputes :
        (n d : ℕ) (dates : List ℕ) (left : Table) (a : Result Enqueued)
        → Enqueues (date_key f d) a
        → AreFresh (suc n) (table_of left a)
        → ((u : Table)
            → IsConsistent u
            → AreFresh (suc n) u
            → Recomputes dates (all_from (suc n) dates u))
        → Recomputes (d ∷ dates) (and_then f bg (all_from (suc n) dates) left a)
    one-Recomputes n d dates left (err e) done fresh rest = done
    one-Recomputes n d dates left (ok (run, u, kicked)) (c, one, (row, m, active, same)) fresh
          rest =
        let q = is_active_under (date_key f d) in
        joined d dates run row (all_from (suc n) dates u) (rest u c fresh)
          (all-kept (λ v. exists_where q v ≡ true) (λ i. kept_under i (date_key f d)) (suc n) dates
            u (exists_of_count q u one))
          (all-kept (λ v. Memᴰ row v) (λ i. kept_member i row) (suc n) dates u m) active same

    -- Without other clients, on a consistent table, with ids that are new and differ, and dates whose texts are
    -- not empty, the call raises nothing. It leaves a consistent table, which has for each date exactly one
    -- active run under the key `recompute_findings_date:<date>`, a new one or one that was there; and it
    -- returns these runs, in the order of the dates.
    pub enqueue_findings_recompute_jobs-Recomputes :
        (n : ℕ) (dates : List ℕ) (t : Table)
        → ((a b : ℕ) → a < b → str_eq (env a).run_id (env b).run_id ≡ false)
        → All (λ d. str_eq (f.isoformat d) "" ≡ false) dates
        → IsConsistent t
        → AreFresh n t
        → Recomputes dates
            (enqueue_findings_recompute_jobs f bg env n dates generation trigger source t)
    unfolding enqueue_findings_recompute_jobs
    enqueue_findings_recompute_jobs-Recomputes n [] t differ dated c fresh = (tt, c, tt)
    enqueue_findings_recompute_jobs-Recomputes n (d ∷ dates) t differ (dated, later) c fresh =
        let r = request_at d in
        let locks = (date_locks f bg d generation trigger source dated).2 in
        let grown = enqueue_job-Grows (env n) r f t (alone n) in
        let kept : AreFresh (suc n) (table_of t (enqueue_job f (env n) r t)) = λ m h.
          kept_free (env n).run_id (env m).run_id t _ grown (differ n m (omega (arith, h)))
            (fresh m (omega (arith, h))) in
        one-Recomputes n d dates (left_by f bg (env n) r t) (enqueue_job f (env n) r t)
          (subst (λ (k : String). Enqueues k (enqueue_job f (env n) r t))
            (recompute_key f bg d generation trigger source dated)
            (enqueue_job-Enqueues f (env n) r t _ c (subst IsConsistent (sym (alone n t)) c)
              (subst (λ (u : Table). exists_where (has_id (env n).run_id) u ≡ false)
                (sym (alone n t)) (fresh n (omega arith)))
              locks))
          (subst (λ (left : Table). AreFresh (suc n) (table_of left (enqueue_job f (env n) r t)))
            (sym (left_alone n r t)) kept)
          (λ u c' fresh'.
            enqueue_findings_recompute_jobs-Recomputes (suc n) dates u differ later c' fresh')
