-- ===== src/Jobs/Dispatch.antt =====
-- From the request of a job to the function that a worker calls for it.
use Prim.Native.String.{◌++◌ as str_append}
use package.text.Mathlib.TextLemmas.{append_cancel_left}
use fraudhunter.Common.{
  List, [], ◌∷◌, none, ◌↔◌, ◌∙◌, sym, ap, All, ℕ, String, Bool, false, Option, some, ◌≡◌, refl,
  arith, str_eq,
}
use fraudhunter.Common.Int.{pos}
use fraudhunter.Common.Json.{text}
use fraudhunter.Common.Result.{Result, ok}
use fraudhunter.Queue.Run.{JobRun}
use fraudhunter.Jobs.Formats.{Formats}
use fraudhunter.Jobs.Kinds.{
  concurrency_key_of, dedupe_key_of, date_write_concurrency_key, date_of_json,
}
use fraudhunter.Jobs.Enqueue.{Request, key_of, lock_key_of}
use fraudhunter.Jobs.Execute.{World, Handlers, dispatch_job}
use fraudhunter.Jobs.Requests.{
  click_request, conversion_request, refresh_request, recompute_request, master_sync_request,
}

-- A run that was enqueued by the request.
abbrev pub run_of : Request → JobRun → JobRun
run_of r run = record run { job_type = r.job_type; params = r.params }

date_read : (f : Formats) (d : ℕ) → date_of_json f (text (f.isoformat d)) ≡ ok d
date_read f d = ground (arith, f.iso_round_trip d)

module _ {R : Type 0} (f : Formats) (handlers : Handlers R) (bg : Bool) (run : JobRun)
    (w : World R) where
  -- A worker that has the run of a request calls the function of its kind with the values that the
  -- request was made with: the dates survive their text, and the flags, the hours and the source job
  -- their JSON. The trigger and the source must not be empty.
  pub dispatch_round_trip :
      (d hours : ℕ) (clicks conversions detect : Bool) (generation trigger source : String)
      → str_eq trigger "" ≡ false
      → str_eq source "" ≡ false
      → (dispatch_job f handlers (run_of (click_request f bg d) run) w
          ≡ handlers.run_click_ingestion d run.id w)
        × (dispatch_job f handlers (run_of (conversion_request f bg d) run) w
            ≡ handlers.run_conversion_ingestion d run.id w)
        × (dispatch_job f handlers
              (run_of (refresh_request f bg hours clicks conversions detect) run)
              w
            ≡ handlers.run_refresh (pos hours) clicks conversions detect run.id w)
        × (dispatch_job f handlers
              (run_of (recompute_request f bg d generation trigger (some source)) run)
              w
            ≡ handlers.run_recompute_findings_for_date d generation trigger run.id
                (some (text source))
                w)
        × (dispatch_job f handlers (run_of (master_sync_request f bg) run) w
            ≡ handlers.run_master_sync run.id w)
  unfolding dispatch_job
  dispatch_round_trip d hours clicks conversions detect generation trigger source k h =
      let date = date_read f d in
      (
        rw date refl,
        rw date refl,
        refl,
        rw (date, f.show_text generation, f.show_text trigger, k, h) refl,
        refl,
      )

-- `f"recompute_findings_date:{date}"`
abbrev pub date_key : Formats → ℕ → String
date_key f d = str_append "recompute_findings_date" (str_append ":" (f.isoformat d))

module _ (f : Formats) (bg : Bool) where
  pub recompute_key :
      (d : ℕ) (g t : String) (s : Option String)
      → str_eq (f.isoformat d) "" ≡ false
      → key_of f (recompute_request f bg d g t s) ≡ date_key f d
  unfolding dedupe_key_of
  recompute_key d g t s dated = rw (dated, f.show_text (f.isoformat d)) refl

  -- The jobs that write a date have the lock of the date.
  pub date_locks :
      (d : ℕ) (g t : String) (s : Option String)
      → str_eq (f.isoformat d) "" ≡ false
      → (lock_key_of f (click_request f bg d) ≡ ok (some (date_write_concurrency_key f d)))
        × (lock_key_of f (conversion_request f bg d) ≡ ok (some (date_write_concurrency_key f d)))
        × (lock_key_of f (recompute_request f bg d g t s)
            ≡ ok (some (date_write_concurrency_key f d)))
  unfolding concurrency_key_of
  date_locks d g t s h =
      let date = date_read f d in (rw (h, date) refl, rw (h, date) refl, rw (h, date) refl)

  -- The requests of the jobs that write the logs or the findings of one date.
  abbrev pub date_requests : (d : ℕ) (generation trigger : String) → Option String → List Request
  date_requests d g t s =
      click_request f bg d ∷ conversion_request f bg d ∷ recompute_request f bg d g t s ∷ []

  isoformat_inj : (d d' : ℕ) → f.isoformat d ≡ f.isoformat d' → d ≡ d'
  isoformat_inj d d' h =
      let read : some d ≡ some d' =
        sym (f.iso_round_trip d) ∙ ap f.fromisoformat h ∙ f.iso_round_trip d' in
      cc read

  -- The lock of a date, where the texts are those of two dates.
  same_lock :
      (d d' : ℕ) (a b : Result (Option String))
      → a ≡ ok (some (date_write_concurrency_key f d))
      → b ≡ ok (some (date_write_concurrency_key f d'))
      → (a ≡ b) ↔ (d ≡ d')
  same_lock d d' a b h k = (
    λ e.
        let keys : date_write_concurrency_key f d ≡ date_write_concurrency_key f d' =
          cc (e, h, k) in
        isoformat_inj d d' (append_cancel_left "date-write:" _ _ keys),
    λ same. h ∙ ap (λ x. ok (some (date_write_concurrency_key f x))) same ∙ sym k,
  )

  same_key : (d d' : ℕ) (a b : String) → a ≡ date_key f d → b ≡ date_key f d' → (a ≡ b) ↔ (d ≡ d')
  same_key d d' a b h k = (
    λ e. isoformat_inj d d' (
        append_cancel_left ":" _ _
          (append_cancel_left "recompute_findings_date" _ _ (sym h ∙ e ∙ k))),
    λ same. h ∙ ap (date_key f) same ∙ sym k,
  )

  -- Two jobs that write the logs or the findings of dates, each an ingestion of clicks or conversions or a
  -- recomputation, have the same concurrency key exactly if the dates are the same, and two recomputations
  -- have the same dedupe key exactly then, whatever their generation, trigger and source; if the texts of
  -- the dates are not empty. A refresh has no concurrency key, and a master sync has one of its own.
  pub date_jobs_exclude :
      (d d' hours : ℕ) (clicks conversions detect : Bool) (g t g' t' : String)
      (s s' : Option String)
      → str_eq (f.isoformat d) "" ≡ false
      → str_eq (f.isoformat d') "" ≡ false
      → All
          (λ r.
            All (λ r'. (lock_key_of f r ≡ lock_key_of f r') ↔ (d ≡ d')) (date_requests d' g' t' s'))
          (date_requests d g t s)
        × ((key_of f (recompute_request f bg d g t s)
              ≡ key_of f (recompute_request f bg d' g' t' s'))
            ↔ (d ≡ d'))
        × (lock_key_of f (refresh_request f bg hours clicks conversions detect) ≡ ok none)
        × (lock_key_of f (master_sync_request f bg) ≡ ok (some "master-sync"))
  unfolding concurrency_key_of
  date_jobs_exclude d d' hours clicks conversions detect g t g' t' s s' h h' =
      let (c, v, r) = date_locks d g t s h in
      let (c', v', r') = date_locks d' g' t' s' h' in
      let same = same_lock d d' in
      (
        (
          (same _ _ c c', (same _ _ c v', (same _ _ c r', tt))),
          (
            (same _ _ v c', (same _ _ v v', (same _ _ v r', tt))),
            ((same _ _ r c', (same _ _ r v', (same _ _ r r', tt))), tt),
          ),
        ),
        same_key d d' _ _ (recompute_key d g t s h) (recompute_key d' g' t' s' h'),
        refl,
        refl,
      )
