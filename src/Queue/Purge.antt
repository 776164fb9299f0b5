-- ===== src/Queue/Purge.antt =====
-- `purge_finished_runs_before`: what a purge deletes, and what a dry run promises.
use fraudhunter.Common.{
  ℕ, ◌+◌, Bool, true, false, not, ◌≡◌, refl, arith, length, All-imp, All-of_forall, select_passes,
  not_exists_of_All, length-delete, count-select_of_All, count_where, exists_where,
}
use fraudhunter.Queue.Run.{JobRun, is_active}
use fraudhunter.Queue.Store.{Table, is_purged, purge_finished_runs_before}

-- A row that the purge must keep: queued or running, or without an end time before the cutoff.
abbrev pub is_kept : ℕ → JobRun → Bool
is_kept cutoff r = not (is_purged cutoff r)

-- A dry run counts exactly the rows that the purge then deletes and changes nothing; the purge leaves
-- no finished row that ended before the cutoff, and keeps every active row.
pub purge_exact :
    (cutoff : ℕ) (t : Table)
    → let dry = purge_finished_runs_before cutoff false t in
      let run = purge_finished_runs_before cutoff true t in
      (dry.1 ≡ t)
      × (run.0 ≡ dry.0)
      × (length run.1 + dry.0 ≡ length t)
      × (exists_where (is_purged cutoff) run.1 ≡ false)
      × (count_where (λ r. is_active r.status) run.1 ≡ count_where (λ r. is_active r.status) t)
unfolding purge_finished_runs_before
purge_exact cutoff t = (
  refl,
  refl,
  length-delete (is_purged cutoff) t,
  not_exists_of_All _ _ (
      All-imp _ (λ r. is_purged cutoff r ≡ false) _ (λ r k. ground arith)
        (select_passes (is_kept cutoff) t)),
  count-select_of_All (λ r. is_active r.status) (is_kept cutoff) t
      (All-of_forall _ t (λ r live. ground arith)),
)
