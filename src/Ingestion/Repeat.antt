-- ===== src/Ingestion/Repeat.antt =====
-- A refresh whose time range overlaps an earlier one: `merge_clicks` twice with the same clicks.
use fraudhunter.Common.{
  ℕ, suc, ◌+◌, String, Bool, true, List, [], ◌∷◌, ◌++◌, ◌≡◌, refl, arith, sym, subst, inl, inr,
  Bool-cases, eq_iff, length, All, exists_where,
}
use fraudhunter.Ingestion.Logs.{ClickLog, ClickRaw, Logs, has_text}
use fraudhunter.Ingestion.Repository.{Environment, raw_id, click_row, has_click_id}
use fraudhunter.Ingestion.Merge.{Merged, merge_click, merge_clicks_loop, merge_clicks}

-- The click came with an id.
abbrev pub HasId : ClickLog → Type 0
HasId click = has_text click.click_id ≡ true

-- The click came with an id, and a click is stored under it.
abbrev IsStored : List ClickRaw → ClickLog → Type 0
IsStored rows click = HasId click × (exists_where (has_click_id (raw_id "" click)) rows ≡ true)

exists-append {ℓ} :
    {A : Type ℓ} (q : A → Bool) (s t : List A)
    → exists_where q s ≡ true
    → exists_where q (s ++ t) ≡ true
exists-append q [] t h = absurd (ground arith)
exists-append q (x ∷ s) t h = ground (arith, exists-append q s t)

exists-last {ℓ} :
    {A : Type ℓ} (q : A → Bool) (s : List A) (x : A)
    → q x ≡ true
    → exists_where q (s ++ x ∷ []) ≡ true
exists-last q [] x h = ground arith
exists-last q (y ∷ s) x h = ground (arith, exists-last q s x h)

id_of : (uuid : String) (click : ClickLog) → HasId click → raw_id uuid click ≡ raw_id "" click
id_of uuid click h = ground arith

module _ (env : Environment) where
  kept :
      (n : ℕ) (click : ClickLog) (m : Merged) (i : String)
      → exists_where (has_click_id i) m.db.click_raw ≡ true
      → exists_where (has_click_id i) (merge_click env true n click m).db.click_raw ≡ true
  unfolding merge_click
  kept n click m i h =
      let row = click_row (env.uuid n) (env.raw_now n) click in
      elim (Bool-cases (exists_where (has_click_id row.id) m.db.click_raw)) [
        | inl old ↦ rw old h
        | inr new ↦ rw new (exists-append (has_click_id i) m.db.click_raw (row ∷ []) h)
      ]

  merged-IsStored :
      (n : ℕ) (click : ClickLog) (m : Merged)
      → HasId click
      → IsStored (merge_click env true n click m).db.click_raw click
  unfolding merge_click
  merged-IsStored n click m h =
      let row = click_row (env.uuid n) (env.raw_now n) click in
      let same : row.id ≡ raw_id "" click = id_of (env.uuid n) click h in
      (
        h,
        subst
            (λ (i : String).
              exists_where (has_click_id i) (merge_click env true n click m).db.click_raw ≡ true)
            same
            (elim (Bool-cases (exists_where (has_click_id row.id) m.db.click_raw)) [
              | inl old ↦ rw old old
              | inr new ↦ rw new (
                  exists-last (has_click_id row.id) m.db.click_raw row
                    ((eq_iff row.id row.id).1 refl))
            ]),
      )

  loop_kept :
      (n : ℕ) (clicks : List ClickLog) (m : Merged) (i : String)
      → exists_where (has_click_id i) m.db.click_raw ≡ true
      → exists_where (has_click_id i) (merge_clicks_loop env true n clicks m).db.click_raw ≡ true
  unfolding merge_clicks_loop
  loop_kept n [] m i h = h
  loop_kept n (click ∷ clicks) m i h =
      loop_kept (suc n) clicks (merge_click env true n click m) i (kept n click m i h)

  loop-IsStored :
      (n : ℕ) (clicks : List ClickLog) (m : Merged)
      → All HasId clicks
      → All (IsStored (merge_clicks_loop env true n clicks m).db.click_raw) clicks
  unfolding merge_clicks_loop
  loop-IsStored n [] m h = tt
  loop-IsStored n (click ∷ clicks) m h =
      let m1 = merge_click env true n click m in
      (
        (h.0, loop_kept (suc n) clicks m1 (raw_id "" click) (merged-IsStored n click m h.0).1),
        loop-IsStored (suc n) clicks m1 h.1,
      )

  loop_skips :
      (n : ℕ) (clicks : List ClickLog) (m : Merged)
      → All (IsStored m.db.click_raw) clicks
      → merge_clicks_loop env true n clicks m
        ≡ record m { skip_count = m.skip_count + length clicks }
  unfolding merge_clicks_loop merge_click
  loop_skips n [] m h = ground arith
  loop_skips n (click ∷ clicks) m h =
      let row = click_row (env.uuid n) (env.raw_now n) click in
      let old : exists_where (has_click_id row.id) m.db.click_raw ≡ true =
        subst (λ (i : String). exists_where (has_click_id i) m.db.click_raw ≡ true)
          (sym (id_of (env.uuid n) click h.0.0)) h.0.1 in
      rw old
        (ground (arith, loop_skips (suc n) clicks (record m { skip_count = m.skip_count + 1 }) h.1))

-- A batch whose clicks have ids can be merged again, at any time, without effect: the second merge skips
-- every click, counts none as new, reports no date as affected, and leaves all tables as they are.
pub merge_clicks_idem :
    (env env' : Environment) (clicks : List ClickLog) (db : Logs)
    → All HasId clicks
    → let m = merge_clicks env true clicks db in
      merge_clicks env' true clicks m.db
      ≡ record { new_count = 0; skip_count = length clicks; affected_dates = []; db = m.db }
unfolding merge_clicks
merge_clicks_idem env env' clicks db h =
    let start : Logs → Merged =
      λ d. record { new_count = 0; skip_count = 0; affected_dates = []; db = d } in
    let m = merge_clicks_loop env true 0 clicks (start db) in
    ground (arith, loop_skips env' 0 clicks (start m.db) (loop-IsStored env 0 clicks (start db) h))
