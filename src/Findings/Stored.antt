-- ===== src/Findings/Stored.antt =====
-- What a recomputation of a date stores of the detection.
use fraudhunter.Common.{
  ℕ, suc, String, Bool, true, false, Option, none, some, List, [], ◌∷◌, ◌≡◌, refl, ap, ◌∙◌, arith,
  inl, inr, Bool-cases, str_eq, eq_iff, if◌then◌else◌, map, length, Memᴰ, All, exists_where,
  count_where, has,
}
use mathlib.Core.Option
use fraudhunter.Detection.Rules.{Rollup, GapInfo, is_short}
use fraudhunter.Detection.Filters.{passes_filters}
use fraudhunter.Detection.Detector.{Visitor, visitor_of, Finding, gap_of}
use fraudhunter.Detection.Findings.{is_finding_of, same_visitor}
use fraudhunter.Detection.Complete.{find_for_date_short_gap}
use fraudhunter.Cases.Tables.{StoredFinding, Cases}
use fraudhunter.Cases.Store.{is_current_of, is_current_on}
use fraudhunter.Cases.Replace.{finding_of, replace_conversion_findings_lem}
use fraudhunter.Findings.Recompute.{
  Library, Reads, Run, finding_key, findings_on, rows_on, metadata_on, recompute_date,
}

exists-map {ℓ κ} :
    {A : Type ℓ} {B : Type κ} (p : B → Bool) (g : A → B) (xs : List A)
    → exists_where p (map g xs) ≡ exists_where (λ x. p (g x)) xs
exists-map p g [] = refl
exists-map p g (x ∷ xs) = ground (arith, exists-map p g xs)

length-map {ℓ κ} :
    {A : Type ℓ} {B : Type κ} (g : A → B) (xs : List A) → length (map g xs) ≡ length xs
length-map g [] = refl
length-map g (x ∷ xs) = ap (λ n. suc n) (length-map g xs)

All-map {ℓ κ μ} :
    {A : Type ℓ} {B : Type κ} (P : B → Type μ) (g : A → B) (xs : List A)
    → ((x : A) → P (g x))
    → All P (map g xs)
All-map P g [] h = tt
All-map P g (x ∷ xs) h = (h x, All-map P g xs h)

module _ (lib : Library) (run : Run) (reads : Reads) (d : ℕ) where
  -- The finding is stored under the key.
  abbrev pub is_stored_under : String → Finding → Bool
  is_stored_under k f = str_eq (finding_key lib run d (visitor_of f.rollup)) k

  -- After the recomputation of a date, a finding is current on the date exactly if the detection of that date
  -- has a finding for its key. The date has exactly one current generation of conversion findings, and the call
  -- returns the number of findings that were detected.
  pub recompute_date_lem :
      (c : Cases)
      → let (count, after) = recompute_date lib run reads d c in
        let found = findings_on lib run reads d in
        (count ≡ length found)
        × ((k : String)
            → Option.map (is_current_on d) (finding_of k after.findings) ≡ (
                if exists_where (is_stored_under k) found
                then some true
                else Option.map (λ _. false) (finding_of k c.findings)))
        × (count_where (is_current_of "conversion" d) after.generations ≡ 1)
  unfolding recompute_date
  recompute_date_lem c =
      let rows = rows_on lib run reads d in
      let replaced =
        replace_conversion_findings_lem d rows (metadata_on lib run reads d (length rows)) c (
          All-map (λ r. is_current_on d r ≡ true) _ (findings_on lib run reads d)
            (λ f. ground arith)) in
      (
        length-map _ (findings_on lib run reads d),
        λ k.
            (replaced.0 k).1
            ∙ rw
                (exists-map (has StoredFinding.finding_key str_eq k) _
                  (findings_on lib run reads d))
                refl,
        replaced.1 "conversion" d ∙ ground arith,
      )

  stored_true :
      (o : Option StoredFinding)
      → Option.map (is_current_on d) o ≡ some true
      → (f : StoredFinding) × (o ≡ some f) × (is_current_on d f ≡ true)
  stored_true none h = absurd (ground arith)
  stored_true (some f) h = (f, refl, ground arith)

  found_key :
      (v : Visitor) (fs : List Finding)
      → exists_where (is_finding_of v) fs ≡ true
      → exists_where (is_stored_under (finding_key lib run d v)) fs ≡ true
  found_key v [] h = absurd (ground arith)
  found_key v (f ∷ fs) h = elim (Bool-cases (is_finding_of v f)) [
    | inl this ↦
        rw (same_visitor v f.rollup this)
          (rw ((eq_iff (finding_key lib run d v) (finding_key lib run d v)).1 refl) refl)
    | inr other ↦ rw (found_key v fs (ground arith)) (ground arith)
  ]

  -- A visitor of the day whose least time from a click to a conversion is below the limit, and who passes the
  -- filters, has a current finding of the date after its recomputation, under his key.
  pub recompute_short_gap :
      (r : Rollup) (g : GapInfo) (c : Cases)
      → let q = reads.queries d in
        Memᴰ r q.all_rollups
        → q.has_gaps ≡ true
        → gap_of lib.texts run.rules q (visitor_of r) ≡ some g
        → is_short g.min_gap run.rules.min_click_to_conv_seconds ≡ true
        → passes_filters lib.texts run.rules r ≡ true
        → (f : StoredFinding) × (finding_of
              (finding_key lib run d (visitor_of r))
              (recompute_date lib run reads d c).1.findings
            ≡ some f)
          × (is_current_on d f ≡ true)
  recompute_short_gap r g c member gaps gap short passes =
      let stored = (recompute_date_lem c).1 (finding_key lib run d (visitor_of r)) in
      let found = found_key (visitor_of r) (findings_on lib run reads d) (
        find_for_date_short_gap lib.texts run.rules (reads.queries d) r g member gaps gap short
          passes) in
      stored_true _ (stored ∙ rw found refl)
