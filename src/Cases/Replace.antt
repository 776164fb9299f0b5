-- ===== src/Cases/Replace.antt =====
-- What a recomputation leaves in the tables of findings and of generations.
use fraudhunter.Common.{
  ℕ, String, Bool, true, false, not, ◌&&◌, Option, none, some, List, [], ◌∷◌, ◌≡◌, refl, ap, ◌∙◌,
  arith, inl, inr, Bool-cases, str_eq, ◌==◌, eq_iff, if◌then◌else◌, All, exists_where, find_where,
  update_where, has, or_else, last_where, find-upsert_all, find-update, last_value, count_where,
  count-append,
}
use mathlib.Core.Option
use fraudhunter.Cases.Tables.{StoredFinding, Generation, Cases}
use fraudhunter.Cases.Store.{
  is_current_of, replace_current_generation, is_current_on, replace_conversion_findings,
}
use fraudhunter.Cases.Followups.{str-IsKey}

-- The finding of a key.
abbrev pub finding_of : String → List StoredFinding → Option StoredFinding
finding_of k = find_where (has StoredFinding.finding_key str_eq k)

-- A finding of the date is current no longer.
abbrev pub retired : ℕ → StoredFinding → StoredFinding
retired date f = if is_current_on date f then record f { is_current = false } else f

retired_off : (date : ℕ) (f : StoredFinding) → is_current_on date (retired date f) ≡ false
retired_off date f = ground arith

retired_none :
    (date : ℕ) (o : Option StoredFinding)
    → Option.map (is_current_on date) (Option.map (retired date) o) ≡ Option.map (λ _. false) o
retired_none date none = refl
retired_none date (some f) = ap (λ b. some b) (retired_off date f)

demoted :
    (ty : String) (date : ℕ) (q : Generation → Bool) (gs : List Generation)
    → ((g : Generation)
        → is_current_of ty date g ≡ true
        → q (record g { is_current = false }) ≡ false)
    → count_where q (update_where (is_current_of ty date) (λ g. record g { is_current = false }) gs)
      ≡ count_where (λ g. q g && not (is_current_of ty date g)) gs
demoted ty date q [] off = refl
demoted ty date q (g ∷ gs) off = ground (arith, off g, demoted ty date q gs off)

module _ (g : Generation) (ty : String) (d : ℕ) where
  -- The generation is of the type and the date.
  abbrev pub is_for : Bool
  is_for = str_eq g.finding_type ty && (g.target_date == d)

  none_left :
      (gs : List Generation)
      → is_for ≡ true
      → count_where
          (λ x. is_current_of ty d x && not (is_current_of g.finding_type g.target_date x))
          gs
        ≡ 0
  none_left [] this = refl
  none_left (x ∷ gs) this =
      let types = (eq_iff g.finding_type ty).0 (ground arith) in
      let dates : g.target_date ≡ d = ground arith in
      rw (types, dates) (ground (arith, none_left gs this))

  others_left :
      (gs : List Generation)
      → is_for ≡ false
      → count_where
          (λ x. is_current_of ty d x && not (is_current_of g.finding_type g.target_date x))
          gs
        ≡ count_where (is_current_of ty d) gs
  others_left [] other = refl
  others_left (x ∷ gs) other = ground (
    arith,
    others_left gs other,
    eq_iff x.finding_type ty,
    eq_iff x.finding_type g.finding_type,
    eq_iff g.finding_type ty,
  )

  pub generations_count :
      (gs : List Generation)
      → count_where (is_current_of ty d) (replace_current_generation g gs)
        ≡ (if is_for then 1 else count_where (is_current_of ty d) gs)
  generations_count gs =
      let demotes =
        demoted g.finding_type g.target_date (is_current_of ty d) gs (λ x h. ground arith) in
      let added =
        count-append (is_current_of ty d)
          (update_where (is_current_of g.finding_type g.target_date)
            (λ x. record x { is_current = false }) gs)
          (record g { is_current = true } ∷ []) in
      elim (Bool-cases is_for) [
        | inl this ↦ rw this (ground (arith, demotes, added, none_left gs this))
        | inr other ↦ rw other (ground (arith, demotes, added, others_left gs other))
      ]

-- After the findings of a date are replaced by rows that are current on it, each key has the last row given
-- for it, or else the finding that it had, which is current on that date no longer: so a finding is current
-- on the date exactly if a row has its key. The type and date of the new generation have exactly one current
-- generation, and all others have as many as before.
pub replace_conversion_findings_lem :
    (date : ℕ) (rows : List StoredFinding) (metadata : Generation) (c : Cases)
    → All (λ r. is_current_on date r ≡ true) rows
    → let after = replace_conversion_findings date rows metadata c in
      ((k : String)
        → (finding_of k after.findings
            ≡ or_else
                (last_where (has StoredFinding.finding_key str_eq k) rows)
                (Option.map (retired date) (finding_of k c.findings)))
          × (Option.map (is_current_on date) (finding_of k after.findings) ≡ (
              if exists_where (has StoredFinding.finding_key str_eq k) rows
              then some true
              else Option.map (λ _. false) (finding_of k c.findings))))
      × ((ty : String) (d : ℕ)
          → count_where (is_current_of ty d) after.generations
            ≡ (if is_for metadata ty d then 1 else count_where (is_current_of ty d) c.generations))
unfolding replace_conversion_findings
replace_conversion_findings_lem date rows metadata c h =
    let key = StoredFinding.finding_key in
    let put : StoredFinding → StoredFinding → StoredFinding =
      λ row old. record row { finding_key = old.finding_key } in
    let found = λ (k : String).
      find-upsert_all key str_eq (str-IsKey key) put (λ row old. refl)
        (λ row old e. ap (λ j. record row { finding_key = j }) e) rows
        (update_where (is_current_on date) (λ f. record f { is_current = false }) c.findings) k
      ∙ ap (or_else (last_where (has key str_eq k) rows)) (
          find-update (has key str_eq k) (is_current_on date) (λ f. record f { is_current = false })
            c.findings (λ f. refl)) in
    (
      λ k. (
        found k,
        ap (Option.map (is_current_on date)) (found k)
            ∙ last_value (is_current_on date) true (has key str_eq k) rows
                (Option.map (retired date) (finding_of k c.findings)) h
            ∙ rw (retired_none date (finding_of k c.findings)) refl,
      ),
      λ ty d. generations_count metadata ty d c.generations,
    )
