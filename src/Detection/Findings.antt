-- ===== src/Detection/Findings.antt =====
-- The findings of `find_for_date`, by visitor.
use fraudhunter.Common.{
  ◌≤◌, Bool, true, false, ◌&&◌, Option, List, [], ◌∷◌, ◌++◌, ◌≡◌, subst, arith, inl, inr,
  Bool-cases, eq_iff, if◌then◌else◌, All, count_where, exists_where, count-append,
  count_of_not_exists,
}
use fraudhunter.Detection.Rules.{RuleSet, Rollup, PaddingInfo}
use fraudhunter.Detection.Filters.{Texts}
use fraudhunter.Detection.Detector.{
  Visitor, visitor_of, is_visitor, Queries, Finding, gap_rules_enabled, is_appended,
  append_candidates, examined, visitors, reasons_of, has_reason, findings_of, find_for_date,
}

-- The finding is of the visitor.
abbrev pub is_finding_of : Visitor → Finding → Bool
is_finding_of v x = is_visitor v x.rollup

pub same_visitor : (v : Visitor) (r : Rollup) → is_visitor v r ≡ true → visitor_of r ≡ v
same_visitor v r h = ground (arith, eq_iff r.ipaddress v.ipaddress, eq_iff r.useragent v.useragent)

module _ (texts : Texts) (rules : RuleSet) (q : Queries) where
  abbrev HasUniqueVisitors : List Rollup → Type 0
  HasUniqueVisitors rs = (v : Visitor) → count_where (is_visitor v) rs ≤ 1

  add-HasUniqueVisitors :
      (candidate : Rollup) (rs : List Rollup)
      → HasUniqueVisitors rs
      → HasUniqueVisitors
          (if is_appended texts rules q candidate rs then rs ++ candidate ∷ [] else rs)
  add-HasUniqueVisitors candidate rs unique v =
      elim (Bool-cases (is_appended texts rules q candidate rs)) [
        | inr out ↦ rw out (unique v)
        | inl added ↦
            let new : exists_where (is_visitor (visitor_of candidate)) rs ≡ false = ground arith in
            let counts = count-append (is_visitor v) rs (candidate ∷ []) in
            rw added (elim (Bool-cases (is_visitor v candidate)) [
              | inl this ↦
                  let absent : count_where (is_visitor v) rs ≡ 0 =
                    count_of_not_exists (is_visitor v) rs (
                      subst (λ (x : Visitor). exists_where (is_visitor x) rs ≡ false)
                        (same_visitor v candidate this) new) in
                  ground (arith, counts)
              | inr other ↦ ground (arith, counts, unique v)
            ])
      ]

  append-HasUniqueVisitors :
      (candidates rs : List Rollup)
      → HasUniqueVisitors rs
      → HasUniqueVisitors (append_candidates texts rules q candidates rs)
  unfolding append_candidates
  append-HasUniqueVisitors [] rs unique = unique
  append-HasUniqueVisitors (candidate ∷ rest) rs unique =
      append-HasUniqueVisitors rest _ (add-HasUniqueVisitors candidate rs unique)

  examined-HasUniqueVisitors :
      HasUniqueVisitors q.suspicious_rollups → HasUniqueVisitors (examined texts rules q)
  examined-HasUniqueVisitors unique =
      elim (Bool-cases (gap_rules_enabled texts rules q && q.has_gaps)) [
        | inl on ↦ rw on (append-HasUniqueVisitors q.all_rollups q.suspicious_rollups unique)
        | inr off ↦ rw off unique
      ]

  findings-le :
      (padding : Visitor → Option PaddingInfo) (v : Visitor) (rs : List Rollup)
      → count_where (is_finding_of v) (findings_of texts rules q padding rs)
        ≤ count_where (is_visitor v) rs
  unfolding findings_of
  findings-le padding v [] = omega arith
  findings-le padding v (r ∷ rs) =
      elim (Bool-cases (has_reason texts rules q (reasons_of texts rules q padding r))) [
        | inl found ↦ rw found (ground (arith, findings-le padding v rs))
        | inr clean ↦ rw clean (ground (arith, findings-le padding v rs))
      ]

  findings-reasons :
      (padding : Visitor → Option PaddingInfo) (rs : List Rollup)
      → All (λ x. has_reason texts rules q x.reasons ≡ true) (findings_of texts rules q padding rs)
  unfolding findings_of
  findings-reasons padding [] = tt
  findings-reasons padding (r ∷ rs) =
      elim (Bool-cases (has_reason texts rules q (reasons_of texts rules q padding r))) [
        | inl found ↦ rw found (found, findings-reasons padding rs)
        | inr clean ↦ rw clean (findings-reasons padding rs)
      ]

  -- If the query for the thresholds returns each visitor once, so does the detection: no visitor has two
  -- findings, and every finding has a reason.
  pub find_for_date_unique :
      ((v : Visitor) → count_where (is_visitor v) q.suspicious_rollups ≤ 1)
      → ((v : Visitor) → count_where (is_finding_of v) (find_for_date texts rules q) ≤ 1)
        × All (λ x. has_reason texts rules q x.reasons ≡ true) (find_for_date texts rules q)
  unfolding find_for_date
  find_for_date_unique unique =
      let rs = examined texts rules q in
      let padding = q.padding_stats (visitors texts rules q rs) in
      (
        λ v. omega (arith, findings-le padding v rs, examined-HasUniqueVisitors unique v),
        findings-reasons padding rs,
      )
