-- ===== src/Detection/Complete.antt =====
-- `find_for_date` and the visitors who convert soon after a click.
use fraudhunter.Common.{
  Bool, true, ◌&&◌, Option, some, List, [], ◌∷◌, ◌++◌, ◌≡◌, refl, ap, sym, subst, ◌∙◌, arith, inl,
  inr, Bool-cases, eq_iff, if◌then◌else◌, is_some, Memᴰ, exists_where,
}
use fraudhunter.Detection.Rules.{
  RuleSet, Rollup, GapInfo, PaddingInfo, is_short, reasons_for_rollup,
}
use fraudhunter.Detection.Filters.{Texts, is_browser_useragent, passes_filters}
use fraudhunter.Detection.Detector.{
  Visitor, visitor_of, is_visitor, Queries, gap_rules_enabled, gap_of, is_appended,
  append_candidates, examined, visitors, reasons_of, has_reason, findings_of, find_for_date,
}
use fraudhunter.Detection.Findings.{is_finding_of, same_visitor}

exists-front {ℓ} :
    {A : Type ℓ} (p : A → Bool) (s t : List A)
    → exists_where p s ≡ true
    → exists_where p (s ++ t) ≡ true
exists-front p [] t h = absurd (ground arith)
exists-front p (x ∷ s) t h = ground (arith, exists-front p s t)

exists-back {ℓ} :
    {A : Type ℓ} (p : A → Bool) (s : List A) (x : A)
    → p x ≡ true
    → exists_where p (s ++ x ∷ []) ≡ true
exists-back p [] x h = ground arith
exists-back p (y ∷ s) x h = ground (arith, exists-back p s x h)

visitor_self : (r : Rollup) → is_visitor (visitor_of r) r ≡ true
visitor_self r =
    ground (arith, (eq_iff r.ipaddress r.ipaddress).1 refl, (eq_iff r.useragent r.useragent).1 refl)

module _ (texts : Texts) (rules : RuleSet) (q : Queries) where
  short_reason :
      (r : Rollup) (g : GapInfo) (p : Option PaddingInfo)
      → is_short g.min_gap rules.min_click_to_conv_seconds ≡ true
      → has_reason texts rules q
          (reasons_for_rollup (is_browser_useragent texts) rules r (some g) p)
        ≡ true
  unfolding reasons_for_rollup
  short_reason r g p h = ground arith

  added_kept :
      (v : Visitor) (candidate : Rollup) (rs : List Rollup)
      → exists_where (is_visitor v) rs ≡ true
      → exists_where
          (is_visitor v)
          (if is_appended texts rules q candidate rs then rs ++ candidate ∷ [] else rs)
        ≡ true
  added_kept v candidate rs h = ground (arith, exists-front (is_visitor v) rs (candidate ∷ []) h)

  appended_kept :
      (v : Visitor) (candidates rs : List Rollup)
      → exists_where (is_visitor v) rs ≡ true
      → exists_where (is_visitor v) (append_candidates texts rules q candidates rs) ≡ true
  unfolding append_candidates
  appended_kept v [] rs h = h
  appended_kept v (c ∷ rest) rs h = appended_kept v rest _ (added_kept v c rs h)

  added :
      (c : Rollup) (g : GapInfo) (rs : List Rollup)
      → gap_of texts rules q (visitor_of c) ≡ some g
      → passes_filters texts rules c ≡ true
      → exists_where
          (is_visitor (visitor_of c))
          (if is_appended texts rules q c rs then rs ++ c ∷ [] else rs)
        ≡ true
  added c g rs gap passes =
      ground (arith, exists-back (is_visitor (visitor_of c)) rs c (visitor_self c), ap is_some gap)

  appended :
      (c : Rollup) (g : GapInfo) (candidates rs : List Rollup)
      → Memᴰ c candidates
      → gap_of texts rules q (visitor_of c) ≡ some g
      → passes_filters texts rules c ≡ true
      → exists_where (is_visitor (visitor_of c)) (append_candidates texts rules q candidates rs)
        ≡ true
  unfolding append_candidates
  appended c g [] rs m gap passes = elim m [ ]
  appended c g (x ∷ rest) rs (Memᴰ.head e) gap passes =
      subst
        (λ (y : Rollup).
          exists_where (is_visitor (visitor_of c)) (
            append_candidates texts rules q rest
              (if is_appended texts rules q y rs then rs ++ y ∷ [] else rs))
          ≡ true)
        e (appended_kept (visitor_of c) rest _ (added c g rs gap passes))
  appended c g (x ∷ rest) rs (Memᴰ.tail m) gap passes = appended c g rest _ m gap passes

  found :
      (padding : Visitor → Option PaddingInfo) (v : Visitor) (g : GapInfo) (rs : List Rollup)
      → gap_of texts rules q v ≡ some g
      → is_short g.min_gap rules.min_click_to_conv_seconds ≡ true
      → exists_where (is_visitor v) rs ≡ true
      → exists_where (is_finding_of v) (findings_of texts rules q padding rs) ≡ true
  unfolding findings_of
  found padding v g [] gap short h = absurd (ground arith)
  found padding v g (r ∷ rs) gap short h = elim (Bool-cases (is_visitor v r)) [
    | inl this ↦
        let here : gap_of texts rules q (visitor_of r) ≡ some g =
          ap (gap_of texts rules q) (same_visitor v r this) ∙ gap in
        let reason : has_reason texts rules q (reasons_of texts rules q padding r) ≡ true =
          subst
            (λ (o : Option GapInfo).
              has_reason texts rules q
                (reasons_for_rollup (is_browser_useragent texts) rules r o (padding (visitor_of r)))
              ≡ true)
            (sym here) (short_reason r g (padding (visitor_of r)) short) in
        rw reason (ground (arith, this))
    | inr other ↦
        let rest = found padding v g rs gap short (ground arith) in
        elim (Bool-cases (has_reason texts rules q (reasons_of texts rules q padding r))) [
          | inl listed ↦ rw listed (ground (arith, rest, other))
          | inr unlisted ↦ rw unlisted rest
        ]
  ]

  -- A visitor of the day whose least time from a click to a conversion is below the limit, and who passes
  -- the filters, has a finding, also if the query for the thresholds did not return him.
  pub find_for_date_short_gap :
      (c : Rollup) (g : GapInfo)
      → Memᴰ c q.all_rollups
      → q.has_gaps ≡ true
      → gap_of texts rules q (visitor_of c) ≡ some g
      → is_short g.min_gap rules.min_click_to_conv_seconds ≡ true
      → passes_filters texts rules c ≡ true
      → exists_where (is_finding_of (visitor_of c)) (find_for_date texts rules q) ≡ true
  unfolding find_for_date
  find_for_date_short_gap c g m gaps gap short passes =
      let on : gap_rules_enabled texts rules q ≡ true = ground arith in
      let both : (gap_rules_enabled texts rules q && q.has_gaps) ≡ true = ground arith in
      let all : exists_where (is_visitor (visitor_of c)) (examined texts rules q) ≡ true =
        rw both (appended c g q.all_rollups q.suspicious_rollups m gap passes) in
      found (q.padding_stats (visitors texts rules q (examined texts rules q))) (visitor_of c) g
        (examined texts rules q) gap short all
