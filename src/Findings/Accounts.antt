-- ===== src/Findings/Accounts.antt =====
-- What the damage of a finding adds up from.
use fraudhunter.Common.{
  ℕ, ◌+◌, ◌-◌, ◌≤◌, false, not, List, [], ◌∷◌, ◌++◌, ◌≡◌, ◌↔◌, refl, subst, arith, ltb, ◌==◌, max,
  exists_where, inl, inr, Bool-cases, All, All-append, All-imp,
}
use fraudhunter.Findings.Damage.{
  Detail, program_observed, Evidence, Prices, price_of, evidence_of, Estimate, add_detail,
  estimate_loop, add_missing, conversions_in, damage_of, unknown_row, is_observed, is_fallback,
  source_of, Damage, snapshot_of, estimate_damage_snapshot, accounted,
}

accounted-append : (s t : List Evidence) → accounted (s ++ t) ≡ accounted s + accounted t
accounted-append [] t = omega arith
accounted-append (e ∷ s) t = omega (arith, accounted-append s t)

damage-append : (s t : List Evidence) → damage_of (s ++ t) ≡ damage_of s + damage_of t
damage-append [] t = omega arith
damage-append (e ∷ s) t = omega (arith, damage-append s t)

-- The price of a row is that of its program where one was observed, and else the default.
abbrev pub IsPriced : Prices → Evidence → Type 0
IsPriced prices e =
    (e.unit_price_yen ≡ (price_of prices e.program_id).0)
    × (e.unit_price_source ≡ (price_of prices e.program_id).1)

-- A row has one of the two sources.
abbrev HasSource : Evidence → Type 0
HasSource e = is_observed e ≡ not (is_fallback e)

priced_source : (prices : Prices) (e : Evidence) → IsPriced prices e → HasSource e
priced_source prices e h = ground arith

observed_all :
    (e : Evidence) (es : List Evidence)
    → All HasSource (e ∷ es)
    → (source_of (e ∷ es) ≡ program_observed) ↔ (exists_where is_fallback (e ∷ es) ≡ false)
observed_all e es h = (λ p. ground arith, λ p. ground (arith, h.0))

-- What holds of the locals at every point: the damage and the total are those of the rows.
record Tallies (prices : Prices) (n : ℕ) (acc : Estimate) : Type 0 where
  damage : acc.estimated_damage ≡ damage_of acc.evidence_rows
  total : acc.detail_total ≡ n
  rows : accounted acc.evidence_rows ≡ n
  priced : All (IsPriced prices) acc.evidence_rows

add_detail-Tallies :
    (prices : Prices) (n : ℕ) (d : Detail) (acc : Estimate)
    → Tallies prices n acc
    → Tallies prices (n + d.conversion_count) (add_detail prices d acc)
add_detail-Tallies prices n d acc h = elim (Bool-cases (d.conversion_count == 0)) [
  | inl zero_count ↦ rw zero_count (record {
    damage = h.damage;
    total = ground (arith, h.total);
    rows = ground (arith, h.rows);
    priced = h.priced;
  })
  | inr some_count ↦ rw some_count (record {
    damage = omega (arith, h.damage, damage-append acc.evidence_rows (evidence_of prices d ∷ []));
    total = omega (arith, h.total);
    rows = omega (arith, h.rows, accounted-append acc.evidence_rows (evidence_of prices d ∷ []));
    priced =
        All-append (IsPriced prices) acc.evidence_rows (evidence_of prices d ∷ []) h.priced
          ((refl, refl), tt);
  })
]

estimate_loop-Tallies :
    (prices : Prices) (n : ℕ) (ds : List Detail) (acc : Estimate)
    → Tallies prices n acc
    → Tallies prices (n + conversions_in ds) (estimate_loop prices ds acc)
estimate_loop-Tallies prices n [] acc h = subst (λ (m : ℕ). Tallies prices m acc) (omega arith) h
estimate_loop-Tallies prices n (d ∷ ds) acc h =
    subst (λ (m : ℕ). Tallies prices m (estimate_loop prices (d ∷ ds) acc)) (omega arith)
      (estimate_loop-Tallies prices (n + d.conversion_count) ds (add_detail prices d acc)
        (add_detail-Tallies prices n d acc h))

-- What the snapshot must be, where the rows account for `n` conversions.
abbrev AddsUp : (prices : Prices) (n : ℕ) → Damage → Type 0
AddsUp prices n s =
    (s.estimated_damage ≡ damage_of s.evidence)
    × (accounted s.evidence ≡ n)
    × All (IsPriced prices) s.evidence
    × ((s.unit_price_source ≡ program_observed) ↔ (exists_where is_fallback s.evidence ≡ false))

snapshot-AddsUp :
    (prices : Prices) (total n damage : ℕ) (rows : List Evidence)
    → damage ≡ damage_of rows
    → accounted rows ≡ n
    → total ≤ n
    → All (IsPriced prices) rows
    → AddsUp prices n (snapshot_of total damage rows)
snapshot-AddsUp prices total n damage [] sum e le h =
    (omega arith, omega (arith, e, le), ((refl, refl), tt), (λ p. ground arith, λ p. ground arith))
snapshot-AddsUp prices total n damage (r ∷ rs) sum e le h = (
  sum,
  e,
  h,
  observed_all r rs (All-imp (IsPriced prices) HasSource (r ∷ rs) (priced_source prices) h),
)

missing-AddsUp :
    (prices : Prices) (total n : ℕ) (acc : Estimate)
    → Tallies prices n acc
    → let full = add_missing (total - acc.detail_total) acc in
      AddsUp prices (max total n) (snapshot_of total full.estimated_damage full.evidence_rows)
missing-AddsUp prices total n acc h =
    let missing = total - acc.detail_total in
    let more = unknown_row missing ∷ [] in
    elim (Bool-cases (ltb 0 missing)) [
      | inl some_missing ↦ rw some_missing (
          snapshot-AddsUp prices total (max total n) _ (acc.evidence_rows ++ more)
            (omega (arith, h.damage, damage-append acc.evidence_rows more))
            (ground (arith, h.total, h.rows, accounted-append acc.evidence_rows more)) (omega arith)
            (All-append (IsPriced prices) acc.evidence_rows more h.priced ((refl, refl), tt)))
      | inr complete ↦ rw complete (
          snapshot-AddsUp prices total (max total n) _ acc.evidence_rows h.damage
            (ground (arith, h.total, h.rows)) (omega arith) h.priced)
    ]

-- The estimated damage is what the rows of the evidence add up to, each a count of conversions at a price:
-- the price observed for its program, or the default. The rows account for every conversion of the
-- finding, and for those of the details if these are more; and the snapshot is marked as observed exactly
-- if no row has the default price.
pub estimate_damage_snapshot_lem :
    (total : ℕ) (details : List Detail) (prices : Prices)
    → let s = estimate_damage_snapshot total details prices in
      (s.estimated_damage ≡ damage_of s.evidence)
      × (accounted s.evidence ≡ max total (conversions_in details))
      × All (IsPriced prices) s.evidence
      × ((s.unit_price_source ≡ program_observed) ↔ (exists_where is_fallback s.evidence ≡ false))
unfolding estimate_damage_snapshot
estimate_damage_snapshot_lem total details prices =
    let start : Estimate = record { estimated_damage = 0; detail_total = 0; evidence_rows = [] } in
    missing-AddsUp prices total (conversions_in details) (estimate_loop prices details start) (
      subst (λ (n : ℕ). Tallies prices n (estimate_loop prices details start)) (omega arith)
        (estimate_loop-Tallies prices 0 details start
          (record { damage = refl; total = refl; rows = refl; priced = tt })))
