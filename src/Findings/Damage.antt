-- ===== src/Findings/Damage.antt =====
-- `_estimate_damage_snapshot` of `services/findings.py`: the damage of a finding and its evidence.
use fraudhunter.Common.{
  ℕ, ◌+◌, ◌-◌, ◌*◌, String, Bool, true, false, Option, none, some, List, [], ◌∷◌, ◌++◌, ltb, ◌==◌,
  str_eq, if◌then◌else◌, exists_where,
}

-- `DEFAULT_REWARD_YEN`
abbrev pub default_reward_yen : ℕ
default_reward_yen = 3000

-- A row of the query for the details of a visitor.
pub record Detail : Type 0 where
  pub media_id : Option String
  pub media_name : Option String
  pub program_id : Option String
  pub program_name : Option String
  pub affiliate_id : Option String
  pub affiliate_name : Option String
  pub conversion_count : ℕ

pub data PriceSource : Type 0 where
  program_observed fallback_default mixed : PriceSource

pub record Evidence : Type 0 where
  pub program_id : Option String
  pub program_name : Option String
  pub conversion_count : ℕ
  pub unit_price_yen : ℕ
  pub unit_price_source : PriceSource

-- `x or None` of a text
abbrev pub or_none : Option String → Option String
or_none none = none
or_none (some s) = if str_eq s "" then none else some s

-- `program_unit_prices`, a dict
abbrev pub Prices : Type 0
Prices = String → Option ℕ

-- The price of a detail and its source: that of its program, if one was observed.
abbrev pub price_of : Prices → Option String → ℕ × PriceSource
price_of prices none = (default_reward_yen, fallback_default)
price_of prices (some id) = elim (prices id) [
  | none ↦ (default_reward_yen, fallback_default)
  | some price ↦ (price, program_observed)
]

abbrev pub evidence_of : Prices → Detail → Evidence
evidence_of prices d =
    let id = or_none d.program_id in
    let (price, source) = price_of prices id in
    record {
      program_id = id;
      program_name = or_none d.program_name;
      conversion_count = d.conversion_count;
      unit_price_yen = price;
      unit_price_source = source;
    }

-- The locals of the loop over the details.
pub record Estimate : Type 0 where
  pub estimated_damage : ℕ
  pub detail_total : ℕ
  pub evidence_rows : List Evidence

-- One turn of the loop; a detail without conversions is passed over.
abbrev pub add_detail : Prices → Detail → Estimate → Estimate
add_detail prices d acc =
    let (unit_price, source) = price_of prices (or_none d.program_id) in
    if d.conversion_count == 0 then acc else record {
      estimated_damage = acc.estimated_damage + d.conversion_count * unit_price;
      detail_total = acc.detail_total + d.conversion_count;
      evidence_rows = acc.evidence_rows ++ evidence_of prices d ∷ [];
    }

abbrev pub estimate_loop : Prices → List Detail → Estimate → Estimate
estimate_loop prices [] acc = acc
estimate_loop prices (d ∷ ds) acc = estimate_loop prices ds (add_detail prices d acc)

-- The row for conversions that no detail has.
abbrev pub unknown_row : ℕ → Evidence
unknown_row count = record {
  program_id = none;
  program_name = some "unknown";
  conversion_count = count;
  unit_price_yen = default_reward_yen;
  unit_price_source = fallback_default;
}

abbrev pub is_observed : Evidence → Bool
is_observed e = elim e.unit_price_source [ program_observed ↦ true | _ ↦ false ]

abbrev pub is_fallback : Evidence → Bool
is_fallback e = elim e.unit_price_source [ fallback_default ↦ true | _ ↦ false ]

-- The label of the set of the sources, of rows that are not empty.
abbrev pub source_of : List Evidence → PriceSource
source_of rows =
    if exists_where is_observed rows
    then (if exists_where is_fallback rows then mixed else program_observed)
    else fallback_default

pub record Damage : Type 0 where
  pub estimated_damage : ℕ
  pub unit_price_source : PriceSource
  pub evidence : List Evidence

-- `if missing_count > 0`
abbrev pub add_missing : (missing_count : ℕ) → Estimate → Estimate
add_missing missing acc =
    if ltb 0 missing
    then record acc {
      estimated_damage = acc.estimated_damage + missing * default_reward_yen;
      evidence_rows = acc.evidence_rows ++ unknown_row missing ∷ [];
    }
    else acc

-- The end of the function: without any row, one for all conversions stands in.
abbrev pub snapshot_of : (total_conversions estimated_damage : ℕ) → List Evidence → Damage
snapshot_of total damage [] = record {
  estimated_damage = total * default_reward_yen;
  unit_price_source = fallback_default;
  evidence = unknown_row total ∷ [];
}
snapshot_of total damage (e ∷ es) = record {
  estimated_damage = damage;
  unit_price_source = source_of (e ∷ es);
  evidence = e ∷ es;
}

-- `_estimate_damage_snapshot`
unfoldable pub estimate_damage_snapshot : (total_conversions : ℕ) → List Detail → Prices → Damage
estimate_damage_snapshot total details prices =
    let start : Estimate = record { estimated_damage = 0; detail_total = 0; evidence_rows = [] } in
    let acc = estimate_loop prices details start in
    let full = add_missing (total - acc.detail_total) acc in
    snapshot_of total full.estimated_damage full.evidence_rows

-- For the statements: what the details count, and what rows of evidence account for and add up to.
abbrev pub conversions_in : List Detail → ℕ
conversions_in [] = 0
conversions_in (d ∷ ds) = d.conversion_count + conversions_in ds

abbrev pub accounted : List Evidence → ℕ
accounted [] = 0
accounted (e ∷ es) = e.conversion_count + accounted es

abbrev pub damage_of : List Evidence → ℕ
damage_of [] = 0
damage_of (e ∷ es) = e.conversion_count * e.unit_price_yen + damage_of es
