-- ===== src/Findings/Recompute.antt =====
-- `recompute_findings_for_dates` of `services/findings.py`: the detection of a date, its rows, and the
-- replacement of the findings that are stored for it.
use fraudhunter.Common.{
  ℕ, String, true, not, ◌&&◌, Option, none, some, List, [], ◌∷◌, ◌++◌, map, length, select_where,
  if◌then◌else◌,
}
use fraudhunter.Common.Int.{ℤ}
use fraudhunter.Detection.Rules.{RuleSet, whole_seconds}
use fraudhunter.Detection.Filters.{Texts}
use fraudhunter.Detection.Detector.{Visitor, Queries, Finding, visitor_of, find_for_date}
use fraudhunter.Cases.Tables.{StoredFinding, Generation, Cases}
use fraudhunter.Cases.Store.{is_present, is_in, replace_conversion_findings}
use fraudhunter.Findings.Damage.{
  Detail, Prices, PriceSource, program_observed, fallback_default, mixed, Evidence,
  estimate_damage_snapshot,
}
use fraudhunter.Findings.Risk.{RiskLevel, low, medium, high, calculate_risk_level}
use fraudhunter.Findings.Reasons.{Numerals, joined, reason_text, format_reason}
use fraudhunter.Ingestion.Merge.{add_date}

-- What Python's library computes: `hashlib.sha256(…).hexdigest()`, `text[:16]`, `str.lower`,
-- `date.isoformat`, and `json.dumps` of a list of texts, of the dict `metrics` of a finding and of the rows of
-- the evidence.
pub record Library : Type 0 where
  pub numerals : Numerals
  pub texts : Texts
  pub sha256 : String → String
  pub first_16 : String → String
  pub isoformat : ℕ → String
  pub dumps_texts : List String → String
  pub dumps_metrics : Finding → String
  pub dumps_evidence : List Evidence → String

-- What the repository's queries return, by date. A dict that is asked for by visitor is a function.
pub record Reads : Type 0 where
  pub queries : ℕ → Queries
  pub details : ℕ → List Visitor → Visitor → List Detail
  pub unit_prices : ℕ → List String → Prices
  pub click_watermark : ℕ → Option ℕ
  pub conversion_watermark : ℕ → Option ℕ

-- What the function takes before its loop: the canonical text of the settings and their rules, the text of
-- `suspicious.py`, the time, the version and the time of the settings, and its arguments.
pub record Run : Type 0 where
  pub settings : String
  pub rules : RuleSet
  pub detector_source : String
  pub computed_at : ℕ
  pub settings_version_id : Option String
  pub settings_updated_at : Option ℕ
  pub computed_by_job_id : Option String
  pub generation_id : Option String
  -- `uuid.uuid4().hex[:12]`, for the generation and for the row of each date
  pub fresh : String
  pub fresh_row : ℕ → String

-- `_unique`, with the values that have been seen
abbrev pub unique_from : (seen : List String) → List String → List String
unique_from seen [] = []
unique_from seen (v ∷ vs) =
    if is_present v && not (is_in seen v)
    then v ∷ unique_from (v ∷ seen) vs
    else unique_from seen vs

-- A missing value is passed over like an empty one.
abbrev pub texts_of : (Detail → Option String) → List Detail → List String
texts_of column [] = []
texts_of column (d ∷ ds) = (elim (column d) [ none ↦ "" | some s ↦ s ]) ∷ texts_of column ds

abbrev pub unique : (Detail → Option String) → List Detail → List String
unique column ds = unique_from [] (texts_of column ds)

abbrev pub level_text : RiskLevel → String
level_text low = "low"
level_text medium = "medium"
level_text high = "high"

abbrev pub source_text : PriceSource → String
source_text program_observed = "program_observed"
source_text fallback_default = "fallback_default"
source_text mixed = "mixed"

-- `" ".join(…)`
abbrev pub spaced : List String → String
spaced [] = ""
spaced (s ∷ []) = s
spaced (s ∷ t ∷ ss) = joined (s ∷ " " ∷ spaced (t ∷ ss) ∷ [])

-- `int(x) if x is not None else None`
abbrev pub whole : Option ℤ → Option ℤ
whole none = none
whole (some gap) = some (whole_seconds (some gap))

module _ (lib : Library) (run : Run) where
  open lib use {
    numerals, texts, sha256, first_16, isoformat, dumps_texts, dumps_metrics, dumps_evidence,
  }

  -- `_rule_version`, and `settings_fingerprint` of `services/settings.py`
  abbrev pub rule_version : String
  rule_version = first_16 (sha256 run.settings)

  -- `_detector_code_version`
  abbrev pub detector_code_version : String
  detector_code_version = first_16 (sha256 run.detector_source)

  -- `_case_key`
  abbrev pub case_key : (date : ℕ) → Visitor → String
  case_key d v =
      sha256
        (joined ("conversion_case|" ∷ isoformat d ∷ "|" ∷ v.ipaddress ∷ "|" ∷ v.useragent ∷ []))

  abbrev pub finding_key : (date : ℕ) → Visitor → String
  finding_key d v = sha256 (
      joined (
        "conversion|"
        ∷ isoformat d
        ∷ "|"
        ∷ v.ipaddress
        ∷ "|"
        ∷ v.useragent
        ∷ "|"
        ∷ rule_version
        ∷ []))

  -- `_search_text`
  abbrev pub search_text : List String → String
  search_text parts = spaced (map texts.lower (select_where is_present parts))

  -- `generation_id or f"recompute-{…}"`
  abbrev pub generation : String
  generation = elim run.generation_id [
    | none ↦ joined ("recompute-" ∷ run.fresh ∷ [])
    | some g ↦ if is_present g then g else joined ("recompute-" ∷ run.fresh ∷ [])
  ]

  abbrev pub finding_row :
      Reads → (date : ℕ) → (details : List Detail) → Prices → Finding → StoredFinding
  finding_row reads d details prices f =
      let v = visitor_of f.rollup in
      let damage = estimate_damage_snapshot f.rollup.conversion_count details prices in
      let formatted = map (format_reason numerals) f.reasons in
      let risk = calculate_risk_level f.reasons f.rollup.conversion_count true in
      let media_names = unique Detail.media_name details in
      let program_names = unique Detail.program_name details in
      let affiliate_names = unique Detail.affiliate_name details in
      record {
        finding_key = finding_key d v;
        case_key = some (case_key d v);
        date = d;
        ipaddress = v.ipaddress;
        useragent = v.useragent;
        ua_hash = sha256 v.useragent;
        media_ids_json = some (dumps_texts (unique Detail.media_id details));
        program_ids_json = some (dumps_texts (unique Detail.program_id details));
        media_names_json = some (dumps_texts media_names);
        program_names_json = some (dumps_texts program_names);
        affiliate_ids_json = some (dumps_texts (unique Detail.affiliate_id details));
        affiliate_names_json = some (dumps_texts affiliate_names);
        risk_level = level_text risk.level;
        risk_score = risk.score;
        reasons_json = dumps_texts (map (reason_text numerals) f.reasons);
        reasons_formatted_json = dumps_texts formatted;
        metrics_json = dumps_metrics f;
        total_conversions = f.rollup.conversion_count;
        media_count = f.rollup.media_count;
        program_count = f.rollup.program_count;
        min_click_to_conv_seconds = whole f.min_click_to_conv_seconds;
        max_click_to_conv_seconds = whole f.max_click_to_conv_seconds;
        first_time = f.rollup.first_conversion_time;
        last_time = f.rollup.last_conversion_time;
        rule_version = rule_version;
        computed_at = run.computed_at;
        computed_by_job_id = run.computed_by_job_id;
        settings_updated_at_snapshot = run.settings_updated_at;
        source_click_watermark = reads.click_watermark d;
        source_conversion_watermark = reads.conversion_watermark d;
        estimated_damage_yen = some damage.estimated_damage;
        damage_unit_price_source = some (source_text damage.unit_price_source);
        damage_evidence_json = some (dumps_evidence damage.evidence);
        generation_id = some generation;
        is_current = true;
        search_text = search_text (
            v.ipaddress ∷ v.useragent ∷ media_names
            ++ program_names
            ++ affiliate_names
            ++ formatted);
      }

  -- `conversion_findings`, of a date
  abbrev pub findings_on : Reads → (date : ℕ) → List Finding
  findings_on reads d = find_for_date texts run.rules (reads.queries d)

  -- The program ids of all details, for the query of the prices.
  abbrev pub program_ids : (Visitor → List Detail) → List Visitor → List String
  program_ids details [] = []
  program_ids details (v ∷ vs) =
      select_where is_present (texts_of Detail.program_id (details v)) ++ program_ids details vs

  -- `conversion_rows`
  abbrev pub rows_on : Reads → (date : ℕ) → List StoredFinding
  rows_on reads d =
      let found = findings_on reads d in
      let vs = map (λ (f : Finding). visitor_of f.rollup) found in
      let details = reads.details d vs in
      let prices = reads.unit_prices d (program_ids details vs) in
      map (λ f. finding_row reads d (details (visitor_of f.rollup)) prices f) found

  abbrev pub metadata_on : Reads → (date : ℕ) → (row_count : ℕ) → Generation
  metadata_on reads d row_count = record {
    id = joined ("fg-" ∷ run.fresh_row d ∷ []);
    generation_id = generation;
    finding_type = "conversion";
    target_date = d;
    computed_by_job_id = run.computed_by_job_id;
    settings_version_id = run.settings_version_id;
    settings_fingerprint = rule_version;
    detector_code_version = detector_code_version;
    source_click_watermark = reads.click_watermark d;
    source_conversion_watermark = reads.conversion_watermark d;
    row_count = row_count;
    is_current = true;
    created_at = run.computed_at;
  }

  -- One round of the loop: what it stores, and the count that it returns.
  unfoldable pub recompute_date : Reads → (date : ℕ) → Cases → ℕ × Cases
  recompute_date reads d c =
      let rows = rows_on reads d in
      (length rows, replace_conversion_findings d rows (metadata_on reads d (length rows)) c)

  abbrev pub recompute_loop : Reads → List ℕ → Cases → List (String × ℕ) × Cases
  recompute_loop reads [] c = ([], c)
  recompute_loop reads (d ∷ ds) c =
      let (count, after) = recompute_date reads d c in
      let (results, last) = recompute_loop reads ds after in ((isoformat d, count) ∷ results, last)

  -- `sorted(set(target_dates))`
  abbrev pub sorted_dates : List ℕ → List ℕ
  sorted_dates [] = []
  sorted_dates (d ∷ ds) = add_date d (sorted_dates ds)

  -- `recompute_findings_for_dates`; what the repository's queries return does not depend on the findings.
  abbrev pub recompute_findings_for_dates : Reads → List ℕ → Cases → List (String × ℕ) × Cases
  recompute_findings_for_dates reads dates c = recompute_loop reads (sorted_dates dates) c
