-- ===== src/Console/Alerts.antt =====
-- `list_alerts` of `services/console.py` and the queries that it makes: which findings are listed, in which
-- order, and on which page. The dates of a request are parsed before.
use fraudhunter.Common.{
  ℕ, zero, suc, ◌+◌, ◌-◌, ◌*◌, min, String, Bool, true, false, ◌&&◌, ◌||◌, Option, none, some, List,
  str_eq, leb, ltb, if◌then◌else◌, get_or, length, take, drop, count_where, select_where, order_by,
}
use fraudhunter.Common.Int.{ℤ, pos, negsuc}
use fraudhunter.Cases.Tables.{
  StoredFinding, case_key_of, ReviewStatus, unhandled, investigating, confirmed_fraud, white, Cases,
}
use fraudhunter.Cases.Store.{is_present}
use fraudhunter.Cases.Reviews.{status_of}

-- What Python and PostgreSQL do with texts: `str.strip`, `str.lower` and `LOWER`, `text LIKE '%part%'`, and
-- the order of keys.
pub record Searching : Type 0 where
  pub strip : String → String
  pub lower : String → String
  pub like : (text part : String) → Bool
  pub key_before : String → String → Bool

abbrev pub review_status_text : ReviewStatus → String
review_status_text unhandled = "unhandled"
review_status_text investigating = "investigating"
review_status_text confirmed_fraud = "confirmed_fraud"
review_status_text white = "white"

-- `COALESCE(review_state.review_status, 'unhandled')`, joined on the case key
abbrev pub review_status_of : Cases → StoredFinding → ReviewStatus
review_status_of c f = get_or (status_of (case_key_of f) c.review_states) unhandled

pub record Filters : Type 0 where
  pub start_date : Option ℕ
  pub end_date : Option ℕ
  pub risk_level : Option String
  pub search : Option String
  pub status : Option String

-- `_resolve_alert_window`: one date alone is both ends.
abbrev pub resolve_alert_window : Option ℕ → Option ℕ → Option ℕ × Option ℕ
resolve_alert_window none none = (none, none)
resolve_alert_window (some start) none = (some start, some start)
resolve_alert_window none (some last) = (some last, some last)
resolve_alert_window (some start) (some last) = (some start, some last)

-- The filters with the window that they ask for.
abbrev pub windowed : Filters → Filters
windowed filters =
    let (start, last) = resolve_alert_window filters.start_date filters.end_date in
    record filters { start_date = start; end_date = last }

-- `if value and test(value)`
abbrev pub if_given : Option String → (String → Bool) → Bool
if_given none test = true
if_given (some s) test = if is_present s then test s else true

-- `x DESC, …` and `x ASC, …`
abbrev pub descending : ℕ → ℕ → Bool → Bool
descending x y rest = if ltb y x then true else if ltb x y then false else rest

abbrev pub ascending : ℕ → ℕ → Bool → Bool
ascending x y rest = descending y x rest

-- `max(DEFAULT_ALERT_PAGE, int(page or DEFAULT_ALERT_PAGE))`
abbrev pub resolve_page : ℤ → ℕ
resolve_page (pos zero) = 1
resolve_page (pos (suc n)) = suc n
resolve_page (negsuc n) = 1

-- `min(MAX_ALERT_PAGE_SIZE, max(1, int(page_size or DEFAULT_ALERT_PAGE_SIZE)))`
abbrev pub resolve_page_size : ℤ → ℕ
resolve_page_size (pos zero) = 50
resolve_page_size (pos (suc n)) = min 200 (suc n)
resolve_page_size (negsuc n) = 1

pub record Listing : Type 0 where
  pub unhandled_count : ℕ
  pub investigating_count : ℕ
  pub confirmed_fraud_count : ℕ
  pub white_count : ℕ
  pub items : List StoredFinding
  pub total : ℕ
  pub page : ℕ
  pub page_size : ℕ
  pub has_next : Bool

module _ (s : Searching) where
  -- The conditions of `_build_alert_conditions`, without that on the status.
  abbrev pub is_listed : Filters → StoredFinding → Bool
  is_listed filters f =
      f.is_current
      && (elim filters.start_date [ none ↦ true | some d ↦ leb d f.date ])
      && (elim filters.end_date [ none ↦ true | some d ↦ leb f.date d ])
      && if_given filters.risk_level (λ level.
        if is_present (s.strip level) then str_eq f.risk_level (s.strip level) else true)
      && if_given filters.search (λ part.
        let wanted = s.lower (s.strip part) in
        if is_present (s.strip part)
        then s.like (s.lower f.search_text) wanted
          || s.like (s.lower f.ipaddress) wanted
          || s.like (s.lower f.useragent) wanted
        else true)

  -- `if status and status != "all"`
  abbrev pub has_status : Cases → Option String → StoredFinding → Bool
  has_status c status f = if_given status (λ wanted.
      if str_eq wanted "all"
      then true
      else str_eq (review_status_text (review_status_of c f)) wanted)

  -- The conditions together.
  abbrev pub is_selected : Cases → Filters → StoredFinding → Bool
  is_selected c filters f = is_listed filters f && has_status c filters.status f

  -- `ORDER BY`, by the name of the sort; another name is `risk_desc`.
  abbrev pub stands_before : (sort : String) → StoredFinding → StoredFinding → Bool
  stands_before sort f g =
      let by_key = s.key_before f.finding_key g.finding_key in
      let by_time = descending f.computed_at g.computed_at by_key in
      let by_risk = descending f.risk_score g.risk_score by_time in
      let damage = λ (h : StoredFinding). get_or h.estimated_damage_yen 0 in
      if str_eq sort "risk_asc"
      then ascending f.risk_score g.risk_score by_time
      else if str_eq sort "damage_desc"
      then descending (damage f) (damage g) by_risk
      else if str_eq sort "damage_asc"
      then ascending (damage f) (damage g) by_risk
      else if str_eq sort "detected_desc"
      then descending f.computed_at g.computed_at (descending f.risk_score g.risk_score by_key)
      else if str_eq sort "detected_asc"
      then ascending f.computed_at g.computed_at (descending f.risk_score g.risk_score by_key)
      else by_risk

  -- `_fetch_alert_rows`, without a limit and with one
  unfoldable pub fetch_alert_rows : Cases → Filters → (sort : String) → List StoredFinding
  fetch_alert_rows c filters sort =
      order_by (stands_before sort) (select_where (is_selected c filters) c.findings)

  abbrev pub fetch_alert_page :
      Cases → Filters → (sort : String) (limit offset : ℕ) → List StoredFinding
  fetch_alert_page c filters sort limit offset =
      take limit (drop offset (fetch_alert_rows c filters sort))

  -- `_count_alert_rows`
  abbrev pub count_alert_rows : Cases → Filters → ℕ
  count_alert_rows c filters = count_where (is_selected c filters) c.findings

  -- `_fetch_alert_status_counts`, which leaves out the filter on the status
  abbrev pub fetch_alert_status_count : Cases → Filters → ReviewStatus → ℕ
  fetch_alert_status_count c filters status =
      count_where
        (λ f.
          is_listed filters f
          && str_eq (review_status_text (review_status_of c f)) (review_status_text status))
        c.findings

  -- `list_alerts`, with the rows of the items
  unfoldable pub list_alerts : Cases → Filters → (sort : String) (page page_size : ℤ) → Listing
  list_alerts c filters sort page page_size =
      let resolved = windowed filters in
      let size = resolve_page_size page_size in
      let offset = (resolve_page page - 1) * size in
      let items = fetch_alert_page c resolved sort size offset in
      let total = count_alert_rows c resolved in
      record {
        unhandled_count = fetch_alert_status_count c resolved unhandled;
        investigating_count = fetch_alert_status_count c resolved investigating;
        confirmed_fraud_count = fetch_alert_status_count c resolved confirmed_fraud;
        white_count = fetch_alert_status_count c resolved white;
        items = items;
        total = total;
        page = resolve_page page;
        page_size = size;
        has_next = ltb (offset + length items) total;
      }
