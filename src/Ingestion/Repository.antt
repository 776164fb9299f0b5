-- ===== src/Ingestion/Repository.antt =====
-- `IngestionRepository` of `repositories/ingestion.py`: each statement and each operation, as a function
-- of the tables.
use fraudhunter.Common.{
  ℕ, suc, ◌+◌, String, Bool, not, ◌&&◌, Option, none, some, List, [], ◌∷◌, ◌++◌, ◌==◌, str_eq,
  if◌then◌else◌, get_or, min, max, update_where, delete_where, exists_where,
}
use fraudhunter.Common.Time.{date_of}
use fraudhunter.Ingestion.Logs.{
  ClickLog, ConversionLog, DailyKey, DailyRow, ClickRaw, ConversionRaw, Logs, has_text, same_key,
}

-- What `uuid4` and `now_local` answer to the call for the n-th entry of a batch.
pub record Environment : Type 0 where
  pub uuid : ℕ → String
  pub raw_now : ℕ → ℕ
  pub daily_now : ℕ → ℕ

abbrev pub has_key : DailyKey → DailyRow → Bool
has_key k row = same_key row.key k

-- `ON CONFLICT (date, media_id, program_id, ipaddress, useragent) DO UPDATE`
abbrev pub bumped : (time now : ℕ) → DailyRow → DailyRow
bumped time now row = record row {
  count = row.count + 1;
  first_time = min row.first_time time;
  last_time = max row.last_time time;
  updated_at = now;
}

abbrev pub first_row : DailyKey → (time now : ℕ) → DailyRow
first_row k time now = record {
  key = k;
  count = 1;
  first_time = time;
  last_time = time;
  created_at = now;
  updated_at = now;
}

-- The statement that `_upsert_click_aggregate` and `_upsert_conversion_aggregate` execute.
unfoldable pub upsert_daily : DailyKey → (time now : ℕ) → List DailyRow → List DailyRow
upsert_daily k time now rows =
    if exists_where (has_key k) rows
    then update_where (has_key k) (bumped time now) rows
    else rows ++ first_row k time now ∷ []

abbrev pub click_key : ClickLog → DailyKey
click_key click = record {
  date = date_of click.click_time;
  media_id = click.media_id;
  program_id = click.program_id;
  ipaddress = click.ipaddress;
  useragent = click.useragent;
}

-- `_upsert_click_aggregate`
abbrev pub upsert_click_aggregate : (now : ℕ) → ClickLog → List DailyRow → List DailyRow
upsert_click_aggregate now click = upsert_daily (click_key click) click.click_time now

-- `if conv.entry_ipaddress and conv.entry_useragent`, with the key of `_upsert_conversion_aggregate`
abbrev pub conversion_key : ConversionLog → Option DailyKey
conversion_key conv = elim conv.entry_ipaddress [
  | none ↦ none
  | some ip ↦ elim conv.entry_useragent [
    | none ↦ none
    | some ua ↦
        if not (str_eq ip "") && not (str_eq ua "")
        then some (record {
          date = date_of conv.conversion_time;
          media_id = conv.media_id;
          program_id = conv.program_id;
          ipaddress = ip;
          useragent = ua;
        })
        else none
  ]
]

-- The guard and the statement of `_upsert_conversion_aggregate`
abbrev pub upsert_known : Option DailyKey → (time now : ℕ) → List DailyRow → List DailyRow
upsert_known none time now rows = rows
upsert_known (some k) time now rows = upsert_daily k time now rows

-- `_upsert_conversion_aggregate`, under its guard
abbrev pub upsert_conversion_aggregate : (now : ℕ) → ConversionLog → List DailyRow → List DailyRow
upsert_conversion_aggregate now conv = upsert_known (conversion_key conv) conv.conversion_time now

-- `click.click_id or uuid.uuid4().hex`
abbrev pub raw_id : (uuid : String) → ClickLog → String
raw_id uuid click = if has_text click.click_id then get_or click.click_id uuid else uuid

abbrev pub click_row : (uuid : String) (now : ℕ) → ClickLog → ClickRaw
click_row uuid now click = record {
  id = raw_id uuid click;
  log = click;
  created_at = now;
  updated_at = now;
}

abbrev pub conversion_row : (now : ℕ) → ConversionLog → ConversionRaw
conversion_row now conv = record { log = conv; created_at = now; updated_at = now }

abbrev pub has_click_id : String → ClickRaw → Bool
has_click_id i row = str_eq row.id i

abbrev pub has_conversion_id : String → ConversionRaw → Bool
has_conversion_id i row = str_eq row.log.conversion_id i

-- `_insert_click_raw`: `ON CONFLICT (id) DO UPDATE` sets every other column.
unfoldable pub insert_click_raw : ClickRaw → List ClickRaw → List ClickRaw
insert_click_raw row rows =
    if exists_where (has_click_id row.id) rows
    then update_where (has_click_id row.id) (λ old. row) rows
    else rows ++ row ∷ []

-- `_insert_conversion_raw`
unfoldable pub insert_conversion_raw : ConversionRaw → List ConversionRaw → List ConversionRaw
insert_conversion_raw row rows =
    if exists_where (has_conversion_id row.log.conversion_id) rows
    then update_where (has_conversion_id row.log.conversion_id) (λ old. row) rows
    else rows ++ row ∷ []

abbrev pub on_date : ℕ → DailyRow → Bool
on_date d row = row.key.date == d

abbrev pub clicked_on : ℕ → ClickRaw → Bool
clicked_on d row = date_of row.log.click_time == d

abbrev pub converted_on : ℕ → ConversionRaw → Bool
converted_on d row = date_of row.log.conversion_time == d

-- `clear_date`
unfoldable pub clear_date : (target_date : ℕ) (store_raw : Bool) → Logs → Logs
clear_date d store_raw db = record db {
  click_daily = delete_where (on_date d) db.click_daily;
  click_raw = if store_raw then delete_where (clicked_on d) db.click_raw else db.click_raw;
}

-- `_clear_conversions_date`
abbrev pub clear_conversions_date : (target_date : ℕ) → Logs → Logs
clear_conversions_date d db = record db {
  conversion_raw = delete_where (converted_on d) db.conversion_raw;
  conversion_daily = delete_where (on_date d) db.conversion_daily;
}

module _ (env : Environment) where
  -- The body of the loop of `ingest_clicks`, for a click of the date
  abbrev pub ingest_click : (store_raw : Bool) (n : ℕ) → ClickLog → Logs → Logs
  ingest_click store_raw n click db = record db {
    click_raw =
        if store_raw
        then insert_click_raw (click_row (env.uuid n) (env.raw_now n) click) db.click_raw
        else db.click_raw;
    click_daily = upsert_click_aggregate (env.daily_now n) click db.click_daily;
  }

  -- The loop of `ingest_clicks`, from the n-th click, with the count so far
  unfoldable pub ingest_clicks_loop :
      (target_date : ℕ) (store_raw : Bool) (n count : ℕ) → List ClickLog → Logs → ℕ × Logs
  ingest_clicks_loop d store_raw n count [] db = (count, db)
  ingest_clicks_loop d store_raw n count (click ∷ clicks) db =
      let skipped = ingest_clicks_loop d store_raw (suc n) count clicks db in
      let ingested =
        ingest_clicks_loop d store_raw (suc n) (count + 1) clicks
          (ingest_click store_raw n click db) in
      if date_of click.click_time == d then ingested else skipped

  -- `ingest_clicks`
  unfoldable pub ingest_clicks :
      (target_date : ℕ) (store_raw : Bool) → List ClickLog → Logs → ℕ × Logs
  unfolding clear_date ingest_clicks_loop
  ingest_clicks d store_raw clicks db =
      ingest_clicks_loop d store_raw 0 0 clicks (clear_date d store_raw db)

  abbrev pub ingest_conversion : (n : ℕ) → ConversionLog → Logs → Logs
  ingest_conversion n conv db = record db {
    conversion_raw = insert_conversion_raw (conversion_row (env.raw_now n) conv) db.conversion_raw;
    conversion_daily = upsert_conversion_aggregate (env.daily_now n) conv db.conversion_daily;
  }

  unfoldable pub ingest_conversions_loop :
      (target_date n count : ℕ) → List ConversionLog → Logs → ℕ × Logs
  ingest_conversions_loop d n count [] db = (count, db)
  ingest_conversions_loop d n count (conv ∷ convs) db =
      let skipped = ingest_conversions_loop d (suc n) count convs db in
      let ingested =
        ingest_conversions_loop d (suc n) (count + 1) convs (ingest_conversion n conv db) in
      if date_of conv.conversion_time == d then ingested else skipped

  -- `ingest_conversions`
  unfoldable pub ingest_conversions : (target_date : ℕ) → List ConversionLog → Logs → ℕ × Logs
  unfolding ingest_conversions_loop
  ingest_conversions d convs db = ingest_conversions_loop d 0 0 convs (clear_conversions_date d db)
