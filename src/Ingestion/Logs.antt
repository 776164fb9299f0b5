-- ===== src/Ingestion/Logs.antt =====
-- `models.py` and the tables of the ingestion in `db/models.py`: the log entries that the ACS returns, and
-- the rows that are stored of them.
use fraudhunter.Common.{ℕ, String, Bool, false, ◌&&◌, not, Option, none, some, List, ◌==◌, str_eq}
use fraudhunter.Common.Json.{Json}

pub record ClickLog : Type 0 where
  pub click_id : Option String
  pub click_time : ℕ
  pub media_id : String
  pub program_id : String
  pub ipaddress : String
  pub useragent : String
  pub referrer : Option String
  pub raw_payload : Option Json

pub record ConversionLog : Type 0 where
  pub conversion_id : String
  pub cid : Option String
  pub conversion_time : ℕ
  pub click_time : Option ℕ
  pub media_id : String
  pub program_id : String
  pub user_id : Option String
  pub postback_ipaddress : Option String
  pub postback_useragent : Option String
  pub entry_ipaddress : Option String
  pub entry_useragent : Option String
  pub click_ipaddress : Option String
  pub click_useragent : Option String
  pub state : Option String
  pub raw_payload : Option Json

pub record ConversionWithClickInfo : Type 0 where
  pub conversion : ConversionLog
  pub click_ipaddress : String
  pub click_useragent : String
  pub click_time : ℕ

-- The primary key of `click_ipua_daily` and of `conversion_ipua_daily`.
pub record DailyKey : Type 0 where
  pub date : ℕ
  pub media_id : String
  pub program_id : String
  pub ipaddress : String
  pub useragent : String

-- A row of either table; `count` is its `click_count` or `conversion_count`.
pub record DailyRow : Type 0 where
  pub key : DailyKey
  pub count : ℕ
  pub first_time : ℕ
  pub last_time : ℕ
  pub created_at : ℕ
  pub updated_at : ℕ

-- A row of `click_raw`: what the statements insert of a click, under its id.
pub record ClickRaw : Type 0 where
  pub id : String
  pub log : ClickLog
  pub created_at : ℕ
  pub updated_at : ℕ

-- A row of `conversion_raw`, whose id is the `conversion_id`.
pub record ConversionRaw : Type 0 where
  pub log : ConversionLog
  pub created_at : ℕ
  pub updated_at : ℕ

-- The tables of the ingestion, in a migrated database, which has all four of them.
pub record Logs : Type 0 where
  pub click_raw : List ClickRaw
  pub click_daily : List DailyRow
  pub conversion_raw : List ConversionRaw
  pub conversion_daily : List DailyRow

-- Python's truth of an optional text.
abbrev pub has_text : Option String → Bool
has_text none = false
has_text (some s) = not (str_eq s "")

unfoldable pub same_key : DailyKey → DailyKey → Bool
same_key a b =
    a.date == b.date
    && str_eq a.media_id b.media_id
    && str_eq a.program_id b.program_id
    && str_eq a.ipaddress b.ipaddress
    && str_eq a.useragent b.useragent
