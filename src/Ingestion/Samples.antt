-- ===== src/Ingestion/Samples.antt =====
-- Logs for the tests of the ingestion.
use fraudhunter.Common.{ℕ, ◌+◌, String, Option, none, some, List, [], ◌∷◌}
use fraudhunter.Common.Time.{days, hours}
use fraudhunter.Ingestion.Logs.{ClickLog, ConversionLog, Logs}
use fraudhunter.Ingestion.Repository.{Environment}

abbrev pub env : Environment
env = record { uuid = λ n. "u"; raw_now = λ n. days 9 + n; daily_now = λ n. days 9 + n }

abbrev pub click : (id : String) (time : ℕ) (ip : String) → ClickLog
click id time ip = record {
  click_id = some id;
  click_time = time;
  media_id = "m";
  program_id = "p";
  ipaddress = ip;
  useragent = "ua";
  referrer = none;
  raw_payload = none;
}

abbrev pub conversion : (id : String) (time : ℕ) (ip : Option String) → ConversionLog
conversion id time ip = record {
  conversion_id = id;
  cid = some "c1";
  conversion_time = time;
  click_time = none;
  media_id = "m";
  program_id = "p";
  user_id = none;
  postback_ipaddress = none;
  postback_useragent = none;
  entry_ipaddress = ip;
  entry_useragent = some "ua";
  click_ipaddress = none;
  click_useragent = none;
  state = none;
  raw_payload = none;
}

-- Three clicks of day 3, two of them from one visitor, and one of day 4; the first occurs twice.
abbrev pub batch : List ClickLog
batch =
    click "c1" (days 3 + hours 1) "i"
    ∷ click "c2" (days 3 + hours 5) "i"
    ∷ click "c3" (days 3 + hours 2) "j"
    ∷ click "c1" (days 3 + hours 1) "i"
    ∷ click "c4" (days 4) "i"
    ∷ []

abbrev pub conversions : List ConversionLog
conversions =
    conversion "v1" (days 3 + hours 2) (some "i") ∷ conversion "v2" (days 3 + hours 3) none ∷ []

abbrev pub nothing : Logs
nothing = record { click_raw = []; click_daily = []; conversion_raw = []; conversion_daily = [] }
