-- ===== src/Settings/Values.antt =====
-- The dict of the settings of the rules, and `_load_settings_from_env` of `services/settings.py`.
use fraudhunter.Common.{String, Bool, false, Option, List, [], ◌∷◌, ◌++◌, str_eq, last_where}
use mathlib.Core.Option
use fraudhunter.Common.Int.{ℤ, pos}
use fraudhunter.Common.Json.{Json}
use fraudhunter.Common.Result.{Result, ok, ◌>>=◌}
use fraudhunter.Settings.Env.{TextOps, Env, env_int, env_bool}

pub data Value : Type 0 where
  int : ℤ → Value
  bool : Bool → Value
  other : Json → Value

pub record Setting : Type 0 where
  pub key : String
  pub value : Value

-- A dict, as the assignments that made it: the last one to a key holds. `{**a, **b}` is `a ++ b`.
abbrev pub Settings : Type 0
Settings = List Setting

abbrev pub is_for : String → Setting → Bool
is_for key s = str_eq s.key key

-- `settings.get(key)`
abbrev pub value_of : String → Settings → Option Value
value_of key s = Option.map Setting.value (last_where (is_for key) s)

-- A key, its variable, and its default.
pub record IntSetting : Type 0 where
  pub key : String
  pub name : String
  pub default : ℤ

abbrev pub int_setting : (key name : String) (default : ℤ) → IntSetting
int_setting key name default = record { key = key; name = name; default = default }

-- The rules of the clicks and of the conversions.
abbrev pub rule_settings : List IntSetting
rule_settings =
    int_setting "click_threshold" "FRAUD_CLICK_THRESHOLD" (pos 50)
    ∷ int_setting "media_threshold" "FRAUD_MEDIA_THRESHOLD" (pos 3)
    ∷ int_setting "program_threshold" "FRAUD_PROGRAM_THRESHOLD" (pos 3)
    ∷ int_setting "burst_click_threshold" "FRAUD_BURST_CLICK_THRESHOLD" (pos 20)
    ∷ int_setting "burst_window_seconds" "FRAUD_BURST_WINDOW_SECONDS" (pos 600)
    ∷ int_setting "conversion_threshold" "FRAUD_CONVERSION_THRESHOLD" (pos 5)
    ∷ int_setting "conv_media_threshold" "FRAUD_CONV_MEDIA_THRESHOLD" (pos 2)
    ∷ int_setting "conv_program_threshold" "FRAUD_CONV_PROGRAM_THRESHOLD" (pos 2)
    ∷ int_setting "burst_conversion_threshold" "FRAUD_BURST_CONVERSION_THRESHOLD" (pos 3)
    ∷ int_setting "burst_conversion_window_seconds" "FRAUD_BURST_CONVERSION_WINDOW_SECONDS"
        (pos 1800)
    ∷ int_setting "min_click_to_conv_seconds" "FRAUD_MIN_CLICK_TO_CONV_SECONDS" (pos 5)
    ∷ int_setting "max_click_to_conv_seconds" "FRAUD_MAX_CLICK_TO_CONV_SECONDS" (pos 2_592_000)
    ∷ []

-- The further limits, which the detection does not read.
abbrev pub fraud_settings : List IntSetting
fraud_settings =
    int_setting "fraud_check_min_total" "FRAUD_CHECK_MIN_TOTAL" (pos 10)
    ∷ int_setting "fraud_check_invalid_rate" "FRAUD_CHECK_INVALID_RATE" (pos 30)
    ∷ int_setting "fraud_check_duplicate_plid_count" "FRAUD_CHECK_DUPLICATE_PLID_COUNT" (pos 3)
    ∷ int_setting "fraud_check_duplicate_plid_rate" "FRAUD_CHECK_DUPLICATE_PLID_RATE" (pos 10)
    ∷ int_setting "fraud_track_min_total" "FRAUD_TRACK_MIN_TOTAL" (pos 20)
    ∷ int_setting "fraud_track_auth_error_rate" "FRAUD_TRACK_AUTH_ERROR_RATE" (pos 5)
    ∷ int_setting "fraud_track_auth_ip_ua_rate" "FRAUD_TRACK_AUTH_IP_UA_RATE" (pos 50)
    ∷ int_setting "fraud_action_min_total" "FRAUD_ACTION_MIN_TOTAL" (pos 10)
    ∷ int_setting "fraud_action_short_gap_seconds" "FRAUD_ACTION_SHORT_GAP_SECONDS" (pos 5)
    ∷ int_setting "fraud_action_short_gap_count" "FRAUD_ACTION_SHORT_GAP_COUNT" (pos 3)
    ∷ int_setting "fraud_action_cancel_rate" "FRAUD_ACTION_CANCEL_RATE" (pos 30)
    ∷ int_setting "fraud_action_fixed_gap_min_count" "FRAUD_ACTION_FIXED_GAP_MIN_COUNT" (pos 3)
    ∷ int_setting "fraud_action_fixed_gap_max_unique" "FRAUD_ACTION_FIXED_GAP_MAX_UNIQUE" (pos 2)
    ∷ int_setting "fraud_spike_multiplier" "FRAUD_SPIKE_MULTIPLIER" (pos 3)
    ∷ int_setting "fraud_spike_lookback_days" "FRAUD_SPIKE_LOOKBACK_DAYS" (pos 7)
    ∷ []

module _ (ops : TextOps) (env : Env) where
  abbrev pub load_ints : List IntSetting → Result Settings
  load_ints [] = ok []
  load_ints (s ∷ ss) = do
    n ← env_int ops env s.name s.default
    rest ← load_ints ss
    ok (record { key = s.key; value = int n } ∷ rest)

  -- `_load_settings_from_env`
  unfoldable pub load_settings_from_env : Result Settings
  load_settings_from_env = do
    ints ← load_ints (rule_settings ++ fraud_settings)
    ok (
        ints
        ++ record {
          key = "browser_only";
          value = bool (env_bool ops env "FRAUD_BROWSER_ONLY" false);
        }
          ∷ record {
            key = "exclude_datacenter_ip";
            value = bool (env_bool ops env "FRAUD_EXCLUDE_DATACENTER_IP" false);
          }
          ∷ [])
