-- ===== src/Settings/Tests.antt =====
-- The settings at concrete inputs.
use fraudhunter.Common.{◌<◌, ◌≡◌, ◌⊎◌, refl, String, true, false, none, some, str_eq, if◌then◌else◌}
use fraudhunter.Common.Int.{pos}
use fraudhunter.Common.Result.{ok}
use fraudhunter.Settings.Env.{TextOps, Env, env_bool}
use fraudhunter.Settings.Acs.{AcsSettings, is_safe_url, no_arguments, resolve_acs_settings}
use fraudhunter.Settings.AcsLaws.{resolve_acs_settings_lem}

abbrev ops : TextOps
ops = record {
  strip = λ s. s;
  lower = λ s. s;
  lstrip_slash = λ s. s;
  rstrip_slash = λ s. s;
  starts_with = λ p s. str_eq s "https://acs";
  split_colon = λ s. some ("access", "secret");
  parse_int = λ s. some (pos 100);
}

-- The keys come from the token.
abbrev env : Env
env name =
    if str_eq name "ACS_BASE_URL"
    then some "https://acs"
    else if str_eq name "ACS_TOKEN"
    then some "access:secret"
    else none

abbrev acs : AcsSettings
acs = record {
  base_url = "https://acs";
  access_key = "access";
  secret_key = "secret";
  page_size = 500;
  log_endpoint = "track_log/search";
}

resolves : resolve_acs_settings ops env no_arguments ≡ ok acs
unfolding resolve_acs_settings
resolves = refl

resolve_acs_settings_lem_example :
    (0 < 500)
    × (str_eq "access" "" ≡ false)
    × (str_eq "secret" "" ≡ false)
    × ((url : String) × ("https://acs" ≡ url)
        × (ops.starts_with "http" url ≡ true)
        × ((is_safe_url ops url ≡ true) ⊎ (env_bool ops env "ACS_ALLOW_INSECURE" false ≡ true)))
resolve_acs_settings_lem_example = resolve_acs_settings_lem ops env no_arguments acs resolves
