-- ===== src/Settings/Acs.antt =====
-- `resolve_acs_settings` of `config.py`: where the ACS is, the keys for it, and the size of a page.
use fraudhunter.Common.{
  ℕ, zero, suc, String, Bool, false, not, ◌&&◌, ◌||◌, Option, none, some, if◌then◌else◌,
}
use fraudhunter.Common.Int.{ℤ, pos, negsuc}
use fraudhunter.Common.Result.{Result, ok, err, value_error, ◌>>=◌}
use fraudhunter.Settings.Env.{TextOps, Env, is_set, or_other, require, env_int, env_bool}

pub record AcsSettings : Type 0 where
  pub base_url : String
  pub access_key : String
  pub secret_key : String
  pub page_size : ℕ
  pub log_endpoint : String

-- The arguments of the call; the jobs give none.
pub record AcsArguments : Type 0 where
  pub base_url : Option String
  pub access_key : Option String
  pub secret_key : Option String
  pub page_size : Option ℤ
  pub log_endpoint : Option String

abbrev pub no_arguments : AcsArguments
no_arguments = record {
  base_url = none;
  access_key = none;
  secret_key = none;
  page_size = none;
  log_endpoint = none;
}

abbrev pub default_page_size : ℤ
default_page_size = pos 500

-- `if resolved_page_size <= 0: raise`
abbrev pub positive : ℤ → Result ℕ
positive (pos zero) = err (value_error "Page size must be a positive integer.")
positive (pos (suc n)) = ok (suc n)
positive (negsuc n) = err (value_error "Page size must be a positive integer.")

module _ (ops : TextOps) where
  -- `_parse_token`
  abbrev pub parse_token : String → Result (String × String)
  parse_token token = elim (ops.split_colon (ops.strip token)) [
    | none ↦ err (value_error "ACS_TOKEN must be in the form 'access_key:secret_key'.")
    | some keys ↦ ok keys
  ]

  -- The two keys, with those of the token for what is missing.
  abbrev pub keys_from :
      (access secret token : Option String) → Result (Option String × Option String)
  keys_from access secret none = ok (access, secret)
  keys_from access secret (some token) =
      if (not (is_set access) || not (is_set secret)) && is_set (some token)
      then (do (a, s) ← parse_token token; ok (or_other access (some a), or_other secret (some s)))
      else ok (access, secret)

  -- The three tests of the start of the address. They do not end the host: `http://localhost.example` passes.
  abbrev pub is_safe_url : String → Bool
  is_safe_url url =
      ops.starts_with "https://" url
      || ops.starts_with "http://localhost" url
      || ops.starts_with "http://127.0.0.1" url

  abbrev pub check_url : (allow_insecure : Bool) (url : String) → Result (Unit {0})
  check_url allow_insecure url =
      if not (ops.starts_with "http" url)
      then err (value_error "ACS_BASE_URL must be a full URL (e.g. https://acs.example.com).")
      else if not (is_safe_url url) && not allow_insecure
      then err (value_error "ACS_BASE_URL must use https unless ACS_ALLOW_INSECURE=true.")
      else ok tt

  abbrev pub page_size_of : Env → Option ℤ → Result ℤ
  page_size_of env none = env_int ops env "FRAUD_PAGE_SIZE" default_page_size
  page_size_of env (some n) = ok n

  -- `log_endpoint or os.getenv("ACS_LOG_ENDPOINT") or DEFAULT_LOG_ENDPOINT`
  abbrev pub endpoint_of : Option String → String
  endpoint_of o = elim o [
    | none ↦ "track_log/search"
    | some s ↦ if is_set (some s) then s else "track_log/search"
  ]

  -- `resolve_acs_settings`
  unfoldable pub resolve_acs_settings : Env → AcsArguments → Result AcsSettings
  resolve_acs_settings env args = do
    url ← require ops (or_other args.base_url (env "ACS_BASE_URL")) "ACS_BASE_URL or --base-url"
    checked ← check_url (env_bool ops env "ACS_ALLOW_INSECURE" false) url
    (a, s) ←
        keys_from (or_other args.access_key (env "ACS_ACCESS_KEY"))
          (or_other args.secret_key (env "ACS_SECRET_KEY")) (env "ACS_TOKEN")
    access ← require ops a "ACS_ACCESS_KEY or ACS_TOKEN or --access-key"
    secret ← require ops s "ACS_SECRET_KEY or ACS_TOKEN or --secret-key"
    size ← page_size_of env args.page_size
    page_size ← positive size
    ok (record {
      base_url = ops.rstrip_slash url;
      access_key = access;
      secret_key = secret;
      page_size = page_size;
      log_endpoint =
          ops.lstrip_slash (endpoint_of (or_other args.log_endpoint (env "ACS_LOG_ENDPOINT")));
    })
