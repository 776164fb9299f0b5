-- ===== src/Access/Tests.antt =====
-- Access at concrete inputs.
use fraudhunter.Common.{String, false, ◌||◌, none, some, ◌≡◌, refl, str_eq, if◌then◌else◌}
use fraudhunter.Common.Int.{pos}
use fraudhunter.Common.Result.{ok}
use fraudhunter.Settings.Env.{TextOps, Env, or_other}
use fraudhunter.Access.Guards.{validate_runtime_guards}
use fraudhunter.Access.Decisions.{
  Secrets, grants, extract_bearer, resolve_protected_access_context, resolve_read_access_context,
  resolve_console_access_context,
}
use fraudhunter.Access.Laws.{IsDigest, Decides, ReadDecides, protected_lem, read_lem}
use fraudhunter.Access.Console.{ConsoleDecides, console_lem}
use fraudhunter.Access.Production.{Guarded, production_protected}

abbrev ops : TextOps
ops = record {
  strip = λ s. s;
  lower = λ s. s;
  lstrip_slash = λ s. s;
  rstrip_slash = λ s. s;
  starts_with = λ p s. str_eq s "https://acs" || str_eq s "bearer key";
  split_colon = λ s. none;
  parse_int = λ s. some (pos 100);
}

abbrev secrets : Secrets
secrets = record {
  ops = ops;
  after_space = λ s. "key";
  compare_digest = λ a b. some (str_eq a b);
  sign = λ secret user email request. "signature";
}

secrets-IsDigest : IsDigest secrets
secrets-IsDigest = record { honest = λ a b r e. cc e }

-- A process in production, where reads need a key.
abbrev env : Env
env name =
    if str_eq name "FC_ADMIN_API_KEY"
    then some "key"
    else if str_eq name "FC_REQUIRE_READ_AUTH"
    then some "true"
    else if str_eq name "FC_INTERNAL_PROXY_SECRET"
    then some "secret"
    else if str_eq name "ACS_BASE_URL"
    then some "https://acs"
    else if str_eq name "ACS_ACCESS_KEY"
    then some "a"
    else if str_eq name "ACS_SECRET_KEY"
    then some "s"
    else none

is_valid : validate_runtime_guards ops env ≡ ok tt
unfolding validate_runtime_guards
is_valid = refl

lets_in :
    resolve_protected_access_context secrets env none (some "bearer key")
    ≡ grants (record { token_source = "bearer" })
unfolding resolve_protected_access_context
lets_in = refl

production_protected_example :
    Guarded ops env
    × ((k : String) × (some "key" ≡ some k)
        × (str_eq k "" ≡ false)
        × (or_other none (extract_bearer secrets env (some "bearer key")) ≡ some k))
production_protected_example =
    production_protected secrets env secrets-IsDigest tt none (some "bearer key")
      (record { token_source = "bearer" }) refl is_valid lets_in

protected_lem_example :
    Decides secrets "key"
      (or_other (some "guess") (extract_bearer secrets env none))
      (resolve_protected_access_context secrets env (some "guess") none)
protected_lem_example =
    protected_lem secrets env secrets-IsDigest "key" (some "guess") none refl refl

read_lem_example :
    ReadDecides none
      (some "key")
      (or_other (some "key") (or_other none (extract_bearer secrets env none)))
      (resolve_read_access_context secrets env (some "key") none none)
read_lem_example = read_lem secrets env secrets-IsDigest (some "key") none none refl

console_lem_example :
    ConsoleDecides secrets "secret" "u" "e" "r" "signature" (
      resolve_console_access_context secrets env
        (some "u")
        (some "e")
        (some "r")
        (some "signature"))
console_lem_example =
    console_lem secrets env secrets-IsDigest "secret" (some "u") (some "e") (some "r")
      (some "signature") refl refl
