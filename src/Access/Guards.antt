-- ===== src/Access/Guards.antt =====
-- `runtime_guards.py`: the modes of the process, and the check of them at its start.
use fraudhunter.Common.{
  String, Bool, true, false, not, ◌&&◌, none, some, List, [], ◌∷◌, ◌++◌, str_eq, exists_where,
  if◌then◌else◌, get_or,
}
use fraudhunter.Common.Result.{Result, ok, err, runtime_error, ◌>>=◌}
use fraudhunter.Settings.Env.{TextOps, Env, is_truth_word}

-- `text in {…}`
abbrev pub is_one_of : List String → String → Bool
is_one_of words s = exists_where (str_eq s) words

abbrev pub production_envs : List String
production_envs = "prod" ∷ "production" ∷ []

abbrev pub local_envs : List String
local_envs = "dev" ∷ "development" ∷ "local" ∷ "test" ∷ []

-- One entry of `selected`.
abbrev pub mode_if : Bool → String → List String
mode_if enabled mode = if enabled then mode ∷ [] else []

-- What `read_access_mode` makes of the modes that are selected.
abbrev pub mode_of : (is_local : Bool) (selected : List String) → Result String
mode_of is_local [] = ok (if is_local then "local" else "unset")
mode_of is_local (mode ∷ []) = ok mode
mode_of is_local (mode ∷ other ∷ modes) = err (
    runtime_error
      "Choose only one read-access mode: FC_REQUIRE_READ_AUTH, FC_EXTERNAL_READ_PROTECTION, or FC_ALLOW_PUBLIC_READ.")

-- An `if condition: raise RuntimeError(message)`.
abbrev pub raise_if : Bool → (message : String) → Result (Unit {0})
raise_if condition message = if condition then err (runtime_error message) else ok tt

module _ (ops : TextOps) (env : Env) where
  open ops use {strip, lower}

  -- `current_env`
  abbrev pub current_env : String
  current_env = lower (strip (get_or (env "FC_ENV") "production"))

  -- `is_production_env`
  abbrev pub is_production_env : Bool
  is_production_env = is_one_of production_envs current_env

  -- `_env_truthy`
  abbrev pub env_truthy : (name : String) → Bool
  env_truthy name = is_truth_word (lower (strip (get_or (env name) "")))

  -- `read_access_mode`
  unfoldable pub read_access_mode : Result String
  read_access_mode = mode_of (is_one_of local_envs current_env) (
      mode_if (env_truthy "FC_REQUIRE_READ_AUTH") "read_auth"
      ++ mode_if (env_truthy "FC_EXTERNAL_READ_PROTECTION") "external_protection"
      ++ mode_if (env_truthy "FC_ALLOW_PUBLIC_READ") "public")

  -- `should_enable_docs`
  unfoldable pub should_enable_docs : Bool
  should_enable_docs = elim (env "FC_ENABLE_API_DOCS") [
    | none ↦ not is_production_env
    | some explicit ↦ is_truth_word (lower (strip explicit))
  ]

  -- The last check of `validate_runtime_guards`, which reads the mode only in production.
  abbrev pub check_mode : (is_production : Bool) → Result (Unit {0})
  check_mode false = ok tt
  check_mode true = do
    mode ← read_access_mode
    raise_if (str_eq mode "unset")
        "Production must declare a read-access posture. Set exactly one of FC_REQUIRE_READ_AUTH=true, FC_EXTERNAL_READ_PROTECTION=true, or FC_ALLOW_PUBLIC_READ=true."

  -- `validate_runtime_guards`, less its warning
  unfoldable pub validate_runtime_guards : Result (Unit {0})
  unfolding read_access_mode
  validate_runtime_guards = do
    admin ←
        raise_if (is_production_env && env_truthy "FC_ALLOW_INSECURE_ADMIN")
          "FC_ALLOW_INSECURE_ADMIN must not be enabled in production."
    acs ←
        raise_if (is_production_env && env_truthy "ACS_ALLOW_INSECURE")
          "ACS_ALLOW_INSECURE must not be enabled in production."
    check_mode is_production_env
