-- ===== src/Access/Decisions.antt =====
-- `api_dependencies.py`: the headers of a request, and the access that they give.
use fraudhunter.Common.{
  ℕ, String, Bool, true, false, not, ◌&&◌, ◌||◌, Option, none, some, [], ◌∷◌, str_eq, if◌then◌else◌,
  get_or,
}
use fraudhunter.Settings.Env.{TextOps, Env, is_set, or_other}
use fraudhunter.Access.Guards.{is_one_of, current_env, env_truthy}

pub record AccessContext : Type 0 where
  pub token_source : String

pub record ConsoleAccessContext : Type 0 where
  pub user_id : String
  pub email : String
  pub request_id : String
  pub token_source : String

-- What a dependency of FastAPI does to a request: it lets it through, refuses it by an `HTTPException`, or
-- raises the `TypeError` of `hmac.compare_digest` on a text that is not ASCII.
pub data Answer (A : Type 0) : Type 0 where
  grants : A → Answer A
  refuses : (status_code : ℕ) (detail : String) → Answer A
  raises : Answer A

-- What Python's library computes.
pub record Secrets : Type 0 where
  pub ops : TextOps
  -- `text.split(" ", 1)[1]`
  pub after_space : String → String
  -- `hmac.compare_digest`, none where it raises
  pub compare_digest : String → String → Option Bool
  -- `hmac.new(secret, f"{user_id}\n{email}\n{request_id}", "sha256").hexdigest()`
  pub sign : (secret user_id email request_id : String) → String

-- The rest of a function, after `if not matched: raise HTTPException(401)`.
abbrev pub when_matched : {A : Type 0} → Option Bool → A → Answer A
when_matched none a = raises
when_matched (some false) a = refuses 401 "Unauthorized"
when_matched (some true) a = grants a

-- After `matched_read` and `matched_protected`: the source, where one of them holds.
abbrev pub either_matched :
    (read protected : Option Bool) → (source : Bool → String) → Answer AccessContext
either_matched none protected source = raises
either_matched (some r) none source = raises
either_matched (some r) (some p) source =
    if not r && not p
    then refuses 401 "Unauthorized"
    else grants (record { token_source = source r })

module _ (lib : Secrets) (env : Env) where
  open lib use {ops, after_space, compare_digest, sign}
  open ops use {strip, lower, starts_with}

  -- `_matches_secret`
  abbrev pub matches_secret : (token expected : Option String) → Option Bool
  matches_secret none expected = some false
  matches_secret (some t) none = some false
  matches_secret (some t) (some e) = compare_digest t e

  -- `text or None`
  abbrev pub text_or_none : String → Option String
  text_or_none s = if str_eq s "" then none else some s

  -- `extract_bearer`
  unfoldable pub extract_bearer : (authorization : Option String) → Option String
  extract_bearer none = none
  extract_bearer (some a) =
      if not (str_eq a "") && starts_with "bearer " (lower a)
      then text_or_none (strip (after_space a))
      else none

  -- `"x_api_key" if x_api_key else "bearer"`
  abbrev pub token_source_of : (x_api_key : Option String) → String
  token_source_of x_api_key = if is_set x_api_key then "x_api_key" else "bearer"

  abbrev pub is_open_env : Bool
  is_open_env = is_one_of ("dev" ∷ "development" ∷ "local" ∷ []) (current_env ops env)

  -- `_resolve_protected_access_context`
  unfoldable pub resolve_protected_access_context :
      (x_api_key authorization : Option String) → Answer AccessContext
  unfolding extract_bearer
  resolve_protected_access_context x_api_key authorization =
      let expected = env "FC_ADMIN_API_KEY" in
      let token = or_other x_api_key (extract_bearer authorization) in
      if not (is_set expected)
      then if env_truthy ops env "FC_ALLOW_INSECURE_ADMIN" || is_open_env
        then grants (record { token_source = "insecure_local" })
        else refuses 500 "FC_ADMIN_API_KEY is not configured"
      else when_matched (matches_secret token expected)
          (record { token_source = token_source_of x_api_key })

  -- `require_test_mode`
  abbrev pub require_test_mode : Answer (Unit {0})
  require_test_mode =
      if str_eq (current_env ops env) "test" then grants tt else refuses 404 "Not Found"

  -- `require_test_key`
  unfoldable pub require_test_key : (x_test_key : Option String) → Answer (Unit {0})
  require_test_key x_test_key =
      let expected = env "FC_E2E_TEST_KEY" in
      if not (str_eq (current_env ops env) "test")
      then refuses 404 "Not Found"
      else if not (is_set expected)
      then refuses 500 "FC_E2E_TEST_KEY is not configured"
      else when_matched (matches_secret x_test_key expected) tt

  -- `_resolve_read_access_context`
  unfoldable pub resolve_read_access_context :
      (x_read_api_key x_api_key authorization : Option String) → Answer AccessContext
  unfolding extract_bearer
  resolve_read_access_context x_read_api_key x_api_key authorization =
      let read = env "FC_READ_API_KEY" in
      let protected = env "FC_ADMIN_API_KEY" in
      let token = or_other x_read_api_key (or_other x_api_key (extract_bearer authorization)) in
      if not (env_truthy ops env "FC_REQUIRE_READ_AUTH")
      then grants (record { token_source = "public_read" })
      else if not (is_set read) && not (is_set protected)
      then refuses 500 "FC_READ_API_KEY or FC_ADMIN_API_KEY is not configured"
      else either_matched (matches_secret token read) (matches_secret token protected)
          (λ r. if is_set x_read_api_key && r then "x_read_api_key" else token_source_of x_api_key)

  -- `(value or "").strip()`
  abbrev pub header : Option String → String
  header value = strip (get_or value "")

  -- `_resolve_console_access_context`
  unfoldable pub resolve_console_access_context :
      (x_console_user_id x_console_user_email x_console_request_id x_console_user_signature : Option
        String)
      → Answer ConsoleAccessContext
  resolve_console_access_context x_user_id x_email x_request_id x_signature =
      let secret = env "FC_INTERNAL_PROXY_SECRET" in
      let user_id = header x_user_id in
      let email = header x_email in
      let request_id = header x_request_id in
      let signature = header x_signature in
      if not (is_set secret)
      then refuses 500 "FC_INTERNAL_PROXY_SECRET is not configured"
      else if str_eq user_id "" || str_eq email "" || str_eq request_id "" || str_eq signature ""
      then refuses 401 "Unauthorized"
      else when_matched
          (compare_digest signature (sign (get_or secret "") user_id email request_id))
          (record {
            user_id = user_id;
            email = email;
            request_id = request_id;
            token_source = "console_proxy";
          })
