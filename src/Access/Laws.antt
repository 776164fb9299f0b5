-- ===== src/Access/Laws.antt =====
-- Whom `api_dependencies.py` lets through.
use fraudhunter.Common.{
  String, Bool, true, false, Option, none, some, ◌≡◌, ◌⊎◌, refl, sym, ap, subst, inl, inr, arith,
  Bool-cases, str_eq, eq_iff,
}
use fraudhunter.Settings.Env.{Env, is_set, or_other}
use fraudhunter.Access.Guards.{env_truthy}
use fraudhunter.Access.Decisions.{
  AccessContext, Answer, grants, refuses, raises, Secrets, when_matched, either_matched,
  matches_secret, extract_bearer, token_source_of, is_open_env, resolve_protected_access_context,
  resolve_read_access_context,
}

-- What Python documents of `hmac.compare_digest`: where it returns, it tells whether the texts are equal.
pub record IsDigest (lib : Secrets) : Type 0 where
  pub honest : (a b : String) (r : Bool) → lib.compare_digest a b ≡ some r → r ≡ str_eq a b

-- The answer to a token where the key `k` is expected: it is let through only with that key, and refused only
-- with another one or with none; else the comparison raised.
abbrev pub Decides :
    {A : Type 0} → Secrets → (k : String) (token : Option String) → Answer A → Type 0
Decides lib k token (grants a) = token ≡ some k
Decides lib k token (refuses status detail) = (status ≡ 401) × ¬ (token ≡ some k)
Decides lib k token raises = (t : String) × (token ≡ some t) × (lib.compare_digest t k ≡ none)

module _ (lib : Secrets) (env : Env) (digest : IsDigest lib) where
  compared-Decides :
      {A : Type 0} (k t : String) (r : Option Bool) (a : A)
      → lib.compare_digest t k ≡ r
      → Decides lib k (some t) (when_matched r a)
  compared-Decides k t none a e = (t, refl, e)
  compared-Decides k t (some true) a e =
      ap (λ x. some x) ((eq_iff t k).0 (sym (digest.honest t k true e)))
  compared-Decides k t (some false) a e = (
    refl,
    λ same.
        let other : str_eq t k ≡ false = sym (digest.honest t k false e) in
        let equal : t ≡ k = cc same in
        let this : str_eq t k ≡ true = (eq_iff t k).1 equal in absurd (ground arith),
  )

  matched-Decides :
      {A : Type 0} (k : String) (token : Option String) (a : A)
      → Decides lib k token (when_matched (matches_secret lib env token (some k)) a)
  matched-Decides k none a = (refl, λ same. absurd (ground arith))
  matched-Decides k (some t) a = compared-Decides k t (lib.compare_digest t k) a refl

  -- Where `FC_ADMIN_API_KEY` is set, a request to a protected route is let through only with that key, in its
  -- `X-API-Key` header or else as its bearer token, and refused, by 401, only with another token or none.
  pub protected_lem :
      (k : String) (x_api_key authorization : Option String)
      → env "FC_ADMIN_API_KEY" ≡ some k
      → str_eq k "" ≡ false
      → Decides lib k
          (or_other x_api_key (extract_bearer lib env authorization))
          (resolve_protected_access_context lib env x_api_key authorization)
  unfolding resolve_protected_access_context
  protected_lem k x_api_key authorization set full =
      rw (set, full)
        (matched-Decides k (or_other x_api_key (extract_bearer lib env authorization))
          (record { token_source = token_source_of lib env x_api_key }))

  -- Where none is set, nobody is let through outside a local environment, unless `FC_ALLOW_INSECURE_ADMIN` is.
  pub unconfigured_lem :
      (x_api_key authorization : Option String)
      → is_set (env "FC_ADMIN_API_KEY") ≡ false
      → env_truthy lib.ops env "FC_ALLOW_INSECURE_ADMIN" ≡ false
      → is_open_env lib env ≡ false
      → resolve_protected_access_context lib env x_api_key authorization
        ≡ refuses 500 "FC_ADMIN_API_KEY is not configured"
  unfolding resolve_protected_access_context
  unconfigured_lem x_api_key authorization unset strict remote = rw (unset, strict, remote) refl

-- What a comparison with the expected key tells.
abbrev Matches : (token expected : Option String) → Option Bool → Type 0
Matches token expected none = (t : String) × (token ≡ some t)
Matches token expected (some true) = (k : String) × (expected ≡ some k) × (token ≡ some k)
Matches token expected (some false) = (k : String) → token ≡ some k → ¬ (expected ≡ some k)

-- The answer to a token where either key is expected: it is let through only with one that is not empty, and
-- refused only where no key is configured, or with a token that is neither.
abbrev pub ReadDecides : (read protected token : Option String) → Answer AccessContext → Type 0
ReadDecides read protected token (grants a) =
    (k : String) × ((read ≡ some k) ⊎ (protected ≡ some k))
    × (token ≡ some k)
    × (str_eq k "" ≡ false)
ReadDecides read protected token (refuses status detail) =
    ((status ≡ 500) × (is_set read ≡ false) × (is_set protected ≡ false))
    ⊎ ((status ≡ 401)
        × ((k : String) → token ≡ some k → (¬ (read ≡ some k)) × (¬ (protected ≡ some k))))
ReadDecides read protected token raises = (t : String) × (token ≡ some t)

or_other_full :
    (a b : Option String) (t : String)
    → or_other a b ≡ some t
    → (b ≡ some t → str_eq t "" ≡ false)
    → str_eq t "" ≡ false
or_other_full none b t e h = h e
or_other_full (some a) b t e h = elim (Bool-cases (str_eq a "")) [
  | inl blank ↦ h (ground arith)
  | inr full ↦
      let same : a ≡ t = ground arith in subst (λ (s : String). str_eq s "" ≡ false) same full
]

module _ (lib : Secrets) (env : Env) (digest : IsDigest lib) where
  bearer_full :
      (authorization : Option String) (t : String)
      → extract_bearer lib env authorization ≡ some t
      → str_eq t "" ≡ false
  unfolding extract_bearer
  bearer_full none t e = absurd (ground arith)
  bearer_full (some a) t e = ground arith

  compared-Matches :
      (t e : String) (r : Option Bool) → lib.compare_digest t e ≡ r → Matches (some t) (some e) r
  compared-Matches t e none c = (t, refl)
  compared-Matches t e (some true) c =
      let same : e ≡ t = sym ((eq_iff t e).0 (sym (digest.honest t e true c))) in
      (t, ap (λ x. some x) same, refl)
  compared-Matches t e (some false) c = λ k this that.
      let other : str_eq t e ≡ false = sym (digest.honest t e false c) in
      let equal : t ≡ e = cc (this, that) in
      let same : str_eq t e ≡ true = (eq_iff t e).1 equal in absurd (ground arith)

  secret-Matches :
      (token expected : Option String)
      → Matches token expected (matches_secret lib env token expected)
  secret-Matches none expected = λ k e. absurd (ground arith)
  secret-Matches (some t) none = λ k e h. absurd (ground arith)
  secret-Matches (some t) (some e) = compared-Matches t e (lib.compare_digest t e) refl

  either-ReadDecides :
      (read protected token : Option String) (r p : Option Bool) (source : Bool → String)
      → ((t : String) → token ≡ some t → str_eq t "" ≡ false)
      → Matches token read r
      → Matches token protected p
      → ReadDecides read protected token (either_matched r p source)
  either-ReadDecides read protected token none p source full h k = h
  either-ReadDecides read protected token (some r) none source full h k = k
  either-ReadDecides read protected token (some true) (some p) source full (k, at, is) h =
      (k, inl at, is, full k is)
  either-ReadDecides read protected token (some false) (some true) source full h (k, at, is) =
      (k, inr at, is, full k is)
  either-ReadDecides read protected token (some false) (some false) source full h g =
      inr (refl, λ k is. (h k is, g k is))

  -- Where reads need a key, a request is let through only with the read key or the admin key, which is not
  -- empty, in `X-Read-API-Key`, or else `X-API-Key`, or else as its bearer token. It is refused by 500 only
  -- where neither key is set, and by 401 only with a token that is neither.
  pub read_lem :
      (x_read_api_key x_api_key authorization : Option String)
      → env_truthy lib.ops env "FC_REQUIRE_READ_AUTH" ≡ true
      → ReadDecides
          (env "FC_READ_API_KEY")
          (env "FC_ADMIN_API_KEY")
          (or_other x_read_api_key (or_other x_api_key (extract_bearer lib env authorization)))
          (resolve_read_access_context lib env x_read_api_key x_api_key authorization)
  unfolding resolve_read_access_context
  read_lem x_read_api_key x_api_key authorization required =
      let read = env "FC_READ_API_KEY" in
      let protected = env "FC_ADMIN_API_KEY" in
      let token =
        or_other x_read_api_key (or_other x_api_key (extract_bearer lib env authorization)) in
      let full : (t : String) → token ≡ some t → str_eq t "" ≡ false = λ t e.
        or_other_full x_read_api_key (or_other x_api_key (extract_bearer lib env authorization)) t e
          (λ e'.
            or_other_full x_api_key (extract_bearer lib env authorization) t e'
              (bearer_full authorization t)) in
      let decided = λ (source : Bool → String).
        either-ReadDecides read protected token (matches_secret lib env token read)
          (matches_secret lib env token protected) source full (secret-Matches token read)
          (secret-Matches token protected) in
      elim (Bool-cases (is_set read)) [
        | inl has_read ↦ rw (required, has_read) (decided _)
        | inr lacks_read ↦ elim (Bool-cases (is_set protected)) [
          | inl has_protected ↦ rw (required, lacks_read, has_protected) (decided _)
          | inr lacks_protected ↦
              rw (required, lacks_read, lacks_protected) (inl (refl, lacks_read, lacks_protected))
        ]
      ]
