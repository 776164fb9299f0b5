-- ===== src/Access/Production.antt =====
-- What `validate_runtime_guards` rules out in production.
use fraudhunter.Common.{
  ℕ, ◌+◌, String, Bool, true, false, ◌&&◌, Option, none, some, [], ◌∷◌, ◌++◌, ◌≡◌, refl, inl, inr,
  arith, sym, subst, Bool-cases, str_eq, eq_iff, if◌then◌else◌,
}
use fraudhunter.Common.Result.{ok, bind-ok, ok_inj}
use fraudhunter.Settings.Env.{TextOps, Env, is_set, or_other}
use fraudhunter.Access.Guards.{
  is_one_of, current_env, is_production_env, env_truthy, read_access_mode, mode_of, mode_if,
  raise_if, check_mode, validate_runtime_guards,
}
use fraudhunter.Access.Decisions.{
  AccessContext, grants, Secrets, extract_bearer, resolve_protected_access_context,
}
use fraudhunter.Access.Laws.{IsDigest, Decides, protected_lem, unconfigured_lem}

-- A production environment is no local one.
production_not_open :
    (e : String)
    → is_one_of ("prod" ∷ "production" ∷ []) e ≡ true
    → is_one_of ("dev" ∷ "development" ∷ "local" ∷ []) e ≡ false
production_not_open e h = elim (Bool-cases (str_eq e "prod")) [
  | inl this ↦ rw ((eq_iff e "prod").0 this) refl
  | inr other ↦
      let this : e ≡ "production" = (eq_iff e "production").0 (ground arith) in rw this refl
]

production_not_local :
    (e : String)
    → is_one_of ("prod" ∷ "production" ∷ []) e ≡ true
    → is_one_of ("dev" ∷ "development" ∷ "local" ∷ "test" ∷ []) e ≡ false
production_not_local e h = elim (Bool-cases (str_eq e "prod")) [
  | inl this ↦ rw ((eq_iff e "prod").0 this) refl
  | inr other ↦
      let this : e ≡ "production" = (eq_iff e "production").0 (ground arith) in rw this refl
]

raise_if-ok : (b : Bool) (message : String) (u : Unit {0}) → raise_if b message ≡ ok u → b ≡ false
raise_if-ok true message u h = absurd (ground arith)
raise_if-ok false message u h = refl

-- How many of the flags are set.
abbrev pub one_if : Bool → ℕ
one_if b = if b then 1 else 0

-- A mode is declared exactly if one flag is set, where a missing one is not `local`.
one_mode :
    (a b c : Bool) (m : String)
    → mode_of false (mode_if a "read_auth" ++ mode_if b "external_protection" ++ mode_if c "public")
      ≡ ok m
    → str_eq m "unset" ≡ false
    → one_if a + one_if b + one_if c ≡ 1
one_mode true true true m h declared = absurd (ground arith)
one_mode true true false m h declared = absurd (ground arith)
one_mode true false true m h declared = absurd (ground arith)
one_mode false true true m h declared = absurd (ground arith)
one_mode true false false m h declared = refl
one_mode false true false m h declared = refl
one_mode false false true m h declared = refl
one_mode false false false m h declared =
    let unset : "unset" ≡ m = ok_inj h in
    let same : str_eq m "unset" ≡ true = (eq_iff m "unset").1 (sym unset) in absurd (ground arith)

module _ (ops : TextOps) (env : Env) where
  -- What the guards leave of the flags, in production.
  abbrev pub Guarded : Type 0
  Guarded =
      (env_truthy ops env "FC_ALLOW_INSECURE_ADMIN" ≡ false)
      × (env_truthy ops env "ACS_ALLOW_INSECURE" ≡ false)
      × (one_if (env_truthy ops env "FC_REQUIRE_READ_AUTH")
            + one_if (env_truthy ops env "FC_EXTERNAL_READ_PROTECTION")
            + one_if (env_truthy ops env "FC_ALLOW_PUBLIC_READ")
          ≡ 1)

  declared_one :
      (m : String)
      → read_access_mode ops env ≡ ok m
      → str_eq m "unset" ≡ false
      → is_production_env ops env ≡ true
      → one_if (env_truthy ops env "FC_REQUIRE_READ_AUTH")
          + one_if (env_truthy ops env "FC_EXTERNAL_READ_PROTECTION")
          + one_if (env_truthy ops env "FC_ALLOW_PUBLIC_READ")
        ≡ 1
  unfolding read_access_mode
  declared_one m mode declared production =
      let a = env_truthy ops env "FC_REQUIRE_READ_AUTH" in
      let b = env_truthy ops env "FC_EXTERNAL_READ_PROTECTION" in
      let c = env_truthy ops env "FC_ALLOW_PUBLIC_READ" in
      one_mode a b c m
        (subst
          (λ (l : Bool).
            mode_of l
              (mode_if a "read_auth" ++ mode_if b "external_protection" ++ mode_if c "public")
            ≡ ok m)
          (production_not_local (current_env ops env) production) mode)
        declared

  validated-Guarded :
      (u : Unit {0})
      → is_production_env ops env ≡ true
      → validate_runtime_guards ops env ≡ ok u
      → Guarded
  unfolding validate_runtime_guards
  validated-Guarded u production valid =
      let (u1, admin, h1) =
        bind-ok _
          (raise_if (is_production_env ops env && env_truthy ops env "FC_ALLOW_INSECURE_ADMIN") _)
          valid in
      let (u2, acs, h2) =
        bind-ok _
          (raise_if (is_production_env ops env && env_truthy ops env "ACS_ALLOW_INSECURE") _) h1 in
      let admin_off =
        raise_if-ok (is_production_env ops env && env_truthy ops env "FC_ALLOW_INSECURE_ADMIN") _ u1
          admin in
      let acs_off =
        raise_if-ok (is_production_env ops env && env_truthy ops env "ACS_ALLOW_INSECURE") _ u2
          acs in
      let checked : check_mode ops env true ≡ ok u =
        subst (λ (b : Bool). check_mode ops env b ≡ ok u) production h2 in
      let (m, mode, h3) = bind-ok _ (read_access_mode ops env) checked in
      let declared = raise_if-ok (str_eq m "unset") _ u h3 in
      (ground arith, ground arith, declared_one m mode declared production)

module _ (lib : Secrets) (env : Env) (digest : IsDigest lib) where
  granted_key :
      (x_api_key authorization : Option String) (a : AccessContext) (expected : Option String)
      → env "FC_ADMIN_API_KEY" ≡ expected
      → is_set expected ≡ true
      → resolve_protected_access_context lib env x_api_key authorization ≡ grants a
      → (k : String) × (env "FC_ADMIN_API_KEY" ≡ some k)
        × (str_eq k "" ≡ false)
        × (or_other x_api_key (extract_bearer lib env authorization) ≡ some k)
  granted_key x_api_key authorization a none e set granted = absurd (ground arith)
  granted_key x_api_key authorization a (some k) e set granted =
      let full : str_eq k "" ≡ false = ground arith in
      (
        k,
        e,
        full,
        subst (Decides lib k (or_other x_api_key (extract_bearer lib env authorization))) granted
            (protected_lem lib env digest k x_api_key authorization e full),
      )

  -- In a production process that `validate_runtime_guards` has let start, a request to a protected route is let
  -- through only with the value of `FC_ADMIN_API_KEY`, which is then set, as its key or bearer token; and
  -- exactly one of the three modes of reading is selected.
  pub production_protected :
      (u : Unit {0}) (x_api_key authorization : Option String) (a : AccessContext)
      → is_production_env lib.ops env ≡ true
      → validate_runtime_guards lib.ops env ≡ ok u
      → resolve_protected_access_context lib env x_api_key authorization ≡ grants a
      → Guarded lib.ops env
        × ((k : String) × (env "FC_ADMIN_API_KEY" ≡ some k)
            × (str_eq k "" ≡ false)
            × (or_other x_api_key (extract_bearer lib env authorization) ≡ some k))
  production_protected u x_api_key authorization a production valid granted =
      let guarded = validated-Guarded lib.ops env u production valid in
      elim (Bool-cases (is_set (env "FC_ADMIN_API_KEY"))) [
        | inr unset ↦
            let refused =
              unconfigured_lem lib env digest x_api_key authorization unset guarded.0
                (production_not_open (current_env lib.ops env) production) in
            absurd (cc (refused, granted))
        | inl has ↦ (
          guarded,
          granted_key x_api_key authorization a (env "FC_ADMIN_API_KEY") refl has granted,
        )
      ]
