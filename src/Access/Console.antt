-- ===== src/Access/Console.antt =====
-- Whom the console routes of `api_dependencies.py` let through.
use fraudhunter.Common.{
  String, Bool, true, false, ◌||◌, Option, none, some, ◌≡◌, ◌⊎◌, refl, sym, inl, inr, arith,
  Bool-cases, str_eq, eq_iff,
}
use fraudhunter.Settings.Env.{Env}
use fraudhunter.Access.Decisions.{
  ConsoleAccessContext, Answer, grants, refuses, raises, Secrets, when_matched, header,
  resolve_console_access_context,
}
use fraudhunter.Access.Laws.{IsDigest}

-- What `_resolve_console_access_context` answers where the proxy's secret is `secret`: the one who is let
-- through is the one that the headers name, nothing of it is empty, and the signature is that of the secret;
-- a refusal means that a header is empty or the signature is another.
abbrev pub ConsoleDecides :
    Secrets
    → (secret user_id email request_id signature : String) → Answer ConsoleAccessContext
    → Type 0
ConsoleDecides lib secret user_id email request_id signature (grants c) =
    (c.user_id ≡ user_id)
    × (c.email ≡ email)
    × (c.request_id ≡ request_id)
    × (str_eq user_id "" || str_eq email "" || str_eq request_id "" ≡ false)
    × (signature ≡ lib.sign secret user_id email request_id)
ConsoleDecides lib secret user_id email request_id signature (refuses status detail) =
    (status ≡ 401)
    × ((str_eq user_id "" || str_eq email "" || str_eq request_id "" || str_eq signature "" ≡ true)
        ⊎ (¬ (signature ≡ lib.sign secret user_id email request_id)))
ConsoleDecides lib secret user_id email request_id signature raises =
    lib.compare_digest signature (lib.sign secret user_id email request_id) ≡ none

module _ (lib : Secrets) (env : Env) (digest : IsDigest lib) where
  signed-ConsoleDecides :
      (secret : String) (c : ConsoleAccessContext) (signature : String) (r : Option Bool)
      → str_eq c.user_id "" || str_eq c.email "" || str_eq c.request_id "" ≡ false
      → lib.compare_digest signature (lib.sign secret c.user_id c.email c.request_id) ≡ r
      → ConsoleDecides lib secret c.user_id c.email c.request_id signature (when_matched r c)
  signed-ConsoleDecides secret c signature none full e = e
  signed-ConsoleDecides secret c signature (some true) full e = (
    refl,
    refl,
    refl,
    full,
    (eq_iff signature (lib.sign secret c.user_id c.email c.request_id)).0
        (sym (digest.honest signature _ true e)),
  )
  signed-ConsoleDecides secret c signature (some false) full e = (
    refl,
    inr (λ same.
        let expected = lib.sign secret c.user_id c.email c.request_id in
        let other : str_eq signature expected ≡ false =
          sym (digest.honest signature expected false e) in
        let this : str_eq signature expected ≡ true = (eq_iff signature expected).1 same in
        absurd (ground arith)),
  )

  -- Where `FC_INTERNAL_PROXY_SECRET` is set, a console request is let through only with the signature of that
  -- secret on its user, e-mail and request id, all not empty, and as that user.
  pub console_lem :
      (secret : String) (x_user_id x_email x_request_id x_signature : Option String)
      → env "FC_INTERNAL_PROXY_SECRET" ≡ some secret
      → str_eq secret "" ≡ false
      → ConsoleDecides lib secret
          (header lib env x_user_id)
          (header lib env x_email)
          (header lib env x_request_id)
          (header lib env x_signature)
          (resolve_console_access_context lib env x_user_id x_email x_request_id x_signature)
  unfolding resolve_console_access_context
  console_lem secret x_user_id x_email x_request_id x_signature set full =
      let user_id = header lib env x_user_id in
      let email = header lib env x_email in
      let request_id = header lib env x_request_id in
      let signature = header lib env x_signature in
      elim (Bool-cases
        (str_eq user_id "" || str_eq email "" || str_eq request_id "" || str_eq signature "")) [
          | inl blank ↦ rw (set, full, blank) (refl, inl blank)
          | inr whole ↦
              rw (set, full, whole)
                (signed-ConsoleDecides secret
                  (record {
                    user_id = user_id;
                    email = email;
                    request_id = request_id;
                    token_source = "console_proxy";
                  })
                  signature _ (ground arith) refl)
        ]
