-- ===== src/Settings/AcsLaws.antt =====
-- What the settings for the ACS satisfy.
use fraudhunter.Common.{
  ℕ, zero, suc, ◌<◌, String, Bool, true, false, Option, none, some, ◌≡◌, ◌⊎◌, arith, ap, sym, subst,
  inl, inr, Bool-cases, str_eq,
}
use fraudhunter.Common.Int.{ℤ, pos, negsuc}
use fraudhunter.Common.Result.{ok, bind-ok, ok_inj}
use fraudhunter.Settings.Env.{TextOps, Env, or_other, require, env_bool}
use fraudhunter.Settings.Acs.{
  AcsSettings, AcsArguments, positive, is_safe_url, check_url, keys_from, page_size_of,
  resolve_acs_settings,
}

require_full :
    (ops : TextOps) (value : Option String) (name s : String)
    → require ops value name ≡ ok s
    → str_eq s "" ≡ false
require_full ops none name s h = absurd (ground arith)
require_full ops (some v) name s h = elim (Bool-cases (str_eq (ops.strip v) "")) [
  | inl blank ↦ absurd (ground arith)
  | inr full ↦ ground arith
]

positive-ok : (n : ℤ) (m : ℕ) → positive n ≡ ok m → 0 < m
positive-ok (pos zero) m h = absurd (ground arith)
positive-ok (pos (suc n)) m h = ground arith
positive-ok (negsuc n) m h = absurd (ground arith)

check_url-ok :
    (ops : TextOps) (allow : Bool) (url : String) (u : Unit {0})
    → check_url ops allow url ≡ ok u
    → (ops.starts_with "http" url ≡ true) × ((is_safe_url ops url ≡ true) ⊎ (allow ≡ true))
check_url-ok ops allow url u h = elim (Bool-cases (ops.starts_with "http" url)) [
  | inr bad ↦ absurd (ground arith)
  | inl full ↦ elim (Bool-cases (is_safe_url ops url)) [
    | inl safe ↦ (full, inl safe)
    | inr unsafe ↦ elim (Bool-cases allow) [
      | inl open_to ↦ (full, inr open_to)
      | inr closed ↦ absurd (ground arith)
    ]
  ]
]

-- The settings that `resolve_acs_settings` returns have a page size above 0 and keys that are not empty. The
-- address, of which only slashes at the end are removed, starts with `http`, and with `https://`,
-- `http://localhost` or `http://127.0.0.1` unless `ACS_ALLOW_INSECURE` is set.
pub resolve_acs_settings_lem :
    (ops : TextOps) (env : Env) (args : AcsArguments) (s : AcsSettings)
    → resolve_acs_settings ops env args ≡ ok s
    → (0 < s.page_size)
      × (str_eq s.access_key "" ≡ false)
      × (str_eq s.secret_key "" ≡ false)
      × ((url : String) × (s.base_url ≡ ops.rstrip_slash url)
          × (ops.starts_with "http" url ≡ true)
          × ((is_safe_url ops url ≡ true) ⊎ (env_bool ops env "ACS_ALLOW_INSECURE" false ≡ true)))
unfolding resolve_acs_settings
resolve_acs_settings_lem ops env args s h =
    let (url, required, h1) =
      bind-ok _ (require ops (or_other args.base_url (env "ACS_BASE_URL")) _) h in
    let (u, checked, h2) =
      bind-ok _ (check_url ops (env_bool ops env "ACS_ALLOW_INSECURE" false) url) h1 in
    let (keys, found, h3) = bind-ok _ (keys_from ops _ _ (env "ACS_TOKEN")) h2 in
    let (access, has_access, h4) = bind-ok _ (require ops keys.0 _) h3 in
    let (secret, has_secret, h5) = bind-ok _ (require ops keys.1 _) h4 in
    let (size, read, h6) = bind-ok _ (page_size_of ops env args.page_size) h5 in
    let (page_size, above, h7) = bind-ok _ (positive size) h6 in
    let (http, scheme) =
      check_url-ok ops (env_bool ops env "ACS_ALLOW_INSECURE" false) url u checked in
    let made = ok_inj h7 in
    (
      subst (λ (n : ℕ). 0 < n) (ap AcsSettings.page_size made) (positive-ok size page_size above),
      subst (λ (k : String). str_eq k "" ≡ false) (ap AcsSettings.access_key made)
          (require_full ops keys.0 _ access has_access),
      subst (λ (k : String). str_eq k "" ≡ false) (ap AcsSettings.secret_key made)
          (require_full ops keys.1 _ secret has_secret),
      (url, sym (ap AcsSettings.base_url made), http, scheme),
    )
