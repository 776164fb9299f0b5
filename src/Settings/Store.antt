-- ===== src/Settings/Store.antt =====
-- `SettingsRepository` of `repositories/settings.py`. `json.dumps`, `json.loads`, the clock and `uuid4` are
-- arguments.
use Prim.Native.String.{◌++◌ as str_append}
use fraudhunter.Common.{
  ℕ, String, Bool, true, false, Option, none, some, List, [], ◌∷◌, ◌++◌, map, ltb, str_eq,
  if◌then◌else◌, upsert_all, first_by, select_where,
}
use fraudhunter.Masters.Store.{latest}
use fraudhunter.Settings.Values.{Value, Setting, Settings}

-- `AppSetting` and `SettingsVersion` of `db/models.py`
pub record AppSetting : Type 0 where
  pub key : String
  pub value : String
  pub updated_at : ℕ

pub record SettingsVersion : Type 0 where
  pub id : String
  pub fingerprint : String
  pub snapshot_json : String
  pub created_at : ℕ

pub record Tables : Type 0 where
  pub app_settings : List AppSetting
  pub versions : List SettingsVersion

-- What Python's library computes: `json.dumps(value)`, `json.loads(text)` or else the text itself, and
-- `json.dumps(settings, ensure_ascii=False, sort_keys=True)`.
pub record Codec : Type 0 where
  pub dumps : Value → String
  pub loads : String → Value
  pub snapshot : Settings → String

abbrev pub put_setting : AppSetting → AppSetting → AppSetting
put_setting row old = record old { value = row.value; updated_at = row.updated_at }

abbrev pub has_fingerprint : String → SettingsVersion → Bool
has_fingerprint fingerprint v = str_eq v.fingerprint fingerprint

-- `ORDER BY created_at DESC`
abbrev pub created_later : SettingsVersion → SettingsVersion → Bool
created_later a b = ltb b.created_at a.created_at

module _ (codec : Codec) (now : ℕ) (uuid : String) where
  abbrev pub setting_row : Setting → AppSetting
  setting_row s = record { key = s.key; value = codec.dumps s.value; updated_at = now }

  -- The statement of `save_settings`
  abbrev pub put_settings : Settings → List AppSetting → List AppSetting
  put_settings settings t =
      upsert_all AppSetting.key str_eq put_setting (map setting_row settings) t

  abbrev pub new_version : Settings → (fingerprint : String) → SettingsVersion
  new_version settings fingerprint = record {
    id = str_append "settings-" uuid;
    fingerprint = fingerprint;
    snapshot_json = codec.snapshot settings;
    created_at = now;
  }

  -- The rest of `ensure_settings_version`, after its query.
  abbrev pub version_or_new :
      Settings
      → (fingerprint : String) (existing : Option SettingsVersion) → List SettingsVersion
      → String × List SettingsVersion
  version_or_new settings fingerprint (some v) t = (v.id, t)
  version_or_new settings fingerprint none t =
      let v = new_version settings fingerprint in (v.id, t ++ v ∷ [])

  -- `ensure_settings_version`
  unfoldable pub ensure_settings_version :
      Settings → (fingerprint : String) → List SettingsVersion → String × List SettingsVersion
  ensure_settings_version settings fingerprint t =
      version_or_new settings fingerprint
        (first_by created_later (select_where (has_fingerprint fingerprint) t)) t

abbrev pub loaded_setting : Codec → AppSetting → Setting
loaded_setting codec row = record { key = row.key; value = codec.loads row.value }

-- `load_settings`; what it makes of an empty table is empty, too.
unfoldable pub load_settings : Codec → List AppSetting → Settings
load_settings codec rows = map (loaded_setting codec) rows

-- `get_settings_updated_at`
unfoldable pub get_settings_updated_at : List AppSetting → Option ℕ
get_settings_updated_at t = latest (map AppSetting.updated_at t)

-- `ORDER BY created_at DESC, id DESC`, where `later` compares ids.
unfoldable pub get_latest_settings_version_id :
    (later : String → String → Bool) → List SettingsVersion → Option String
get_latest_settings_version_id later t =
    elim (first_by
      (λ a b.
        if ltb b.created_at a.created_at
        then true
        else if ltb a.created_at b.created_at
        then false
        else later a.id b.id)
      t) [ none ↦ none | some v ↦ some v.id ]
