-- ===== src/Settings/Cache.antt =====
-- The cache of `services/settings.py`: a process keeps the settings until the table changes.
use fraudhunter.Common.{
  ℕ, Bool, true, false, not, ◌||◌, Option, none, some, List, [], ◌∷◌, ◌++◌, ◌==◌, if◌then◌else◌,
}
use fraudhunter.Common.Result.{Result, Exn, ok, err}
use fraudhunter.Settings.Env.{TextOps, Env}
use fraudhunter.Settings.Values.{Settings, load_settings_from_env}
use fraudhunter.Settings.Store.{AppSetting, Codec, load_settings, get_settings_updated_at}

-- `_settings_cache`, where nothing is as good as an empty dict, and `_settings_cache_updated_at`.
pub record Process : Type 0 where
  pub cache : Settings
  pub cached_at : Option ℕ

abbrev pub fresh_process : Process
fresh_process = record { cache = []; cached_at = none }

abbrev pub is_empty : Settings → Bool
is_empty [] = true
is_empty (s ∷ ss) = false

-- `a == b` of optional times
abbrev pub same_time : Option ℕ → Option ℕ → Bool
same_time none none = true
same_time (some a) (some b) = a == b
same_time _ _ = false

-- `_load_settings`, on what `load_settings` returned or raised, and on the settings of the environment. Where
-- those raise below the `try`, its handler reads them again, and raises again.
abbrev pub load_or_env : (db defaults : Result Settings) → Result Settings
load_or_env (err e) defaults = defaults
load_or_env (ok []) defaults = defaults
load_or_env (ok (s ∷ ss)) (err e) = err e
load_or_env (ok (s ∷ ss)) (ok d) = ok (d ++ s ∷ ss)

-- What `get_settings` caches.
abbrev pub cached : (updated_at : Option ℕ) → Process → Result Settings → Result Settings × Process
cached updated_at p (err e) = (err e, p)
cached updated_at p (ok s) = (ok s, record { cache = s; cached_at = updated_at })

module _ (ops : TextOps) (env : Env) (codec : Codec) where
  -- What the query of `load_settings` returned, or the exception of the database.
  abbrev pub read_table : Option Exn → List AppSetting → Result Settings
  read_table none t = ok (load_settings codec t)
  read_table (some e) t = err e

  -- `get_settings`
  unfoldable pub get_settings :
      (failure : Option Exn) → List AppSetting → Process → Result Settings × Process
  get_settings failure t p =
      let updated_at = get_settings_updated_at t in
      if is_empty p.cache || not (same_time updated_at p.cached_at)
      then cached updated_at p (load_or_env (read_table failure t) (load_settings_from_env ops env))
      else (ok p.cache, p)
