-- ===== src/Settings/SavedTests.antt =====
-- Updates of the settings at concrete inputs.
use fraudhunter.Common.{
  ℕ, ◌≤◌, ◌≡◌, refl, arith, String, true, false, none, some, List, [], ◌∷◌, str_eq, if◌then◌else◌,
  count_where, has, HasUniqueKeys, Bool-cases, inl, inr, subst, eq_iff,
}
use fraudhunter.Common.Int.{pos}
use fraudhunter.Common.Result.{ok}
use fraudhunter.Ingestion.Samples.{nothing}
use fraudhunter.Jobs.Samples.{sample}
use fraudhunter.Jobs.Enqueue.{Environment}
use fraudhunter.Settings.Env.{TextOps, Env}
use fraudhunter.Settings.Values.{Value, int, bool, Setting, Settings, load_settings_from_env}
use fraudhunter.Settings.Store.{AppSetting, Codec, has_fingerprint}
use fraudhunter.Settings.Update.{State, stored, update_settings}
use fraudhunter.Settings.Saved.{Reaches, update_settings_lem}

-- An environment without variables.
abbrev ops : TextOps
ops = record {
  strip = λ s. s;
  lower = λ s. s;
  lstrip_slash = λ s. s;
  rstrip_slash = λ s. s;
  starts_with = λ p s. false;
  split_colon = λ s. none;
  parse_int = λ s. none;
}

abbrev getenv : Env
getenv name = none

abbrev codec : Codec
codec = record {
  dumps = λ v. elim v [ int n ↦ "9" | bool b ↦ "true" | Value.other j ↦ "null" ];
  loads = λ s. if str_eq s "9" then int (pos 9) else bool true;
  snapshot = λ s. "{}";
}

abbrev enqueues : ℕ → Environment
enqueues n = record { now = 20; run_id = "t"; uses_kick = false; meanwhile = λ t. t }

-- The table has an old threshold and another setting; the update raises the threshold.
abbrev old : List AppSetting
old =
    record { key = "conversion_threshold"; value = "5"; updated_at = 10 }
    ∷ record { key = "browser_only"; value = "true"; updated_at = 10 }
    ∷ []

abbrev before : State
before = record {
  process = record { cache = []; cached_at = some 10 };
  tables = record { app_settings = old; versions = [] };
  queue = [];
}

abbrev threshold : Setting
threshold = record { key = "conversion_threshold"; value = int (pos 9) }

abbrev defaults : Settings
defaults = elim (load_settings_from_env ops getenv) [ ok d ↦ d | _ ↦ [] ]

defaults_read : load_settings_from_env ops getenv ≡ ok defaults
unfolding load_settings_from_env
defaults_read = refl

old_unique : HasUniqueKeys AppSetting.key str_eq old
old_unique k = elim (Bool-cases (str_eq "browser_only" k)) [
  | inl this ↦
      subst (λ (j : String). count_where (has AppSetting.key str_eq j) old ≤ 1)
        ((eq_iff "browser_only" k).0 this) (omega arith)
  | inr other ↦ ground arith
]

update_settings_lem_example :
    let (answer, after) =
      update_settings sample codec
        (λ s. "f")
        20
        "0"
        enqueues
        stored
        nothing
        (threshold ∷ [])
        before in
    (answer.persisted ≡ true)
    × (count_where (has_fingerprint "f") after.tables.versions ≡ 1)
    × Reaches (ops, getenv, codec) (threshold ∷ []) defaults before after
update_settings_lem_example =
    update_settings_lem sample ops getenv codec (λ s. "f") 20 "0" defaults defaults_read enqueues
      nothing threshold [] before (refl, tt) old_unique (omega arith)
