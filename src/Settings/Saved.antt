-- ===== src/Settings/Saved.antt =====
-- What a process reads of the settings after they were updated.
use fraudhunter.Common.{
  ℕ, ◌≤◌, String, true, false, Option, none, some, List, [], ◌∷◌, ◌≡◌, refl, ap, sym, ◌∙◌, arith,
  str_eq, eq_iff, last_where, or_else, last-append, or_else_assoc, HasUniqueKeys, count_where,
  first_by, first_by-none, first_by-mem, select_where, Memᴰ, select_nil, select-mem, select_passes,
  All-mem, count_pos_of_mem, count-append, count_of_not_exists, not_exists_of_All,
}
use mathlib.Core.Option
use fraudhunter.Common.Result.{Result, ok, err}
use fraudhunter.Queue.Run.{JobRun}
use fraudhunter.Ingestion.Logs.{Logs}
use fraudhunter.Jobs.Formats.{Formats}
use fraudhunter.Jobs.Enqueue.{Environment}
use fraudhunter.Settings.Env.{TextOps, Env}
use fraudhunter.Settings.Values.{Setting, Settings, is_for, value_of, load_settings_from_env}
use fraudhunter.Settings.Store.{
  AppSetting, SettingsVersion, Codec, put_settings, load_settings, get_settings_updated_at,
  has_fingerprint, created_later, version_or_new, new_version, ensure_settings_version,
}
use fraudhunter.Settings.Cache.{
  Process, fresh_process, is_empty, same_time, load_or_env, cached, get_settings,
}
use fraudhunter.Settings.Update.{stored, saved_with, State, update_settings}
use fraudhunter.Settings.RoundTrip.{IsRead, load-put_settings, map-or_else}

-- What a process has of a dict that was read and of the defaults of the environment.
abbrev pub ReadsOver : Settings → (below : Settings) → Result Settings → Type 0
ReadsOver s d (err e) = ⊥
ReadsOver s d (ok r) = (k : String) → value_of k r ≡ or_else (value_of k s) (value_of k d)

merged-ReadsOver : (s d : Settings) → ReadsOver s d (load_or_env (ok s) (ok d))
merged-ReadsOver [] d = λ k. refl
merged-ReadsOver (x ∷ s) d = λ k.
    ap (Option.map Setting.value) (last-append (is_for k) d (x ∷ s))
    ∙ sym (map-or_else Setting.value (last_where (is_for k) (x ∷ s)) (last_where (is_for k) d))

same_time_self : (o : Option ℕ) → same_time o o ≡ true
same_time_self none = refl
same_time_self (some n) = ground arith

module _ (ops : TextOps) (getenv : Env) (codec : Codec) (d : Settings)
    (defaults : load_settings_from_env ops getenv ≡ ok d) where
  cached-ReadsOver :
      (s : Settings) (at : Option ℕ) (p : Process) (r : Result Settings)
      → ReadsOver s d r
      → ReadsOver s d (cached at p r).0
  cached-ReadsOver s at p (err e) h = h
  cached-ReadsOver s at p (ok r) h = h

  -- A process that has cached nothing reads the table, with the environment below it.
  pub fresh-ReadsOver :
      (t : List AppSetting)
      → ReadsOver (load_settings codec t) d (get_settings ops getenv codec none t fresh_process).0
  unfolding get_settings
  fresh-ReadsOver t = rw defaults (
      cached-ReadsOver (load_settings codec t) (get_settings_updated_at t) fresh_process _
        (merged-ReadsOver (load_settings codec t) d))

  -- A process that has cached settings goes on with them while the table has the time that they were cached at.
  pub get_settings_cached :
      (t : List AppSetting) (p : Process)
      → is_empty p.cache ≡ false
      → p.cached_at ≡ get_settings_updated_at t
      → get_settings ops getenv codec none t p ≡ (ok p.cache, p)
  unfolding get_settings
  get_settings_cached t p full at = rw (full, at, same_time_self (get_settings_updated_at t)) refl

module _ (codec : Codec) (now : ℕ) (uuid : String) (settings : Settings) (fingerprint : String)
    (t : List SettingsVersion) where
  version_count :
      (o : Option SettingsVersion)
      → first_by created_later (select_where (has_fingerprint fingerprint) t) ≡ o
      → count_where (has_fingerprint fingerprint) t ≤ 1
      → count_where
          (has_fingerprint fingerprint)
          (version_or_new codec now uuid settings fingerprint o t).1
        ≡ 1
  version_count none e few =
      let absent =
        not_exists_of_All _ t
          (select_nil (has_fingerprint fingerprint) t (first_by-none created_later _ e)) in
      let v = new_version codec now uuid settings fingerprint in
      let this : str_eq fingerprint fingerprint ≡ true = (eq_iff fingerprint fingerprint).1 refl in
      ground (
        arith,
        count-append (has_fingerprint fingerprint) t (v ∷ []),
        count_of_not_exists (has_fingerprint fingerprint) t absent,
      )
  version_count (some v) e few =
      let q = has_fingerprint fingerprint in
      let there : Memᴰ v (select_where q t) = first_by-mem created_later _ e in
      omega (
        arith,
        few,
        count_pos_of_mem q v t (select-mem q t there)
            (All-mem (λ x. q x ≡ true) _ (select_passes q t) there),
      )

  -- The settings have exactly one version under their fingerprint.
  pub ensure_settings_version_count :
      count_where (has_fingerprint fingerprint) t ≤ 1
      → count_where
          (has_fingerprint fingerprint)
          (ensure_settings_version codec now uuid settings fingerprint t).1
        ≡ 1
  unfolding ensure_settings_version
  ensure_settings_version_count few = version_count _ refl few

-- What holds of the settings after an update with `settings`, from the state `before`, in a process where the
-- variables give `defaults`: this process reads exactly the settings, and a new one reads them over what the
-- table held, and that over the defaults.
abbrev pub Reaches :
    (TextOps × Env × Codec) → (settings defaults : Settings) (before after : State) → Type 0
Reaches (ops, getenv, codec) settings defaults before after =
    (get_settings ops getenv codec none after.tables.app_settings after.process
      ≡ (ok settings, after.process))
    × ((r : Settings) × ((get_settings ops getenv codec none after.tables.app_settings
            fresh_process).0
          ≡ ok r)
        × ((k : String)
            → value_of k r
              ≡ or_else (value_of k settings) (
                  or_else (value_of k (load_settings codec before.tables.app_settings))
                    (value_of k defaults))))

reads-ok :
    (s d : Settings) (o : Result Settings)
    → ReadsOver s d o
    → (r : Settings) × (o ≡ ok r)
      × ((k : String) → value_of k r ≡ or_else (value_of k s) (value_of k d))
reads-ok s d (err e) h = absurd h
reads-ok s d (ok r) h = (r, refl, h)

module _ (f : Formats) (ops : TextOps) (getenv : Env) (codec : Codec)
    (fingerprint : Settings → String) (now : ℕ) (uuid : String) (d : Settings)
    (defaults : load_settings_from_env ops getenv ≡ ok d) where
  fresh-over :
      (settings : Settings) (t : List AppSetting)
      → IsRead codec settings
      → HasUniqueKeys AppSetting.key str_eq t
      → (r : Settings) × ((get_settings ops getenv codec none
            (put_settings codec now uuid settings t)
            fresh_process).0
          ≡ ok r)
        × ((k : String)
            → value_of k r
              ≡ or_else
                  (value_of k settings)
                  (or_else (value_of k (load_settings codec t)) (value_of k d)))
  fresh-over settings t reads unique =
      let after = put_settings codec now uuid settings t in
      let (r, read, values) =
        reads-ok (load_settings codec after) d _
          (fresh-ReadsOver ops getenv codec d defaults after) in
      (
        r,
        read,
        λ k.
            values k
            ∙ ap (λ o. or_else o (value_of k d))
                (load-put_settings codec now uuid settings t k reads unique)
            ∙ or_else_assoc (value_of k settings) (value_of k (load_settings codec t))
                (value_of k d),
      )

  saved_persisted :
      (settings : Settings) (version : Option String) (dates : List ℕ) (jobs : Result (List JobRun))
      → (saved_with f codec fingerprint now uuid settings version dates jobs).persisted ≡ true
  saved_persisted settings version dates (err e) = refl
  saved_persisted settings version dates (ok jobs) = refl

  -- An update with settings that could be saved reports that, and stores exactly one version under their
  -- fingerprint, if there was at most one. The process then reads exactly these settings, and a new process
  -- reads them over what the table held before, and that over the defaults of the environment.
  pub update_settings_lem :
      (env : ℕ → Environment) (db : Logs) (s : Setting) (ss : Settings) (before : State)
      → IsRead codec (s ∷ ss)
      → HasUniqueKeys AppSetting.key str_eq before.tables.app_settings
      → count_where (has_fingerprint (fingerprint (s ∷ ss))) before.tables.versions ≤ 1
      → let (answer, after) =
          update_settings f codec fingerprint now uuid env stored db (s ∷ ss) before in
        (answer.persisted ≡ true)
        × (count_where (has_fingerprint (fingerprint (s ∷ ss))) after.tables.versions ≡ 1)
        × Reaches (ops, getenv, codec) (s ∷ ss) d before after
  unfolding update_settings
  update_settings_lem env db s ss before reads unique few =
      let t = before.tables.app_settings in
      let after = put_settings codec now uuid (s ∷ ss) t in
      (
        saved_persisted (s ∷ ss) _ _ _,
        ensure_settings_version_count codec now uuid (s ∷ ss) (fingerprint (s ∷ ss))
            before.tables.versions few,
        (
          get_settings_cached ops getenv codec d defaults after
              (record { cache = s ∷ ss; cached_at = get_settings_updated_at after }) refl refl,
          fresh-over (s ∷ ss) t reads unique,
        ),
      )
