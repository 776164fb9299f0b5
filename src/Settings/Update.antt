-- ===== src/Settings/Update.antt =====
-- `update_settings` of `services/settings.py`, which saves the settings and queues recomputations of the
-- findings.
use Prim.Native.String.{◌++◌ as str_append}
use fraudhunter.Common.{ℕ, String, Bool, true, false, not, Option, none, some, List, [], ◌∷◌, map}
use fraudhunter.Common.Result.{Result, Exn, ok, err}
use fraudhunter.Queue.Run.{JobRun}
use fraudhunter.Queue.Store.{Table}
use fraudhunter.Ingestion.Logs.{Logs}
use fraudhunter.Jobs.Formats.{Formats}
use fraudhunter.Jobs.Enqueue.{Environment}
use fraudhunter.Jobs.Requests.{enqueue_findings_recompute_jobs}
use fraudhunter.Jobs.Setup.{dates_from, get_available_dates}
use fraudhunter.Settings.Values.{Settings}
use fraudhunter.Settings.Store.{
  Tables, Codec, put_settings, ensure_settings_version, get_settings_updated_at,
}
use fraudhunter.Settings.Cache.{Process}

-- How the two transactions of `save_settings` went: that of the rows, and that of the version.
pub data Saving : Type 0 where
  stored : Saving
  rows_failed : Exn → Saving
  version_failed : Exn → Saving

-- The keys of the response that depend on what happened.
pub record SettingsUpdate : Type 0 where
  pub settings : Settings
  pub persisted : Bool
  pub settings_version_id : Option String
  pub findings_recomputed : Bool
  pub findings_recompute_enqueued : Bool
  pub recompute_job_ids : List String
  pub recompute_target_dates : List String
  pub generation_id : Option String
  pub warning : Option String

-- The process, the tables of the settings, and the queue.
pub record State : Type 0 where
  pub process : Process
  pub tables : Tables
  pub queue : Table

abbrev pub is_some_date : List ℕ → Bool
is_some_date [] = false
is_some_date (d ∷ ds) = true

module _ (f : Formats) (codec : Codec) (fingerprint : Settings → String) (now : ℕ)
    (uuid : String) where
  -- `save_settings`; an empty dict is no row, and has no version.
  abbrev pub save_settings : Saving → Settings → Tables → Result (Option String) × Tables
  save_settings saving [] t = (ok none, t)
  save_settings (rows_failed e) (s ∷ ss) t = (err e, t)
  save_settings (version_failed e) (s ∷ ss) t =
      (err e, record t { app_settings = put_settings codec now uuid (s ∷ ss) t.app_settings })
  save_settings stored (s ∷ ss) t =
      let settings = s ∷ ss in
      let (id, versions) =
        ensure_settings_version codec now uuid settings (fingerprint settings) t.versions in
      (
        ok (some id),
        record {
          app_settings = put_settings codec now uuid settings t.app_settings;
          versions = versions;
        },
      )

  -- The response where the settings were not saved; the process has them all the same.
  abbrev pub not_saved : Settings → Exn → SettingsUpdate
  not_saved settings e = record {
    settings = settings;
    persisted = false;
    settings_version_id = none;
    findings_recomputed = false;
    findings_recompute_enqueued = false;
    recompute_job_ids = [];
    recompute_target_dates = [];
    generation_id = none;
    warning = some (f.exn_text e);
  }

  -- The response after the settings were saved, on what the enqueueing returned or raised.
  abbrev pub saved_with :
      Settings → (version : Option String) (dates : List ℕ) → Result (List JobRun) → SettingsUpdate
  saved_with settings version dates (err e) = record {
    settings = settings;
    persisted = true;
    settings_version_id = version;
    findings_recomputed = false;
    findings_recompute_enqueued = false;
    recompute_job_ids = [];
    recompute_target_dates = [];
    generation_id = none;
    warning = some (f.exn_text e);
  }
  saved_with settings version dates (ok jobs) = record {
    settings = settings;
    persisted = true;
    settings_version_id = version;
    findings_recomputed = not (is_some_date dates);
    findings_recompute_enqueued = is_some_date dates;
    recompute_job_ids = map JobRun.id jobs;
    recompute_target_dates = map f.isoformat dates;
    generation_id = some (str_append "settings-" uuid);
    warning = none;
  }

  -- The second `try`: the dates that have logs, and their recomputations.
  abbrev pub enqueue_dates :
      (env : ℕ → Environment) → Result (List ℕ) → Table → (List ℕ × Result (List JobRun)) × Table
  enqueue_dates env (err e) q = (([], err e), q)
  enqueue_dates env (ok dates) q =
      let (jobs, q') =
        enqueue_findings_recompute_jobs f false env 0 dates (str_append "settings-" uuid)
          "settings_update" none q in
      ((dates, jobs), q')

  -- After `save_settings`.
  abbrev pub after_saving :
      (env : ℕ → Environment)
      → Logs
      → Settings
      → State
      → Result (Option String) × Tables
      → SettingsUpdate × State
  after_saving env db settings st (err e, t) = (
    not_saved settings e,
    record st { process = record st.process { cache = settings }; tables = t },
  )
  after_saving env db settings st (ok version, t) =
      let ((dates, jobs), q) =
        enqueue_dates env (dates_from f (get_available_dates f db)) st.queue in
      (
        saved_with settings version dates jobs,
        record {
          process = record { cache = settings; cached_at = get_settings_updated_at t.app_settings };
          tables = t;
          queue = q;
        },
      )

  -- `update_settings`
  unfoldable pub update_settings :
      (env : ℕ → Environment) → Saving → Logs → Settings → State → SettingsUpdate × State
  update_settings env saving db settings st =
      after_saving env db settings st (save_settings saving settings st.tables)
