-- ===== src/Settings/RoundTrip.antt =====
-- What the settings are after they were saved.
use fraudhunter.Common.{
  ℕ, ◌≤◌, String, Bool, Option, none, some, List, [], ◌∷◌, map, ◌≡◌, refl, ap, sym, ◌∙◌, arith, inl,
  inr, Bool-cases, str_eq, has, or_else, last_where, find_where, find-upsert_all,
  upsert_all-HasUniqueKeys, HasUniqueKeys, count_where, All, if◌then◌else◌, not_exists_of_count,
  find_none,
}
use mathlib.Core.Option
use fraudhunter.Cases.Followups.{str-IsKey}
use fraudhunter.Settings.Values.{Value, Setting, Settings, is_for, value_of}
use fraudhunter.Settings.Store.{
  AppSetting, Codec, put_setting, put_settings, setting_row, loaded_setting, load_settings,
}

-- Documented of `json`: `loads` reads what `dumps` writes of the values.
abbrev pub IsRead : Codec → Settings → Type 0
IsRead codec settings = All (λ (s : Setting). codec.loads (codec.dumps s.value) ≡ s.value) settings

pub or_else-none {ℓ} : {A : Type ℓ} (o : Option A) → or_else o none ≡ o
or_else-none none = refl
or_else-none (some x) = refl

pub map-or_else {ℓ κ} :
    {A : Type ℓ} {B : Type κ} (g : A → B) (o other : Option A)
    → or_else (Option.map g o) (Option.map g other) ≡ Option.map g (or_else o other)
map-or_else g none other = refl
map-or_else g (some x) other = refl

last-find {ℓ} :
    {A : Type ℓ} (q : A → Bool) (t : List A) → count_where q t ≤ 1 → last_where q t ≡ find_where q t
last-find q [] h = refl
last-find q (x ∷ t) h = elim (Bool-cases (q x)) [
  | inl this ↦
      let alone : last_where q t ≡ none =
        last-find q t (ground arith) ∙ find_none q t (not_exists_of_count q t (ground arith)) in
      rw (this, alone) refl
  | inr other ↦ rw (other, last-find q t (ground arith)) (or_else-none (find_where q t))
]

last-map {ℓ κ} :
    {A : Type ℓ} {B : Type κ} (q : B → Bool) (g : A → B) (t : List A)
    → last_where q (map g t) ≡ Option.map g (last_where (λ x. q (g x)) t)
last-map q g [] = refl
last-map q g (x ∷ t) = elim (Bool-cases (q (g x))) [
  | inl this ↦ rw (this, last-map q g t) (map-or_else g _ (some x))
  | inr other ↦ rw (other, last-map q g t) (map-or_else g _ none)
]

map-map {ℓ κ μ} :
    {A : Type ℓ} {B : Type κ} {C : Type μ} (g : B → C) (h : A → B) (o : Option A)
    → Option.map g (Option.map h o) ≡ Option.map (λ x. g (h x)) o
map-map g h none = refl
map-map g h (some x) = refl

module _ (codec : Codec) where
  abbrev read_row : AppSetting → Value
  read_row row = codec.loads row.value

  -- The value that the table holds of a key.
  loaded-value :
      (k : String) (t : List AppSetting)
      → HasUniqueKeys AppSetting.key str_eq t
      → value_of k (load_settings codec t)
        ≡ Option.map read_row (find_where (has AppSetting.key str_eq k) t)
  unfolding load_settings
  loaded-value k t unique =
      ap (Option.map Setting.value) (last-map (is_for k) (loaded_setting codec) t)
      ∙ map-map Setting.value (loaded_setting codec) (last_where (has AppSetting.key str_eq k) t)
      ∙ ap (Option.map read_row) (last-find (has AppSetting.key str_eq k) t (unique k))

  module _ (now : ℕ) (uuid : String) where
    -- What is read of a row that was written.
    abbrev reread : Option Setting → Option Value
    reread o = Option.map read_row (Option.map (setting_row codec now uuid) o)

    reread-or_else :
        (o other : Option Setting) → reread (or_else o other) ≡ or_else (reread o) (reread other)
    reread-or_else none other = refl
    reread-or_else (some s) other = refl

    read_here :
        (q : Setting → Bool) (s : Setting)
        → codec.loads (codec.dumps s.value) ≡ s.value
        → reread (if q s then some s else none)
          ≡ Option.map Setting.value (if q s then some s else none)
    read_here q s h = elim (Bool-cases (q s)) [
      | inl this ↦ rw this (ap (λ v. some v) h)
      | inr other ↦ rw other refl
    ]

    read_back :
        (q : Setting → Bool) (settings : Settings)
        → IsRead codec settings
        → reread (last_where q settings) ≡ Option.map Setting.value (last_where q settings)
    read_back q [] h = refl
    read_back q (s ∷ ss) (h, hs) =
        let here : Option Setting = if q s then some s else none in
        reread-or_else (last_where q ss) here
        ∙ ap (λ o. or_else o (reread here)) (read_back q ss hs)
        ∙ ap (or_else (Option.map Setting.value (last_where q ss))) (read_here q s h)
        ∙ map-or_else Setting.value (last_where q ss) here

    abbrev saved : Settings → List AppSetting → List AppSetting
    saved settings t = put_settings codec now uuid settings t

    saved-HasUniqueKeys :
        (settings : Settings) (t : List AppSetting)
        → HasUniqueKeys AppSetting.key str_eq t
        → HasUniqueKeys AppSetting.key str_eq (saved settings t)
    saved-HasUniqueKeys settings t =
        upsert_all-HasUniqueKeys AppSetting.key str_eq (str-IsKey AppSetting.key) put_setting
          (λ row old. refl) (map (setting_row codec now uuid) settings) t

    -- What is loaded after settings were saved: their values, and under other keys the values that were there.
    pub load-put_settings :
        (settings : Settings) (t : List AppSetting) (k : String)
        → IsRead codec settings
        → HasUniqueKeys AppSetting.key str_eq t
        → value_of k (load_settings codec (put_settings codec now uuid settings t))
          ≡ or_else (value_of k settings) (value_of k (load_settings codec t))
    load-put_settings settings t k reads unique =
        let rows = map (setting_row codec now uuid) settings in
        let q = has AppSetting.key str_eq k in
        loaded-value k (saved settings t) (saved-HasUniqueKeys settings t unique)
        ∙ ap (Option.map read_row) (
            find-upsert_all AppSetting.key str_eq (str-IsKey AppSetting.key) put_setting
              (λ row old. refl) (λ row old same. ap (λ (i : String). record row { key = i }) same)
              rows t k)
        ∙ sym (map-or_else read_row (last_where q rows) (find_where q t))
        ∙ ap (λ o. or_else o (Option.map read_row (find_where q t)))
            (ap (Option.map read_row) (last-map q (setting_row codec now uuid) settings)
              ∙ read_back (is_for k) settings reads)
        ∙ ap (or_else (value_of k settings)) (sym (loaded-value k t unique))
