-- ===== src/Settings/Env.antt =====
-- `_require`, `_env_int` and `_env_bool` of `config.py`.
use Prim.Native.String.{◌++◌ as str_append}
use fraudhunter.Common.{
  String, Bool, true, false, Option, none, some, [], ◌∷◌, str_eq, if◌then◌else◌, exists_where,
}
use fraudhunter.Common.Int.{ℤ}
use fraudhunter.Common.Result.{Result, ok, err, value_error}

-- What Python's library computes on texts.
pub record TextOps : Type 0 where
  -- `text.strip()` and `text.lower()`
  pub strip : String → String
  pub lower : String → String
  -- `text.lstrip("/")` and `text.rstrip("/")`
  pub lstrip_slash : String → String
  pub rstrip_slash : String → String
  -- `text.startswith(prefix)`
  pub starts_with : (prefix text : String) → Bool
  -- `text.split(":", 1)`, none if the text has no colon
  pub split_colon : String → Option (String × String)
  -- `int(text)`, none for the `ValueError`
  pub parse_int : String → Option ℤ

-- `os.getenv`, after the .env file has been read.
abbrev pub Env : Type 0
Env = String → Option String

-- Python's truth of an optional text.
abbrev pub is_set : Option String → Bool
is_set none = false
is_set (some s) = if str_eq s "" then false else true

-- `a or b`
abbrev pub or_other : Option String → Option String → Option String
or_other a b = if is_set a then a else b

-- `text in {"1", "true", "yes", "on"}`
abbrev pub is_truth_word : String → Bool
is_truth_word s = exists_where (str_eq s) ("1" ∷ "true" ∷ "yes" ∷ "on" ∷ [])

module _ (ops : TextOps) where
  -- `value is None or value.strip() == ""`
  abbrev pub is_blank : Option String → Bool
  is_blank none = true
  is_blank (some s) = str_eq (ops.strip s) ""

  -- `_require`
  abbrev pub require : (value : Option String) (name : String) → Result String
  require none name =
      err (value_error (str_append name " is required. Set it via environment or CLI."))
  require (some s) name =
      if str_eq (ops.strip s) ""
      then err (value_error (str_append name " is required. Set it via environment or CLI."))
      else ok (ops.strip s)

  -- `int(raw)`, on a variable that is set
  abbrev pub int_of : (name raw : String) → Result ℤ
  int_of name raw = elim (ops.parse_int raw) [
    | none ↦ err (value_error (str_append name " must be an integer."))
    | some n ↦ ok n
  ]

  -- `_env_int` and `_env_bool`, on the value of the variable
  abbrev pub int_or : (name : String) (default : ℤ) → Option String → Result ℤ
  int_or name default none = ok default
  int_or name default (some raw) = if str_eq (ops.strip raw) "" then ok default else int_of name raw

  abbrev pub bool_or : (default : Bool) → Option String → Bool
  bool_or default none = default
  bool_or default (some raw) =
      if str_eq (ops.strip raw) "" then default else is_truth_word (ops.lower (ops.strip raw))

  -- `_env_int`
  abbrev pub env_int : Env → (name : String) (default : ℤ) → Result ℤ
  env_int env name default = int_or name default (env name)

  -- `_env_bool`
  abbrev pub env_bool : Env → (name : String) (default : Bool) → Bool
  env_bool env name default = bool_or default (env name)
