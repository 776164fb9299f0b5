-- ===== src/Common/Result.antt =====
-- Python exceptions as values: a call returns, or raises one of the kinds that the code tells apart.
use fraudhunter.Common.{String, ◌≡◌, refl, arith}

pub data Exn : Type 0 where
  -- `ValueError`, which `services/jobs.py` does not retry
  value_error : String → Exn
  -- a missing key of a dict
  key_error : String → Exn
  runtime_error : String → Exn
  -- `sqlalchemy.exc.IntegrityError`
  integrity_error : Exn
  -- any other exception, with its text
  other_error : String → Exn

pub data Result {ℓ} (A : Type ℓ) : Type ℓ where
  ok : A → Result A
  err : Exn → Result A

-- The statements of a function, one after another, until one raises.
infixl 4 ◌>>=◌
abbrev pub ◌>>=◌ {ℓ κ} : {A : Type ℓ} {B : Type κ} → Result A → (A → Result B) → Result B
err raised >>= rest = err raised
ok value >>= rest = rest value

-- A function that returned has come through its first statement.
module _ {ℓ κ} {A : Type ℓ} {B : Type κ} (rest : A → Result B) {value : B} where
  pub bind-ok :
      (first : Result A) (returned : (first >>= rest) ≡ ok value)
      → (x : A) × (first ≡ ok x) × (rest x ≡ ok value)
  bind-ok (err raised) returned = absurd (ground arith)
  bind-ok (ok x) returned = (x, refl, returned)

pub ok_inj {ℓ} : {A : Type ℓ} {x y : A} → ok x ≡ ok y → x ≡ y
ok_inj same = cc same
