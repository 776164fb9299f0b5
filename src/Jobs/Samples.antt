-- ===== src/Jobs/Samples.antt =====
-- A library for the tests of the jobs.
use Prim.Native.Char.{nul}
use Prim.Native.String.{len}
use fraudhunter.Common.{ℕ, zero, suc, ap, ◌≡◌, refl, String, none, some, str_eq, if◌then◌else◌}
use fraudhunter.Common.Int.{pos}
use fraudhunter.Common.Json.{text}
use fraudhunter.Jobs.Formats.{Formats}

-- A library whose dates are unary texts.
unfoldable pub ticks : ℕ → String
ticks zero = ""
ticks (suc n) = String.◌∷◌ nul (ticks n)

unfoldable pub ticks_of : String → ℕ
ticks_of String.[] = 0
ticks_of (String.◌∷◌ c s) = suc (ticks_of s)

pub ticks_round_trip : (n : ℕ) → ticks_of (ticks n) ≡ n
unfolding ticks ticks_of
ticks_round_trip zero = refl
ticks_round_trip (suc n) = ap suc (ticks_round_trip n)

abbrev pub sample : Formats
sample = record {
  isoformat = ticks;
  fromisoformat = λ s. some (ticks_of s);
  parse_int = λ s. if str_eq s "9" then some (pos 9) else none;
  dumps = λ fields. "{}";
  show = λ v. elim v [ text s ↦ s | _ ↦ "value" ];
  exn_text = λ e. "error";
  show_int = λ n. ticks n;
  hashtext = λ s. len s;
  show_text = λ s. refl;
  iso_round_trip = λ d. ap some (ticks_round_trip d);
}
