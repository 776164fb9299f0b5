-- ===== src/RateLimit/Tests.antt =====
-- The limiter at concrete times.
use fraudhunter.Common.{ℕ, arith, List, [], ◌∷◌, count_where}
use fraudhunter.Common.Time.{seconds}
use fraudhunter.RateLimit.Limiter.{RateLimitRule, allow_key}
use fraudhunter.RateLimit.Window.{Answers, is_recent, allow_key-Answers}

abbrev rule : RateLimitRule
rule = record { limit = 2; window_seconds = 60 }

abbrev entries : List ℕ
entries = seconds 10 ∷ seconds 30 ∷ []

allow_key-Answers_example :
    Answers rule
      (count_where (is_recent (seconds 75) (seconds 60)) entries)
      (seconds 75)
      (allow_key (seconds 75) rule entries)
allow_key-Answers_example =
    allow_key-Answers (seconds 75) rule entries (omega arith) ((omega arith, tt), (tt, tt))
      (omega arith, (omega arith, tt)) (omega arith)
