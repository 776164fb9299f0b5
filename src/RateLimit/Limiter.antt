-- ===== src/RateLimit/Limiter.antt =====
-- `SlidingWindowRateLimiter` of `rate_limit.py`. What `time.time()` returns is an argument, in
-- microseconds, and the call is under the lock of the limiter, so calls come one after another.
use fraudhunter.Common.{
  ℕ, ◌+◌, ◌-◌, ◌/◌, String, Bool, true, false, List, [], ◌∷◌, ◌++◌, leb, str_eq, if◌then◌else◌, max,
  length,
}
use fraudhunter.Common.Result.{Result, ok, err, other_error, ◌>>=◌}
use fraudhunter.Common.Time.{seconds}

pub record RateLimitRule : Type 0 where
  pub limit : ℕ
  pub window_seconds : ℕ

-- `_events`, a `defaultdict(deque)`
abbrev pub Events : Type 0
Events = String → List ℕ

-- `while entries and entries[0] <= window_start: entries.popleft()`
abbrev pub drop_expired : (now window : ℕ) → List ℕ → List ℕ
drop_expired now window [] = []
drop_expired now window (e ∷ es) =
    let rest = drop_expired now window es in if leb (e + window) now then rest else e ∷ es

-- `retry_after`, of the first entry; without one the index raises an `IndexError`.
abbrev pub retry_after : (now window : ℕ) → List ℕ → Result ℕ
retry_after now window [] = err (other_error "deque index out of range")
retry_after now window (e ∷ es) = ok (max 1 ((e + window - now) / 1_000_000))

-- `allow`, on the entries of its key
unfoldable pub allow_key : (now : ℕ) → RateLimitRule → List ℕ → Result ((Bool × ℕ) × List ℕ)
allow_key now rule all =
    let window = seconds rule.window_seconds in
    let entries = drop_expired now window all in
    if leb rule.limit (length entries)
    then (do after ← retry_after now window entries; ok ((false, after), entries))
    else ok ((true, 0), entries ++ now ∷ [])

-- `allow`
unfoldable pub allow :
    (now : ℕ) (key : String) → RateLimitRule → Events → Result ((Bool × ℕ) × Events)
unfolding allow_key
allow now key rule events = do
  (answer, entries) ← allow_key now rule (events key)
  ok (answer, λ k. if str_eq k key then entries else events k)
