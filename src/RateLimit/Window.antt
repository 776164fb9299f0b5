-- ===== src/RateLimit/Window.antt =====
-- What a limiter lets through in a window.
use fraudhunter.Common.{
  ℕ, ◌+◌, ◌≤◌, ◌<◌, Bool, true, false, List, [], ◌∷◌, ◌++◌, ◌≡◌, ◌↔◌, refl, arith, ltb, leb, inl,
  inr, Bool-cases, length, length-append, All, All-append, All-imp, count_where,
}
use fraudhunter.Common.Result.{Result, ok, err, ◌>>=◌}
use fraudhunter.Common.Time.{seconds}
use fraudhunter.RateLimit.Limiter.{RateLimitRule, drop_expired, retry_after, allow_key}

-- The entry is in the window that ends at `now`.
abbrev pub is_recent : (now window : ℕ) → ℕ → Bool
is_recent now window e = ltb now (e + window)

-- The entries stand in the order of their times.
abbrev pub IsSorted : List ℕ → Type 0
IsSorted [] = Unit {0}
IsSorted (e ∷ es) = All (λ x. e ≤ x) es × IsSorted es

count_of_All :
    (now window : ℕ) (es : List ℕ)
    → All (λ x. now < x + window) es
    → count_where (is_recent now window) es ≡ length es
count_of_All now window [] h = refl
count_of_All now window (e ∷ es) h = ground (arith, h.0, count_of_All now window es h.1)

-- In sorted entries, the ones that are left are the recent ones.
recent_left :
    (now window : ℕ) (es : List ℕ)
    → IsSorted es
    → length (drop_expired now window es) ≡ count_where (is_recent now window) es
recent_left now window [] h = refl
recent_left now window (e ∷ es) h = elim (Bool-cases (leb (e + window) now)) [
  | inl old ↦ ground (arith, recent_left now window es h.1)
  | inr fresh ↦
      let later : All (λ x. now < x + window) es =
        All-imp _ (λ x. now < x + window) es (λ x le. ground (arith, le)) h.0 in
      ground (arith, count_of_All now window es later)
]

drop-IsSorted : (now window : ℕ) (es : List ℕ) → IsSorted es → IsSorted (drop_expired now window es)
drop-IsSorted now window [] h = tt
drop-IsSorted now window (e ∷ es) h = elim (Bool-cases (leb (e + window) now)) [
  | inl old ↦ rw old (drop-IsSorted now window es h.1)
  | inr fresh ↦ rw fresh h
]

drop-All :
    (P : ℕ → Type 0) (now window : ℕ) (es : List ℕ) → All P es → All P (drop_expired now window es)
drop-All P now window [] h = tt
drop-All P now window (e ∷ es) h = elim (Bool-cases (leb (e + window) now)) [
  | inl old ↦ rw old (drop-All P now window es h.1)
  | inr fresh ↦ rw fresh h
]

push-IsSorted :
    (now : ℕ) (es : List ℕ) → IsSorted es → All (λ x. x ≤ now) es → IsSorted (es ++ now ∷ [])
push-IsSorted now [] h past = (tt, tt)
push-IsSorted now (e ∷ es) h past =
    (All-append (λ x. e ≤ x) es (now ∷ []) h.0 (past.0, tt), push-IsSorted now es h.1 past.1)

-- What a call must answer, if `n` requests of the key were let through in the window that ends now.
abbrev pub Answers : (rule : RateLimitRule) (n now : ℕ) → Result ((Bool × ℕ) × List ℕ) → Type 0
Answers rule n now (err e) = ⊥
Answers rule n now (ok ((allowed, wait), entries)) =
    ((allowed ≡ true) ↔ (n < rule.limit))
    × (allowed ≡ false → 1 ≤ wait)
    × (length entries ≤ rule.limit)
    × IsSorted entries
    × All (λ x. x ≤ now) entries

refused-Answers :
    (rule : RateLimitRule) (n now window : ℕ) (entries : List ℕ)
    → length entries ≡ n
    → 0 < rule.limit
    → rule.limit ≤ n
    → n ≤ rule.limit
    → IsSorted entries
    → All (λ x. x ≤ now) entries
    → Answers rule n now (retry_after now window entries >>= λ after. ok ((false, after), entries))
refused-Answers rule n now window [] e h full few sorted past = absurd (omega (arith, e, h, full))
refused-Answers rule n now window (x ∷ xs) e h full few sorted past = (
  (λ b. absurd (ground arith), λ lt. absurd (omega (arith, lt, full))),
  λ b. omega arith,
  omega (arith, e, few),
  sorted,
  past,
)

drop-le : (now window : ℕ) (es : List ℕ) → length (drop_expired now window es) ≤ length es
drop-le now window [] = omega arith
drop-le now window (e ∷ es) = ground (arith, drop-le now window es)

-- With a limit above 0, a clock that does not go back, and sorted entries within the limit, a call raises nothing and lets the request
-- through exactly if fewer than `limit` of its key were let through in the window that ends now, and
-- else says to wait for a second or more. The entries stay sorted and no more than the limit.
pub allow_key-Answers :
    (now : ℕ) (rule : RateLimitRule) (es : List ℕ)
    → 0 < rule.limit
    → IsSorted es
    → All (λ x. x ≤ now) es
    → length es ≤ rule.limit
    → Answers rule
        (count_where (is_recent now (seconds rule.window_seconds)) es)
        now
        (allow_key now rule es)
unfolding allow_key
allow_key-Answers now rule es h sorted past few =
    let window = seconds rule.window_seconds in
    let left = drop_expired now window es in
    let same = recent_left now window es sorted in
    let sorted' = drop-IsSorted now window es sorted in
    let past' = drop-All (λ x. x ≤ now) now window es past in
    elim (Bool-cases (leb rule.limit (length left))) [
      | inl full ↦ rw full (
          refused-Answers rule _ now window left same h (ground (arith, same))
            (omega (arith, same, drop-le now window es, few)) sorted' past')
      | inr open_ ↦ rw open_ (
        (λ b. ground (arith, same), λ lt. refl),
        λ b. absurd (ground arith),
        ground (arith, length-append left (now ∷ [])),
        push-IsSorted now left sorted' past',
        All-append (λ x. x ≤ now) left (now ∷ []) past' (omega arith, tt),
      )
    ]
