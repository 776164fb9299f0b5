-- ===== src/Console/Upcoming.antt =====
-- When the schedules run next.
use fraudhunter.Common.{
  ℕ, zero, suc, ◌+◌, ◌-◌, ◌*◌, ◌/◌, ◌%◌, ◌≤◌, ◌<◌, not, ◌||◌, some, List, [], ◌∷◌, ◌≡◌, refl, arith,
  inl, inr, ◌⊎◌, Bool-cases, leb, ◌==◌,
}
use fraudhunter.Common.Time.{hours, days}
use fraudhunter.Console.Schedules.{
  minutes, at_minute, at_hour, hour_of, next_hourly_run, six_hours_loop, next_every_six_hours_run,
  next_daily_run, next_minute, Schedule, build_schedule_metadata,
}

-- The first time after `now` that is `phase` into a period.
pub record IsNext (now period phase r : ℕ) : Type 0 where
  pub later : now < r
  pub soon : r ≤ now + period
  pub phased : r % period ≡ phase

hourly-IsNext :
    (now minute : ℕ)
    → minute < 60
    → IsNext now (hours 1) (minutes minute) (next_hourly_run now minute)
unfolding next_hourly_run
hourly-IsNext now minute h = elim (Bool-cases (leb (at_minute now minute) now)) [
  | inl past ↦
      let e : at_minute now minute ≤ now = ground arith in
      rw past (record { later = omega arith; soon = omega arith; phased = omega arith })
  | inr ahead ↦
      let e : now < at_minute now minute = ground arith in
      rw ahead (record { later = omega arith; soon = omega arith; phased = omega arith })
]

daily-IsNext :
    (now hour minute : ℕ)
    → hour < 24
    → minute < 60
    → IsNext now (days 1) (hours hour + minutes minute) (next_daily_run now hour minute)
unfolding next_daily_run
daily-IsNext now hour minute h k = elim (Bool-cases (leb (at_hour now hour minute) now)) [
  | inl past ↦
      let e : at_hour now hour minute ≤ now = ground arith in
      rw past (record { later = omega arith; soon = omega arith; phased = omega arith })
  | inr ahead ↦
      let e : now < at_hour now hour minute = ground arith in
      rw ahead (record { later = omega arith; soon = omega arith; phased = omega arith })
]

minute-IsNext : (now : ℕ) → IsNext now (minutes 1) 0 (next_minute now)
unfolding next_minute
minute-IsNext now = record { later = omega arith; soon = omega arith; phased = omega arith }

advance :
    (k minute : ℕ)
    → minute < 60
    → at_minute (hours k + minutes minute + hours 1) minute ≡ hours (suc k) + minutes minute
advance k minute h = omega arith

hour_of_k : (k minute : ℕ) → minute < 60 → hour_of (hours k + minutes minute) % 6 ≡ k % 6
hour_of_k k minute h = omega arith

zero_or_suc : (d : ℕ) → (d ≡ 0) ⊎ ((n : ℕ) × (d ≡ suc n))
zero_or_suc zero = inl refl
zero_or_suc (suc n) = inr (n, refl)

six_hours_lem :
    (fuel d now minute k : ℕ)
    → minute < 60
    → d < fuel
    → (k + d) % 6 ≡ 0
    → now < hours (k + d) + minutes minute
    → hours (k + d) + minutes minute ≤ now + hours 6
    → (r : ℕ) × (six_hours_loop fuel now minute (hours k + minutes minute) ≡ some r)
      × IsNext now (hours 6) (minutes minute) r
unfolding six_hours_loop
six_hours_lem zero d now minute k h lt on later soon = absurd (omega arith)
six_hours_lem (suc fuel) d now minute k h lt on later soon =
    let candidate = hours k + minutes minute in
    elim (Bool-cases (not (hour_of candidate % 6 == 0) || leb candidate now)) [
      | inl go ↦ elim (zero_or_suc d) [
        | inl e ↦ absurd (ground (arith, e, hour_of_k k minute h))
        | inr (d', e) ↦
            rw (go, advance k minute h)
              (six_hours_lem fuel d' now minute (suc k) h (omega (arith, e)) (omega (arith, e, on))
                (omega (arith, e)) (omega (arith, e)))
      ]
      | inr stop ↦
          let ahead : now < candidate = ground arith in
          let six : k % 6 ≡ 0 = ground (arith, hour_of_k k minute h) in
          rw stop (
            candidate,
            refl,
            record { later = ahead; soon = omega arith; phased = omega (arith, six) },
          )
    ]

-- The loop ends within seven rounds.
six_hours-IsNext :
    (now minute : ℕ)
    → minute < 60
    → (r : ℕ) × (next_every_six_hours_run 7 now minute ≡ some r)
      × IsNext now (hours 6) (minutes minute) r
six_hours-IsNext now minute h =
    let k = now / 3_600_000_000 in
    elim (Bool-cases (leb (hours ((k + 5) / 6 * 6) + minutes minute) now)) [
      | inl past ↦
          let e : hours ((k + 5) / 6 * 6) + minutes minute ≤ now = ground arith in
          six_hours_lem 7 ((k + 5) / 6 * 6 + 6 - k) now minute k h (omega arith) (omega arith)
            (omega arith) (omega arith)
      | inr ahead ↦
          let e : now < hours ((k + 5) / 6 * 6) + minutes minute = ground arith in
          six_hours_lem 7 ((k + 5) / 6 * 6 - k) now minute k h (omega arith) (omega arith)
            (omega arith) (omega arith)
    ]

-- The period of a schedule and the time into it, by its key.
abbrev pub cadence : List (ℕ × ℕ)
cadence =
    (hours 1, 0) ∷ (hours 6, minutes 15) ∷ (days 1, hours 3 + minutes 30) ∷ (minutes 1, 0) ∷ []

-- The entries follow the cadence.
abbrev pub Follows : (now : ℕ) → List Schedule → List (ℕ × ℕ) → Type 0
Follows now [] [] = Unit
Follows now (s ∷ ss) ((period, phase) ∷ cs) =
    ((r : ℕ) × (s.next_run_at ≡ some r) × IsNext now period phase r) × Follows now ss cs
Follows now _ _ = ⊥

-- At any time, each schedule shows its next run: the loop over the hours ends within seven rounds, and the run
-- lies after now, at most one period later, at the minute that the description names. The refresh runs
-- hourly, the backfill every six hours at minute 15, the master sync daily at 03:30, the worker every minute.
pub build_schedule_metadata-Follows :
    (now : ℕ) → Follows now (build_schedule_metadata 7 now) cadence
build_schedule_metadata-Follows now = (
  (next_hourly_run now 0, refl, hourly-IsNext now 0 (omega arith)),
  (
    six_hours-IsNext now 15 (omega arith),
    (
      (next_daily_run now 3 30, refl, daily-IsNext now 3 30 (omega arith) (omega arith)),
      ((next_minute now, refl, minute-IsNext now), tt),
    ),
  ),
)
