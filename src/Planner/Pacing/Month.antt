-- ===== src/Planner/Pacing/Month.antt =====
-- Which dates a plan uses: those of its month from today on.
use sm_poster.Prelude.{
  ℕ, zero, suc, ◌+◌, ◌-◌, ◌≤◌, ◌<◌, max, ◌≡◌, refl, inl, inr, false, List, [], ◌∷◌, arith, All,
  All-append, length, Bool-cases, ltb,
}
use sm_poster.Planner.Pacing.{days_from, eligible_dates, repeat, day_count, pace, daily_pacing}
use sm_poster.Planner.Pacing.Bounds.{daily_pacing-IsPaced}

days_from-All :
    (P : ℕ → Type 0) (start n : ℕ)
    → ((d : ℕ) → start ≤ d → d < start + n → P d)
    → All P (days_from start n)
unfolding days_from
days_from-All P start zero h = tt
days_from-All P start (suc n) h = (
  h start (omega arith) (omega arith),
  days_from-All P (suc start) n (λ d low high. h d (omega arith) (omega arith)),
)

-- A date of the plan's month that is not over yet.
abbrev pub IsOpen : ℕ → ℕ → ℕ → ℕ → Type 0
IsOpen month_start month_end today d = (month_start ≤ d) × (today ≤ d) × (d ≤ month_end)

eligible_dates-IsOpen :
    (month_start month_end today : ℕ)
    → All (IsOpen month_start month_end today) (eligible_dates month_start month_end today)
unfolding eligible_dates
eligible_dates-IsOpen month_start month_end today = elim (Bool-cases (ltb month_end today)) [
  | inl over ↦ rw over tt
  | inr still ↦ rw still (
      days_from-All (IsOpen month_start month_end today) (max month_start today)
        (month_end + 1 - max month_start today)
        (λ d low high. (omega arith, omega arith, omega arith)))
]

repeat-All : (P : ℕ → Type 0) (n day : ℕ) → P day → All P (repeat n day)
unfolding repeat
repeat-All P zero day h = tt
repeat-All P (suc n) day h = (h, repeat-All P n day h)

pace-All :
    (P : ℕ → Type 0) (total n index : ℕ) (days : List ℕ)
    → All P days
    → All P (pace total n index days).0
unfolding pace
pace-All P total n index [] h = tt
pace-All P total n index (day ∷ days) h =
    let count = day_count total n index in
    All-append P (repeat count day) (pace total n (index + 1) days).0 (repeat-All P count day h.0)
      (pace-All P total n (index + 1) days h.1)

daily_pacing-All :
    (P : ℕ → Type 0) (total : ℕ) (days : List ℕ) → All P days → All P (daily_pacing total days).0
unfolding daily_pacing
daily_pacing-All P zero days h = tt
daily_pacing-All P (suc total) [] h = tt
daily_pacing-All P (suc total) (day ∷ days) h =
    pace-All P (suc total) (suc (length days)) 0 (day ∷ days) h

some_day :
    (month_start month_end today : ℕ)
    → month_start ≤ month_end
    → today ≤ month_end
    → (day : ℕ) × (days : List ℕ) × (eligible_dates month_start month_end today ≡ day ∷ days)
unfolding eligible_dates days_from
some_day month_start month_end today a b =
    let first = max month_start today in
    let e : month_end + 1 - first ≡ suc (month_end - first) = omega arith in
    let still : ltb month_end today ≡ false = ground arith in
    (first, days_from (suc first) (month_end - first), rw (still, e) refl)

-- Of a month that is not over, as many dates are planned as pins are needed, and each of them is a
-- day of the month that is not before today.
pub planned_dates-IsOpen :
    (month_start month_end today total : ℕ)
    → month_start ≤ month_end
    → today ≤ month_end
    → (length (daily_pacing total (eligible_dates month_start month_end today)).0 ≡ total)
      × All
          (IsOpen month_start month_end today)
          (daily_pacing total (eligible_dates month_start month_end today)).0
planned_dates-IsOpen month_start month_end today total a b =
    let (day, days, e) = some_day month_start month_end today a b in
    (
      rw e ((daily_pacing-IsPaced total day days).0),
      daily_pacing-All (IsOpen month_start month_end today) total
          (eligible_dates month_start month_end today)
          (eligible_dates-IsOpen month_start month_end today),
    )
