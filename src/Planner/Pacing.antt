-- ===== src/Planner/Pacing.antt =====
-- The days of a plan: `_eligible_dates` and `_daily_pacing`. A date is its ordinal.
pub mod Bounds
pub mod Month
use sm_poster.Prelude.{
  ℕ, zero, suc, ◌+◌, ◌-◌, ◌*◌, ◌/◌, ◌≤◌, ◌<◌, max, ◌≡◌, refl, Bool, true, false, List, [], ◌∷◌,
  ◌++◌, arith, All, length, length-append, ltb, if◌then◌else◌,
}

-- `[start + timedelta(days=index) for index in range(n)]`
unfoldable pub days_from : ℕ → ℕ → List ℕ
days_from start zero = []
days_from start (suc n) = start ∷ days_from (suc start) n

unfoldable pub eligible_dates : ℕ → ℕ → ℕ → List ℕ
unfolding days_from
eligible_dates month_start month_end today =
    let first = max month_start today in
    if ltb month_end today then [] else days_from first (month_end + 1 - first)

-- `[day] * count`
unfoldable pub repeat : ℕ → ℕ → List ℕ
repeat zero day = []
repeat (suc n) day = day ∷ repeat n day

-- `((index + 1) * total) // days - (index * total) // days`
unfoldable pub day_count : ℕ → ℕ → ℕ → ℕ
day_count total days index = ((index + 1) * total) / days - (index * total) / days

-- The loop over `zip(days, counts)`, from the day at `index` on: the planned dates and the count of
-- each day.
unfoldable pub pace : ℕ → ℕ → ℕ → List ℕ → List ℕ × List (ℕ × ℕ)
unfolding repeat day_count
pace total n index [] = ([], [])
pace total n index (day ∷ days) =
    let count = day_count total n index in
    let (dates, pacing) = pace total n (index + 1) days in
    (repeat count day ++ dates, (day, count) ∷ pacing)

abbrev pub zeros : List ℕ → List (ℕ × ℕ)
zeros [] = []
zeros (day ∷ days) = (day, 0) ∷ zeros days

unfoldable pub daily_pacing : ℕ → List ℕ → List ℕ × List (ℕ × ℕ)
unfolding pace
daily_pacing zero days = ([], zeros days)
daily_pacing (suc total) [] = ([], [])
daily_pacing (suc total) (day ∷ days) = pace (suc total) (suc (length days)) 0 (day ∷ days)
