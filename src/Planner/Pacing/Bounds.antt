-- ===== src/Planner/Pacing/Bounds.antt =====
-- How even the pacing is, and how many dates are planned.
use native.Mathlib.Nat.{
  mul-div_cancel_left, div-mul-le_self, lt-div-mul-add, lt_of_mul-lt-mul_right,
}
use sm_poster.Prelude.{
  ℕ, zero, suc, ◌+◌, ◌*◌, ◌/◌, ◌≤◌, ◌<◌, ◌≡◌, refl, List, [], ◌∷◌, arith, length, length-append,
}
use sm_poster.Planner.Pacing.{repeat, day_count, pace, zeros, daily_pacing}

length-repeat : (n day : ℕ) → length (repeat n day) ≡ n
unfolding repeat
length-repeat zero day = refl
length-repeat (suc n) day = omega (arith, length-repeat n day)

-- Where the days up to `index` end among the planned dates.
abbrev mark : ℕ → ℕ → ℕ → ℕ
mark total n index = (index * total) / n

module _ (total n index : ℕ) (some_day : 0 < n) where
  -- The next mark is the last one, and the whole quotient, and at most one more.
  mark_step :
      (mark total n index + total / n ≤ mark total n (index + 1))
      × (mark total n (index + 1) ≤ suc (mark total n index + total / n))
  mark_step =
      let a = mark total n index in
      let b = mark total n (index + 1) in
      let q = total / n in
      let a1 = div-mul-le_self (index * total) n in
      let a2 = lt-div-mul-add {a = index * total} some_day in
      let b1 = div-mul-le_self ((index + 1) * total) n in
      let b2 = lt-div-mul-add {a = (index + 1) * total} some_day in
      let q1 = div-mul-le_self total n in
      let q2 = lt-div-mul-add {a = total} some_day in
      let low : a + q < suc b = lt_of_mul-lt-mul_right n (omega arith) in
      let high : b < suc (suc (a + q)) = lt_of_mul-lt-mul_right n (omega arith) in
      (omega arith, omega arith)

  day_count_even :
      (total / n ≤ day_count total n index) × (day_count total n index ≤ suc (total / n))
  unfolding day_count
  day_count_even = let (low, high) = mark_step in (omega arith, omega arith)

  mark-day_count : mark total n (index + 1) ≡ mark total n index + day_count total n index
  unfolding day_count
  mark-day_count = let (low, high) = mark_step in omega arith

-- The days of the pacing are those given, and each day has the quotient or one more.
abbrev pub IsPaced : ℕ → ℕ → List ℕ → List (ℕ × ℕ) → Type 0
IsPaced total n [] [] = Unit
IsPaced total n (day ∷ days) ((d, count) ∷ rest) =
    (d ≡ day) × ((total / n ≤ count) × (count ≤ suc (total / n))) × IsPaced total n days rest
IsPaced total n days pacing = ⊥

pace-IsPaced :
    (total n index : ℕ) (days : List ℕ) → 0 < n → IsPaced total n days (pace total n index days).1
unfolding pace
pace-IsPaced total n index [] some_day = tt
pace-IsPaced total n index (day ∷ days) some_day =
    (refl, day_count_even total n index some_day, pace-IsPaced total n (index + 1) days some_day)

zeros-IsPaced : (n : ℕ) → 0 < n → (days : List ℕ) → IsPaced 0 n days (zeros days)
zeros-IsPaced n some_day [] = tt
zeros-IsPaced n some_day (day ∷ days) =
    (refl, (omega arith, omega arith), zeros-IsPaced n some_day days)

length-pace :
    (total n index : ℕ) (days : List ℕ)
    → 0 < n
    → length (pace total n index days).0 + mark total n index ≡ mark total n (index + length days)
unfolding pace
length-pace total n index [] some_day =
    let e : index + 0 ≡ index = omega arith in rw e (omega arith)
length-pace total n index (day ∷ days) some_day =
    let count = day_count total n index in
    let rest = (pace total n (index + 1) days).0 in
    let ih = length-pace total n (index + 1) days some_day in
    let e : index + suc (length days) ≡ index + 1 + length days = omega arith in
    rw e (
      omega (
        arith,
        length-append (repeat count day) rest,
        length-repeat count day,
        mark-day_count total n index some_day,
      ))

last_mark : (total m n : ℕ) → m ≡ suc n → mark total (suc n) (0 + m) ≡ total
last_mark total m n h =
    let e : 0 + m ≡ suc n = omega arith in
    rw e (mul-div_cancel_left total {n = suc n} (omega arith))

first_mark : (total n : ℕ) → mark total (suc n) 0 ≡ 0
first_mark total n = ground arith

all_dates :
    (total n : ℕ) (days : List ℕ)
    → length days ≡ suc n
    → length (pace total (suc n) 0 days).0 ≡ total
all_dates total n days h = omega (
  arith,
  length-pace total (suc n) 0 days (omega arith),
  last_mark total (length days) n h,
  first_mark total n,
)

-- With a day to plan on, as many dates are planned as pins are needed, the pacing names each day
-- once and in order, and every day has the whole quotient of the pins by the days, or one more.
pub daily_pacing-IsPaced :
    (total day : ℕ) (days : List ℕ)
    → (length (daily_pacing total (day ∷ days)).0 ≡ total)
      × IsPaced total (suc (length days)) (day ∷ days) (daily_pacing total (day ∷ days)).1
unfolding daily_pacing
daily_pacing-IsPaced zero day days =
    (refl, zeros-IsPaced (suc (length days)) (omega arith) (day ∷ days))
daily_pacing-IsPaced (suc total) day days = (
  all_dates (suc total) (length days) (day ∷ days) refl,
  pace-IsPaced (suc total) (suc (length days)) 0 (day ∷ days) (omega arith),
)
