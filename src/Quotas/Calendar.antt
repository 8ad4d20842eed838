-- ===== src/Quotas/Calendar.antt =====
-- Python's `date`, as the quota ledger uses it.
use sm_poster.Prelude.{ℕ, ◌+◌, ◌≡◌, ◌↔◌, true, Bool, ◌&&◌, ◌||◌, ◌==◌, ltb, if◌then◌else◌, arith}

pub record Date : Type 0 where
  pub year : ℕ
  pub month : ℕ
  pub day : ℕ

unfoldable pub date_eq : Date → Date → Bool
date_eq a b = a.year == b.year && a.month == b.month && a.day == b.day

unfoldable pub date_lt : Date → Date → Bool
date_lt a b =
    ltb a.year b.year
    || (a.year == b.year && (ltb a.month b.month || (a.month == b.month && ltb a.day b.day)))

unfoldable pub date_le : Date → Date → Bool
unfolding date_lt date_eq
date_le a b = date_lt a b || date_eq a b

-- `date(d.year, d.month, 1)`
unfoldable pub first_of_month : Date → Date
first_of_month d = record d { day = 1 }

-- The first of the month after the month that begins at `first`.
unfoldable pub following_month : Date → Date
following_month first =
    if first.month == 12
    then record { year = first.year + 1; month = 1; day = 1 }
    else record { year = first.year; month = first.month + 1; day = 1 }

pub date_eq_iff : (a b : Date) → (date_eq a b ≡ true) ↔ (a ≡ b)
unfolding date_eq
date_eq_iff a b = (λ h. ground arith, λ h. ground arith)
