-- ===== src/Quotas/Caps.antt =====
-- The caps as an invariant of the ledger.
use sm_poster.Prelude.{
  ℕ, ◌<◌, ◌≤◌, ◌≡◌, refl, ◌⊎◌, inl, inr, String, Bool, true, Option, none, some, List, [], ◌∷◌,
  ◌++◌, arith, eq_iff, subst, Bool-cases, count_if, count_if-append,
}
use sm_poster.Quotas.Calendar.{Date, date_eq_iff}
use sm_poster.Quotas.Envelope.{Limits, Result, ok, err, QuotaError, limits_ok}
use sm_poster.Quotas.Ledger.{
  Database, Reservation, Request, Counts, counts_of, on_day, in_month, of_product, of_vendor,
  of_board, quota_usage, reservation_identity,
}
use sm_poster.Quotas.Reserve.{check_limits, settle, reserve_scheduled_quota}

-- No day and no month, and in no month a product, a vendor or a board, has more reservations than
-- its cap.
pub record IsWithin (l : Limits) (ledger : List Reservation) : Type 0 where
  pub daily : (day : Date) → count_if (on_day day) ledger ≤ l.daily
  pub monthly : (month : Date) → count_if (in_month month) ledger ≤ l.monthly
  pub product : (month : Date) (key : String) → count_if (of_product month key) ledger ≤ l.product
  pub vendor : (month : Date) (key : String) → count_if (of_vendor month key) ledger ≤ l.vendor
  pub board : (month : Date) (key : String) → count_if (of_board month key) ledger ≤ l.board

-- There is room for one more of each kind that the row counts for.
abbrev pub HasRoom : Limits → Counts → Type 0
HasRoom l c =
    (c.daily < l.daily)
    × (c.monthly < l.monthly)
    × (c.product < l.product)
    × (c.vendor < l.vendor)
    × (c.board < l.board)

check_limits-HasRoom : (c : Counts) (l : Limits) → check_limits c l ≡ ok tt → HasRoom l c
unfolding check_limits
check_limits-HasRoom c l h = ground arith

pub check-cases :
    {A : Type 0} (r : Result A) → ((a : A) × (r ≡ ok a)) ⊎ ((e : QuotaError) × (r ≡ err e))
check-cases (ok a) = inl (a, refl)
check-cases (err e) = inr (e, refl)

module _ (test : Reservation → Bool) (ledger : List Reservation) (row : Reservation) (cap : ℕ) where
  -- One more row breaks no cap that it does not count for, and none with room for it.
  count_one_more :
      count_if test ledger ≤ cap
      → (test row ≡ true → count_if test ledger < cap)
      → count_if test (ledger ++ row ∷ []) ≤ cap
  count_one_more h room = elim (Bool-cases (test row)) [
    | inl counts ↦ rw (count_if-append test ledger (row ∷ []), counts) (omega (arith, room counts))
    | inr not_counted ↦ rw (count_if-append test ledger (row ∷ []), not_counted) (omega arith)
  ]

module _ (l : Limits) (ledger : List Reservation) (row : Reservation) where
  append-IsWithin :
      IsWithin l ledger → HasRoom l (counts_of ledger row) → IsWithin l (ledger ++ row ∷ [])
  unfolding counts_of
  append-IsWithin h (room_day, room_month, room_product, room_vendor, room_board) = record {
    daily = λ day.
        count_one_more (on_day day) ledger row l.daily (h.daily day)
          (λ c. ground (arith, date_eq_iff row.scheduled_for day));
    monthly = λ month.
        count_one_more (in_month month) ledger row l.monthly (h.monthly month)
          (λ c. ground (arith, date_eq_iff row.month_start month));
    product = λ month key.
        count_one_more (of_product month key) ledger row l.product (h.product month key)
          (λ c. ground (arith, date_eq_iff row.month_start month, eq_iff row.product_id key));
    vendor = λ month key.
        count_one_more (of_vendor month key) ledger row l.vendor (h.vendor month key)
          (λ c. ground (arith, date_eq_iff row.month_start month, eq_iff row.vendor_key key));
    board = λ month key.
        count_one_more (of_board month key) ledger row l.board (h.board month key)
          (λ c. ground (arith, date_eq_iff row.month_start month, eq_iff row.board_id key));
  }

module _ (normalize : String → String) where
  settle-IsWithin :
      (db : Database) (l : Limits) (identity : Reservation) (existing : Option Reservation)
      (row : Reservation) (ledger : List Reservation)
      → IsWithin l db.ledger
      → settle normalize db l identity (counts_of db.ledger identity) existing ≡ ok (row, ledger)
      → IsWithin l ledger
  unfolding settle
  settle-IsWithin db l identity (some old) row ledger h e = subst (IsWithin l) (same_ledger old) h
    where
      same_ledger : Reservation → db.ledger ≡ ledger
      same_ledger o = ground arith
  settle-IsWithin db l identity none row ledger h e =
      elim (check-cases (check_limits (counts_of db.ledger identity) l)) [
        | inl (t, passed) ↦ subst (IsWithin l) (added passed) (
            append-IsWithin l db.ledger identity h
              (check_limits-HasRoom (counts_of db.ledger identity) l passed))
        | inr (x, failed) ↦ absurd (refused x failed)
      ]
    where
      added :
          check_limits (counts_of db.ledger identity) l ≡ ok tt
          → db.ledger ++ identity ∷ [] ≡ ledger
      added passed = ground arith

      refused : (x : QuotaError) → check_limits (counts_of db.ledger identity) l ≡ err x → ⊥
      refused x failed = ground arith

  pub usage-counts :
      (ledger : List Reservation) (identity : Reservation) (c : Counts)
      (existing : Option Reservation)
      → quota_usage normalize ledger identity ≡ ok (c, existing)
      → c ≡ counts_of ledger identity
  unfolding quota_usage
  usage-counts ledger identity c existing h = ground arith

  -- What a reservation that succeeds has gone through.
  reserve-inv :
      (db : Database) (r : Request) (l : Limits) (row : Reservation) (ledger : List Reservation)
      → reserve_scheduled_quota normalize db r l ≡ ok (row, ledger)
      → (identity : Reservation) × (existing : Option Reservation) × (reservation_identity normalize
            r
          ≡ ok identity)
        × (limits_ok l ≡ true)
        × (quota_usage normalize db.ledger identity ≡ ok (counts_of db.ledger identity, existing))
        × (settle normalize db l identity (counts_of db.ledger identity) existing
            ≡ ok (row, ledger))
  unfolding reserve_scheduled_quota
  reserve-inv db r l row ledger h = elim (check-cases (reservation_identity normalize r)) [
    | inr (x, e) ↦ absurd (ground arith)
    | inl (identity, e) ↦ elim (check-cases (quota_usage normalize db.ledger identity)) [
      | inr (x, u) ↦ absurd (ground arith)
      | inl ((c, existing), u) ↦
          let same = usage-counts db.ledger identity c existing u in
          (
            identity,
            existing,
            e,
            ground arith,
            subst (λ k. quota_usage normalize db.ledger identity ≡ ok (k, existing)) same u,
            subst (λ k. settle normalize db l identity k existing ≡ ok (row, ledger)) same
                (ground arith),
          )
    ]
  ]

-- A reservation keeps the ledger within the caps of its limits, on every day and in every month, for
-- every product, vendor and board.
pub reserve-IsWithin :
    (normalize : String → String) (db : Database) (r : Request) (l : Limits) (row : Reservation)
    (ledger : List Reservation)
    → IsWithin l db.ledger
    → reserve_scheduled_quota normalize db r l ≡ ok (row, ledger)
    → IsWithin l ledger
reserve-IsWithin normalize db r l row ledger h e =
    let (identity, existing, _, _, _, settled) = reserve-inv normalize db r l row ledger e in
    settle-IsWithin normalize db l identity existing row ledger h settled
