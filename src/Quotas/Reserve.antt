-- ===== src/Quotas/Reserve.antt =====
-- `assess_scheduled_quota` and `reserve_scheduled_quota`.
use sm_poster.Prelude.{
  ◌-◌, String, Bool, not, ◌&&◌, ◌||◌, Option, none, some, List, [], ◌∷◌, ◌++◌, ltb, leb, is_some,
}
use sm_poster.Quotas.Envelope.{
  Result, ◌>>=◌, ◌>>◌, raise_if, Limits, limits_ok, limits_invalid, existing_limit_exceeded,
  database_unsupported, control_row_missing, daily_limit, monthly_limit, product_limit,
  vendor_limit, board_limit, reservation_conflict, ok,
}
use sm_poster.Quotas.Ledger.{
  Reservation, Request, Database, reservation_identity, Counts, quota_usage,
}

abbrev pub exceeds : Counts → Limits → Bool
exceeds c l =
    ltb l.daily c.daily
    || ltb l.monthly c.monthly
    || ltb l.product c.product
    || ltb l.vendor c.vendor
    || ltb l.board c.board

pub record Assessment : Type 0 where
  pub used : Counts
  pub remaining : Counts
  pub can_reserve : Bool
  pub already_reserved : Bool

-- `max(0, limit - count)`
abbrev pub remaining_of : Counts → Limits → Counts
remaining_of c l = record {
  daily = l.daily - c.daily;
  monthly = l.monthly - c.monthly;
  product = l.product - c.product;
  vendor = l.vendor - c.vendor;
  board = l.board - c.board;
}

abbrev pub all_positive : Counts → Bool
all_positive c =
    ltb 0 c.daily && ltb 0 c.monthly && ltb 0 c.product && ltb 0 c.vendor && ltb 0 c.board

-- The five checks of a new reservation, in their order.
unfoldable pub check_limits : Counts → Limits → Result (Unit {0})
check_limits c l = do
  raise_if (leb l.daily c.daily) daily_limit
  raise_if (leb l.monthly c.monthly) monthly_limit
  raise_if (leb l.product c.product) product_limit
  raise_if (leb l.vendor c.vendor) vendor_limit
  raise_if (leb l.board c.board) board_limit

module _ (normalize : String → String) where
  unfoldable pub assess_scheduled_quota : Database → Request → Limits → Result Assessment
  assess_scheduled_quota db r limits = do
    identity ← reservation_identity normalize r
    raise_if (not (limits_ok limits)) limits_invalid
    (counts, existing) ← quota_usage normalize db.ledger identity
    raise_if (is_some existing && exceeds counts limits) existing_limit_exceeded
    ok (record {
      used = counts;
      remaining = remaining_of counts limits;
      can_reserve = all_positive (remaining_of counts limits);
      already_reserved = is_some existing;
    })

  -- An existing reservation is returned as it is; otherwise a row is added, unless the
  -- database refuses it: then its savepoint is rolled back.
  unfoldable pub settle :
      Database
      → Limits
      → Reservation
      → Counts
      → Option Reservation
      → Result (Reservation × List Reservation)
  unfolding check_limits
  settle db limits identity counts (some existing) = do
    raise_if (exceeds counts limits) existing_limit_exceeded
    ok (existing, db.ledger)
  settle db limits identity counts none = do
    check_limits counts limits
    raise_if db.refuses_row reservation_conflict
    ok (identity, db.ledger ++ identity ∷ [])

  -- The reservation and the ledger after it. The lock on the control row serialises writers, so that
  -- the ledger that is read is the one that is written.
  unfoldable pub reserve_scheduled_quota :
      Database → Request → Limits → Result (Reservation × List Reservation)
  unfolding settle
  reserve_scheduled_quota db r limits = do
    raise_if (not db.is_postgresql) database_unsupported
    identity ← reservation_identity normalize r
    raise_if (not (limits_ok limits)) limits_invalid
    raise_if (not db.control_row) control_row_missing
    (counts, existing) ← quota_usage normalize db.ledger identity
    settle db limits identity counts existing
