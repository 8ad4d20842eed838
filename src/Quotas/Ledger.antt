-- ===== src/Quotas/Ledger.antt =====
-- The ledger of reservations, and what it says of a month (`_quota_usage`).
use sm_poster.Quotas.Calendar.{Date, date_eq, date_le, date_lt, first_of_month, following_month}
use sm_poster.Prelude.{
  ℕ, String, Bool, false, not, ◌&&◌, ◌||◌, Option, none, some, List, [], ◌∷◌, ltb, str_eq, all,
  keep, count_if, length, has_content, truthy,
}
use sm_poster.Quotas.Envelope.{
  Result, ◌>>=◌, ◌>>◌, raise_if, identity_required, ledger_too_large, ledger_inconsistent,
  ledger_unavailable, publication_identity_conflict, ok, err,
}

-- The columns of a reservation, which are also its identity.
pub record Reservation : Type 0 where
  pub publication_id : String
  pub plan_id : String
  pub plan_item_id : String
  pub product_id : String
  pub vendor_key : String
  pub board_id : String
  pub scheduled_for : Date
  pub month_start : Date

-- The arguments of `reserve_scheduled_quota`.
pub record Request : Type 0 where
  pub publication_id : String
  pub plan_id : String
  pub plan_item_id : String
  pub product_id : String
  pub vendor_key : String
  pub board_id : String
  pub scheduled_for : Date

-- The state that the service reads: the ledger, whether the control row is there, the dialect, and
-- whether the database refuses a new row of the ledger at its flush.
pub record Database : Type 0 where
  pub ledger : List Reservation
  pub control_row : Bool
  pub is_postgresql : Bool
  pub refuses_row : Bool

-- `normalize` is `strip().casefold()`.
module _ (normalize : String → String) where
  unfoldable pub reservation_identity : Request → Result Reservation
  reservation_identity r = do
    let identity : Reservation = record {
      publication_id = r.publication_id;
      plan_id = r.plan_id;
      plan_item_id = r.plan_item_id;
      product_id = r.product_id;
      vendor_key = normalize r.vendor_key;
      board_id = r.board_id;
      scheduled_for = r.scheduled_for;
      month_start = first_of_month r.scheduled_for;
    }
    raise_if
        (not (
          has_content identity.publication_id
          && has_content identity.plan_id
          && has_content identity.plan_item_id
          && has_content identity.product_id
          && has_content identity.vendor_key
          && has_content identity.board_id))
        identity_required
    ok identity

  -- A row of a month bucket that could evade a count.
  unfoldable pub row_consistent : Reservation → Bool
  row_consistent row =
      date_eq row.month_start (first_of_month row.scheduled_for)
      && truthy row.vendor_key
      && str_eq row.vendor_key (normalize row.vendor_key)

pub record Counts : Type 0 where
  pub daily : ℕ
  pub monthly : ℕ
  pub product : ℕ
  pub vendor : ℕ
  pub board : ℕ

-- The conditions of the five counts.
abbrev pub on_day : Date → Reservation → Bool
on_day day row = date_eq row.scheduled_for day

abbrev pub in_month : Date → Reservation → Bool
in_month month row = date_eq row.month_start month

abbrev pub of_product : Date → String → Reservation → Bool
of_product month product row = in_month month row && str_eq row.product_id product

abbrev pub of_vendor : Date → String → Reservation → Bool
of_vendor month vendor row = in_month month row && str_eq row.vendor_key vendor

abbrev pub of_board : Date → String → Reservation → Bool
of_board month board row = in_month month row && str_eq row.board_id board

unfoldable pub counts_of : List Reservation → Reservation → Counts
counts_of ledger identity = record {
  daily = count_if (on_day identity.scheduled_for) ledger;
  monthly = count_if (in_month identity.month_start) ledger;
  product = count_if (of_product identity.month_start identity.product_id) ledger;
  vendor = count_if (of_vendor identity.month_start identity.vendor_key) ledger;
  board = count_if (of_board identity.month_start identity.board_id) ledger;
}

abbrev pub max_month_rows_to_validate : ℕ
max_month_rows_to_validate = 10000

unfoldable pub same_identity : Reservation → Reservation → Bool
same_identity a b =
    str_eq a.publication_id b.publication_id
    && str_eq a.plan_id b.plan_id
    && str_eq a.plan_item_id b.plan_item_id
    && str_eq a.product_id b.product_id
    && str_eq a.vendor_key b.vendor_key
    && str_eq a.board_id b.board_id
    && date_eq a.scheduled_for b.scheduled_for
    && date_eq a.month_start b.month_start

abbrev pub of_publication : String → Reservation → Bool
of_publication id row = str_eq row.publication_id id

-- `one_or_none`, which raises on two rows.
abbrev pub one_or_none : List Reservation → Result (Option Reservation)
one_or_none [] = ok none
one_or_none (row ∷ []) = ok (some row)
one_or_none (row ∷ other ∷ rest) = err ledger_unavailable

-- The rows that belong to the month, by their bucket or by their date.
abbrev pub month_row : Reservation → Reservation → Bool
month_row identity row =
    in_month identity.month_start row
    || (date_le identity.month_start row.scheduled_for
        && date_lt row.scheduled_for (following_month identity.month_start))

abbrev pub conflicts : Option Reservation → Reservation → Bool
conflicts none identity = false
conflicts (some row) identity = not (same_identity row identity)

-- `normalize` is `strip().casefold()`.
module _ (normalize : String → String) where
  -- `_quota_usage`: the counts of the month, once its rows are known to be consistent, and the
  -- reservation that the publication already has.
  unfoldable pub quota_usage : List Reservation → Reservation → Result (Counts × Option Reservation)
  unfolding counts_of
  quota_usage ledger identity = do
    existing ← one_or_none (keep (of_publication identity.publication_id) ledger)
    let month_rows : List Reservation = keep (month_row identity) ledger
    raise_if (ltb max_month_rows_to_validate (length month_rows)) ledger_too_large
    raise_if (not (all (row_consistent normalize) month_rows)) ledger_inconsistent
    raise_if (conflicts existing identity) publication_identity_conflict
    ok (counts_of ledger identity, existing)
