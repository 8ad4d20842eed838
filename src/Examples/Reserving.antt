-- ===== src/Examples/Reserving.antt =====
-- Reservations of quota at concrete inputs.
use sm_poster.Prelude.{◌≡◌, refl, String, true, false, [], ◌∷◌, arith}
use sm_poster.Quotas.Envelope.{Limits, ok}
use sm_poster.Quotas.Ledger.{
  Database, Request, Reservation, reservation_identity, quota_usage, counts_of,
}
use sm_poster.Quotas.Reserve.{reserve_scheduled_quota, assess_scheduled_quota, settle, check_limits}
use sm_poster.Quotas.Calendar.{Date, date_eq, date_lt, date_le, first_of_month, following_month}
use sm_poster.Quotas.Caps.{IsWithin, reserve-IsWithin}
use sm_poster.Quotas.Agreement.{is_ok, answer, reserve_agrees_with_assess}

abbrev day : Date
day = record { year = 2026; month = 3; day = 14 }

abbrev database : Database
database = record { ledger = []; control_row = true; is_postgresql = true; refuses_row = false }

abbrev request : Request
request = record {
  publication_id = "publication";
  plan_id = "plan";
  plan_item_id = "item";
  product_id = "product";
  vendor_key = "vendor";
  board_id = "board";
  scheduled_for = day;
}

abbrev limits : Limits
limits = record { daily = 1; monthly = 20; product = 2; vendor = 5; board = 5 }

abbrev reserved : Reservation
reserved = record {
  publication_id = "publication";
  plan_id = "plan";
  plan_item_id = "item";
  product_id = "product";
  vendor_key = "vendor";
  board_id = "board";
  scheduled_for = day;
  month_start = record { year = 2026; month = 3; day = 1 };
}

abbrev as_written : String → String
as_written s = s

reserves : reserve_scheduled_quota as_written database request limits ≡ ok (reserved, reserved ∷ [])
unfolding reserve_scheduled_quota reservation_identity quota_usage counts_of settle check_limits
    date_eq date_lt date_le first_of_month following_month
reserves = refl

reserve-IsWithin_example : IsWithin limits (reserved ∷ [])
reserve-IsWithin_example =
    reserve-IsWithin as_written database request limits reserved (reserved ∷ [])
      (record {
        daily = λ d. omega arith;
        monthly = λ m. omega arith;
        product = λ m key. omega arith;
        vendor = λ m key. omega arith;
        board = λ m key. omega arith;
      })
      reserves

reserve_agrees_with_assess_example :
    is_ok (reserve_scheduled_quota as_written database request limits)
    ≡ answer (assess_scheduled_quota as_written database request limits)
reserve_agrees_with_assess_example =
    reserve_agrees_with_assess as_written database request limits refl refl refl
