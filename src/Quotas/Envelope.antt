-- ===== src/Quotas/Envelope.antt =====
-- The limits of a reservation, from the plan and the settings (`scheduled_quota_limits`).
use sm_poster.Quotas.Calendar.{Date, date_le}
use sm_poster.Prelude.{
  ℕ, ◌+◌, ◌-◌, ◌*◌, ◌/◌, max, Bool, true, false, not, ◌&&◌, Option, none, some, ◌==◌, leb,
}

-- The codes of `ScheduledQuotaError`; `limits_not_positive` is the `ValueError` of
-- `ScheduledQuotaLimits`.
pub data QuotaError : Type 0 where
  plan_envelope_invalid identity_required limits_invalid ledger_too_large ledger_inconsistent
        ledger_unavailable publication_identity_conflict existing_limit_exceeded
        database_unsupported control_row_missing daily_limit monthly_limit product_limit
        vendor_limit board_limit reservation_conflict limits_not_positive commitment_stale
        commitment_ambiguous commitment_conflict commitments_too_large local_canary_media_pending
        publication_not_claimable claim_lost admission_inconsistent :
      QuotaError

pub data Result (A : Type 0) : Type 0 where
  ok : A → Result A
  err : QuotaError → Result A

infixl 5 ◌>>=◌ ◌>>◌
abbrev pub ◌>>=◌ : {A B : Type 0} → Result A → (A → Result B) → Result B
ok a >>= f = f a
err e >>= f = err e

abbrev pub ◌>>◌ : {B : Type 0} → Result (Unit {0}) → Result B → Result B
m >> k = m >>= λ _. k

abbrev pub raise_if : Bool → QuotaError → Result (Unit {0})
raise_if true e = err e
raise_if false e = ok tt

-- `ScheduledQuotaLimits`.
pub record Limits : Type 0 where
  pub daily : ℕ
  pub monthly : ℕ
  pub product : ℕ
  pub vendor : ℕ
  pub board : ℕ

-- A `Decimal` share, `numerator / scale`.
pub record Share : Type 0 where
  pub numerator : ℕ
  pub scale : ℕ

pub record Settings : Type 0 where
  pub monthly_pin_target : ℕ
  pub daily_write_limit : ℕ
  pub max_pins_per_product : ℕ
  pub max_vendor_share : Share
  pub max_board_share : Share

pub record Plan : Type 0 where
  pub month_start : Date
  pub month_end : Date
  pub target_pins : ℕ

-- `to_integral_value(rounding=ROUND_CEILING)` of `target * share`, and at least 1.
unfoldable pub share_limit : ℕ → Share → ℕ
share_limit target share = max 1 ((target * share.numerator + (share.scale - 1)) / share.scale)

abbrev pub limits_ok : Limits → Bool
limits_ok l = leb 1 l.daily && leb 1 l.monthly && leb 1 l.product && leb 1 l.vendor && leb 1 l.board

-- `scheduled_quota_limits`; a missing plan is `none`.
unfoldable pub scheduled_quota_limits : Option Plan → Settings → Date → Result Limits
scheduled_quota_limits none settings scheduled_for = err plan_envelope_invalid
scheduled_quota_limits (some plan) settings scheduled_for = do
  raise_if
      (not (
        plan.month_start.day == 1
        && date_le plan.month_start scheduled_for
        && date_le scheduled_for plan.month_end
        && leb 1 plan.target_pins
        && leb plan.target_pins settings.monthly_pin_target))
      plan_envelope_invalid
  let limits : Limits = record {
    daily = settings.daily_write_limit;
    monthly = plan.target_pins;
    product = settings.max_pins_per_product;
    vendor = share_limit plan.target_pins settings.max_vendor_share;
    board = share_limit plan.target_pins settings.max_board_share;
  }
  raise_if (not (limits_ok limits)) limits_not_positive
  ok limits
