-- ===== src/Quotas/Commitments.antt =====
-- backend/app/services/routine_scheduled_commitments.py: the quota with the publications that are
-- scheduled and have no reservation yet.
pub mod Rounds
pub mod Counted
use sm_poster.Quotas.Calendar.{Date, date_eq, date_le, date_lt, first_of_month, following_month}
use sm_poster.Prelude.{
  ℕ, zero, suc, ◌+◌, String, Bool, true, false, not, ◌&&◌, ◌||◌, Option, none, some, List, [], ◌∷◌,
  ◌++◌, any, all, keep, length, ltb, str_eq, text_eq, has_content, is_some, map, if◌then◌else◌,
}
use sm_poster.Domain.{PublicationStatus, status_eq}
use sm_poster.Quotas.Envelope.{
  Limits, Result, ◌>>=◌, ◌>>◌, raise_if, commitment_stale, commitment_ambiguous,
  commitment_conflict, commitments_too_large, existing_limit_exceeded, ok, err,
}
use sm_poster.Quotas.Ledger.{
  Counts, Database, Request, Reservation, reservation_identity, same_identity, in_month,
}
use sm_poster.Quotas.Reserve.{
  Assessment, all_positive, assess_scheduled_quota, exceeds, remaining_of,
}
use sm_poster.Quotas.Lineage.{
  ConceptPart, ItemStatus, ItemPart, PlanState, PlanPart, ProductPart, BoardPart, CommitmentRow,
  is_counted, is_published_status, lineage_agrees, resolved_identity, with_lineage,
  on_scheduled_day, canonical_identity,
}

-- `{row["publication_id"]: row for row in ledger_rows}.get(id)`: the last one.
unfoldable pub reserved_for : String → List Reservation → Option Reservation
reserved_for id [] = none
reserved_for id (r ∷ rest) = elim (reserved_for id rest) [
  | some later ↦ some later
  | none ↦ if str_eq r.publication_id id then some r else none
]

-- `value in seen`
abbrev pub is_seen : String → List String → Bool
is_seen id = any (λ s. str_eq s id)

-- The variables of the loop.
pub record Tally : Type 0 where
  pub seen : List String
  pub extra : Counts
  pub already_committed : Bool

abbrev add_if : Bool → ℕ → ℕ
add_if true n = suc n
add_if false n = n

unfoldable pub count_extra : Reservation → Reservation → Counts → Counts
count_extra identity canonical c = record {
  daily = add_if (date_eq canonical.scheduled_for identity.scheduled_for) c.daily;
  monthly = c.monthly + 1;
  product = add_if (str_eq canonical.product_id identity.product_id) c.product;
  vendor = add_if (str_eq canonical.vendor_key identity.vendor_key) c.vendor;
  board = add_if (str_eq canonical.board_id identity.board_id) c.board;
}

-- A commitment whose identity is `canonical`: it must be that of its reservation, or it is counted.
abbrev pub settle_row : Reservation → Reservation → Option Reservation → Tally → Result Tally
settle_row identity canonical (some r) t =
    raise_if (not (same_identity r canonical)) commitment_conflict >> ok t
settle_row identity canonical none t =
    ok (record t { extra = count_extra identity canonical t.extra })

abbrev pub is_skipped : CommitmentRow → Option Reservation → Bool
is_skipped row reserved = status_eq row.status PublicationStatus.cancelled && not (is_some reserved)

module _ (normalize : String → String) where
  abbrev pub resolve_row : Reservation → List Reservation → CommitmentRow → Tally → Result Tally
  resolve_row identity ledger row t = do
    canonical ← canonical_identity normalize row identity.month_start
    let mine : Bool = str_eq row.publication_id identity.publication_id
    raise_if (mine && not (same_identity canonical identity)) commitment_conflict
    settle_row identity canonical (reserved_for row.publication_id ledger)
        (record t { already_committed = t.already_committed || mine })

  -- The body of the loop.
  unfoldable pub tally_row : Reservation → List Reservation → CommitmentRow → Tally → Result Tally
  unfolding canonical_identity reserved_for count_extra
  tally_row identity ledger row t = do
    raise_if (is_seen row.publication_id t.seen) commitment_ambiguous
    let noted : Tally = record t { seen = row.publication_id ∷ t.seen }
    if is_skipped row (reserved_for row.publication_id ledger)
        then ok noted
        else resolve_row identity ledger row noted

  unfoldable pub tally_rows :
      Reservation → List Reservation → List CommitmentRow → Tally → Result Tally
  unfolding tally_row
  tally_rows identity ledger [] t = ok t
  tally_rows identity ledger (row ∷ rows) t =
      tally_row identity ledger row t >>= tally_rows identity ledger rows

abbrev pub in_days : Date → Option Date → Bool
in_days first none = false
in_days first (some day) = date_le first day && date_lt day (following_month first)

abbrev plan_starts : Date → Option PlanPart → Bool
plan_starts first none = false
plan_starts first (some plan) = date_eq plan.month_start first

abbrev planned_in : Date → Option ItemPart → Bool
planned_in first none = false
planned_in first (some item) = in_days first item.planned_date

-- The `where` of `_publication_rows`.
unfoldable pub is_commitment_row : Date → List String → CommitmentRow → Bool
is_commitment_row first ledger_ids row =
    in_days first row.scheduled_day
    || plan_starts first row.plan
    || planned_in first row.item
    || is_seen row.publication_id ledger_ids

abbrev pub of_month : Date → Reservation → Bool
of_month first r = in_month first r || in_days first (some r.scheduled_for)

abbrev pub max_commitments_to_validate : ℕ
max_commitments_to_validate = 10000

abbrev pub no_counts : Counts
no_counts = record { daily = 0; monthly = 0; product = 0; vendor = 0; board = 0 }

abbrev pub add_counts : Counts → Counts → Counts
add_counts a b = record {
  daily = a.daily + b.daily;
  monthly = a.monthly + b.monthly;
  product = a.product + b.product;
  vendor = a.vendor + b.vendor;
  board = a.board + b.board;
}

pub record CommitmentAssessment : Type 0 where
  pub used : Counts
  pub remaining : Counts
  pub can_reserve : Bool
  pub already_reserved : Bool
  pub already_committed : Bool

-- After the loop.
unfoldable pub finish_commitments :
    String → Limits → List Reservation → Assessment → Tally → Result CommitmentAssessment
finish_commitments publication_id limits ledger base tally =
    let used : Counts = add_counts base.used tally.extra in
    do
      raise_if (not (all (λ x. is_seen x.publication_id tally.seen) ledger)) commitment_stale
      raise_if (not (is_seen publication_id tally.seen)) commitment_stale
      raise_if (tally.already_committed && exceeds used limits) existing_limit_exceeded
      ok (record {
        used = used;
        remaining = remaining_of used limits;
        can_reserve = all_positive (remaining_of used limits);
        already_reserved = base.already_reserved;
        already_committed = tally.already_committed;
      })

-- The joined rows of the database, ordered by publication and item, are an argument.
module _ (normalize : String → String) where
  -- The rows of the month, and the reservations of the month and of those rows.
  unfoldable pub commitment_rows : Date → List Reservation → List CommitmentRow → List CommitmentRow
  unfolding is_commitment_row
  commitment_rows first ledger rows =
      keep (is_commitment_row first (map (λ r. r.publication_id) (keep (of_month first) ledger)))
        rows

  unfoldable pub ledger_of_rows : Date → List CommitmentRow → List Reservation → List Reservation
  ledger_of_rows first rows ledger =
      keep (λ r. of_month first r || any (λ row. str_eq row.publication_id r.publication_id) rows)
        ledger

  unfoldable pub tally_commitments :
      Request
      → Limits
      → Reservation
      → Assessment
      → List CommitmentRow
      → List Reservation
      → Result CommitmentAssessment
  unfolding tally_rows finish_commitments
  tally_commitments r limits identity base rows ledger = do
    raise_if (ltb max_commitments_to_validate (length ledger)) commitments_too_large
    tally ←
        tally_rows normalize identity ledger rows
          (record { seen = []; extra = no_counts; already_committed = false })
    finish_commitments r.publication_id limits ledger base tally

  -- `{key: value for key, value in identity.items() if key != "month_start"}`
  abbrev pub request_again : Reservation → Request
  request_again identity = record {
    publication_id = identity.publication_id;
    plan_id = identity.plan_id;
    plan_item_id = identity.plan_item_id;
    product_id = identity.product_id;
    vendor_key = identity.vendor_key;
    board_id = identity.board_id;
    scheduled_for = identity.scheduled_for;
  }

  unfoldable pub assess_scheduled_quota_with_commitments :
      Database → List CommitmentRow → Request → Limits → Result CommitmentAssessment
  unfolding commitment_rows ledger_of_rows tally_commitments
  assess_scheduled_quota_with_commitments db all_rows r limits = do
    identity ← reservation_identity normalize r
    base ← assess_scheduled_quota normalize db (request_again identity) limits
    let first : Date = identity.month_start
    raise_if (ltb max_commitments_to_validate (length (keep (of_month first) db.ledger)))
        commitments_too_large
    let rows : List CommitmentRow = commitment_rows first db.ledger all_rows
    raise_if (ltb max_commitments_to_validate (length rows)) commitments_too_large
    tally_commitments r limits identity base rows (ledger_of_rows first rows db.ledger)
