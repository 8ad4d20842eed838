-- ===== src/Quotas/Lineage.antt =====
-- backend/app/services/routine_scheduled_commitments.py: the rows that `_publication_rows` joins, and the
-- identity that `_canonical_identity` reads from one.
use sm_poster.Quotas.Calendar.{Date, date_eq, date_le, first_of_month}
use sm_poster.Prelude.{
  ℕ, String, Bool, true, false, not, ◌&&◌, ◌||◌, Option, none, some, str_eq, text_eq, has_content,
}
use sm_poster.Domain.{PublicationStatus}
use sm_poster.Quotas.Envelope.{
  Result, ◌>>◌, raise_if, commitment_stale, commitment_ambiguous, commitment_conflict, err,
}
use sm_poster.Quotas.Ledger.{Reservation, reservation_identity}

-- The columns of the joined tables; a part is `none` where the outer join finds no row.
pub record ConceptPart : Type 0 where
  pub store_id : String
  pub product_id : String
  pub board_id : Option String
  pub angle_id : String

pub data ItemStatus : Type 0 where
  is_scheduled is_published is_other : ItemStatus

pub record ItemPart : Type 0 where
  pub id : String
  pub publication_id : Option String
  pub plan_id : String
  pub planned_date : Option Date
  pub product_id : String
  pub local_board_id : String
  pub board_key_snapshot : String
  pub angle_id : String
  pub is_reserve : Bool
  pub status : ItemStatus

pub data PlanState : Type 0 where
  is_active is_completed is_neither : PlanState

pub record PlanPart : Type 0 where
  pub id : String
  pub store_id : String
  pub month_start : Date
  pub month_end : Date
  pub status : PlanState

pub record ProductPart : Type 0 where
  pub id : String
  pub store_id : String
  pub vendor : Option String

pub record BoardPart : Type 0 where
  pub id : String
  pub store_id : String
  pub slug : String
  pub is_active : Bool

-- A row of `_publication_rows`; `scheduled_at` is the instant of the publication's time, and
-- `scheduled_day` its date in UTC.
pub record CommitmentRow : Type 0 where
  pub publication_id : String
  pub status : PublicationStatus
  pub scheduled_at : Option ℕ
  pub scheduled_day : Option Date
  pub publication_board_id : Option String
  pub has_draft : Bool
  pub concept : Option ConceptPart
  pub item : Option ItemPart
  pub plan : Option PlanPart
  pub product : Option ProductPart
  pub board : Option BoardPart

abbrev pub is_counted : PublicationStatus → Bool
is_counted PublicationStatus.scheduled = true
is_counted PublicationStatus.publishing = true
is_counted PublicationStatus.published = true
is_counted _ = false

abbrev pub is_published_status : PublicationStatus → Bool
is_published_status PublicationStatus.published = true
is_published_status _ = false

-- The item's and the plan's status for a publication that is published, or not yet.
abbrev item_fits : Bool → ItemStatus → Bool
item_fits true ItemStatus.is_published = true
item_fits false ItemStatus.is_scheduled = true
item_fits _ _ = false

abbrev plan_fits : Bool → PlanState → Bool
plan_fits published PlanState.is_active = true
plan_fits true PlanState.is_completed = true
plan_fits _ _ = false

abbrev opt_date_eq : Option Date → Date → Bool
opt_date_eq none day = false
opt_date_eq (some d) day = date_eq d day

abbrev none_or : Option String → String → Bool
none_or none id = true
none_or (some board) id = str_eq board id

-- The conditions that raise `SCHEDULED_QUOTA_COMMITMENT_CONFLICT`, negated.
unfoldable pub lineage_agrees :
    CommitmentRow → Date → Date → ConceptPart → ItemPart → PlanPart → ProductPart → BoardPart → Bool
lineage_agrees row first day concept item plan product board =
    let published = is_published_status row.status in
    str_eq concept.product_id product.id
    && str_eq item.product_id product.id
    && text_eq concept.board_id (some board.id)
    && str_eq item.local_board_id board.id
    && none_or row.publication_board_id board.id
    && str_eq concept.angle_id item.angle_id
    && str_eq item.board_key_snapshot board.slug
    && str_eq concept.store_id plan.store_id
    && str_eq product.store_id plan.store_id
    && str_eq board.store_id plan.store_id
    && board.is_active
    && str_eq item.plan_id plan.id
    && not item.is_reserve
    && opt_date_eq item.planned_date day
    && date_eq plan.month_start first
    && date_le plan.month_start day
    && date_le day plan.month_end
    && item_fits published item.status
    && plan_fits published plan.status

abbrev vendor_text : ProductPart → String
vendor_text p = elim p.vendor [ none ↦ "" | some v ↦ v ]

module _ (normalize : String → String) where
  unfoldable pub resolved_identity :
      CommitmentRow
      → Date
      → Date
      → ConceptPart
      → ItemPart
      → PlanPart
      → ProductPart
      → BoardPart
      → Result Reservation
  unfolding lineage_agrees
  resolved_identity row first day concept item plan product board = do
    raise_if
        (not (has_content (vendor_text product))
          || not (text_eq item.publication_id (some row.publication_id)))
        commitment_ambiguous
    raise_if (not (lineage_agrees row first day concept item plan product board))
        commitment_conflict
    reservation_identity normalize (record {
      publication_id = row.publication_id;
      plan_id = plan.id;
      plan_item_id = item.id;
      product_id = product.id;
      vendor_key = vendor_text product;
      board_id = board.id;
      scheduled_for = day;
    })

  -- The row's parts, none of which may be missing.
  abbrev pub with_lineage :
      CommitmentRow
      → Date
      → Date
      → Option ConceptPart
      → Option ItemPart
      → Option PlanPart
      → Option ProductPart
      → Option BoardPart
      → Result Reservation
  with_lineage row first day (some concept) (some item) (some plan) (some product) (some board) =
      resolved_identity row first day concept item plan product board
  with_lineage row first day _ _ _ _ _ = err commitment_ambiguous

  abbrev pub on_scheduled_day : CommitmentRow → Date → Option Date → Result Reservation
  on_scheduled_day row first none = err commitment_stale
  on_scheduled_day row first (some day) = do
    raise_if (not (date_eq (first_of_month day) first)) commitment_stale
    raise_if (not (is_counted row.status)) commitment_stale
    raise_if (not row.has_draft) commitment_ambiguous
    with_lineage row first day row.concept row.item row.plan row.product row.board

  unfoldable pub canonical_identity : CommitmentRow → Date → Result Reservation
  unfolding resolved_identity
  canonical_identity row first = on_scheduled_day row first row.scheduled_day
