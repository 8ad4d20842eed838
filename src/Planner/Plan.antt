-- ===== src/Planner/Plan.antt =====
-- What the planner is given and what it answers: the values of pinterest_portfolio_planner.py.
use sm_poster.Prelude.{ℕ, Bool, Option, List}
use sm_poster.Domain.{PublicationStatus}
use sm_poster.Domain.Time.{Datetime}
use sm_poster.Quotas.Envelope.{Share}
use sm_poster.Planner.Candidates.{Counter, Counters}
use sm_poster.Planner.Select.{Stage}
use sm_poster.Planner.History.{HistoryRows}
use sm_poster.Planner.Pool.{PoolProduct, Proposal, Keyed, Identity}

pub record PlannerSettings : Type 0 where
  pub monthly_pin_target : ℕ
  pub max_pins_per_product : ℕ
  pub max_vendor_share : Share
  pub max_board_share : Share
  pub reserve_percentage : Share

-- The month: its first and last day, and the instants at which it starts and ends.
pub record Month : Type 0 where
  pub month_start : ℕ
  pub month_end : ℕ
  pub start_utc : ℕ
  pub end_utc : ℕ

-- `input_payload`: what the plan is made from.
pub record InputPayload : Type 0 where
  pub store_id : ℕ
  pub month_start : ℕ
  pub target_pins : ℕ
  pub max_pins_per_product : ℕ
  pub max_vendor_share : Share
  pub max_board_share : Share
  pub reserve_percentage : Share
  pub existing_publications : List (ℕ × PublicationStatus × Option Datetime)
  pub candidate_fingerprints : List ℕ
  pub missing_boards : Counter
  pub missing_angles : Counter

-- An entry of `plan_payload["items"]`.
pub record PayloadItem : Type 0 where
  pub slot_index : ℕ
  pub is_reserve : Bool
  pub planned_date : Option ℕ
  pub product_id : ℕ
  pub local_board_id : ℕ
  pub content_angle_id : ℕ
  pub candidate_fingerprint : ℕ

pub record CapRelaxation : Type 0 where
  pub used : Bool
  pub vendor_cap_relaxed : Bool
  pub board_cap_relaxed : Bool
  pub vendor_limit : ℕ
  pub board_limit : ℕ

pub record PlanPayload : Type 0 where
  pub input_fingerprint : ℕ
  pub month_start : ℕ
  pub month_end : ℕ
  pub items : List PayloadItem
  pub cap_relaxation : CapRelaxation

-- What the fingerprint of an item is taken of.
pub record ItemPayload : Type 0 where
  pub plan_fingerprint : ℕ
  pub slot_index : ℕ
  pub is_reserve : Bool
  pub planned_date : Option ℕ
  pub candidate_fingerprint : ℕ

-- What the planner reads. The `hash_` fields are `_hash` of the three payloads. `ceil` is `math.ceil` of the product of an integer and a float, whose
-- rounding is the platform's; `propose` is `propose_content` of the product's facts.
pub record World : Type 0 where
  pub history : HistoryRows
  pub products : List PoolProduct
  pub boards : List Keyed
  pub angles : List Keyed
  pub propose : PoolProduct → List Proposal
  pub fingerprint : Identity → ℕ
  pub ceil : ℕ → Share → ℕ
  pub hash_input : InputPayload → ℕ
  pub hash_plan : PlanPayload → ℕ
  pub hash_item : ItemPayload → ℕ

pub data Blocker : Type 0 where
  past_month publish_unknown_present insufficient_active_capacity insufficient_reserve_capacity
        no_future_dates :
      Blocker

pub record ItemSpec : Type 0 where
  pub slot_index : ℕ
  pub is_reserve : Bool
  pub planned_date : Option ℕ
  pub product_id : ℕ
  pub local_board_id : ℕ
  pub board_key_snapshot : ℕ
  pub content_angle_id : ℕ
  pub angle_key_snapshot : ℕ
  pub seed_keywords : ℕ
  pub selection_score : ℕ
  pub candidate_fingerprint : ℕ
  pub vendor_key : ℕ
  pub selection_stage : Stage
  pub relaxed_vendor_cap : Bool
  pub relaxed_board_cap : Bool

pub record CapPolicy : Type 0 where
  pub max_pins_per_product : ℕ
  pub max_vendor_share : Share
  pub max_board_share : Share
  pub vendor_limit : ℕ
  pub board_limit : ℕ

-- `item_fingerprints` are the `item_fingerprint` of the items, in their order.
pub record PortfolioPreview : Type 0 where
  pub blockers : List Blocker
  pub store_id : ℕ
  pub month_start : ℕ
  pub month_end : ℕ
  pub target_pins : ℕ
  pub existing_commitments : ℕ
  pub resolved_existing_commitments : ℕ
  pub remaining_active_slots : ℕ
  pub planned_active_slots : ℕ
  pub reserve_target : ℕ
  pub reserve_slots : ℕ
  pub candidate_count : ℕ
  pub cap_policy : CapPolicy
  pub cap_relaxation : CapRelaxation
  pub daily_pacing : List (ℕ × ℕ)
  pub distributions : Counters
  pub items : List ItemSpec
  pub item_fingerprints : List ℕ
  pub input_fingerprint : ℕ
  pub preview_fingerprint : ℕ

pub data Preview : Type 0 where
  invalid_monthly_target : Preview
  blocked : Blocker → Preview
  planned : PortfolioPreview → Preview
