-- ===== src/Planner/Draft.antt =====
-- `create_draft_portfolio_plan`: a preview that is ready becomes a plan with its items, once.
pub mod Once
use sm_poster.Prelude.{
  ℕ, Bool, true, false, not, ◌&&◌, ◌||◌, Option, none, some, List, [], ◌∷◌, ◌++◌, String, any,
  first, map, ◌==◌, if◌then◌else◌,
}
use sm_poster.Planner.Select.{Stage}
use sm_poster.Planner.Plan.{Blocker, CapPolicy, CapRelaxation, ItemSpec, PortfolioPreview, Preview}
use sm_poster.CapContract.{
  Entry, dict, ItemMetadata, Metadata, PlanItem, Policy, Relaxation, StoredPlan, Value,
}

abbrev pub stage_text : Stage → String
stage_text Stage.strict = "STRICT"
stage_text Stage.relaxed = "RELAXED"
stage_text Stage.reserve = "RESERVE"

-- A row of the items; `new_id` gives its id.
unfoldable pub stored_item : (ℕ → ℕ) → ItemSpec → PlanItem
stored_item new_id spec = record {
  id = new_id spec.slot_index;
  slot_index = spec.slot_index;
  is_reserve = spec.is_reserve;
  product_id = spec.product_id;
  local_board_id = spec.local_board_id;
  content_angle_id = spec.content_angle_id;
  selection_metadata = dict (record {
    selection_stage = Value.text (stage_text spec.selection_stage);
    relaxed_vendor_cap = Value.boolean spec.relaxed_vendor_cap;
    relaxed_board_cap = Value.boolean spec.relaxed_board_cap;
    optimized = false;
  });
}

unfoldable pub stored_items : (ℕ → ℕ) → PortfolioPreview → List PlanItem
unfolding stored_item
stored_items new_id preview = map (stored_item new_id) preview.items

abbrev stored_policy : CapPolicy → Policy
stored_policy p = record {
  max_pins_per_product = Value.integer p.max_pins_per_product;
  max_vendor_share = Value.fraction p.max_vendor_share;
  max_board_share = Value.fraction p.max_board_share;
  vendor_limit = Value.integer p.vendor_limit;
  board_limit = Value.integer p.board_limit;
}

abbrev stored_relaxation : CapRelaxation → Relaxation
stored_relaxation r = record {
  used = Value.boolean r.used;
  vendor_cap_relaxed = Value.boolean r.vendor_cap_relaxed;
  board_cap_relaxed = Value.boolean r.board_cap_relaxed;
  vendor_limit = Value.integer r.vendor_limit;
  board_limit = Value.integer r.board_limit;
}

-- The target and the metadata of the plan's row.
unfoldable pub stored_plan : PortfolioPreview → StoredPlan
stored_plan preview = record {
  target_pins = Value.integer preview.target_pins;
  metadata_json = dict (record {
    cap_policy = dict (stored_policy preview.cap_policy);
    cap_relaxation = dict (stored_relaxation preview.cap_relaxation);
  });
}

pub data PlanStatus : Type 0 where
  draft active completed cancelled : PlanStatus

-- `status IN ('DRAFT','ACTIVE')`
abbrev pub is_live : PlanStatus → Bool
is_live PlanStatus.draft = true
is_live PlanStatus.active = true
is_live _ = false

-- A row of the plans, with the rows of its items.
pub record PlanRow : Type 0 where
  pub id : ℕ
  pub store_id : ℕ
  pub month_start : ℕ
  pub month_end : ℕ
  pub input_fingerprint : ℕ
  pub plan_fingerprint : ℕ
  pub status : PlanStatus
  pub existing_commitments : ℕ
  pub planned_active_slots : ℕ
  pub reserve_slots : ℕ
  pub plan : StoredPlan
  pub items : List PlanItem
  pub item_fingerprints : List ℕ

pub data DraftError : Type 0 where
  planner_disabled invalid_monthly_target month_conflict integrity_error : DraftError
  blocked : Blocker → DraftError

pub data Drafted : Type 0 where
  ok : PlanRow → Drafted
  err : DraftError → Drafted

-- What the plan's columns and the queries take from the preview, and the ids that a new plan and its
-- items are given.
pub record Draft : Type 0 where
  pub id : ℕ
  pub new_id : ℕ → ℕ
  pub store_id : ℕ
  pub month_start : ℕ
  pub fingerprint : ℕ

abbrev pub draft_of : ℕ → (ℕ → ℕ) → PortfolioPreview → Draft
draft_of id new_id preview = record {
  id = id;
  new_id = new_id;
  store_id = preview.store_id;
  month_start = preview.month_start;
  fingerprint = preview.preview_fingerprint;
}

unfoldable pub new_plan : Draft → PortfolioPreview → PlanRow
unfolding stored_plan stored_items
new_plan d preview = record {
  id = d.id;
  store_id = d.store_id;
  month_start = d.month_start;
  month_end = preview.month_end;
  input_fingerprint = preview.input_fingerprint;
  plan_fingerprint = d.fingerprint;
  status = PlanStatus.draft;
  existing_commitments = preview.existing_commitments;
  planned_active_slots = preview.planned_active_slots;
  reserve_slots = preview.reserve_slots;
  plan = stored_plan preview;
  items = stored_items d.new_id preview;
  item_fingerprints = preview.item_fingerprints;
}

abbrev pub same_fingerprint : Draft → PlanRow → Bool
same_fingerprint d row = row.plan_fingerprint == d.fingerprint

abbrev pub same_month : Draft → PlanRow → Bool
same_month d row =
    row.store_id == d.store_id && row.month_start == d.month_start && is_live row.status

-- `if same_fingerprint is not None: return same_fingerprint`
abbrev pub return_found :
    Option PlanRow → List PlanRow → Drafted × List PlanRow → Drafted × List PlanRow
return_found (some row) rows otherwise = (ok row, rows)
return_found none rows otherwise = otherwise

-- What other sessions make of the call: the plans when it looks for one, in the order of the queries;
-- those when it writes; whether the rows of the items are refused at the commit; and the plans that
-- it then finds after the rollback.
pub record Course : Type 0 where
  pub seen : List PlanRow
  pub rows : List PlanRow
  pub items_refused : Bool
  pub later : List PlanRow

-- The flush and the commit. The two unique indexes refuse the plan at the flush, which no `try`
-- surrounds; an error of the items at the commit is handled.
unfoldable pub commit_plan : Draft → PortfolioPreview → Course → Drafted × List PlanRow
unfolding new_plan
commit_plan d preview s =
    if any (λ row. same_fingerprint d row || same_month d row) s.rows
    then (err DraftError.integrity_error, s.rows)
    else if s.items_refused
    then return_found (first (same_fingerprint d) s.later) s.later
        (err DraftError.month_conflict, s.later)
    else (ok (new_plan d preview), s.rows ++ new_plan d preview ∷ [])

-- From the look for a plan with the fingerprint on.
unfoldable pub store_plan : Draft → PortfolioPreview → Course → Drafted × List PlanRow
unfolding commit_plan
store_plan d preview s = return_found (first (same_fingerprint d) s.seen) s.rows (
    if any (same_month d) s.seen
    then (err DraftError.month_conflict, s.rows)
    else commit_plan d preview s)

-- `if preview.get("ready") is not True: raise ...(blockers[0])`
abbrev pub if_ready : List Blocker → List PlanRow → Drafted × List PlanRow → Drafted × List PlanRow
if_ready [] rows stored = stored
if_ready (b ∷ rest) rows stored = (err (DraftError.blocked b), rows)

unfoldable pub create_draft_portfolio_plan :
    Bool → ℕ → (ℕ → ℕ) → Preview → Course → Drafted × List PlanRow
unfolding store_plan
create_draft_portfolio_plan false id new_id preview s = (err DraftError.planner_disabled, s.rows)
create_draft_portfolio_plan true id new_id Preview.invalid_monthly_target s =
    (err DraftError.invalid_monthly_target, s.rows)
create_draft_portfolio_plan true id new_id (Preview.blocked b) s =
    (err (DraftError.blocked b), s.rows)
create_draft_portfolio_plan true id new_id (Preview.planned preview) s =
    if_ready preview.blockers s.rows (store_plan (draft_of id new_id preview) preview s)
