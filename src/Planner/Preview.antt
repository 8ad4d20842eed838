-- ===== src/Planner/Preview.antt =====
-- `portfolio_preview`: the plan of a month.
pub mod Slots
use sm_poster.Prelude.{
  ℕ, zero, suc, ◌+◌, ◌-◌, ◌*◌, max, Bool, true, false, not, ◌&&◌, ◌||◌, Option, none, some, List,
  [], ◌∷◌, ◌++◌, ltb, leb, ◌==◌, length, keep, map, if◌then◌else◌,
}
use sm_poster.Domain.{Publication, PublicationStatus, status_eq}
use sm_poster.Domain.Time.{Datetime}
use sm_poster.Quotas.Envelope.{Share}
use sm_poster.Planner.Candidates.{Candidate, Counter, Counters}
use sm_poster.Planner.Select.{
  SelectedCandidate, Stage, Limits, Selection, select_active, select_reserve,
}
use sm_poster.Planner.Pacing.{eligible_dates, daily_pacing}
use sm_poster.Planner.History.{HistoryRows, History, existing_history}
use sm_poster.Planner.Pool.{PoolProduct, Proposal, Keyed, Identity, Pool, candidate_pool}
use sm_poster.Planner.Plan.{
  PlannerSettings, Month, InputPayload, PayloadItem, CapRelaxation, PlanPayload, ItemPayload, World,
  Blocker, ItemSpec, CapPolicy, PortfolioPreview, Preview,
}

-- `_selection_score`, in hundredths.
unfoldable pub selection_score : Candidate → ℕ
selection_score c = c.manual_priority * 10000000 + c.eligibility_score

unfoldable pub item_spec : ℕ → Bool → Option ℕ → SelectedCandidate → ItemSpec
unfolding selection_score
item_spec slot is_reserve planned_date x =
    let c = x.candidate in
    record {
      slot_index = slot;
      is_reserve = is_reserve;
      planned_date = planned_date;
      product_id = c.product_id;
      local_board_id = c.local_board_id;
      board_key_snapshot = c.board_key;
      content_angle_id = c.content_angle_id;
      angle_key_snapshot = c.angle_key;
      seed_keywords = c.seed_keywords;
      selection_score = selection_score c;
      candidate_fingerprint = c.candidate_fingerprint;
      vendor_key = c.vendor_key;
      selection_stage = x.selection_stage;
      relaxed_vendor_cap = x.relaxed_vendor_cap;
      relaxed_board_cap = x.relaxed_board_cap;
    }

-- `enumerate(zip(active, planned_dates), start=slot)`
unfoldable pub active_specs : ℕ → List SelectedCandidate → List ℕ → List ItemSpec
unfolding item_spec
active_specs slot [] dates = []
active_specs slot (x ∷ xs) [] = []
active_specs slot (x ∷ xs) (date ∷ dates) =
    item_spec slot false (some date) x ∷ active_specs (slot + 1) xs dates

unfoldable pub reserve_specs : ℕ → List SelectedCandidate → List ItemSpec
unfolding item_spec
reserve_specs slot [] = []
reserve_specs slot (x ∷ xs) = item_spec slot true none x ∷ reserve_specs (slot + 1) xs

unfoldable pub relaxation_of : Limits → Selection → CapRelaxation
relaxation_of l s = record {
  used = s.relaxed_vendor || s.relaxed_board;
  vendor_cap_relaxed = s.relaxed_vendor;
  board_cap_relaxed = s.relaxed_board;
  vendor_limit = l.vendor_limit;
  board_limit = l.board_limit;
}

-- `if condition: blockers.append(blocker)`
abbrev pub blocker_if : Bool → Blocker → List Blocker
blocker_if true b = b ∷ []
blocker_if false b = []

unfoldable pub publish_unknown_count : HistoryRows → ℕ
publish_unknown_count db =
    length (keep (λ p. status_eq p.status PublicationStatus.publish_unknown) db.publications)

-- The settings' caps at a target.
unfoldable pub limits_of : World → PlannerSettings → ℕ → Limits
limits_of w settings target = record {
  product_cap = settings.max_pins_per_product;
  vendor_limit = max 1 (w.ceil target settings.max_vendor_share);
  board_limit = max 1 (w.ceil target settings.max_board_share);
}

unfoldable pub month_history : World → ℕ → Month → History
month_history w store month = existing_history w.history store month.start_utc month.end_utc

unfoldable pub month_pool : World → ℕ → Month → Pool
unfolding month_history
month_pool w store month =
    candidate_pool store
      (record {
        boards = w.boards;
        angles = w.angles;
        used_identity = (month_history w store month).used_identity;
        propose = w.propose;
        fingerprint = w.fingerprint;
      })
      w.products

-- The two selections of the preview.
unfoldable pub active_selection : World → PlannerSettings → ℕ → Month → ℕ → Selection
unfolding month_history month_pool limits_of
active_selection w settings store month target =
    let history = month_history w store month in
    select_active (month_pool w store month).candidates (target - history.existing_commitments)
      (limits_of w settings target) history.counters

abbrev pub reserve_needed : World → PlannerSettings → ℕ → ℕ
reserve_needed w settings zero = 0
reserve_needed w settings (suc remaining) = w.ceil (suc remaining) settings.reserve_percentage

unfoldable pub reserve_selection : World → PlannerSettings → ℕ → Month → ℕ → Selection
unfolding active_selection month_history limits_of
reserve_selection w settings store month target =
    let active = active_selection w settings store month target in
    let remaining = target - (month_history w store month).existing_commitments in
    select_reserve active.remaining (reserve_needed w settings remaining)
      (limits_of w settings target) active.counters

unfoldable pub input_payload : World → PlannerSettings → ℕ → Month → ℕ → InputPayload
unfolding month_history month_pool
input_payload w settings store month target =
    let pool = month_pool w store month in
    record {
      store_id = store;
      month_start = month.month_start;
      target_pins = target;
      max_pins_per_product = settings.max_pins_per_product;
      max_vendor_share = settings.max_vendor_share;
      max_board_share = settings.max_board_share;
      reserve_percentage = settings.reserve_percentage;
      existing_publications =
          map (λ p. (p.id, p.status, p.scheduled_for)) (month_history w store month).publications;
      candidate_fingerprints = map (λ c. c.candidate_fingerprint) pool.candidates;
      missing_boards = pool.missing_boards;
      missing_angles = pool.missing_angles;
    }

unfoldable pub payload_item : ItemSpec → PayloadItem
payload_item i = record {
  slot_index = i.slot_index;
  is_reserve = i.is_reserve;
  planned_date = i.planned_date;
  product_id = i.product_id;
  local_board_id = i.local_board_id;
  content_angle_id = i.content_angle_id;
  candidate_fingerprint = i.candidate_fingerprint;
}

unfoldable pub plan_payload : ℕ → Month → List ItemSpec → CapRelaxation → PlanPayload
unfolding payload_item
plan_payload input_fingerprint month items relaxation = record {
  input_fingerprint = input_fingerprint;
  month_start = month.month_start;
  month_end = month.month_end;
  items = map payload_item items;
  cap_relaxation = relaxation;
}

unfoldable pub item_payload : ℕ → ItemSpec → ItemPayload
item_payload plan_fingerprint i = record {
  plan_fingerprint = plan_fingerprint;
  slot_index = i.slot_index;
  is_reserve = i.is_reserve;
  planned_date = i.planned_date;
  candidate_fingerprint = i.candidate_fingerprint;
}

unfoldable pub plan_month : World → PlannerSettings → ℕ → Month → ℕ → ℕ → PortfolioPreview
unfolding active_selection reserve_selection month_history month_pool limits_of active_specs
    reserve_specs relaxation_of input_payload plan_payload item_payload
plan_month w settings store month today target =
    let history = month_history w store month in
    let remaining_active = target - history.existing_commitments in
    let reserve_target = reserve_needed w settings remaining_active in
    let limits = limits_of w settings target in
    let active = active_selection w settings store month target in
    let reserve = reserve_selection w settings store month target in
    let (planned_dates, pacing) =
      daily_pacing remaining_active (eligible_dates month.month_start month.month_end today) in
    let actives = active_specs 1 active.selected planned_dates in
    let items = actives ++ reserve_specs (length actives + 1) reserve.selected in
    let relaxation = relaxation_of limits active in
    let input_fingerprint = w.hash_input (input_payload w settings store month target) in
    let plan_fingerprint = w.hash_plan (plan_payload input_fingerprint month items relaxation) in
    record {
      blockers =
          blocker_if (ltb (length active.selected) remaining_active)
            Blocker.insufficient_active_capacity
          ++ blocker_if (ltb (length reserve.selected) reserve_target)
              Blocker.insufficient_reserve_capacity
          ++ blocker_if (ltb 0 remaining_active && not (length planned_dates == remaining_active))
              Blocker.no_future_dates;
      store_id = store;
      month_start = month.month_start;
      month_end = month.month_end;
      target_pins = target;
      existing_commitments = history.existing_commitments;
      resolved_existing_commitments = history.resolved_commitments;
      remaining_active_slots = remaining_active;
      planned_active_slots = length active.selected;
      reserve_target = reserve_target;
      reserve_slots = length reserve.selected;
      candidate_count = length (month_pool w store month).candidates;
      cap_policy = record {
        max_pins_per_product = settings.max_pins_per_product;
        max_vendor_share = settings.max_vendor_share;
        max_board_share = settings.max_board_share;
        vendor_limit = limits.vendor_limit;
        board_limit = limits.board_limit;
      };
      cap_relaxation = relaxation;
      daily_pacing = pacing;
      distributions = reserve.counters;
      items = items;
      item_fingerprints = map (λ i. w.hash_item (item_payload plan_fingerprint i)) items;
      input_fingerprint = input_fingerprint;
      preview_fingerprint = plan_fingerprint;
    }

abbrev pub or_default : Option ℕ → ℕ → ℕ
or_default none n = n
or_default (some m) n = m

unfoldable pub portfolio_preview : World → PlannerSettings → ℕ → Month → ℕ → Option ℕ → Preview
unfolding plan_month publish_unknown_count
portfolio_preview w settings store month today target_pins =
    let target = or_default target_pins settings.monthly_pin_target in
    if not (leb 1 target && leb target 10000)
    then Preview.invalid_monthly_target
    else if ltb month.month_end today
    then Preview.blocked Blocker.past_month
    else if ltb 0 (publish_unknown_count w.history)
    then Preview.blocked Blocker.publish_unknown_present
    else Preview.planned (plan_month w settings store month today target)
