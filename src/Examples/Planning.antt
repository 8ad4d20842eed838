-- ===== src/Examples/Planning.antt =====
-- A month's plan for two products, with one publication that is there already.
use sm_poster.Prelude.{
  ℕ, ◌≡◌, ◌≢◌, ◌≤◌, ◌⊎◌, refl, inl, true, false, some, List, [], ◌∷◌, arith, length, All, max, ◌+◌,
  ◌*◌, ◌/◌, ◌-◌, count_if,
}
use sm_poster.Domain.{scheduled}
use sm_poster.Prelude.Table.{get}
use sm_poster.Planner.Candidates.{
  best, before, key_before, key_same, remove, candidate_eq, candidate_rank, count_candidate,
  add_one,
}
use sm_poster.Planner.Sorting.{sort_by, insert_by}
use sm_poster.Planner.Select.{
  fill_all, fill, choose, take_candidate, available, product_full, vendor_over, board_over,
  select_reserve, fill_reserve, choose_reserve, take_reserve,
}
use sm_poster.Planner.Pacing.{pace, repeat, day_count, days_from}
use sm_poster.Planner.Pool.{
  eligible_products, is_candidate_product, offer_products, offer_product, offer_all, offer,
  offer_identity, make_candidate, identity_eq, set_add, dict_get,
}
use sm_poster.Planner.History.{
  existing_history, is_commitment, concept_of, count_history, count_resolved, resolve,
}
use sm_poster.Planner.Preview.{
  active_selection, reserve_selection, month_history, month_pool, limits_of,
}
use sm_poster.Quotas.Envelope.{Share, share_limit}
use sm_poster.Planner.Candidates.{Candidate}
use sm_poster.Planner.Select.{Limits, select_active}
use sm_poster.Planner.Select.Caps.{select_active_ends}
use sm_poster.Planner.Select.Relaxation.{Honest, select_active-Honest}
use sm_poster.Planner.Pacing.{daily_pacing, eligible_dates}
use sm_poster.Planner.Pacing.Bounds.{IsPaced, daily_pacing-IsPaced}
use sm_poster.Planner.Pool.{PoolProduct, Proposal, Inputs, candidate_pool, is_used}
use sm_poster.Planner.Pool.Fresh.{has_identity, candidate_pool-once}
use sm_poster.Planner.History.{HistoryRows, no_counters}
use sm_poster.Planner.Plan.{World, PlannerSettings, Month, PortfolioPreview, planned}
use sm_poster.Planner.Preview.{plan_month}
use sm_poster.Planner.Preview.Slots.{IsNumbered, plan_month-IsNumbered}
use sm_poster.Planner.Draft.{
  Course, stored_plan, stored_items, create_draft_portfolio_plan, store_plan, commit_plan,
}
use sm_poster.Planner.Draft.Once.{Ended, IsUnique, is_ok, create_draft_portfolio_plan-Ended}
use sm_poster.CapContract.{policy_mismatch, err, validate_planner_cap_contract}
use sm_poster.CapContract.Promise.{Keeps, plan_month-Keeps, plan_month-mismatch}
use sm_poster.Examples.Data.{at, publication}

abbrev perfume : ℕ → PoolProduct
perfume id = record {
  id = id;
  store_id = 1;
  is_active = true;
  excluded_from_editorial = false;
  inventory_total = 4;
  is_eligible = true;
  inventory_eligible = true;
  image_available = true;
  normalization_unknown = false;
  vendor_key = id;
  manual_priority = 0;
  eligibility_score = 50;
}

abbrev proposals : List Proposal
proposals =
    record { board_key = 1; angle_key = 1; keywords = 0 }
    ∷ record { board_key = 1; angle_key = 2; keywords = 0 }
    ∷ record { board_key = 9; angle_key = 1; keywords = 0 }
    ∷ []

abbrev history_rows : HistoryRows
history_rows = record {
  publications = publication 1 scheduled (some (at 5)) ∷ [];
  drafts = (10, record { id = 10; concept_id = 1 }) ∷ [];
  concepts =
      (1, record { store_id = 1; product_id = 1; board_id = some 1; content_angle_id = 1 }) ∷ [];
  vendor_keys = (1, 1) ∷ [];
  boards = (1, tt) ∷ [];
  angles = (1, tt) ∷ [];
}

abbrev world : World
world = record {
  history = history_rows;
  products = perfume 1 ∷ perfume 2 ∷ [];
  boards = record { id = 1; key = 1 } ∷ [];
  angles = record { id = 1; key = 1 } ∷ record { id = 2; key = 2 } ∷ [];
  propose = λ p. proposals;
  fingerprint = λ i. i.product * 10000 + i.board * 100 + i.angle;
  ceil = λ target share. (target * share.numerator + (share.scale - 1)) / share.scale;
  hash_input = λ p. length p.candidate_fingerprints;
  hash_plan = λ p. 77;
  hash_item = λ p. p.slot_index;
}

abbrev half : Share
half = record { numerator = 1; scale = 2 }

abbrev settings : PlannerSettings
settings = record {
  monthly_pin_target = 3;
  max_pins_per_product = 2;
  max_vendor_share = half;
  max_board_share = half;
  reserve_percentage = record { numerator = 1; scale = 10 };
}

abbrev month : Month
month = record { month_start = 100; month_end = 109; start_utc = 0; end_utc = 1000 }

abbrev plan : PortfolioPreview
plan = plan_month world settings 1 month 105 3

blockers_free : plan.blockers ≡ []
unfolding plan_month active_selection reserve_selection month_history month_pool limits_of
    existing_history is_commitment concept_of count_history count_resolved resolve get select_active
    fill_all fill choose take_candidate best before key_before key_same remove candidate_eq
    available product_full vendor_over board_over candidate_rank count_candidate add_one
    select_reserve fill_reserve choose_reserve take_reserve candidate_pool eligible_products
    is_candidate_product offer_products offer_product offer_all offer offer_identity make_candidate
    identity_eq set_add dict_get sort_by insert_by daily_pacing pace repeat day_count eligible_dates
    days_from
blockers_free = refl

plan_month-IsNumbered_example :
    IsNumbered 1 plan.items
    × (length plan.items ≡ plan.remaining_active_slots + plan.reserve_target)
    × (plan.existing_commitments + plan.planned_active_slots ≡ max 3 plan.existing_commitments)
plan_month-IsNumbered_example =
    plan_month-IsNumbered world settings 1 month 105 3 (omega arith) (omega arith) blockers_free

abbrev ids : ℕ → ℕ
ids slot = slot + 500

plan_month-Keeps_example : Keeps plan (stored_items ids plan)
unfolding share_limit
plan_month-Keeps_example =
    plan_month-Keeps world settings 1 month 105 3 ids (omega arith) (omega arith)
      (omega arith, omega arith) (omega arith, omega arith) (omega arith) (omega arith) refl refl

-- 0.07 times 100, whose floats multiply to a little more than 7.
abbrev rounding_world : World
rounding_world = record world { ceil = λ target share. 8 }

abbrev rounding_settings : PlannerSettings
rounding_settings = record settings { max_vendor_share = record { numerator = 7; scale = 100 } }

not_seven :
    max 1 (rounding_world.ceil 100 rounding_settings.max_vendor_share)
    ≢ share_limit 100 rounding_settings.max_vendor_share
unfolding share_limit
not_seven h = omega (arith, h)

plan_month-mismatch_example :
    validate_planner_cap_contract
      (stored_plan (plan_month rounding_world rounding_settings 1 month 105 100))
      []
    ≡ err policy_mismatch
plan_month-mismatch_example =
    plan_month-mismatch rounding_world rounding_settings 1 month 105 100 [] (omega arith)
      (omega arith) (omega arith, omega arith) (omega arith, omega arith) (inl not_seven)

abbrev alone : Course
alone = record { seen = []; rows = []; items_refused = false; later = [] }

none-IsUnique : IsUnique []
none-IsUnique = record { fingerprints = λ f. omega arith; months = λ store month. omega arith }

create_draft_portfolio_plan-Ended_example :
    Ended plan.preview_fingerprint plan.store_id plan.month_start alone
      (create_draft_portfolio_plan true 7 ids (planned plan) alone)
    × IsUnique (create_draft_portfolio_plan true 7 ids (planned plan) alone).1
create_draft_portfolio_plan-Ended_example =
    create_draft_portfolio_plan-Ended 7 ids plan alone blockers_free none-IsUnique none-IsUnique

created : is_ok (create_draft_portfolio_plan true 7 ids (planned plan) alone).0 ≡ true
unfolding create_draft_portfolio_plan store_plan commit_plan
created = rw blockers_free refl

abbrev choices : List Candidate
choices = (month_pool world 1 month).candidates

abbrev limits : Limits
limits = record { product_cap = 2; vendor_limit = 2; board_limit = 2 }

select_active_ends_example :
    (length (select_active choices 2 limits no_counters).selected ≤ 2)
    × ((length (select_active choices 2 limits no_counters).selected ≡ 2)
        ⊎ All
            (λ c.
              product_full limits (select_active choices 2 limits no_counters).counters c ≡ true)
            (select_active choices 2 limits no_counters).remaining)
select_active_ends_example = select_active_ends choices 2 limits no_counters

select_active-Honest_example : Honest limits (select_active choices 2 limits no_counters)
select_active-Honest_example = select_active-Honest choices 2 limits no_counters

daily_pacing-IsPaced_example :
    (length (daily_pacing 7 (105 ∷ 106 ∷ 107 ∷ [])).0 ≡ 7)
    × IsPaced 7 3 (105 ∷ 106 ∷ 107 ∷ []) (daily_pacing 7 (105 ∷ 106 ∷ 107 ∷ [])).1
daily_pacing-IsPaced_example = daily_pacing-IsPaced 7 105 (106 ∷ 107 ∷ [])

abbrev inputs : Inputs
inputs = record {
  boards = world.boards;
  angles = world.angles;
  used_identity = record { product = 1; board = 1; angle = 1 } ∷ [];
  propose = world.propose;
  fingerprint = world.fingerprint;
}

candidate_pool-once_example :
    (count_if
        (has_identity (record { product = 1; board = 1; angle = 1 }))
        (candidate_pool 1 inputs world.products).candidates
      ≤ 1)
    × (is_used inputs (record { product = 1; board = 1; angle = 1 }) ≡ true
        → count_if
            (has_identity (record { product = 1; board = 1; angle = 1 }))
            (candidate_pool 1 inputs world.products).candidates
          ≡ 0)
candidate_pool-once_example =
    candidate_pool-once 1 inputs world.products (record { product = 1; board = 1; angle = 1 })
