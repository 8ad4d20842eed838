-- ===== src/CapContract/Promise.antt =====
-- What the planner stores passes the contract that later stages hold it to.
use sm_poster.Prelude.{
  ℕ, ◌+◌, ◌-◌, ◌≤◌, max, ◌≡◌, refl, ◌∙◌, sym, ◌≢◌, ◌⊎◌, Bool, true, false, List, [], ◌∷◌, ◌++◌,
  arith, count_if, any, any-append, All, All-append, map, length,
}
use sm_poster.Quotas.Envelope.{share_limit}
use sm_poster.Planner.Candidates.{Candidate, Counters}
use sm_poster.Planner.Select.{Selection, Limits, SelectedCandidate}
use sm_poster.Planner.Select.Caps.{Kept, select_active-Kept, select_active_ends}
use sm_poster.Planner.Select.Relaxation.{Honest, IsMarked, select_active-Honest}
use sm_poster.Planner.Select.Reserve.{IsReserve, select_reserve-Kept, select_reserve-IsReserve}
use sm_poster.Planner.Pacing.{daily_pacing, eligible_dates}
use sm_poster.Planner.Pacing.Month.{planned_dates-IsOpen}
use sm_poster.Planner.Pool.{Identity}
use sm_poster.Planner.Pool.Fresh.{candidate_pool-once, has_identity}
use sm_poster.Planner.Plan.{World, PlannerSettings, Month, PortfolioPreview}
use sm_poster.Planner.Preview.{
  plan_month, month_history, month_pool, limits_of, active_selection, reserve_selection,
  reserve_needed, active_specs, reserve_specs, relaxation_of,
}
use sm_poster.Planner.Draft.{stored_plan, stored_items, stored_item}
use sm_poster.CapContract.{
  CapContract, CapError, PlanItem, ok, err, read_contract, validate_planner_cap_contract,
  cap_blockers,
}
use sm_poster.CapContract.Rows.{
  Stores, StoreAll, StoreAll-All, any-StoreAll, active_specs-StoreAll, reserve_specs-StoreAll,
}
use sm_poster.CapContract.Markers.{
  Marked, active-Marked, reserve-Marked, vendor_flag, board_flag, stored-vendor_flag,
  stored-board_flag, sorted-AllRead,
}
use sm_poster.CapContract.Limits.{product_rows, identity_rows, board_rows}
use sm_poster.CapContract.Planned.{
  IsShare, contract_of, map-append, no_cap_blockers, read_contract-ok, read_contract-mismatch,
  validate-ok,
}

none-flag :
    (flag : SelectedCandidate → Bool) (xs : List SelectedCandidate)
    → ((x : SelectedCandidate) → IsReserve x → flag x ≡ false)
    → All IsReserve xs
    → any flag xs ≡ false
none-flag flag [] h all = refl
none-flag flag (x ∷ xs) h (a, all) = rw (h x a, none-flag flag xs h all) refl

-- The rows of two selections are marked, and their flags are those of the active selection.
module _ (actives rs : List PlanItem) (xs ys : List SelectedCandidate)
    (sa : StoreAll false actives xs) (sr : StoreAll true rs ys) (ma : All IsMarked xs)
    (mr : All IsReserve ys) where
  rows-Marked : All Marked (actives ++ rs)
  rows-Marked =
      All-append Marked actives rs
        (StoreAll-All false Marked IsMarked active-Marked actives xs sa ma)
        (StoreAll-All true Marked IsReserve reserve-Marked rs ys sr mr)

  rows_flag :
      (test : PlanItem → Bool) (flag : SelectedCandidate → Bool)
      → ((is_reserve : Bool) (item : PlanItem) (x : SelectedCandidate)
          → Stores is_reserve item x
          → test item ≡ flag x)
      → ((x : SelectedCandidate) → IsReserve x → flag x ≡ false)
      → any test (actives ++ rs) ≡ any flag xs
  rows_flag test flag same none =
      let split = any-append test actives rs in
      let a = any-StoreAll false test flag (same false) actives xs sa in
      let b = any-StoreAll true test flag (same true) rs ys sr in
      let c = none-flag flag ys none mr in ground arith

pool_once :
    (w : World) (store : ℕ) (month : Month) (i : Identity)
    → count_if (has_identity i) (month_pool w store month).candidates ≤ 1
unfolding month_pool
pool_once w store month i = (candidate_pool-once store _ w.products i).0

abbrev pub Keeps : PortfolioPreview → List PlanItem → Type 0
Keeps p items =
    (c : CapContract) × (validate_planner_cap_contract (stored_plan p) items ≡ ok c)
    × (cap_blockers items c ≡ [])

-- From the selections to the contract.
module _ (p : PortfolioPreview) (l : Limits) (from : Counters) (cs : List Candidate)
    (active reserve : Selection) (actives rs : List PlanItem) (ka : Kept l from cs active)
    (kr : Kept l active.counters active.remaining reserve) (honest : Honest l active)
    (mr : All IsReserve reserve.selected) (sa : StoreAll false actives active.selected)
    (sr : StoreAll true rs reserve.selected) where
  rows_keep :
      ((i : Identity) → count_if (has_identity i) cs ≤ 1)
      → read_contract (stored_plan p) ≡ ok (contract_of p)
      → p.cap_policy.max_pins_per_product ≡ l.product_cap
      → p.cap_policy.board_limit ≡ l.board_limit
      → p.cap_relaxation.vendor_cap_relaxed ≡ active.relaxed_vendor
      → p.cap_relaxation.board_cap_relaxed ≡ active.relaxed_board
      → Keeps p (actives ++ rs)
  rows_keep once read same_cap limit vendor board =
      let marked = rows-Marked actives rs active.selected reserve.selected sa sr honest.marks mr in
      let (r, rv, rb) = sorted-AllRead (actives ++ rs) marked in
      let fv =
        rows_flag actives rs active.selected reserve.selected sa sr honest.marks mr vendor_flag
          (λ x. x.relaxed_vendor_cap) stored-vendor_flag (λ x h. h.1) in
      let fb =
        rows_flag actives rs active.selected reserve.selected sa sr honest.marks mr board_flag
          (λ x. x.relaxed_board_cap) stored-board_flag (λ x h. h.2) in
      (
        record (contract_of p) { selection_markers = r.markers },
        validate-ok (stored_plan p) (actives ++ rs) (contract_of p) read r
            (rv ∙ (fv ∙ (sym honest.vendor_flag ∙ sym vendor)))
            (rb ∙ (fb ∙ (sym honest.board_flag ∙ sym board))),
        no_cap_blockers (actives ++ rs) (record (contract_of p) { selection_markers = r.markers })
            (λ k. rw same_cap (product_rows l from cs active reserve actives rs ka kr sa sr k))
            (λ i. identity_rows l from cs active reserve actives rs ka kr sa sr i (once i))
            (λ strict k. rw limit (
              board_rows l from cs active reserve actives rs ka kr sa sr honest (sym board ∙ strict)
                k)),
      )

-- A plan of a month that is not over passes `validate_planner_cap_contract`, and `cap_blockers` finds
-- nothing in its items: no product is over its cap, no product, board and angle stand twice, and no
-- board is over its share unless the plan says so. The target and the product cap are at least 1 and
-- the shares more than 0 and at most 1, as the settings require; and `math.ceil` of the two products
-- with the target is their ceiling, which the rounding of a float can break.
pub plan_month-Keeps :
    (w : World) (settings : PlannerSettings) (store : ℕ) (month : Month) (today target : ℕ)
    (new_id : ℕ → ℕ)
    → 1 ≤ target
    → 1 ≤ settings.max_pins_per_product
    → IsShare settings.max_vendor_share
    → IsShare settings.max_board_share
    → month.month_start ≤ month.month_end
    → today ≤ month.month_end
    → max 1 (w.ceil target settings.max_vendor_share) ≡ share_limit target settings.max_vendor_share
    → max 1 (w.ceil target settings.max_board_share) ≡ share_limit target settings.max_board_share
    → let p = plan_month w settings store month today target in Keeps p (stored_items new_id p)
unfolding plan_month stored_items active_selection reserve_selection relaxation_of limits_of
plan_month-Keeps w settings store month today target new_id some_target some_cap vs bs in_month
      still vendor board =
    let p = plan_month w settings store month today target in
    let l = limits_of w settings target in
    let from = (month_history w store month).counters in
    let needed = target - (month_history w store month).existing_commitments in
    let cs = (month_pool w store month).candidates in
    let active = active_selection w settings store month target in
    let reserve = reserve_selection w settings store month target in
    let dates = (daily_pacing needed (eligible_dates month.month_start month.month_end today)).0 in
    let actives = active_specs 1 active.selected dates in
    let reserves = reserve_specs (length actives + 1) reserve.selected in
    let rows_a = map (stored_item new_id) actives in
    let rows_r = map (stored_item new_id) reserves in
    let split = map-append (stored_item new_id) actives reserves in
    let long =
      (planned_dates-IsOpen month.month_start month.month_end today needed in_month still).0 in
    let short = (select_active_ends cs needed l from).0 in
    let read : read_contract (stored_plan p) ≡ ok (contract_of p) =
      read_contract-ok p some_target some_cap vs bs vendor board refl refl refl in
    rw split (
      rows_keep p l from cs active reserve rows_a rows_r (select_active-Kept cs needed l from)
        (select_reserve-Kept active.remaining (reserve_needed w settings needed) l active.counters)
        (select_active-Honest cs needed l from)
        (select_reserve-IsReserve active.remaining (reserve_needed w settings needed) l
          active.counters).0
        (active_specs-StoreAll new_id 1 active.selected dates (omega arith))
        (reserve_specs-StoreAll new_id (length actives + 1) reserve.selected)
        (pool_once w store month) read refl refl refl refl)

-- If the limit that the planner computes for vendors or boards is not the ceiling that the contract
-- computes, the plan is refused with `PLANNER_CAP_POLICY_MISMATCH`, whatever its items are.
pub plan_month-mismatch :
    (w : World) (settings : PlannerSettings) (store : ℕ) (month : Month) (today target : ℕ)
    (items : List PlanItem)
    → 1 ≤ target
    → 1 ≤ settings.max_pins_per_product
    → IsShare settings.max_vendor_share
    → IsShare settings.max_board_share
    → (max 1 (w.ceil target settings.max_vendor_share)
        ≢ share_limit target settings.max_vendor_share)
      ⊎ (max 1 (w.ceil target settings.max_board_share)
          ≢ share_limit target settings.max_board_share)
    → validate_planner_cap_contract
        (stored_plan (plan_month w settings store month today target))
        items
      ≡ err CapError.policy_mismatch
unfolding plan_month relaxation_of limits_of validate_planner_cap_contract
plan_month-mismatch w settings store month today target items some_target some_cap vs bs wrong =
    rw
      (read_contract-mismatch (plan_month w settings store month today target) some_target some_cap
        vs bs (omega arith) (omega arith) refl refl wrong)
      refl
