-- ===== src/Planner/Preview/Slots.antt =====
-- The items of a plan: their slots, and how many there are.
use sm_poster.Prelude.{
  ℕ, ◌+◌, ◌-◌, ◌≤◌, max, ◌≡◌, refl, Bool, true, false, not, ◌&&◌, List, [], ◌∷◌, ◌++◌, arith, ◌==◌,
  length, length-append, ltb,
}
use sm_poster.Planner.Select.{SelectedCandidate}
use sm_poster.Planner.Select.Caps.{select_active_ends}
use sm_poster.Planner.Select.Reserve.{select_reserve-IsReserve}
use sm_poster.Planner.Pacing.{daily_pacing, eligible_dates}
use sm_poster.Planner.Pacing.Month.{planned_dates-IsOpen}
use sm_poster.Planner.Plan.{World, PlannerSettings, Month, Blocker, ItemSpec}
use sm_poster.Planner.Preview.{
  blocker_if, item_spec, active_specs, reserve_specs, plan_month, active_selection,
  reserve_selection, month_history, month_pool, limits_of, reserve_needed,
}

-- The items have the slots `slot`, `slot + 1`, and so on.
abbrev pub IsNumbered : ℕ → List ItemSpec → Type 0
IsNumbered slot [] = Unit
IsNumbered slot (i ∷ is) = (i.slot_index ≡ slot) × IsNumbered (slot + 1) is

active_specs-IsNumbered :
    (slot : ℕ) (xs : List SelectedCandidate) (dates : List ℕ)
    → IsNumbered slot (active_specs slot xs dates)
unfolding active_specs item_spec
active_specs-IsNumbered slot [] dates = tt
active_specs-IsNumbered slot (x ∷ xs) [] = tt
active_specs-IsNumbered slot (x ∷ xs) (date ∷ dates) =
    (refl, active_specs-IsNumbered (slot + 1) xs dates)

reserve_specs-IsNumbered :
    (slot : ℕ) (xs : List SelectedCandidate) → IsNumbered slot (reserve_specs slot xs)
unfolding reserve_specs item_spec
reserve_specs-IsNumbered slot [] = tt
reserve_specs-IsNumbered slot (x ∷ xs) = (refl, reserve_specs-IsNumbered (slot + 1) xs)

append-IsNumbered :
    (slot next : ℕ) (is js : List ItemSpec)
    → IsNumbered slot is
    → next ≡ slot + length is
    → IsNumbered next js
    → IsNumbered slot (is ++ js)
append-IsNumbered slot next [] js h e k = let same : next ≡ slot = omega arith in rw same at k
append-IsNumbered slot next (i ∷ is) js (h, hs) e k =
    (h, append-IsNumbered (slot + 1) next is js hs (omega arith) k)

length-active_specs :
    (slot : ℕ) (xs : List SelectedCandidate) (dates : List ℕ)
    → length xs ≤ length dates
    → length (active_specs slot xs dates) ≡ length xs
unfolding active_specs
length-active_specs slot [] dates h = refl
length-active_specs slot (x ∷ xs) [] h = absurd (omega arith)
length-active_specs slot (x ∷ xs) (date ∷ dates) h =
    let rest = length-active_specs (slot + 1) xs dates (omega arith) in omega arith

length-reserve_specs :
    (slot : ℕ) (xs : List SelectedCandidate) → length (reserve_specs slot xs) ≡ length xs
unfolding reserve_specs
length-reserve_specs slot [] = refl
length-reserve_specs slot (x ∷ xs) = let rest = length-reserve_specs (slot + 1) xs in omega arith

no_blocker :
    (active reserve dates : Bool)
    → blocker_if active Blocker.insufficient_active_capacity
        ++ blocker_if reserve Blocker.insufficient_reserve_capacity
        ++ blocker_if dates Blocker.no_future_dates
      ≡ []
    → (active ≡ false) × (reserve ≡ false)
no_blocker true reserve dates h = absurd (cc)
no_blocker false true dates h = absurd (cc)
no_blocker false false dates h = (refl, refl)

-- A plan without blockers, of a month that is not over, fills the month: the items have the slots
-- from 1 on, one after the other; there is one for each pin that the target is short of and for
-- each of the reserve; and the publications that are there and the active pins make the target, if
-- the publications do not exceed it.
pub plan_month-IsNumbered :
    (w : World) (settings : PlannerSettings) (store : ℕ) (month : Month) (today target : ℕ)
    → month.month_start ≤ month.month_end
    → today ≤ month.month_end
    → (plan_month w settings store month today target).blockers ≡ []
    → let p = plan_month w settings store month today target in
      IsNumbered 1 p.items
      × (length p.items ≡ p.remaining_active_slots + p.reserve_target)
      × (p.existing_commitments + p.planned_active_slots ≡ max target p.existing_commitments)
unfolding plan_month active_selection reserve_selection
plan_month-IsNumbered w settings store month today target in_month still free =
    let l = limits_of w settings target in
    let from = (month_history w store month).counters in
    let needed = target - (month_history w store month).existing_commitments in
    let cs = (month_pool w store month).candidates in
    let active = active_selection w settings store month target in
    let reserve = reserve_selection w settings store month target in
    let dates = (daily_pacing needed (eligible_dates month.month_start month.month_end today)).0 in
    let actives = active_specs 1 active.selected dates in
    let reserves = reserve_specs (length actives + 1) reserve.selected in
    let long =
      (planned_dates-IsOpen month.month_start month.month_end today needed in_month still).0 in
    let short = (select_active_ends cs needed l from).0 in
    let few =
      (select_reserve-IsReserve active.remaining (reserve_needed w settings needed) l
        active.counters).1 in
    let (enough, enough_reserve) =
      no_blocker (ltb (length active.selected) needed)
        (ltb (length reserve.selected) (reserve_needed w settings needed))
        (ltb 0 needed && not (length dates == needed)) free in
    let count_active = length-active_specs 1 active.selected dates (omega arith) in
    let count_reserve = length-reserve_specs (length actives + 1) reserve.selected in
    let both = length-append actives reserves in
    (
      append-IsNumbered 1 (length actives + 1) actives reserves
          (active_specs-IsNumbered 1 active.selected dates) (omega arith)
          (reserve_specs-IsNumbered (length actives + 1) reserve.selected),
      ground arith,
      ground arith,
    )
