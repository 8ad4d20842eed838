-- ===== src/Planner/Select/Reserve.antt =====
-- The reserve, which is selected after the active pins, from what they leave.
use sm_poster.Prelude.{
  ℕ, zero, suc, ◌≤◌, ◌<◌, ◌≡◌, refl, inl, inr, Bool, true, false, not, some, List, [], ◌∷◌, arith,
  All, All-append, keep, keep-All, length, length-append, Bool-cases, Option-cases, ltb,
}
use sm_poster.Planner.Candidates.{Candidate, Counters, best, candidate_rank}
use sm_poster.Planner.Select.{
  SelectedCandidate, Selection, Limits, Stage, start, product_full, take_reserve, choose_reserve,
  fill_reserve, select_reserve,
}
use sm_poster.Planner.Select.Members.{has, best-has, has-All, keep-has}
use sm_poster.Planner.Select.Caps.{Kept, start-Kept, added-Kept}

abbrev pub as_reserve : Candidate → SelectedCandidate
as_reserve c = record {
  candidate = c;
  selection_stage = Stage.reserve;
  relaxed_vendor_cap = false;
  relaxed_board_cap = false;
}

-- The candidate that a round takes.
record TakenReserve (l : Limits) (s next : Selection) : Type 0 where
  candidate : Candidate
  room : s.counters.product candidate.product_id < l.product_cap
  there : has candidate s.remaining ≡ true
  step : next ≡ take_reserve candidate s

room_of :
    (l : Limits) (s : Selection) (c : Candidate)
    → not (product_full l s.counters c) ≡ true
    → s.counters.product c.product_id < l.product_cap
unfolding product_full
room_of l s c h = ground arith

choose_reserve-TakenReserve :
    (l : Limits) (s next : Selection) → choose_reserve l s ≡ some next → TakenReserve l s next
unfolding choose_reserve
choose_reserve-TakenReserve l s next h =
    let test : Candidate → Bool = λ c. not (product_full l s.counters c) in
    let offered = keep test s.remaining in
    elim (Option-cases (best (candidate_rank s.counters) offered)) [
      | inl e ↦ absurd (ground arith)
      | inr (c, e) ↦
          let found = best-has (candidate_rank s.counters) offered c e in
          record {
            candidate = c;
            room =
                room_of l s c
                  (has-All (λ d. test d ≡ true) c offered (keep-All test s.remaining) found);
            there = keep-has test c s.remaining found;
            step = ground arith;
          }
    ]

fill_reserve_inv :
    (P : Selection → Type 0) (l : Limits) (needed : ℕ)
    → ((s next : Selection) → P s → length s.selected < needed → TakenReserve l s next → P next)
    → (fuel : ℕ) (s : Selection) → P s
    → P (fill_reserve fuel l needed s)
unfolding fill_reserve
fill_reserve_inv P l needed step zero s h = h
fill_reserve_inv P l needed step (suc fuel) s h =
    elim (Bool-cases (ltb (length s.selected) needed)) [
      | inr enough ↦ rw enough h
      | inl more ↦ elim (Option-cases (choose_reserve l s)) [
        | inl e ↦ rw (more, e) h
        | inr (next, e) ↦
            rw (more, e)
              (fill_reserve_inv P l needed step fuel next
                (step s next h (ground arith) (choose_reserve-TakenReserve l s next e)))
      ]
    ]

-- What `select_reserve` keeps.
pub select_reserve-Kept :
    (cs : List Candidate) (needed : ℕ) (l : Limits) (from : Counters)
    → Kept l from cs (select_reserve cs needed l from)
unfolding select_reserve take_reserve
select_reserve-Kept cs needed l from =
    fill_reserve_inv (Kept l from cs) l needed
      (λ s next h more t. rw t.step (
        added-Kept l from cs s (as_reserve t.candidate) (take_reserve t.candidate s) h t.there
          t.room refl refl refl))
      (suc (length cs)) (start cs from) (start-Kept l from cs)

abbrev pub IsReserve : SelectedCandidate → Type 0
IsReserve x =
    (x.selection_stage ≡ Stage.reserve)
    × (x.relaxed_vendor_cap ≡ false)
    × (x.relaxed_board_cap ≡ false)

-- Every selection for the reserve is marked so, and there are no more of them than are needed.
pub select_reserve-IsReserve :
    (cs : List Candidate) (needed : ℕ) (l : Limits) (from : Counters)
    → All IsReserve (select_reserve cs needed l from).selected
      × (length (select_reserve cs needed l from).selected ≤ needed)
unfolding select_reserve take_reserve
select_reserve-IsReserve cs needed l from =
    fill_reserve_inv (λ s. All IsReserve s.selected × (length s.selected ≤ needed)) l needed
      (λ s next h more t. rw t.step (
        All-append IsReserve s.selected (as_reserve t.candidate ∷ []) h.0 ((refl, refl, refl), tt),
        omega (arith, length-append s.selected (as_reserve t.candidate ∷ [])),
      ))
      (suc (length cs)) (start cs from) (tt, omega arith)
