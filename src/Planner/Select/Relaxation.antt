-- ===== src/Planner/Select/Relaxation.antt =====
-- The soft caps on vendors and boards: when they are relaxed, and what the marks say of it.
use sm_poster.Prelude.{
  ℕ, suc, ◌≤◌, ◌<◌, ◌≡◌, refl, ◌⊎◌, inl, inr, Bool, true, false, not, ◌||◌, List, [], ◌∷◌, ◌++◌,
  arith, any, any-append, All, All-append, count_if, count_if-append, length, ◌==◌,
}
use sm_poster.Planner.Candidates.{Candidate, Counters, Counter, add_one, count_candidate, remove}
use sm_poster.Planner.Select.{
  SelectedCandidate, Selection, Limits, Stage, start, product_full, vendor_over, board_over,
  available, take_candidate, fill, fill_all, select_active,
}
use sm_poster.Planner.Select.Members.{has-All, remove-All, Taken}
use sm_poster.Planner.Select.Caps.{on_vendor, on_board, fill_inv, fill_ends, taken_as}

-- A strict selection is over no soft cap, and a relaxed one is over at least one.
abbrev pub marked : Stage → Bool → Bool → Bool
marked Stage.strict v b = not (v || b)
marked Stage.relaxed v b = v || b
marked Stage.reserve v b = false

abbrev pub IsMarked : SelectedCandidate → Type 0
IsMarked x = marked x.selection_stage x.relaxed_vendor_cap x.relaxed_board_cap ≡ true

-- The summary of the relaxation says what the marks say, and a soft cap that was not relaxed holds.
pub record Honest (l : Limits) (s : Selection) : Type 0 where
  pub marks : All IsMarked s.selected
  pub vendor_flag : s.relaxed_vendor ≡ any (λ x. x.relaxed_vendor_cap) s.selected
  pub board_flag : s.relaxed_board ≡ any (λ x. x.relaxed_board_cap) s.selected
  pub vendor_capped :
      (k : ℕ)
      → (count_if (on_vendor k) s.selected ≡ 0)
        ⊎ ((s.counters.vendor k ≤ l.vendor_limit) ⊎ (s.relaxed_vendor ≡ true))
  pub board_capped :
      (k : ℕ)
      → (count_if (on_board k) s.selected ≡ 0)
        ⊎ ((s.counters.board k ≤ l.board_limit) ⊎ (s.relaxed_board ≡ true))

-- No candidate that is left could be taken without relaxing a soft cap.
abbrev pub Exhausted : Limits → Selection → Type 0
Exhausted l s = All (λ c. available false l s.counters c ≡ false) s.remaining

available_mono :
    (l : Limits) (n : Counters) (c d : Candidate)
    → available false l n d ≡ false
    → available false l (count_candidate c n) d ≡ false
unfolding available product_full vendor_over board_over count_candidate add_one
available_mono l n c d h = ground arith

available_mono-All :
    (l : Limits) (n : Counters) (c : Candidate) (ds : List Candidate)
    → All (λ d. available false l n d ≡ false) ds
    → All (λ d. available false l (count_candidate c n) d ≡ false) ds
available_mono-All l n c [] h = tt
available_mono-All l n c (d ∷ ds) h = (available_mono l n c d h.0, available_mono-All l n c ds h.1)

Taken-Exhausted :
    (relax : Bool) (l : Limits) (s next : Selection)
    → Exhausted l s
    → Taken relax l s next
    → Exhausted l next
unfolding take_candidate
Taken-Exhausted relax l s next h t =
    let c = t.candidate in
    rw t.step (
      available_mono-All l s.counters c (remove c s.remaining)
        (remove-All (λ d. available false l s.counters d ≡ false) c s.remaining h))

soft_capped :
    (test : SelectedCandidate → Bool) (xs : List SelectedCandidate) (x : SelectedCandidate)
    (k key cap : ℕ) (c : Counter) (over flag : Bool)
    → test x ≡ (k == key)
    → (over ≡ true) ⊎ (c key < cap)
    → (count_if test xs ≡ 0) ⊎ ((c k ≤ cap) ⊎ (flag ≡ true))
    → (count_if test (xs ++ x ∷ []) ≡ 0) ⊎ ((add_one key c k ≤ cap) ⊎ ((flag || over) ≡ true))
unfolding add_one
soft_capped test xs x k key cap c over flag same room h =
    ground (arith, count_if-append test xs (x ∷ []))

strict_room :
    (l : Limits) (n : Counters) (c : Candidate)
    → available false l n c ≡ true
    → (n.vendor c.vendor_key < l.vendor_limit) × (n.board c.local_board_id < l.board_limit)
unfolding available vendor_over board_over
strict_room l n c h = ground arith

vendor_room :
    (l : Limits) (n : Counters) (c : Candidate)
    → (vendor_over l n c ≡ true) ⊎ (n.vendor c.vendor_key < l.vendor_limit)
unfolding vendor_over
vendor_room l n c = ground arith

board_room :
    (l : Limits) (n : Counters) (c : Candidate)
    → (board_over l n c ≡ true) ⊎ (n.board c.local_board_id < l.board_limit)
unfolding board_over
board_room l n c = ground arith

or_false : (b : Bool) → (b || false) ≡ b
or_false true = refl
or_false false = refl

flag_false :
    (test : SelectedCandidate → Bool) (xs : List SelectedCandidate) (x : SelectedCandidate)
    (flag : Bool)
    → flag ≡ any test xs
    → test x ≡ false
    → flag ≡ any test (xs ++ x ∷ [])
flag_false test xs x flag h k = ground (arith, any-append test xs (x ∷ []))

flag_or :
    (test : SelectedCandidate → Bool) (xs : List SelectedCandidate) (x : SelectedCandidate)
    (flag over : Bool)
    → flag ≡ any test xs
    → test x ≡ over
    → (flag || over) ≡ any test (xs ++ x ∷ [])
flag_or test xs x flag over h k = ground (arith, any-append test xs (x ∷ []))

module _ (l : Limits) (s : Selection) (c : Candidate) (h : Honest l s) where
  strict-Honest : available false l s.counters c ≡ true → Honest l (take_candidate false l c s)
  unfolding take_candidate count_candidate
  strict-Honest allowed =
      let (v, b) = strict_room l s.counters c allowed in
      let x = taken_as false l s c in
      record {
        marks = All-append IsMarked s.selected (x ∷ []) h.marks (refl, tt);
        vendor_flag =
            flag_false (λ y. y.relaxed_vendor_cap) s.selected x s.relaxed_vendor h.vendor_flag refl;
        board_flag =
            flag_false (λ y. y.relaxed_board_cap) s.selected x s.relaxed_board h.board_flag refl;
        vendor_capped = λ k. rw (← or_false s.relaxed_vendor) (
            soft_capped (on_vendor k) s.selected x k c.vendor_key l.vendor_limit s.counters.vendor
              false s.relaxed_vendor refl (inr v) (h.vendor_capped k));
        board_capped = λ k. rw (← or_false s.relaxed_board) (
            soft_capped (on_board k) s.selected x k c.local_board_id l.board_limit s.counters.board
              false s.relaxed_board refl (inr b) (h.board_capped k));
      }

  over_one :
      available true l s.counters c ≡ true
      → available false l s.counters c ≡ false
      → (vendor_over l s.counters c || board_over l s.counters c) ≡ true
  unfolding available
  over_one allowed refused = ground arith

  relaxed-Honest :
      available true l s.counters c ≡ true
      → available false l s.counters c ≡ false
      → Honest l (take_candidate true l c s)
  unfolding take_candidate count_candidate
  relaxed-Honest allowed refused =
      let x = taken_as true l s c in
      record {
        marks = All-append IsMarked s.selected (x ∷ []) h.marks (over_one allowed refused, tt);
        vendor_flag =
            flag_or (λ y. y.relaxed_vendor_cap) s.selected x s.relaxed_vendor
              (vendor_over l s.counters c) h.vendor_flag refl;
        board_flag =
            flag_or (λ y. y.relaxed_board_cap) s.selected x s.relaxed_board
              (board_over l s.counters c) h.board_flag refl;
        vendor_capped = λ k.
            soft_capped (on_vendor k) s.selected x k c.vendor_key l.vendor_limit s.counters.vendor
              (vendor_over l s.counters c) s.relaxed_vendor refl (vendor_room l s.counters c)
              (h.vendor_capped k);
        board_capped = λ k.
            soft_capped (on_board k) s.selected x k c.local_board_id l.board_limit s.counters.board
              (board_over l s.counters c) s.relaxed_board refl (board_room l s.counters c)
              (h.board_capped k);
      }

start-Honest : (l : Limits) (from : Counters) (cs : List Candidate) → Honest l (start cs from)
start-Honest l from cs = record {
  marks = tt;
  vendor_flag = refl;
  board_flag = refl;
  vendor_capped = λ k. inl refl;
  board_capped = λ k. inl refl;
}

step-strict : (l : Limits) (s next : Selection) → Honest l s → Taken false l s next → Honest l next
step-strict l s next h t = rw t.step (strict-Honest l s t.candidate h t.allowed)

step-relaxed :
    (l : Limits) (s next : Selection)
    → Honest l s × Exhausted l s
    → Taken true l s next
    → Honest l next × Exhausted l next
step-relaxed l s next (h, e) t =
    let refused =
      has-All (λ d. available false l s.counters d ≡ false) t.candidate s.remaining e t.there in
    (
      rw t.step (relaxed-Honest l s t.candidate h t.allowed refused),
      Taken-Exhausted true l s next e t,
    )

-- When enough is selected the second loop does nothing.
fill_all-enough :
    (relax : Bool) (l : Limits) (needed : ℕ) (s : Selection)
    → needed ≤ length s.selected
    → fill_all relax l needed s ≡ s
unfolding fill_all fill
fill_all-enough relax l needed s h = ground arith

second-Honest :
    (l : Limits) (needed : ℕ) (s : Selection)
    → Honest l s
    → (needed ≤ length s.selected) ⊎ Exhausted l s
    → Honest l (fill_all true l needed s)
unfolding fill_all
second-Honest l needed s h (inl enough) = rw (fill_all-enough true l needed s enough) h
second-Honest l needed s h (inr e) =
    (fill_inv (λ a. Honest l a × Exhausted l a) true l needed
      (λ a b k more t. step-relaxed l a b k t) (suc (length s.remaining)) s (h, e)).0

first-Honest :
    (l : Limits) (needed : ℕ) (from : Counters) (cs : List Candidate)
    → Honest l (fill_all false l needed (start cs from))
      × ((needed ≤ length (fill_all false l needed (start cs from)).selected)
          ⊎ Exhausted l (fill_all false l needed (start cs from)))
unfolding fill_all
first-Honest l needed from cs = (
  fill_inv (Honest l) false l needed (λ a b k more t. step-strict l a b k t) (suc (length cs))
      (start cs from) (start-Honest l from cs),
  fill_ends false l needed (suc (length cs)) (start cs from) (omega arith),
)

-- What `select_active` reports of its relaxations is true: candidates are taken beyond a soft cap
-- only in the second loop, each of those is marked with a cap that it exceeds, the summary says
-- exactly what the marks say, and where it reports no relaxation the cap holds for every vendor, and
-- for every board, of which something was selected.
pub select_active-Honest :
    (cs : List Candidate) (needed : ℕ) (l : Limits) (from : Counters)
    → Honest l (select_active cs needed l from)
unfolding select_active
select_active-Honest cs needed l from =
    let (h, e) = first-Honest l needed from cs in
    second-Honest l needed (fill_all false l needed (start cs from)) h e
