-- ===== src/Planner/Select/Caps.antt =====
-- What the selection keeps, round by round: the counters, the caps and the candidates.
use sm_poster.Prelude.{
  ℕ, zero, suc, ◌+◌, ◌≤◌, ◌<◌, ◌≡◌, refl, ◌⊎◌, inl, inr, Bool, true, false, ◌&&◌, List, [], ◌∷◌,
  ◌++◌, arith, All, count_if, count_if-append, length, length-append, Bool-cases, Option-cases, ltb,
  ◌==◌, if◌then◌else◌,
}
use sm_poster.Planner.Candidates.{Candidate, Counters, Counter, add_one, count_candidate, remove}
use sm_poster.Planner.Select.{
  SelectedCandidate, Selection, Limits, Stage, start, product_full, vendor_over, board_over,
  available, take_candidate, choose, fill, fill_all, select_active,
}
use sm_poster.Planner.Select.Members.{
  has, count-remove, length-remove, Taken, choose-Taken, choose-none,
}

abbrev pub on_product : ℕ → SelectedCandidate → Bool
on_product k x = k == x.candidate.product_id

abbrev pub on_vendor : ℕ → SelectedCandidate → Bool
on_vendor k x = k == x.candidate.vendor_key

abbrev pub on_board : ℕ → SelectedCandidate → Bool
on_board k x = k == x.candidate.local_board_id

-- The counters are those of the start and of what was selected since; no product that was selected
-- is over its cap; and nothing is selected that was not among the candidates.
pub record Kept (l : Limits) (from : Counters) (cs : List Candidate) (s : Selection) : Type 0 where
  pub products :
      (k : ℕ) → s.counters.product k ≡ from.product k + count_if (on_product k) s.selected
  pub vendors : (k : ℕ) → s.counters.vendor k ≡ from.vendor k + count_if (on_vendor k) s.selected
  pub boards : (k : ℕ) → s.counters.board k ≡ from.board k + count_if (on_board k) s.selected
  pub capped :
      (k : ℕ) → (count_if (on_product k) s.selected ≡ 0) ⊎ (s.counters.product k ≤ l.product_cap)
  pub conserved :
      (test : Candidate → Bool)
      → count_if (λ x. test x.candidate) s.selected + count_if test s.remaining ≡ count_if test cs

pub start-Kept :
    (l : Limits) (from : Counters) (cs : List Candidate) → Kept l from cs (start cs from)
start-Kept l from cs = record {
  products = λ k. omega arith;
  vendors = λ k. omega arith;
  boards = λ k. omega arith;
  capped = λ k. inl refl;
  conserved = λ test. omega arith;
}

counted :
    (test : SelectedCandidate → Bool) (xs : List SelectedCandidate) (x : SelectedCandidate)
    (k key : ℕ) (c : Counter) (n : ℕ)
    → test x ≡ (k == key)
    → c k ≡ n + count_if test xs
    → add_one key c k ≡ n + count_if test (xs ++ x ∷ [])
unfolding add_one
counted test xs x k key c n same h = ground (arith, count_if-append test xs (x ∷ []))

still_capped :
    (xs : List SelectedCandidate) (x : SelectedCandidate) (k : ℕ) (c : Counter) (cap : ℕ)
    → (count_if (on_product k) xs ≡ 0) ⊎ (c k ≤ cap)
    → c x.candidate.product_id < cap
    → (count_if (on_product k) (xs ++ x ∷ []) ≡ 0) ⊎ (add_one x.candidate.product_id c k ≤ cap)
unfolding add_one
still_capped xs x k c cap h room = ground (arith, count_if-append (on_product k) xs (x ∷ []))

still_conserved :
    (xs : List SelectedCandidate) (x : SelectedCandidate) (remaining cs : List Candidate)
    (test : Candidate → Bool)
    → has x.candidate remaining ≡ true
    → count_if (λ y. test y.candidate) xs + count_if test remaining ≡ count_if test cs
    → count_if (λ y. test y.candidate) (xs ++ x ∷ []) + count_if test (remove x.candidate remaining)
      ≡ count_if test cs
still_conserved xs x remaining cs test there h = ground (
  arith,
  count_if-append (λ (y : SelectedCandidate). test y.candidate) xs (x ∷ []),
  count-remove test x.candidate remaining there,
)

room_of :
    (relax : Bool) (l : Limits) (n : Counters) (c : Candidate)
    → available relax l n c ≡ true
    → n.product c.product_id < l.product_cap
unfolding available product_full
room_of relax l n c h = ground arith

-- Any selection of a candidate that is there and whose product has room.
module _ (l : Limits) (from : Counters) (cs : List Candidate) (s : Selection)
    (x : SelectedCandidate) where
  pub added-Kept :
      (next : Selection)
      → Kept l from cs s
      → has x.candidate s.remaining ≡ true
      → s.counters.product x.candidate.product_id < l.product_cap
      → next.selected ≡ s.selected ++ x ∷ []
      → next.remaining ≡ remove x.candidate s.remaining
      → next.counters ≡ count_candidate x.candidate s.counters
      → Kept l from cs next
  unfolding count_candidate
  added-Kept next h there room e f g =
      let c = x.candidate in
      record {
        products = λ k.
            rw (e, g)
              (counted (on_product k) s.selected x k c.product_id s.counters.product
                (from.product k) refl (h.products k));
        vendors = λ k.
            rw (e, g)
              (counted (on_vendor k) s.selected x k c.vendor_key s.counters.vendor (from.vendor k)
                refl (h.vendors k));
        boards = λ k.
            rw (e, g)
              (counted (on_board k) s.selected x k c.local_board_id s.counters.board (from.board k)
                refl (h.boards k));
        capped = λ k.
            rw (e, g)
              (still_capped s.selected x k s.counters.product l.product_cap (h.capped k) room);
        conserved = λ test.
            rw (e, f) (still_conserved s.selected x s.remaining cs test there (h.conserved test));
      }

abbrev pub taken_as : Bool → Limits → Selection → Candidate → SelectedCandidate
taken_as relax l s c = record {
  candidate = c;
  selection_stage = if relax then Stage.relaxed else Stage.strict;
  relaxed_vendor_cap = relax && vendor_over l s.counters c;
  relaxed_board_cap = relax && board_over l s.counters c;
}

Taken-Kept :
    (relax : Bool) (l : Limits) (from : Counters) (cs : List Candidate) (s next : Selection)
    → Kept l from cs s
    → Taken relax l s next
    → Kept l from cs next
unfolding take_candidate
Taken-Kept relax l from cs s next h t = rw t.step (
    added-Kept l from cs s (taken_as relax l s t.candidate) (take_candidate relax l t.candidate s) h
      t.there (room_of relax l s.counters t.candidate t.allowed) refl refl refl)

-- The rule for the loop.
pub fill_inv :
    (P : Selection → Type 0) (relax : Bool) (l : Limits) (needed : ℕ)
    → ((s next : Selection) → P s → length s.selected < needed → Taken relax l s next → P next)
    → (fuel : ℕ) (s : Selection) → P s
    → P (fill fuel relax l needed s)
unfolding fill
fill_inv P relax l needed step zero s h = h
fill_inv P relax l needed step (suc fuel) s h = elim (Bool-cases (ltb (length s.selected) needed)) [
  | inr enough ↦ rw enough h
  | inl more ↦ elim (Option-cases (choose relax l s)) [
    | inl e ↦ rw (more, e) h
    | inr (next, e) ↦
        rw (more, e)
          (fill_inv P relax l needed step fuel next
            (step s next h (ground arith) (choose-Taken relax l s next e)))
  ]
]

less_remaining :
    (relax : Bool) (l : Limits) (s next : Selection) (fuel : ℕ)
    → Taken relax l s next
    → length s.remaining < suc fuel
    → length next.remaining < fuel
unfolding take_candidate
less_remaining relax l s next fuel t h =
    rw t.step (omega (arith, length-remove t.candidate s.remaining t.there))

-- With more fuel than candidates the loop ends by itself: enough is selected, or no candidate is
-- available any more.
pub fill_ends :
    (relax : Bool) (l : Limits) (needed fuel : ℕ) (s : Selection)
    → length s.remaining < fuel
    → (needed ≤ length (fill fuel relax l needed s).selected)
      ⊎ All
          (λ c. available relax l (fill fuel relax l needed s).counters c ≡ false)
          (fill fuel relax l needed s).remaining
unfolding fill
fill_ends relax l needed zero s h = absurd (omega arith)
fill_ends relax l needed (suc fuel) s h = elim (Bool-cases (ltb (length s.selected) needed)) [
  | inr enough ↦ rw enough (inl (ground arith))
  | inl more ↦ elim (Option-cases (choose relax l s)) [
    | inl e ↦ rw (more, e) (inr (choose-none relax l s e))
    | inr (next, e) ↦
        rw (more, e)
          (fill_ends relax l needed fuel next
            (less_remaining relax l s next fuel (choose-Taken relax l s next e) h))
  ]
]

pub fill_all-Kept :
    (relax : Bool) (l : Limits) (needed : ℕ) (from : Counters) (cs : List Candidate) (s : Selection)
    → Kept l from cs s
    → Kept l from cs (fill_all relax l needed s)
unfolding fill_all
fill_all-Kept relax l needed from cs s h =
    fill_inv (Kept l from cs) relax l needed (λ a b k more t. Taken-Kept relax l from cs a b k t)
      (suc (length s.remaining)) s h

-- What `select_active` keeps.
pub select_active-Kept :
    (cs : List Candidate) (needed : ℕ) (l : Limits) (from : Counters)
    → Kept l from cs (select_active cs needed l from)
unfolding select_active
select_active-Kept cs needed l from =
    fill_all-Kept true l needed from cs (fill_all false l needed (start cs from))
      (fill_all-Kept false l needed from cs (start cs from) (start-Kept l from cs))

abbrev NotLong : ℕ → Selection → Type 0
NotLong needed s = length s.selected ≤ needed

Taken-NotLong :
    (relax : Bool) (l : Limits) (needed : ℕ) (s next : Selection)
    → length s.selected < needed
    → Taken relax l s next
    → NotLong needed next
unfolding take_candidate
Taken-NotLong relax l needed s next more t =
    rw t.step (omega (arith, length-append s.selected (taken_as relax l s t.candidate ∷ [])))

pub fill_all-NotLong :
    (relax : Bool) (l : Limits) (needed : ℕ) (s : Selection)
    → NotLong needed s
    → NotLong needed (fill_all relax l needed s)
unfolding fill_all
fill_all-NotLong relax l needed s h =
    fill_inv (NotLong needed) relax l needed
      (λ a b k more t. Taken-NotLong relax l needed a b more t) (suc (length s.remaining)) s h

unavailable-full :
    (l : Limits) (n : Counters) (cs : List Candidate)
    → All (λ c. available true l n c ≡ false) cs
    → All (λ c. product_full l n c ≡ true) cs
unfolding available
unavailable-full l n [] h = tt
unavailable-full l n (c ∷ cs) h = (ground (arith, h.0), unavailable-full l n cs h.1)

fill_all_ends :
    (needed : ℕ) (l : Limits) (s : Selection)
    → NotLong needed (fill_all true l needed s)
    → (length (fill_all true l needed s).selected ≡ needed)
      ⊎ All
          (λ c. product_full l (fill_all true l needed s).counters c ≡ true)
          (fill_all true l needed s).remaining
unfolding fill_all
fill_all_ends needed l s short =
    elim (fill_ends true l needed (suc (length s.remaining)) s (omega arith)) [
      | inl enough ↦ inl (omega arith)
      | inr none_left ↦ inr (
          unavailable-full l (fill (suc (length s.remaining)) true l needed s).counters
            (fill (suc (length s.remaining)) true l needed s).remaining none_left)
    ]

-- The active selection and the loops that make it end: it is never longer than needed, and it is
-- shorter only if every candidate that is left has a product at its cap.
pub select_active_ends :
    (cs : List Candidate) (needed : ℕ) (l : Limits) (from : Counters)
    → (length (select_active cs needed l from).selected ≤ needed)
      × ((length (select_active cs needed l from).selected ≡ needed)
          ⊎ All
              (λ c. product_full l (select_active cs needed l from).counters c ≡ true)
              (select_active cs needed l from).remaining)
unfolding select_active
select_active_ends cs needed l from =
    let first = fill_all false l needed (start cs from) in
    let short =
      fill_all-NotLong true l needed first
        (fill_all-NotLong false l needed (start cs from) (omega arith)) in
    (short, fill_all_ends needed l first short)
