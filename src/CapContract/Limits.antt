-- ===== src/CapContract/Limits.antt =====
-- The caps, in terms of the rows that are stored for the two selections.
use sm_poster.Prelude.{
  ℕ, ◌≤◌, ◌≡◌, refl, inl, inr, Bool, true, false, not, ◌&&◌, List, [], ◌∷◌, ◌++◌, arith, ◌==◌,
  count_if, count_if-append, keep,
}
use sm_poster.Planner.Candidates.{Candidate, Counters}
use sm_poster.Planner.Select.{SelectedCandidate, Selection, Limits}
use sm_poster.Planner.Select.Caps.{Kept, on_product, on_board}
use sm_poster.Planner.Select.Relaxation.{Honest}
use sm_poster.Planner.Pool.{Identity, identity_eq}
use sm_poster.Planner.Pool.Fresh.{has_identity}
use sm_poster.Planner.Preview.{item_spec}
use sm_poster.Planner.Draft.{stored_item}
use sm_poster.CapContract.{PlanItem, identity_of}
use sm_poster.CapContract.Counting.{count-keep}
use sm_poster.CapContract.Rows.{Stores, StoreAll, count-StoreAll}

==_comm : (a b : ℕ) → (a == b) ≡ (b == a)
==_comm a b = ground arith

module _ (is_reserve : Bool) (item : PlanItem) (x : SelectedCandidate)
    (s : Stores is_reserve item x) where
  product_same : (k : ℕ) → (item.product_id == k) ≡ on_product k x
  unfolding stored_item item_spec
  product_same k = rw s.row (==_comm x.candidate.product_id k)

  identity_same : (i : Identity) → identity_eq (identity_of item) i ≡ has_identity i x.candidate
  unfolding stored_item item_spec
  identity_same i = rw s.row refl

  board_same :
      (k : ℕ)
      → (not item.is_reserve && (item.local_board_id == k)) ≡ (not is_reserve && on_board k x)
  unfolding stored_item item_spec
  board_same k = rw s.row (rw (==_comm x.candidate.local_board_id k) refl)

none-count : {A : Type 0} (xs : List A) → count_if (λ x. false) xs ≡ 0
none-count [] = refl
none-count (x ∷ xs) = none-count xs

module _ (l : Limits) (from : Counters) (cs : List Candidate) (active reserve : Selection)
    (actives rs : List PlanItem) (ka : Kept l from cs active)
    (kr : Kept l active.counters active.remaining reserve)
    (sa : StoreAll false actives active.selected) (sr : StoreAll true rs reserve.selected) where
  pub product_rows : (k : ℕ) → count_if (λ r. r.product_id == k) (actives ++ rs) ≤ l.product_cap
  product_rows k =
      let test : PlanItem → Bool = λ r. r.product_id == k in
      let split = count_if-append test actives rs in
      let a =
        count-StoreAll false test (on_product k) (λ r x s. product_same false r x s k) actives
          active.selected sa in
      let b =
        count-StoreAll true test (on_product k) (λ r x s. product_same true r x s k) rs
          reserve.selected sr in
      let after_active = ka.products k in
      let after_reserve = kr.products k in
      elim (kr.capped k) [
        | inr few ↦ omega arith
        | inl no_reserve ↦ elim (ka.capped k) [
          | inr few ↦ omega arith
          | inl no_active ↦ omega arith
        ]
      ]

  pub identity_rows :
      (i : Identity)
      → count_if (has_identity i) cs ≤ 1
      → count_if (λ r. identity_eq (identity_of r) i) (actives ++ rs) ≤ 1
  identity_rows i once =
      let test : PlanItem → Bool = λ r. identity_eq (identity_of r) i in
      let u : SelectedCandidate → Bool = λ x. has_identity i x.candidate in
      let split = count_if-append test actives rs in
      let a =
        count-StoreAll false test u (λ r x s. identity_same false r x s i) actives active.selected
          sa in
      let b =
        count-StoreAll true test u (λ r x s. identity_same true r x s i) rs reserve.selected sr in
      let before_reserve = ka.conserved (has_identity i) in
      let after_reserve = kr.conserved (has_identity i) in omega arith

  pub board_rows :
      Honest l active
      → active.relaxed_board ≡ false
      → (k : ℕ)
      → count_if (λ r. r.local_board_id == k) (keep (λ r. not r.is_reserve) (actives ++ rs))
        ≤ l.board_limit
  board_rows honest strict k =
      let test : PlanItem → Bool = λ r. not r.is_reserve && (r.local_board_id == k) in
      let kept =
        count-keep (λ (r : PlanItem). r.local_board_id == k) (λ r. not r.is_reserve)
          (actives ++ rs) in
      let split = count_if-append test actives rs in
      let a =
        count-StoreAll false test (on_board k) (λ r x s. board_same false r x s k) actives
          active.selected sa in
      let b =
        count-StoreAll true test (λ x. false) (λ r x s. board_same true r x s k) rs reserve.selected
          sr in
      let none = none-count reserve.selected in
      let counted = ka.boards k in
      elim (honest.board_capped k) [
        | inl no_active ↦ omega arith
        | inr (inl few) ↦ omega arith
        | inr (inr relaxed) ↦ absurd (cc)
      ]
