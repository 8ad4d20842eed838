-- ===== src/CapContract/Planned.antt =====
-- The plans that the planner stores keep their cap contract.
use sm_poster.Prelude.{
  ℕ, ◌≤◌, ◌<◌, ◌≡◌, refl, ◌≢◌, ◌⊎◌, inl, inr, Bool, true, false, not, ◌||◌, List, [], ◌∷◌, ◌++◌,
  arith, ◌==◌, ltb, keep, count_if, any, map, Bool-cases,
}
use sm_poster.Quotas.Envelope.{Share, share_limit}
use sm_poster.CapContract.{
  CapContract, PlanItem, StoredPlan, CapError, ok, err, bool_eq, cap_blockers, read_contract,
  validate_planner_cap_contract, slot_key, identity_of,
}
use sm_poster.CapContract.Counting.{over_cap-false, has_duplicates-false}
use sm_poster.CapContract.Markers.{AllRead}
use sm_poster.Planner.Pool.{Identity, identity_eq}
use sm_poster.Planner.Sorting.{sort_by}
use sm_poster.Planner.Plan.{PortfolioPreview}
use sm_poster.Planner.Draft.{stored_plan}

bool_eq_refl : (b : Bool) → bool_eq b b ≡ true
bool_eq_refl true = refl
bool_eq_refl false = refl

-- A share that is more than 0 and at most 1.
abbrev pub IsShare : Share → Type 0
IsShare s = (0 < s.numerator) × (s.numerator ≤ s.scale)

abbrev pub contract_of : PortfolioPreview → CapContract
contract_of p = record {
  target_pins = p.target_pins;
  max_pins_per_product = p.cap_policy.max_pins_per_product;
  max_vendor_share = p.cap_policy.max_vendor_share;
  max_board_share = p.cap_policy.max_board_share;
  vendor_limit = p.cap_policy.vendor_limit;
  board_limit = p.cap_policy.board_limit;
  used = p.cap_relaxation.used;
  vendor_cap_relaxed = p.cap_relaxation.vendor_cap_relaxed;
  board_cap_relaxed = p.cap_relaxation.board_cap_relaxed;
  selection_markers = [];
}

share_limit_pos : (target : ℕ) (s : Share) → ltb (share_limit target s) 1 ≡ false
unfolding share_limit
share_limit_pos target s = ground arith

same_number : (n : ℕ) → (n == n) ≡ true
same_number n = ground arith

pub read_contract-ok :
    (p : PortfolioPreview)
    → 1 ≤ p.target_pins
    → 1 ≤ p.cap_policy.max_pins_per_product
    → IsShare p.cap_policy.max_vendor_share
    → IsShare p.cap_policy.max_board_share
    → p.cap_policy.vendor_limit ≡ share_limit p.target_pins p.cap_policy.max_vendor_share
    → p.cap_policy.board_limit ≡ share_limit p.target_pins p.cap_policy.max_board_share
    → p.cap_relaxation.vendor_limit ≡ p.cap_policy.vendor_limit
    → p.cap_relaxation.board_limit ≡ p.cap_policy.board_limit
    → p.cap_relaxation.used
      ≡ (p.cap_relaxation.vendor_cap_relaxed || p.cap_relaxation.board_cap_relaxed)
    → read_contract (stored_plan p) ≡ ok (contract_of p)
unfolding read_contract stored_plan
read_contract-ok p target some_cap (v0, v1) (b0, b1) vendor board rv rb used =
    let t : ltb p.target_pins 1 ≡ false = ground arith in
    let c : ltb p.cap_policy.max_pins_per_product 1 ≡ false = ground arith in
    let v2 : ltb 0 p.cap_policy.max_vendor_share.numerator ≡ true = ground arith in
    let v3 : ltb p.cap_policy.max_vendor_share.scale p.cap_policy.max_vendor_share.numerator
        ≡ false =
      ground arith in
    let b2 : ltb 0 p.cap_policy.max_board_share.numerator ≡ true = ground arith in
    let b3 : ltb p.cap_policy.max_board_share.scale p.cap_policy.max_board_share.numerator ≡ false =
      ground arith in
    let lv = share_limit_pos p.target_pins p.cap_policy.max_vendor_share in
    let lb = share_limit_pos p.target_pins p.cap_policy.max_board_share in
    rw
      (
        rv,
        rb,
        vendor,
        board,
        used,
        t,
        c,
        v2,
        v3,
        b2,
        b3,
        lv,
        lb,
        same_number,
        same_number (share_limit p.target_pins p.cap_policy.max_board_share),
        bool_eq_refl,
      )
      refl

-- A limit that is not the contract's is refused.
pub read_contract-mismatch :
    (p : PortfolioPreview)
    → 1 ≤ p.target_pins
    → 1 ≤ p.cap_policy.max_pins_per_product
    → IsShare p.cap_policy.max_vendor_share
    → IsShare p.cap_policy.max_board_share
    → 1 ≤ p.cap_policy.vendor_limit
    → 1 ≤ p.cap_policy.board_limit
    → p.cap_relaxation.vendor_limit ≡ p.cap_policy.vendor_limit
    → p.cap_relaxation.board_limit ≡ p.cap_policy.board_limit
    → (p.cap_policy.vendor_limit ≢ share_limit p.target_pins p.cap_policy.max_vendor_share)
      ⊎ (p.cap_policy.board_limit ≢ share_limit p.target_pins p.cap_policy.max_board_share)
    → read_contract (stored_plan p) ≡ err CapError.policy_mismatch
unfolding read_contract stored_plan
read_contract-mismatch p target some_cap (v0, v1) (b0, b1) some_vendor some_board rv rb wrong =
    let t : ltb p.target_pins 1 ≡ false = ground arith in
    let c : ltb p.cap_policy.max_pins_per_product 1 ≡ false = ground arith in
    let v2 : ltb 0 p.cap_policy.max_vendor_share.numerator ≡ true = ground arith in
    let v3 : ltb p.cap_policy.max_vendor_share.scale p.cap_policy.max_vendor_share.numerator
        ≡ false =
      ground arith in
    let b2 : ltb 0 p.cap_policy.max_board_share.numerator ≡ true = ground arith in
    let b3 : ltb p.cap_policy.max_board_share.scale p.cap_policy.max_board_share.numerator ≡ false =
      ground arith in
    let lv : ltb p.cap_policy.vendor_limit 1 ≡ false = ground arith in
    let lb : ltb p.cap_policy.board_limit 1 ≡ false = ground arith in
    let vendor =
      p.cap_policy.vendor_limit == share_limit p.target_pins p.cap_policy.max_vendor_share in
    let board =
      p.cap_policy.board_limit == share_limit p.target_pins p.cap_policy.max_board_share in
    elim (Bool-cases vendor) [
      | inr e ↦ rw (rv, rb, t, c, v2, v3, b2, b3, lv, lb, e) refl
      | inl e ↦
          let f : board ≡ false = ground arith in
          rw (rv, rb, t, c, v2, v3, b2, b3, lv, lb, e, f) refl
    ]

module _ (plan : StoredPlan) (items : List PlanItem) (c : CapContract)
    (read : read_contract plan ≡ ok c) (r : AllRead (sort_by slot_key items))
    (vendors : any (λ m. m.relaxed_vendor_cap) r.markers ≡ c.vendor_cap_relaxed)
    (boards : any (λ m. m.relaxed_board_cap) r.markers ≡ c.board_cap_relaxed) where
  pub validate-ok :
      validate_planner_cap_contract plan items ≡ ok (record c { selection_markers = r.markers })
  unfolding validate_planner_cap_contract
  validate-ok =
      rw (read, r.made, vendors, boards, bool_eq_refl, bool_eq_refl c.board_cap_relaxed) refl

pub no_cap_blockers :
    (items : List PlanItem) (c : CapContract)
    → ((k : ℕ) → count_if (λ r. r.product_id == k) items ≤ c.max_pins_per_product)
    → ((i : Identity) → count_if (λ r. identity_eq (identity_of r) i) items ≤ 1)
    → (c.board_cap_relaxed ≡ false
        → (k : ℕ)
        → count_if (λ r. r.local_board_id == k) (keep (λ r. not r.is_reserve) items)
          ≤ c.board_limit)
    → cap_blockers items c ≡ []
unfolding cap_blockers
no_cap_blockers items c products identities boards =
    let a = over_cap-false (λ r. r.product_id) c.max_pins_per_product items products in
    let b = has_duplicates-false items identities in
    elim (Bool-cases c.board_cap_relaxed) [
      | inl relaxed ↦ rw (a, b, relaxed) refl
      | inr strict ↦
          let d =
            over_cap-false (λ r. r.local_board_id) c.board_limit
              (keep (λ r. not r.is_reserve) items) (boards strict) in
          rw (a, b, strict, d) refl
    ]

pub map-append :
    {A B : Type 0} (f : A → B) (xs ys : List A) → map f (xs ++ ys) ≡ map f xs ++ map f ys
map-append f [] ys = refl
map-append f (x ∷ xs) ys = rw (map-append f xs ys) refl
