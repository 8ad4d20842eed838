-- ===== src/Planner/Pool/Fresh.antt =====
-- Each identity is in the pool at most once, and no used one is.
use sm_poster.Prelude.{
  ℕ, ◌≤◌, ◌≡◌, refl, inl, inr, Bool, true, false, List, [], ◌∷◌, ◌++◌, arith, any, count_if,
  count_if-append, Bool-cases, Option-cases, ◌==◌,
}
use sm_poster.Planner.Candidates.{Candidate}
use sm_poster.Planner.Sorting.{count-sort_by}
use sm_poster.Planner.Pool.{
  Pool, Inputs, Identity, PoolProduct, Proposal, Keyed, identity_eq, is_used, no_pool, pool_key,
  make_candidate, dict_get, offer_identity, offer, offer_all, offer_product, offer_products,
  eligible_products, candidate_pool,
}

abbrev pub identity_of : Candidate → Identity
identity_of c = record {
  product = c.product_id;
  board = c.local_board_id;
  angle = c.content_angle_id;
}

abbrev pub has_identity : Identity → Candidate → Bool
has_identity i c = identity_eq (identity_of c) i

-- An identity that is used, or whose fingerprint was not seen, has no candidate; another has one at
-- most.
record IsFresh (inputs : Inputs) (i : Identity) (s : Pool) : Type 0 where
  once : count_if (has_identity i) s.candidates ≤ 1
  unseen :
      any (λ f. f == inputs.fingerprint i) s.seen_candidate_fingerprints ≡ false
      → count_if (has_identity i) s.candidates ≡ 0
  unused : is_used inputs i ≡ true → count_if (has_identity i) s.candidates ≡ 0

identity_eq_sound : (i j : Identity) → identity_eq i j ≡ true → i ≡ j
unfolding identity_eq
identity_eq_sound i j h = ground arith

module _ (inputs : Inputs) (i : Identity) where
  -- A candidate of another identity is added, or one of this identity that was neither used nor seen.
  added-IsFresh :
      (s : Pool) (c : Candidate)
      → IsFresh inputs i s
      → is_used inputs (identity_of c) ≡ false
      → any (λ f. f == inputs.fingerprint (identity_of c)) s.seen_candidate_fingerprints ≡ false
      → IsFresh inputs i (record s {
        candidates = s.candidates ++ c ∷ [];
        seen_candidate_fingerprints =
            inputs.fingerprint (identity_of c) ∷ s.seen_candidate_fingerprints;
      })
  added-IsFresh s c h free fresh =
      let count = count_if-append (has_identity i) s.candidates (c ∷ []) in
      elim (Bool-cases (has_identity i c)) [
        | inl e ↦
            let same = identity_eq_sound (identity_of c) i e in
            let none_yet = h.unseen (rw same at fresh) in
            let not_used = rw same at free in
            record {
              once = ground (arith, count);
              unseen = λ k. absurd (ground (arith, k, same));
              unused = λ k. absurd (ground arith);
            }
        | inr e ↦ record {
          once = let o = h.once in ground (arith, count);
          unseen = λ k. let z = h.unseen (ground arith) in ground (arith, count);
          unused = λ k. let z = h.unused k in ground (arith, count);
        }
      ]

  -- The other fields do not matter.
  alike-IsFresh :
      (s t : Pool)
      → t.candidates ≡ s.candidates
      → t.seen_candidate_fingerprints ≡ s.seen_candidate_fingerprints
      → IsFresh inputs i s
      → IsFresh inputs i t
  alike-IsFresh s t e f h = record {
    once = rw e h.once;
    unseen = λ k. rw e (h.unseen (rw f at k));
    unused = λ k. rw e (h.unused k);
  }

  offer_identity-IsFresh :
      (p : PoolProduct) (proposal : Proposal) (board angle : Keyed) (s : Pool)
      → IsFresh inputs i s
      → IsFresh inputs i (offer_identity inputs p proposal board angle s)
  unfolding offer_identity make_candidate
  offer_identity-IsFresh p proposal board angle s h =
      let identity : Identity = record { product = p.id; board = board.id; angle = angle.id } in
      let fingerprint = inputs.fingerprint identity in
      elim (Bool-cases (is_used inputs identity)) [
        | inl used ↦ rw used h
        | inr free ↦ elim (Bool-cases (any (λ f. f == fingerprint) s.seen_candidate_fingerprints)) [
          | inl seen ↦ rw (free, seen) h
          | inr fresh ↦
              rw (free, fresh)
                (alike-IsFresh _ _ refl refl (
                  added-IsFresh s (make_candidate p proposal board angle fingerprint) h free fresh))
        ]
      ]

  offer-IsFresh :
      (p : PoolProduct) (proposal : Proposal) (s : Pool)
      → IsFresh inputs i s
      → IsFresh inputs i (offer inputs p proposal s)
  unfolding offer
  offer-IsFresh p proposal s h = elim (Option-cases (dict_get proposal.board_key inputs.boards)) [
    | inl e ↦ rw e (alike-IsFresh s _ refl refl h)
    | inr (board, e) ↦ elim (Option-cases (dict_get proposal.angle_key inputs.angles)) [
      | inl f ↦ rw (e, f) (alike-IsFresh s _ refl refl h)
      | inr (angle, f) ↦ rw (e, f) (offer_identity-IsFresh p proposal board angle s h)
    ]
  ]

  offer_all-IsFresh :
      (p : PoolProduct) (proposals : List Proposal) (s : Pool)
      → IsFresh inputs i s
      → IsFresh inputs i (offer_all inputs p proposals s)
  unfolding offer_all
  offer_all-IsFresh p [] s h = h
  offer_all-IsFresh p (proposal ∷ rest) s h =
      offer_all-IsFresh p rest (offer inputs p proposal s) (offer-IsFresh p proposal s h)

  offer_products-IsFresh :
      (products : List PoolProduct) (s : Pool)
      → IsFresh inputs i s
      → IsFresh inputs i (offer_products inputs products s)
  unfolding offer_products offer_product
  offer_products-IsFresh [] s h = h
  offer_products-IsFresh (p ∷ rest) s h = offer_products-IsFresh rest (offer_product inputs p s) (
      alike-IsFresh _ _ refl refl
        (offer_all-IsFresh p (inputs.propose p) _ (alike-IsFresh s _ refl refl h)))

  no_pool-IsFresh : IsFresh inputs i no_pool
  no_pool-IsFresh = record { once = omega arith; unseen = λ k. refl; unused = λ k. refl }

-- The pool has at most one candidate of each product, board and angle, and none of those that the
-- month's publications use.
pub candidate_pool-once :
    (store : ℕ) (inputs : Inputs) (products : List PoolProduct) (i : Identity)
    → (count_if (has_identity i) (candidate_pool store inputs products).candidates ≤ 1)
      × (is_used inputs i ≡ true
          → count_if (has_identity i) (candidate_pool store inputs products).candidates ≡ 0)
unfolding candidate_pool
candidate_pool-once store inputs products i =
    let pool = offer_products inputs (eligible_products store products) no_pool in
    let h =
      offer_products-IsFresh inputs i (eligible_products store products) no_pool
        (no_pool-IsFresh inputs i) in
    let same = count-sort_by pool_key (has_identity i) pool.candidates in
    (rw same h.once, λ used. rw same (h.unused used))
