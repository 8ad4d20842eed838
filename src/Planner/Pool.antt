-- ===== src/Planner/Pool.antt =====
-- `_eligible_products` and `_candidate_pool`: what a plan may choose from.
pub mod Fresh
use sm_poster.Prelude.{
  ℕ, zero, suc, Bool, true, false, not, ◌&&◌, ◌||◌, Option, none, some, List, [], ◌∷◌, ◌++◌, ltb,
  ◌==◌, any, keep, length, if◌then◌else◌,
}
use sm_poster.Planner.Candidates.{Candidate, Counter, Key, add_one, up, down}
use sm_poster.Planner.Sorting.{sort_by}

-- A product with its intelligence. `vendor_key` is the folded text of the first of brand, vendor,
-- title and id that is not empty.
pub record PoolProduct : Type 0 where
  pub id : ℕ
  pub store_id : ℕ
  pub is_active : Bool
  pub excluded_from_editorial : Bool
  pub inventory_total : ℕ
  pub is_eligible : Bool
  pub inventory_eligible : Bool
  pub image_available : Bool
  pub normalization_unknown : Bool
  pub vendor_key : ℕ
  pub manual_priority : ℕ
  pub eligibility_score : ℕ

unfoldable pub is_candidate_product : ℕ → PoolProduct → Bool
is_candidate_product store p =
    p.store_id == store
    && p.is_active
    && not p.excluded_from_editorial
    && ltb 0 p.inventory_total
    && p.is_eligible
    && p.inventory_eligible
    && p.image_available
    && not p.normalization_unknown

unfoldable pub eligible_products : ℕ → List PoolProduct → List PoolProduct
unfolding is_candidate_product
eligible_products store products =
    sort_by (λ p. down p.manual_priority ∷ down p.eligibility_score ∷ up p.id ∷ [])
      (keep (is_candidate_product store) products)

-- What `propose_content` proposes for a product.
pub record Proposal : Type 0 where
  pub board_key : ℕ
  pub angle_key : ℕ
  pub keywords : ℕ

-- A row of `Board` or of `ContentAngle`: its id, and its slug or key.
pub record Keyed : Type 0 where
  pub id : ℕ
  pub key : ℕ

-- `{row.key: row for row in rows}.get(key)`: the last row with the key.
unfoldable pub dict_get : ℕ → List Keyed → Option Keyed
dict_get key [] = none
dict_get key (row ∷ rows) = elim (dict_get key rows) [
  | some later ↦ some later
  | none ↦ if row.key == key then some row else none
]

-- `(product.id, board.id, angle.id)`
pub record Identity : Type 0 where
  pub product : ℕ
  pub board : ℕ
  pub angle : ℕ

unfoldable pub identity_eq : Identity → Identity → Bool
identity_eq i j = i.product == j.product && i.board == j.board && i.angle == j.angle

-- `set.add`
unfoldable pub set_add : ℕ → List ℕ → List ℕ
set_add key keys = if any (λ k. k == key) keys then keys else keys ++ key ∷ []

-- The variables of the loop over the proposals of a product.
pub record Pool : Type 0 where
  pub candidates : List Candidate
  pub seen_candidate_fingerprints : List ℕ
  pub product_missing_boards : List ℕ
  pub product_missing_angles : List ℕ
  pub missing_boards : Counter
  pub missing_angles : Counter

-- What the loops read: the rows of the two queries in their order, the identities that are used,
-- what is proposed for a product, and the fingerprint of an identity in the month.
pub record Inputs : Type 0 where
  pub boards : List Keyed
  pub angles : List Keyed
  pub used_identity : List Identity
  pub propose : PoolProduct → List Proposal
  pub fingerprint : Identity → ℕ

abbrev pub is_used : Inputs → Identity → Bool
is_used inputs i = any (λ j. identity_eq j i) inputs.used_identity

unfoldable pub make_candidate : PoolProduct → Proposal → Keyed → Keyed → ℕ → Candidate
make_candidate p proposal board angle fingerprint = record {
  product_id = p.id;
  vendor_key = p.vendor_key;
  local_board_id = board.id;
  board_key = board.key;
  content_angle_id = angle.id;
  angle_key = angle.key;
  seed_keywords = proposal.keywords;
  manual_priority = p.manual_priority;
  eligibility_score = p.eligibility_score;
  candidate_fingerprint = fingerprint;
}

-- A proposal whose board and angle were found.
unfoldable pub offer_identity : Inputs → PoolProduct → Proposal → Keyed → Keyed → Pool → Pool
unfolding make_candidate identity_eq
offer_identity inputs p proposal board angle s =
    let identity : Identity = record { product = p.id; board = board.id; angle = angle.id } in
    let fingerprint = inputs.fingerprint identity in
    if is_used inputs identity || any (λ f. f == fingerprint) s.seen_candidate_fingerprints
    then s
    else record s {
      candidates = s.candidates ++ make_candidate p proposal board angle fingerprint ∷ [];
      seen_candidate_fingerprints = fingerprint ∷ s.seen_candidate_fingerprints;
    }

abbrev with_angle : Inputs → PoolProduct → Proposal → Keyed → Option Keyed → Pool → Pool
with_angle inputs p proposal board none s = record s {
  product_missing_angles = set_add proposal.angle_key s.product_missing_angles;
}
with_angle inputs p proposal board (some angle) s = offer_identity inputs p proposal board angle s

abbrev with_board : Inputs → PoolProduct → Proposal → Option Keyed → Pool → Pool
with_board inputs p proposal none s = record s {
  product_missing_boards = set_add proposal.board_key s.product_missing_boards;
}
with_board inputs p proposal (some board) s =
    with_angle inputs p proposal board (dict_get proposal.angle_key inputs.angles) s

-- The body of the loop over the proposals.
unfoldable pub offer : Inputs → PoolProduct → Proposal → Pool → Pool
unfolding offer_identity set_add dict_get
offer inputs p proposal s =
    with_board inputs p proposal (dict_get proposal.board_key inputs.boards) s

unfoldable pub offer_all : Inputs → PoolProduct → List Proposal → Pool → Pool
unfolding offer
offer_all inputs p [] s = s
offer_all inputs p (proposal ∷ rest) s = offer_all inputs p rest (offer inputs p proposal s)

-- `for key in keys: counter[key] += 1`
abbrev pub count_keys : List ℕ → Counter → Counter
count_keys [] c = c
count_keys (key ∷ keys) c = count_keys keys (add_one key c)

-- The body of the loop over the products.
unfoldable pub offer_product : Inputs → PoolProduct → Pool → Pool
unfolding offer_all
offer_product inputs p s =
    let fresh : Pool = record s { product_missing_boards = []; product_missing_angles = [] } in
    let done = offer_all inputs p (inputs.propose p) fresh in
    record done {
      missing_boards = count_keys done.product_missing_boards done.missing_boards;
      missing_angles = count_keys done.product_missing_angles done.missing_angles;
    }

unfoldable pub offer_products : Inputs → List PoolProduct → Pool → Pool
unfolding offer_product
offer_products inputs [] s = s
offer_products inputs (p ∷ rest) s = offer_products inputs rest (offer_product inputs p s)

abbrev pub no_pool : Pool
no_pool = record {
  candidates = [];
  seen_candidate_fingerprints = [];
  product_missing_boards = [];
  product_missing_angles = [];
  missing_boards = λ k. 0;
  missing_angles = λ k. 0;
}

abbrev pub pool_key : Candidate → List Key
pool_key c =
    down c.manual_priority
    ∷ down c.eligibility_score
    ∷ up c.product_id
    ∷ up c.board_key
    ∷ up c.angle_key
    ∷ up c.candidate_fingerprint
    ∷ []

-- `_candidate_pool`
unfoldable pub candidate_pool : ℕ → Inputs → List PoolProduct → Pool
unfolding eligible_products offer_products
candidate_pool store inputs products =
    let pool = offer_products inputs (eligible_products store products) no_pool in
    record pool { candidates = sort_by pool_key pool.candidates }
