-- ===== src/Planner/Candidates.antt =====
-- Candidates, the counters of a plan, and the rank by which the planner prefers one.
use sm_poster.Prelude.{
  ℕ, suc, Bool, false, ◌&&◌, ◌||◌, Option, none, some, List, [], ◌∷◌, ◌==◌, ltb, if◌then◌else◌,
}

-- `eligibility_score` is in hundredths, and the tuple of texts `seed_keywords` is a number as well.
pub record Candidate : Type 0 where
  pub product_id : ℕ
  pub vendor_key : ℕ
  pub local_board_id : ℕ
  pub board_key : ℕ
  pub content_angle_id : ℕ
  pub angle_key : ℕ
  pub seed_keywords : ℕ
  pub manual_priority : ℕ
  pub eligibility_score : ℕ
  pub candidate_fingerprint : ℕ

-- `==` of two candidates: a dataclass compares all fields.
unfoldable pub candidate_eq : Candidate → Candidate → Bool
candidate_eq a b =
    a.product_id == b.product_id
    && a.vendor_key == b.vendor_key
    && a.local_board_id == b.local_board_id
    && a.board_key == b.board_key
    && a.content_angle_id == b.content_angle_id
    && a.angle_key == b.angle_key
    && a.seed_keywords == b.seed_keywords
    && a.manual_priority == b.manual_priority
    && a.eligibility_score == b.eligibility_score
    && a.candidate_fingerprint == b.candidate_fingerprint

-- `Counter`, which gives 0 for a key that it has not.
abbrev pub Counter : Type 0
Counter = ℕ → ℕ

unfoldable pub add_one : ℕ → Counter → Counter
add_one k c j = if j == k then suc (c j) else c j

pub record Counters : Type 0 where
  pub product : Counter
  pub vendor : Counter
  pub board : Counter
  pub angle : Counter

unfoldable pub count_candidate : Candidate → Counters → Counters
unfolding add_one
count_candidate c n = record {
  product = add_one c.product_id n.product;
  vendor = add_one c.vendor_key n.vendor;
  board = add_one c.local_board_id n.board;
  angle = add_one c.content_angle_id n.angle;
}

-- A component of a sort key: ascending, or negated in the source.
pub data Key : Type 0 where
  up down : ℕ → Key

unfoldable pub key_before : Key → Key → Bool
key_before (up a) (up b) = ltb a b
key_before (down a) (down b) = ltb b a
key_before _ _ = false

unfoldable pub key_same : Key → Key → Bool
key_same (up a) (up b) = a == b
key_same (down a) (down b) = a == b
key_same _ _ = false

-- `<` of two tuples.
unfoldable pub before : List Key → List Key → Bool
unfolding key_before key_same
before [] ys = false
before (x ∷ xs) [] = false
before (x ∷ xs) (y ∷ ys) = key_before x y || (key_same x y && before xs ys)

-- `_candidate_rank`
unfoldable pub candidate_rank : Counters → Candidate → List Key
candidate_rank n c =
    up (n.product c.product_id)
    ∷ up (n.vendor c.vendor_key)
    ∷ up (n.board c.local_board_id)
    ∷ up (n.angle c.content_angle_id)
    ∷ down c.manual_priority
    ∷ down c.eligibility_score
    ∷ up c.product_id
    ∷ up c.board_key
    ∷ up c.angle_key
    ∷ up c.candidate_fingerprint
    ∷ []

-- `available.sort(key=rank)` and `available[0]`: the first of those with the least rank.
unfoldable pub best : (Candidate → List Key) → List Candidate → Option Candidate
unfolding before
best rank [] = none
best rank (c ∷ rest) = elim (best rank rest) [
  | none ↦ some c
  | some d ↦ if before (rank d) (rank c) then some d else some c
]

-- `remaining.remove(candidate)`
unfoldable pub remove : Candidate → List Candidate → List Candidate
unfolding candidate_eq
remove c [] = []
remove c (d ∷ rest) = let tail = remove c rest in if candidate_eq d c then rest else d ∷ tail
