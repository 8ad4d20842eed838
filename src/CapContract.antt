-- ===== src/CapContract.antt =====
-- The cap contract of a stored plan (backend/app/services/pinterest_portfolio_cap_contract.py): the
-- caps and the relaxations that its metadata promises, and the blockers of its items.
pub mod Counting
pub mod Rows
pub mod Markers
pub mod Limits
pub mod Planned
pub mod Promise
use sm_poster.Prelude.{
  ℕ, zero, suc, ◌+◌, ◌*◌, max, Bool, true, false, not, ◌&&◌, ◌||◌, Option, none, some, List, [],
  ◌∷◌, ◌++◌, String, str_eq, ltb, leb, ◌==◌, any, keep, count_if, length, map, text_in,
  if◌then◌else◌,
}
use sm_poster.Quotas.Envelope.{Share, share_limit}
use sm_poster.Planner.Candidates.{Key, up}
use sm_poster.Planner.Pool.{Identity, identity_eq}
use sm_poster.Planner.Sorting.{sort_by}

pub data CapError : Type 0 where
  metadata_missing metadata_invalid policy_mismatch relaxation_mismatch : CapError

pub data Checked (A : Type 0) : Type 0 where
  ok : A → Checked A
  err : CapError → Checked A

infixl 5 ◌>>=◌ ◌>>◌
abbrev pub ◌>>=◌ : {A B : Type 0} → Checked A → (A → Checked B) → Checked B
ok a >>= f = f a
err e >>= f = err e

abbrev pub ◌>>◌ : {A B : Type 0} → Checked A → Checked B → Checked B
m >> k = m >>= λ _. k

-- `if condition: _fail(code)`
abbrev pub fail_if : Bool → CapError → Checked (Unit {0})
fail_if true e = err e
fail_if false e = ok tt

-- A value of a JSON document; a key that is missing gives `null` as `dict.get` gives `None`. A
-- `fraction` is a finite number that is not an `int`, as its decimal text has it.
pub data Value : Type 0 where
  null : Value
  boolean : Bool → Value
  integer : ℕ → Value
  below_zero : ℕ → Value
  fraction : Share → Value
  not_finite : Value
  text : String → Value
  list_or_dict : Value

-- A value where a dict is looked for.
pub data Entry (A : Type 0) : Type 0 where
  absent : Entry A
  other : Entry A
  dict : A → Entry A

abbrev pub strict_bool : Value → Checked Bool
strict_bool (Value.boolean b) = ok b
strict_bool _ = err CapError.metadata_invalid

-- `_strict_int` with the default minimum, 1.
abbrev pub strict_int : Value → Checked ℕ
strict_int (Value.integer n) = if ltb n 1 then err CapError.metadata_invalid else ok n
strict_int _ = err CapError.metadata_invalid

abbrev share_in_range : Share → Checked Share
share_in_range s =
    if not (ltb 0 s.numerator) || ltb s.scale s.numerator
    then err CapError.metadata_invalid
    else ok s

abbrev pub strict_share : Value → Checked Share
strict_share (Value.integer n) = share_in_range (record { numerator = n; scale = 1 })
strict_share (Value.fraction s) = share_in_range s
strict_share _ = err CapError.metadata_invalid

-- `isinstance(stage, str)`
abbrev strict_text : Value → Checked String
strict_text (Value.text s) = ok s
strict_text _ = err CapError.metadata_invalid

abbrev in_dict : {A : Type 0} → Entry A → Checked A
in_dict (dict a) = ok a
in_dict _ = err CapError.metadata_invalid

pub record ItemMetadata : Type 0 where
  pub selection_stage : Value
  pub relaxed_vendor_cap : Value
  pub relaxed_board_cap : Value
  -- Whether `adaptive_optimizer_v1` is a dict.
  pub optimized : Bool

pub record PlanItem : Type 0 where
  pub id : ℕ
  pub slot_index : ℕ
  pub is_reserve : Bool
  pub product_id : ℕ
  pub local_board_id : ℕ
  pub content_angle_id : ℕ
  pub selection_metadata : Entry ItemMetadata

pub record Policy : Type 0 where
  pub max_pins_per_product : Value
  pub max_vendor_share : Value
  pub max_board_share : Value
  pub vendor_limit : Value
  pub board_limit : Value

pub record Relaxation : Type 0 where
  pub used : Value
  pub vendor_cap_relaxed : Value
  pub board_cap_relaxed : Value
  pub vendor_limit : Value
  pub board_limit : Value

pub record Metadata : Type 0 where
  pub cap_policy : Entry Policy
  pub cap_relaxation : Entry Relaxation

pub record StoredPlan : Type 0 where
  pub target_pins : Value
  pub metadata_json : Entry Metadata

pub record Marker : Type 0 where
  pub item_id : ℕ
  pub slot_index : ℕ
  pub selection_stage : String
  pub relaxed_vendor_cap : Bool
  pub relaxed_board_cap : Bool

-- The guards of `_selection_marker` on its stage and its flags: the error, if there is one.
unfoldable pub stage_guard : String → Bool → Bool → Bool → Bool → Checked (Unit {0})
stage_guard stage is_reserve optimized vendor board =
    if str_eq stage "RESERVE"
    then if vendor || board
      then err CapError.relaxation_mismatch
      else fail_if (not is_reserve && not optimized) CapError.relaxation_mismatch
    else if not (text_in stage ("STRICT" ∷ "RELAXED" ∷ []))
    then err CapError.metadata_invalid
    else fail_if
        ((is_reserve && not optimized)
          || (str_eq stage "STRICT" && (vendor || board))
          || (str_eq stage "RELAXED" && not (vendor || board)))
        CapError.relaxation_mismatch

unfoldable pub selection_marker : PlanItem → Checked Marker
unfolding stage_guard
selection_marker item = do
  metadata ← in_dict item.selection_metadata
  stage ← strict_text metadata.selection_stage
  vendor ← strict_bool metadata.relaxed_vendor_cap
  board ← strict_bool metadata.relaxed_board_cap
  stage_guard stage item.is_reserve metadata.optimized vendor board
  ok (record {
    item_id = item.id;
    slot_index = item.slot_index;
    selection_stage = stage;
    relaxed_vendor_cap = vendor;
    relaxed_board_cap = board;
  })

-- The loop over the items.
unfoldable pub selection_markers : List PlanItem → Checked (List Marker)
unfolding selection_marker
selection_markers [] = ok []
selection_markers (item ∷ items) = do
  marker ← selection_marker item
  markers ← selection_markers items
  ok (marker ∷ markers)

-- What the fingerprint is taken of, with the contract itself.
pub record CapContract : Type 0 where
  pub target_pins : ℕ
  pub max_pins_per_product : ℕ
  pub max_vendor_share : Share
  pub max_board_share : Share
  pub vendor_limit : ℕ
  pub board_limit : ℕ
  pub used : Bool
  pub vendor_cap_relaxed : Bool
  pub board_cap_relaxed : Bool
  pub selection_markers : List Marker

abbrev pub bool_eq : Bool → Bool → Bool
bool_eq true b = b
bool_eq false b = not b

abbrev target_of : Value → Checked ℕ
target_of (Value.integer n) = if ltb n 1 then err CapError.policy_mismatch else ok n
target_of _ = err CapError.policy_mismatch

-- `policy is None or relaxation is None`
abbrev is_absent : {A : Type 0} → Entry A → Bool
is_absent absent = true
is_absent _ = false

abbrev pub metadata_of : Entry Metadata → Checked Metadata
metadata_of (dict m) = ok m
metadata_of _ = err CapError.metadata_missing

abbrev pub slot_key : PlanItem → List Key
slot_key item = up item.slot_index ∷ up item.id ∷ []

-- The part of `validate_planner_cap_contract` before its loop.
unfoldable pub read_contract : StoredPlan → Checked CapContract
read_contract plan = do
  metadata ← metadata_of plan.metadata_json
  fail_if (is_absent metadata.cap_policy || is_absent metadata.cap_relaxation)
      CapError.metadata_missing
  policy ← in_dict metadata.cap_policy
  relaxation ← in_dict metadata.cap_relaxation
  max_pins_per_product ← strict_int policy.max_pins_per_product
  max_vendor_share ← strict_share policy.max_vendor_share
  max_board_share ← strict_share policy.max_board_share
  vendor_limit ← strict_int policy.vendor_limit
  board_limit ← strict_int policy.board_limit
  used ← strict_bool relaxation.used
  vendor_cap_relaxed ← strict_bool relaxation.vendor_cap_relaxed
  board_cap_relaxed ← strict_bool relaxation.board_cap_relaxed
  relaxation_vendor_limit ← strict_int relaxation.vendor_limit
  relaxation_board_limit ← strict_int relaxation.board_limit
  target_pins ← target_of plan.target_pins
  fail_if (not (vendor_limit == share_limit target_pins max_vendor_share)) CapError.policy_mismatch
  fail_if (not (board_limit == share_limit target_pins max_board_share)) CapError.policy_mismatch
  fail_if
      (not (relaxation_vendor_limit == vendor_limit) || not (relaxation_board_limit == board_limit))
      CapError.policy_mismatch
  fail_if (not (bool_eq used (vendor_cap_relaxed || board_cap_relaxed)))
      CapError.relaxation_mismatch
  ok (record {
    target_pins = target_pins;
    max_pins_per_product = max_pins_per_product;
    max_vendor_share = max_vendor_share;
    max_board_share = max_board_share;
    vendor_limit = vendor_limit;
    board_limit = board_limit;
    used = used;
    vendor_cap_relaxed = vendor_cap_relaxed;
    board_cap_relaxed = board_cap_relaxed;
    selection_markers = [];
  })

unfoldable pub validate_planner_cap_contract : StoredPlan → List PlanItem → Checked CapContract
unfolding read_contract selection_markers
validate_planner_cap_contract plan items = do
  contract ← read_contract plan
  markers ← selection_markers (sort_by slot_key items)
  fail_if (not (bool_eq (any (λ m. m.relaxed_vendor_cap) markers) contract.vendor_cap_relaxed))
      CapError.relaxation_mismatch
  fail_if (not (bool_eq (any (λ m. m.relaxed_board_cap) markers) contract.board_cap_relaxed))
      CapError.relaxation_mismatch
  ok (record contract { selection_markers = markers })

pub data CapBlocker : Type 0 where
  product_cap_exceeded duplicate_plan_item_identity board_share_cap_exceeded : CapBlocker

-- `max(Counter(key(row) for row in rows).values()) > cap`, of no rows false.
unfoldable pub over_cap : (PlanItem → ℕ) → ℕ → List PlanItem → Bool
over_cap key cap rows = any (λ row. ltb cap (count_if (λ r. key r == key row) rows)) rows

abbrev pub identity_of : PlanItem → Identity
identity_of row = record {
  product = row.product_id;
  board = row.local_board_id;
  angle = row.content_angle_id;
}

-- `set(identities)`
unfoldable pub set_of : List Identity → List Identity
set_of [] = []
set_of (i ∷ is) = let rest = set_of is in if any (λ j. identity_eq j i) rest then rest else i ∷ rest

unfoldable pub has_duplicates : List Identity → Bool
unfolding set_of
has_duplicates is = not (length is == length (set_of is))

abbrev pub cap_blocker_if : Bool → CapBlocker → List CapBlocker
cap_blocker_if true b = b ∷ []
cap_blocker_if false b = []

unfoldable pub cap_blockers : List PlanItem → CapContract → List CapBlocker
unfolding over_cap has_duplicates
cap_blockers rows contract =
    cap_blocker_if (over_cap (λ r. r.product_id) contract.max_pins_per_product rows)
      CapBlocker.product_cap_exceeded
    ++ cap_blocker_if (has_duplicates (map identity_of rows))
        CapBlocker.duplicate_plan_item_identity
    ++ cap_blocker_if
        (not contract.board_cap_relaxed
          && over_cap (λ r. r.local_board_id) contract.board_limit
              (keep (λ r. not r.is_reserve) rows))
        CapBlocker.board_share_cap_exceeded
