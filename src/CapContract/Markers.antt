-- ===== src/CapContract/Markers.antt =====
-- The markers that `validate_planner_cap_contract` reads from the rows of a plan.
use sm_poster.Prelude.{◌≡◌, refl, Bool, true, false, List, [], ◌∷◌, any, All, ◌∙◌}
use sm_poster.Planner.Select.{SelectedCandidate, Stage}
use sm_poster.Planner.Select.Relaxation.{marked, IsMarked}
use sm_poster.Planner.Select.Reserve.{IsReserve}
use sm_poster.Planner.Preview.{item_spec}
use sm_poster.Planner.Draft.{stage_text, stored_item}
use sm_poster.Planner.Sorting.{sort_by, sort_by-All, any-sort_by}
use sm_poster.CapContract.{
  Entry, dict, ItemMetadata, Marker, PlanItem, Value, ok, slot_key, selection_marker,
  selection_markers, stage_guard,
}
use sm_poster.CapContract.Rows.{Stores}

abbrev value_flag : Value → Bool
value_flag (Value.boolean b) = b
value_flag _ = false

abbrev vendor_of : Entry ItemMetadata → Bool
vendor_of (dict m) = value_flag m.relaxed_vendor_cap
vendor_of _ = false

abbrev board_of : Entry ItemMetadata → Bool
board_of (dict m) = value_flag m.relaxed_board_cap
board_of _ = false

abbrev pub vendor_flag : PlanItem → Bool
vendor_flag item = vendor_of item.selection_metadata

abbrev pub board_flag : PlanItem → Bool
board_flag item = board_of item.selection_metadata

-- The marker of an item is read, and has the item's flags.
pub record Marked (item : PlanItem) : Type 0 where
  pub marker : Marker
  pub made : selection_marker item ≡ ok marker
  pub vendor : marker.relaxed_vendor_cap ≡ vendor_flag item
  pub board : marker.relaxed_board_cap ≡ board_flag item

guard_active :
    (stage : Stage) (v b : Bool)
    → marked stage v b ≡ true
    → stage_guard (stage_text stage) false false v b ≡ ok tt
unfolding stage_guard
guard_active Stage.strict false false h = refl
guard_active Stage.strict true b h = absurd (cc)
guard_active Stage.strict false true h = absurd (cc)
guard_active Stage.relaxed false false h = absurd (cc)
guard_active Stage.relaxed true b h = refl
guard_active Stage.relaxed false true h = refl
guard_active Stage.reserve v b h = absurd (cc)

guard_reserve :
    (stage : Stage) (v b : Bool)
    → stage ≡ Stage.reserve
    → v ≡ false
    → b ≡ false
    → stage_guard (stage_text stage) true false v b ≡ ok tt
unfolding stage_guard
guard_reserve stage v b e f g = rw (e, f, g) refl

module _ (is_reserve : Bool) (item : PlanItem) (x : SelectedCandidate) where
  stored-Marked :
      Stores is_reserve item x
      → stage_guard
          (stage_text x.selection_stage)
          is_reserve
          false
          x.relaxed_vendor_cap
          x.relaxed_board_cap
        ≡ ok tt
      → Marked item
  unfolding selection_marker stored_item item_spec
  stored-Marked s guard = rw s.row (record {
    marker = record {
      item_id = s.new_id s.slot;
      slot_index = s.slot;
      selection_stage = stage_text x.selection_stage;
      relaxed_vendor_cap = x.relaxed_vendor_cap;
      relaxed_board_cap = x.relaxed_board_cap;
    };
    made = rw guard refl;
    vendor = refl;
    board = refl;
  })

pub active-Marked :
    (item : PlanItem) (x : SelectedCandidate) → Stores false item x → IsMarked x → Marked item
active-Marked item x s h =
    stored-Marked false item x s
      (guard_active x.selection_stage x.relaxed_vendor_cap x.relaxed_board_cap h)

pub reserve-Marked :
    (item : PlanItem) (x : SelectedCandidate) → Stores true item x → IsReserve x → Marked item
reserve-Marked item x s h =
    stored-Marked true item x s
      (guard_reserve x.selection_stage x.relaxed_vendor_cap x.relaxed_board_cap h.0 h.1 h.2)

pub stored-vendor_flag :
    (is_reserve : Bool) (item : PlanItem) (x : SelectedCandidate)
    → Stores is_reserve item x
    → vendor_flag item ≡ x.relaxed_vendor_cap
unfolding stored_item item_spec
stored-vendor_flag is_reserve item x s = rw s.row refl

pub stored-board_flag :
    (is_reserve : Bool) (item : PlanItem) (x : SelectedCandidate)
    → Stores is_reserve item x
    → board_flag item ≡ x.relaxed_board_cap
unfolding stored_item item_spec
stored-board_flag is_reserve item x s = rw s.row refl

-- All markers are read.
pub record AllRead (items : List PlanItem) : Type 0 where
  pub markers : List Marker
  pub made : selection_markers items ≡ ok markers
  pub vendors : any (λ m. m.relaxed_vendor_cap) markers ≡ any vendor_flag items
  pub boards : any (λ m. m.relaxed_board_cap) markers ≡ any board_flag items

Marked-AllRead : (items : List PlanItem) → All Marked items → AllRead items
unfolding selection_markers
Marked-AllRead [] h = record { markers = []; made = refl; vendors = refl; boards = refl }
Marked-AllRead (item ∷ items) (h, hs) =
    let rest = Marked-AllRead items hs in
    record {
      markers = h.marker ∷ rest.markers;
      made = rw (h.made, rest.made) refl;
      vendors = rw (h.vendor, rest.vendors) refl;
      boards = rw (h.board, rest.boards) refl;
    }

-- In the order of the loop.
pub sorted-AllRead :
    (items : List PlanItem)
    → All Marked items
    → (r : AllRead (sort_by slot_key items)) × (any (λ m. m.relaxed_vendor_cap) r.markers
        ≡ any vendor_flag items)
      × (any (λ m. m.relaxed_board_cap) r.markers ≡ any board_flag items)
sorted-AllRead items h =
    let r = Marked-AllRead (sort_by slot_key items) (sort_by-All slot_key Marked items h) in
    (
      r,
      r.vendors ∙ any-sort_by slot_key vendor_flag items,
      r.boards ∙ any-sort_by slot_key board_flag items,
    )
