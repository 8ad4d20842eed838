-- ===== src/CapContract/Rows.antt =====
-- The rows that a plan stores for its selections.
use sm_poster.Prelude.{
  ℕ, ◌+◌, ◌≤◌, ◌≡◌, refl, Bool, true, false, Option, none, some, List, [], ◌∷◌, arith, any, All,
  count_if, length, map,
}
use sm_poster.Planner.Select.{SelectedCandidate}
use sm_poster.Planner.Preview.{item_spec, active_specs, reserve_specs}
use sm_poster.Planner.Draft.{stored_item}
use sm_poster.CapContract.{PlanItem}

-- Each row stores the selection at its place.
pub record Stores (is_reserve : Bool) (item : PlanItem) (x : SelectedCandidate) : Type 0 where
  pub slot : ℕ
  pub date : Option ℕ
  pub new_id : ℕ → ℕ
  pub row : item ≡ stored_item new_id (item_spec slot is_reserve date x)

abbrev pub StoreAll : Bool → List PlanItem → List SelectedCandidate → Type 0
StoreAll is_reserve [] [] = Unit
StoreAll is_reserve (item ∷ items) (x ∷ xs) =
    Stores is_reserve item x × StoreAll is_reserve items xs
StoreAll is_reserve items xs = ⊥

pub active_specs-StoreAll :
    (new_id : ℕ → ℕ) (slot : ℕ) (xs : List SelectedCandidate) (dates : List ℕ)
    → length xs ≤ length dates
    → StoreAll false (map (stored_item new_id) (active_specs slot xs dates)) xs
unfolding active_specs
active_specs-StoreAll new_id slot [] dates h = tt
active_specs-StoreAll new_id slot (x ∷ xs) [] h = absurd (omega arith)
active_specs-StoreAll new_id slot (x ∷ xs) (date ∷ dates) h = (
  record { slot = slot; date = some date; new_id = new_id; row = refl },
  active_specs-StoreAll new_id (slot + 1) xs dates (omega arith),
)

pub reserve_specs-StoreAll :
    (new_id : ℕ → ℕ) (slot : ℕ) (xs : List SelectedCandidate)
    → StoreAll true (map (stored_item new_id) (reserve_specs slot xs)) xs
unfolding reserve_specs
reserve_specs-StoreAll new_id slot [] = tt
reserve_specs-StoreAll new_id slot (x ∷ xs) = (
  record { slot = slot; date = none; new_id = new_id; row = refl },
  reserve_specs-StoreAll new_id (slot + 1) xs,
)

-- What holds of a stored selection, from what holds of the selection.
module _ (is_reserve : Bool) where
  pub count-StoreAll :
      (test : PlanItem → Bool) (u : SelectedCandidate → Bool)
      → ((item : PlanItem) (x : SelectedCandidate) → Stores is_reserve item x → test item ≡ u x)
      → (items : List PlanItem) (xs : List SelectedCandidate) → StoreAll is_reserve items xs
      → count_if test items ≡ count_if u xs
  count-StoreAll test u same [] [] h = refl
  count-StoreAll test u same [] (x ∷ xs) h = absurd h
  count-StoreAll test u same (item ∷ items) [] h = absurd h
  count-StoreAll test u same (item ∷ items) (x ∷ xs) (h, hs) =
      rw (same item x h, count-StoreAll test u same items xs hs) refl

  pub any-StoreAll :
      (test : PlanItem → Bool) (u : SelectedCandidate → Bool)
      → ((item : PlanItem) (x : SelectedCandidate) → Stores is_reserve item x → test item ≡ u x)
      → (items : List PlanItem) (xs : List SelectedCandidate) → StoreAll is_reserve items xs
      → any test items ≡ any u xs
  any-StoreAll test u same [] [] h = refl
  any-StoreAll test u same [] (x ∷ xs) h = absurd h
  any-StoreAll test u same (item ∷ items) [] h = absurd h
  any-StoreAll test u same (item ∷ items) (x ∷ xs) (h, hs) =
      rw (same item x h, any-StoreAll test u same items xs hs) refl

  pub StoreAll-All :
      (P : PlanItem → Type 0) (Q : SelectedCandidate → Type 0)
      → ((item : PlanItem) (x : SelectedCandidate) → Stores is_reserve item x → Q x → P item)
      → (items : List PlanItem) (xs : List SelectedCandidate) → StoreAll is_reserve items xs
      → All Q xs
      → All P items
  StoreAll-All P Q step [] [] h qs = tt
  StoreAll-All P Q step [] (x ∷ xs) h qs = absurd h
  StoreAll-All P Q step (item ∷ items) [] h qs = absurd h
  StoreAll-All P Q step (item ∷ items) (x ∷ xs) (h, hs) (q, qs) =
      (step item x h q, StoreAll-All P Q step items xs hs qs)
