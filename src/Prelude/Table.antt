-- ===== src/Prelude/Table.antt =====
-- A database table, or Python dict: rows by primary key, in insertion order.
use mathlib.Core.List.{List, [], ◌∷◌}
use mathlib.Core.Option.{Option, none, some}
use mathlib.Core.Path.{◌≡◌}
use Prim.Native.Nat.{ℕ}
use native.Mathlib.Omega.{arith}
use mathlib.Core.Bool.{Bool, false}
use mathlib.Core.Logic.{◌≢◌, ◌⊎◌, inl, inr}
use sm_poster.Prelude.Lists.{any}
use sm_poster.Prelude.Tests.{◌==◌, if◌then◌else◌, Option-cases}

abbrev pub Table {ℓ} : Type ℓ → Type ℓ
Table A = List (ℕ × A)

module _ {ℓ} {A : Type ℓ} where
  -- `db.get(Model, id)`
  unfoldable pub get : ℕ → Table A → Option A
  get id [] = none
  get id ((key, row) ∷ rows) = if id == key then some row else get id rows

  -- An assignment to fields of the row `id`; other rows are untouched, and no row is made.
  unfoldable pub update : ℕ → (A → A) → Table A → Table A
  update id f [] = []
  update id f ((key, row) ∷ rows) =
      if id == key then (key, f row) ∷ rows else (key, row) ∷ update id f rows

  abbrev pub rows : Table A → List A
  rows [] = []
  rows ((key, row) ∷ rest) = row ∷ rows rest

module _ {ℓ} {A : Type ℓ} where
  abbrev map_option : (A → A) → Option A → Option A
  map_option f none = none
  map_option f (some a) = some (f a)

  pub get-update :
      (id k : ℕ) (f : A → A) (t : Table A)
      → get k (update id f t) ≡ (if k == id then map_option f (get k t) else get k t)
  unfolding get update
  get-update id k f [] = ground arith
  get-update id k f ((key, row) ∷ t) = ground (arith, get-update id k f t)

module _ {ℓ} {A : Type ℓ} where
  -- What no row passes, no row that is found passes.
  pub any-rows-get :
      (test : A → Bool) (t : Table A) (k : ℕ) {a : A}
      → any test (rows t) ≡ false
      → get k t ≡ some a
      → test a ≡ false
  unfolding get
  any-rows-get test [] k {a} h e = absurd (cc)
  any-rows-get test ((key, row) ∷ t) k {a} h e = ground (arith, any-rows-get test t k {a = a})

module _ {A : Type 0} where
  -- A row found after an update is the updated one, or one that was there.
  pub update-origin :
      (id k : ℕ) (f : A → A) (t : Table A) {a : A}
      → get k (update id f t) ≡ some a
      → (old : A) × (get k t ≡ some old) × (((k ≡ id) × (a ≡ f old)) ⊎ ((k ≢ id) × (a ≡ old)))
  update-origin id k f t {a} e = elim (Option-cases (get k t)) [
    | inl missing ↦ absurd (ground (arith, get-update id k f t))
    | inr (old, found) ↦ (old, found, ground (arith, get-update id k f t))
  ]

-- `db.get(Model, id)` where the id may be `None`.
abbrev pub get_opt {ℓ} : {A : Type ℓ} → Option ℕ → Table A → Option A
get_opt none t = none
get_opt (some id) t = get id t
