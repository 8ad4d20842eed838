-- ===== src/Planner/Sorting.antt =====
-- `list.sort(key=...)` and `sorted`: a stable sort by a key that is a tuple.
use sm_poster.Prelude.{
  ◌≡◌, refl, inl, inr, Bool, List, [], ◌∷◌, arith, any, All, count_if, Bool-cases, if◌then◌else◌,
}
use sm_poster.Planner.Candidates.{Key, before}

module _ {A : Type 0} where
  -- A member comes behind those with its key, as in a stable sort that starts from the end.
  unfoldable pub insert_by : (A → List Key) → A → List A → List A
  insert_by key x [] = x ∷ []
  insert_by key x (y ∷ ys) =
      let rest = insert_by key x ys in if before (key y) (key x) then y ∷ rest else x ∷ y ∷ ys

  unfoldable pub sort_by : (A → List Key) → List A → List A
  unfolding insert_by
  sort_by key [] = []
  sort_by key (x ∷ xs) = insert_by key x (sort_by key xs)

module _ {A : Type 0} (key : A → List Key) (test : A → Bool) where
  count-insert_by :
      (x : A) (ys : List A) → count_if test (insert_by key x ys) ≡ count_if test (x ∷ ys)
  unfolding insert_by
  count-insert_by x [] = refl
  count-insert_by x (y ∷ ys) = ground (arith, count-insert_by x ys)

  -- A sort keeps how many members pass a test.
  pub count-sort_by : (xs : List A) → count_if test (sort_by key xs) ≡ count_if test xs
  unfolding sort_by
  count-sort_by [] = refl
  count-sort_by (x ∷ xs) = ground (arith, count-insert_by x (sort_by key xs), count-sort_by xs)

  any-insert_by : (x : A) (ys : List A) → any test (insert_by key x ys) ≡ any test (x ∷ ys)
  unfolding insert_by
  any-insert_by x [] = refl
  any-insert_by x (y ∷ ys) = ground (arith, any-insert_by x ys)

  pub any-sort_by : (xs : List A) → any test (sort_by key xs) ≡ any test xs
  unfolding sort_by
  any-sort_by [] = refl
  any-sort_by (x ∷ xs) = ground (arith, any-insert_by x (sort_by key xs), any-sort_by xs)

module _ {A : Type 0} (key : A → List Key) (P : A → Type 0) where
  insert_by-All : (x : A) (ys : List A) → P x → All P ys → All P (insert_by key x ys)
  unfolding insert_by
  insert_by-All x [] h hs = (h, tt)
  insert_by-All x (y ∷ ys) h hs = elim (Bool-cases (before (key y) (key x))) [
    | inl e ↦ rw e (hs.0, insert_by-All x ys h hs.1)
    | inr e ↦ rw e (h, hs)
  ]

  pub sort_by-All : (xs : List A) → All P xs → All P (sort_by key xs)
  unfolding sort_by
  sort_by-All [] hs = tt
  sort_by-All (x ∷ xs) hs = insert_by-All x (sort_by key xs) hs.0 (sort_by-All xs hs.1)
