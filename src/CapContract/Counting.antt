-- ===== src/CapContract/Counting.antt =====
-- When the counts of `cap_blockers` find nothing, and counts of part of a list.
use sm_poster.Prelude.{
  ℕ, ◌≤◌, ◌≡◌, refl, Bool, true, false, ◌&&◌, List, [], ◌∷◌, arith, ltb, ◌==◌, any, count_if, keep,
  length, map,
}
use sm_poster.Planner.Pool.{Identity, identity_eq}
use sm_poster.CapContract.{PlanItem, over_cap, set_of, has_duplicates, identity_of}

any-false :
    {A : Type 0} (test : A → Bool) (xs : List A) → ((x : A) → test x ≡ false) → any test xs ≡ false
any-false test [] h = refl
any-false test (x ∷ xs) h = ground (arith, h x, any-false test xs h)

-- No key has more rows than the cap.
pub over_cap-false :
    (key : PlanItem → ℕ) (cap : ℕ) (rows : List PlanItem)
    → ((k : ℕ) → count_if (λ r. key r == k) rows ≤ cap)
    → over_cap key cap rows ≡ false
unfolding over_cap
over_cap-false key cap rows h =
    any-false (λ row. ltb cap (count_if (λ r. key r == key row) rows)) rows
      (λ row. let few = h (key row) in ground arith)

pub count-keep :
    {A : Type 0} (test keeps : A → Bool) (xs : List A)
    → count_if test (keep keeps xs) ≡ count_if (λ x. keeps x && test x) xs
count-keep test keeps [] = refl
count-keep test keeps (x ∷ xs) = ground (arith, count-keep test keeps xs)

pub count-map :
    {A B : Type 0} (test : B → Bool) (f : A → B) (xs : List A)
    → count_if test (map f xs) ≡ count_if (λ x. test (f x)) xs
count-map test f [] = refl
count-map test f (x ∷ xs) = ground (arith, count-map test f xs)

any-set_of :
    (i : Identity) (is : List Identity)
    → count_if (λ j. identity_eq j i) is ≡ 0
    → any (λ j. identity_eq j i) (set_of is) ≡ false
unfolding set_of
any-set_of i [] h = refl
any-set_of i (j ∷ is) h = ground (arith, any-set_of i is)

identity_eq_refl : (i : Identity) → identity_eq i i ≡ true
unfolding identity_eq
identity_eq_refl i = ground arith

length-set_of :
    (is : List Identity)
    → ((i : Identity) → count_if (λ j. identity_eq j i) is ≤ 1)
    → length (set_of is) ≡ length is
unfolding set_of
length-set_of [] h = refl
length-set_of (i ∷ is) h =
    let fresh : count_if (λ j. identity_eq j i) is ≡ 0 =
      (let once = h i in ground (arith, identity_eq_refl i)) in
    let tail = length-set_of is (λ j. let once = h j in ground arith) in
    rw (any-set_of i is fresh) (omega (arith, tail))

-- No identity stands twice.
pub has_duplicates-false :
    (rows : List PlanItem)
    → ((i : Identity) → count_if (λ r. identity_eq (identity_of r) i) rows ≤ 1)
    → has_duplicates (map identity_of rows) ≡ false
unfolding has_duplicates
has_duplicates-false rows h =
    let same =
      length-set_of (map identity_of rows)
        (λ i. rw (count-map (λ j. identity_eq j i) identity_of rows) (h i)) in
    ground (arith, same)
