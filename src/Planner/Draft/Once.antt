-- ===== src/Planner/Draft/Once.antt =====
-- The ways in which a preview is stored, and that a month keeps one plan.
use sm_poster.Prelude.{
  ℕ, ◌+◌, ◌≤◌, ◌≡◌, refl, inl, inr, Bool, true, false, ◌&&◌, ◌||◌, Option, none, some, List, [],
  ◌∷◌, ◌++◌, arith, any, first, count_if, count_if-append, ◌==◌, Bool-cases, Option-cases,
}
use sm_poster.Planner.Plan.{Preview, PortfolioPreview}
use sm_poster.Planner.Draft.{
  Course, Draft, DraftError, PlanStatus, draft_of, PlanRow, Drafted, ok, err, same_fingerprint,
  same_month, is_live, new_plan, return_found, commit_plan, store_plan, create_draft_portfolio_plan,
}

-- The two unique indexes hold.
pub record IsUnique (rows : List PlanRow) : Type 0 where
  pub fingerprints : (f : ℕ) → count_if (λ row. row.plan_fingerprint == f) rows ≤ 1
  pub months :
      (store month : ℕ)
      → count_if
          (λ row. row.store_id == store && row.month_start == month && is_live row.status)
          rows
        ≤ 1

none-count :
    {A : Type 0} (test : A → Bool) (xs : List A) → any test xs ≡ false → count_if test xs ≡ 0
none-count test [] h = refl
none-count test (x ∷ xs) h = ground (arith, none-count test xs)

any-or :
    {A : Type 0} (p q : A → Bool) (xs : List A)
    → any (λ x. p x || q x) xs ≡ false
    → (any p xs ≡ false) × (any q xs ≡ false)
any-or p q [] h = (refl, refl)
any-or p q (x ∷ xs) h = ground (arith, any-or p q xs)

-- Of two tests one is met by a member.
some-or :
    (d : Draft) (rows : List PlanRow)
    → any (λ row. same_fingerprint d row || same_month d row) rows ≡ true
    → 1 ≤ count_if (same_fingerprint d) rows + count_if (same_month d) rows
some-or d [] h = absurd (cc)
some-or d (row ∷ rows) h = elim (Bool-cases (same_fingerprint d row)) [
  | inl e ↦ rw e (omega arith)
  | inr e ↦ elim (Bool-cases (same_month d row)) [
    | inl m ↦ ground arith
    | inr m ↦ ground (arith, some-or d rows)
  ]
]

module _ (d : Draft) (preview : PortfolioPreview) (rows : List PlanRow) where
  new_plan-IsUnique :
      any (λ row. same_fingerprint d row || same_month d row) rows ≡ false
      → IsUnique rows
      → IsUnique (rows ++ new_plan d preview ∷ [])
  unfolding new_plan
  new_plan-IsUnique free h =
      let (f, m) = any-or (same_fingerprint d) (same_month d) rows free in
      let row = new_plan d preview in
      record {
        fingerprints = λ k.
            let old = h.fingerprints k in
            let split =
              count_if-append (λ (r : PlanRow). r.plan_fingerprint == k) rows (row ∷ []) in
            elim (Bool-cases (d.fingerprint == k)) [
              | inr e ↦ ground arith
              | inl e ↦
                  let same : d.fingerprint ≡ k = ground arith in
                  let zero_now = rw same at (none-count (same_fingerprint d) rows f) in ground arith
            ];
        months = λ store month.
            let old = h.months store month in
            let split =
              count_if-append
                (λ (r : PlanRow). r.store_id == store && r.month_start == month && is_live r.status)
                rows (row ∷ []) in
            elim (Bool-cases (d.store_id == store && d.month_start == month)) [
              | inr e ↦ ground arith
              | inl e ↦
                  let a : d.store_id ≡ store = ground arith in
                  let b : d.month_start ≡ month = ground arith in
                  let zero_now = rw (a, b) at (none-count (same_month d) rows m) in ground arith
            ];
      }

any-first :
    {A : Type 0} (test : A → Bool) (xs : List A) → first test xs ≡ none → any test xs ≡ false
any-first test [] h = refl
any-first test (x ∷ xs) h = elim (Bool-cases (test x)) [
  | inl e ↦ absurd (cc (rw e at h))
  | inr e ↦ ground (arith, e, any-first test xs (rw e at h))
]

some-count :
    {A : Type 0} (test : A → Bool) (xs : List A) → any test xs ≡ true → 1 ≤ count_if test xs
some-count test [] h = absurd (cc)
some-count test (x ∷ xs) h = ground (arith, some-count test xs)

-- How many of the plans have a fingerprint, and how many are the draft or active plans of a month.
abbrev pub with_fingerprint : ℕ → List PlanRow → ℕ
with_fingerprint f = count_if (λ row. row.plan_fingerprint == f)

abbrev pub of_month : ℕ → ℕ → List PlanRow → ℕ
of_month store month =
    count_if (λ row. row.store_id == store && row.month_start == month && is_live row.status)

-- How the call ends that stores a preview with the fingerprint `f` for a month of a store.
pub data Ended (f store month : ℕ) (s : Course) (end : Drafted × List PlanRow) : Type 0 where
  -- A plan with the fingerprint was found and is returned.
  found :
      (row : PlanRow)
      → first (λ row. row.plan_fingerprint == f) s.seen ≡ some row
      → end ≡ (ok row, s.rows)
      → Ended f store month s end
  -- The month was found to have a plan.
  refused :
      with_fingerprint f s.seen ≡ 0
      → 1 ≤ of_month store month s.seen
      → end ≡ (err DraftError.month_conflict, s.rows)
      → Ended f store month s end
  -- Another session has stored a plan since: the error of the database escapes.
  overtaken :
      with_fingerprint f s.seen ≡ 0
      → of_month store month s.seen ≡ 0
      → 1 ≤ with_fingerprint f s.rows + of_month store month s.rows
      → end ≡ (err DraftError.integrity_error, s.rows)
      → Ended f store month s end
  -- The items were refused; a plan with the fingerprint that is then there is returned.
  rolled_back :
      s.items_refused ≡ true
      → end
        ≡ return_found
            (first (λ row. row.plan_fingerprint == f) s.later)
            s.later
            (err DraftError.month_conflict, s.later)
      → Ended f store month s end
  -- A draft is added, the first plan of the month and with the fingerprint.
  added :
      (row : PlanRow)
      → row.plan_fingerprint ≡ f
      → row.store_id ≡ store
      → row.month_start ≡ month
      → row.status ≡ PlanStatus.draft
      → with_fingerprint f s.seen + with_fingerprint f s.rows ≡ 0
      → of_month store month s.seen + of_month store month s.rows ≡ 0
      → end ≡ (ok row, s.rows ++ row ∷ [])
      → Ended f store month s end

abbrev Ends : Draft → Course → Drafted × List PlanRow → Type 0
Ends d s end = Ended d.fingerprint d.store_id d.month_start s end × IsUnique end.1

module _ (d : Draft) (preview : PortfolioPreview) (s : Course) (now_unique : IsUnique s.rows)
    (later_unique : IsUnique s.later) where
  rolled_back-IsUnique :
      (o : Option PlanRow)
      → IsUnique (return_found o s.later (err DraftError.month_conflict, s.later)).1
  rolled_back-IsUnique none = later_unique
  rolled_back-IsUnique (some row) = later_unique

  commit_plan-Ends :
      with_fingerprint d.fingerprint s.seen ≡ 0
      → of_month d.store_id d.month_start s.seen ≡ 0
      → Ends d s (commit_plan d preview s)
  unfolding commit_plan new_plan
  commit_plan-Ends none_seen month_free =
      elim (Bool-cases (any (λ row. same_fingerprint d row || same_month d row) s.rows)) [
        | inl taken ↦
            rw taken (overtaken none_seen month_free (some-or d s.rows taken) refl, now_unique)
        | inr free ↦
            let (f, m) = any-or (same_fingerprint d) (same_month d) s.rows free in
            elim (Bool-cases s.items_refused) [
              | inl bad ↦
                  rw (free, bad)
                    (
                      rolled_back refl refl,
                      rolled_back-IsUnique (first (same_fingerprint d) s.later),
                    )
              | inr good ↦
                  rw (free, good)
                    (
                      added (new_plan d preview) refl refl refl refl
                          (omega (arith, none_seen, none-count (same_fingerprint d) s.rows f))
                          (omega (arith, month_free, none-count (same_month d) s.rows m)) refl,
                      new_plan-IsUnique d preview s.rows free now_unique,
                    )
            ]
      ]

  store_plan-Ends : Ends d s (store_plan d preview s)
  unfolding store_plan
  store_plan-Ends = elim (Option-cases (first (same_fingerprint d) s.seen)) [
    | inr (row, e) ↦ rw e (found row e refl, now_unique)
    | inl e ↦
        let none_seen = none-count (same_fingerprint d) s.seen (any-first _ s.seen e) in
        elim (Bool-cases (any (same_month d) s.seen)) [
          | inl taken ↦
              rw (e, taken)
                (refused none_seen (some-count (same_month d) s.seen taken) refl, now_unique)
          | inr free ↦
              rw (e, free) (commit_plan-Ends none_seen (none-count (same_month d) s.seen free))
        ]
  ]

-- A preview without blockers is stored in one of these ways: a plan with its fingerprint that the call
-- finds is returned and nothing is written; otherwise a draft or active plan of the month that it
-- finds is a conflict; otherwise, if another session has stored a plan of the month or with the
-- fingerprint since, the database's error escapes; otherwise, unless its items are refused, a draft
-- is added where neither the plans that the call saw nor those that it wrote to had the fingerprint
-- or one of the month. After all of them no two plans have a fingerprint in common, and a store has
-- at most one draft or active plan of a month, if that was so of the plans that other sessions leave.
pub create_draft_portfolio_plan-Ended :
    (id : ℕ) (new_id : ℕ → ℕ) (preview : PortfolioPreview) (s : Course)
    → preview.blockers ≡ []
    → IsUnique s.rows
    → IsUnique s.later
    → Ended preview.preview_fingerprint preview.store_id preview.month_start s
        (create_draft_portfolio_plan true id new_id (Preview.planned preview) s)
      × IsUnique (create_draft_portfolio_plan true id new_id (Preview.planned preview) s).1
unfolding create_draft_portfolio_plan
create_draft_portfolio_plan-Ended id new_id preview s ready now_unique later_unique =
    rw ready (store_plan-Ends (draft_of id new_id preview) preview s now_unique later_unique)

-- Whether a call returned a plan.
abbrev pub is_ok : Drafted → Bool
is_ok (ok row) = true
is_ok (err e) = false
