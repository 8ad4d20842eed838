-- ===== src/Scheduler/Due/Pages.antt =====
-- The page loop of `due_publications` is `take` of a filter: no row is skipped or taken twice, and
-- the loop ends.
use sm_poster.Prelude.{
  ℕ, zero, suc, ◌+◌, ◌<◌, ◌≤◌, ◌≡◌, refl, sym, ap, ◌∙◌, Bool, not, inl, inr, some, List, [], ◌∷◌,
  ◌++◌, arith, ltb, leb, ◌==◌, length, take, drop, keep, length-append, length-take, length-drop,
  take-append-drop, drop-drop, keep-append, Bool-cases, ltb→lt,
}
use mathlib.Core.List.{append_assoc, append-nil}
use sm_poster.Scheduler.Due.{collect, pages}

module _ {ℓ} {A : Type ℓ} where
  take-all : (n : ℕ) (xs : List A) → length xs ≤ n → take n xs ≡ xs
  take-all zero [] h = refl
  take-all zero (x ∷ xs) h = absurd (omega arith)
  take-all (suc n) [] h = refl
  take-all (suc n) (x ∷ xs) h = ap (λ r. x ∷ r) (take-all n xs (omega arith))

  take-append_exact : (n : ℕ) (xs ys : List A) → length xs ≡ n → take n (xs ++ ys) ≡ xs
  take-append_exact zero [] ys h = refl
  take-append_exact zero (x ∷ xs) ys h = absurd (omega arith)
  take-append_exact (suc n) [] ys h = absurd (omega arith)
  take-append_exact (suc n) (x ∷ xs) ys h =
      ap (λ r. x ∷ r) (take-append_exact n xs ys (omega arith))

  take-take-append : (n : ℕ) (xs ys : List A) → take n (take n xs ++ ys) ≡ take n (xs ++ ys)
  take-take-append zero xs ys = refl
  take-take-append (suc n) [] ys = refl
  take-take-append (suc n) (x ∷ xs) ys = ap (λ r. x ∷ r) (take-take-append n xs ys)

  empty : (xs : List A) → length xs ≡ 0 → xs ≡ []
  empty [] h = refl
  empty (x ∷ xs) h = absurd (omega arith)

  drop_page : (n : ℕ) (xs : List A) → drop (length (take n xs)) xs ≡ drop n xs
  drop_page zero xs = refl
  drop_page (suc n) [] = refl
  drop_page (suc n) (x ∷ xs) = drop_page n xs

module _ {ℓ} {A : Type ℓ} (pending : A → Bool) (target : ℕ) where
  abbrev pub admit : List A → List A
  admit = keep (λ p. not (pending p))

  pub collect-eq-take :
      (eligible page : List A)
      → length eligible < target
      → collect pending target eligible page ≡ take target (eligible ++ admit page)
  unfolding collect
  collect-eq-take eligible [] h = rw append-nil (sym (take-all target eligible (omega arith)))
  collect-eq-take eligible (p ∷ page) h = elim (Bool-cases (pending p)) [
    | inl skip ↦ rw skip (collect-eq-take eligible page h)
    | inr fresh ↦ elim (Bool-cases (leb target (length (eligible ++ p ∷ [])))) [
      | inl full ↦
          rw (fresh, full, ← append_assoc eligible (p ∷ []) (admit page))
            (sym (
              take-append_exact target (eligible ++ p ∷ []) (admit page)
                (ground (arith, length-append eligible (p ∷ [])))))
      | inr room ↦
          rw (fresh, room, ← append_assoc eligible (p ∷ []) (admit page))
            (collect-eq-take (eligible ++ p ∷ []) page
              (ground (arith, length-append eligible (p ∷ []))))
    ]
  ]

  -- A page and what follows it, admitted one after the other.
  regroup :
      (eligible rest page : List A)
      → rest ≡ page ++ drop target rest
      → take target (take target (eligible ++ admit page) ++ admit (drop target rest))
        ≡ take target (eligible ++ admit rest)
  regroup eligible rest page split =
      take-take-append target (eligible ++ admit page) (admit (drop target rest))
      ∙ ap (take target) (
          append_assoc eligible (admit page) (admit (drop target rest))
          ∙ ap (λ l. eligible ++ l)
              (sym (keep-append (λ p. not (pending p)) page (drop target rest))
                ∙ ap admit (sym split)))

  next_offset :
      (found : List A) (offset : ℕ)
      → drop (offset + length (take target (drop offset found))) found
        ≡ drop target (drop offset found)
  next_offset found offset =
      sym (drop-drop offset (length (take target (drop offset found))) found)
      ∙ drop_page target (drop offset found)

  pub pages-eq-take :
      (fuel : ℕ) (found : List A) (offset : ℕ) (eligible : List A)
      → 0 < target
      → length eligible ≤ target
      → length (drop offset found) < fuel
      → pages fuel pending target found offset eligible
        ≡ some (take target (eligible ++ admit (drop offset found)))
  unfolding pages
  pages-eq-take zero found offset eligible t e h = absurd (omega arith)
  pages-eq-take (suc fuel) found offset eligible t e h =
      let rest = drop offset found in
      let page = take target rest in
      elim (Bool-cases (ltb (length eligible) target)) [
        | inr full ↦
            rw full (ap some (sym (take-append_exact target eligible (admit rest) (ground arith))))
        | inl room ↦ elim (Bool-cases (length page == 0)) [
          | inl done ↦
              rw (room, done, empty rest (ground (arith, length-take target rest)), append-nil)
                (ap some (sym (take-all target eligible e)))
          | inr more ↦
              rw (room, more)
                (pages-eq-take fuel found (offset + length page)
                    (collect pending target eligible page) t
                    (rw (collect-eq-take eligible page (ltb→lt _ _ room))
                      (omega (arith, length-take target (eligible ++ admit page))))
                    (rw (next_offset found offset)
                      (ground (arith, length-take target rest, length-drop target rest)))
                  ∙ ap some (
                      rw (collect-eq-take eligible page (ltb→lt _ _ room), next_offset found offset)
                        (regroup eligible rest page (sym (take-append-drop target rest)))))
        ]
      ]
