-- ===== src/Planner/Select/Members.antt =====
-- What `best` returns, what `remove` leaves, and the candidate that `choose` takes.
use sm_poster.Prelude.{
  suc, ◌+◌, ◌≡◌, refl, inl, inr, Bool, true, false, none, some, List, [], ◌∷◌, arith, any, All,
  keep, keep-All, count_if, length, Bool-cases, Option-cases, if◌then◌else◌,
}
use sm_poster.Planner.Candidates.{Candidate, candidate_eq, Key, best, remove, candidate_rank}
use sm_poster.Planner.Select.{Selection, Limits, available, take_candidate, choose}

candidate_eq_sound : (a b : Candidate) → candidate_eq a b ≡ true → a ≡ b
unfolding candidate_eq
candidate_eq_sound a b h = ground arith

candidate_eq_refl : (a : Candidate) → candidate_eq a a ≡ true
unfolding candidate_eq
candidate_eq_refl a = ground arith

-- The candidate is in the list.
abbrev pub has : Candidate → List Candidate → Bool
has c = any (λ d. candidate_eq d c)

pub best-has :
    (rank : Candidate → List Key) (cs : List Candidate) (c : Candidate)
    → best rank cs ≡ some c
    → has c cs ≡ true
unfolding best
best-has rank [] c h = absurd (cc)
best-has rank (d ∷ cs) c h = elim (Option-cases (best rank cs)) [
  | inl e ↦ ground (arith, candidate_eq_refl d)
  | inr (b, e) ↦ ground (arith, best-has rank cs b e, candidate_eq_refl d)
]

pub best-none : (rank : Candidate → List Key) (cs : List Candidate) → best rank cs ≡ none → cs ≡ []
unfolding best
best-none rank [] h = refl
best-none rank (d ∷ cs) h = elim (Option-cases (best rank cs)) [
  | inl e ↦ absurd (ground arith)
  | inr (b, e) ↦ absurd (ground arith)
]

pub has-All :
    (P : Candidate → Type 0) (c : Candidate) (cs : List Candidate)
    → All P cs
    → has c cs ≡ true
    → P c
has-All P c [] hs h = absurd (cc)
has-All P c (d ∷ cs) hs h = elim (Bool-cases (candidate_eq d c)) [
  | inl e ↦ let same = candidate_eq_sound d c e in rw (← same) hs.0
  | inr e ↦ has-All P c cs hs.1 (ground arith)
]

pub keep-has :
    (test : Candidate → Bool) (c : Candidate) (cs : List Candidate)
    → has c (keep test cs) ≡ true
    → has c cs ≡ true
keep-has test c [] h = h
keep-has test c (d ∷ cs) h = ground (arith, keep-has test c cs)

keep-none :
    (test : Candidate → Bool) (cs : List Candidate)
    → keep test cs ≡ []
    → All (λ c. test c ≡ false) cs
keep-none test [] h = tt
keep-none test (c ∷ cs) h = elim (Bool-cases (test c)) [
  | inl hit ↦ absurd (ground arith)
  | inr miss ↦ (miss, keep-none test cs (ground arith))
]

-- Taking a candidate out loses one of each kind that it counts for.
pub count-remove :
    (test : Candidate → Bool) (c : Candidate) (cs : List Candidate)
    → has c cs ≡ true
    → count_if test cs ≡ count_if test (remove c cs) + (if test c then 1 else 0)
unfolding remove
count-remove test c [] h = absurd (cc)
count-remove test c (d ∷ cs) h = elim (Bool-cases (candidate_eq d c)) [
  | inl e ↦ let same = candidate_eq_sound d c e in rw (e, same) (ground arith)
  | inr e ↦ ground (arith, count-remove test c cs)
]

pub length-remove :
    (c : Candidate) (cs : List Candidate) → has c cs ≡ true → length cs ≡ suc (length (remove c cs))
unfolding remove
length-remove c [] h = absurd (cc)
length-remove c (d ∷ cs) h = ground (arith, length-remove c cs)

pub remove-All :
    (P : Candidate → Type 0) (c : Candidate) (cs : List Candidate) → All P cs → All P (remove c cs)
unfolding remove
remove-All P c [] h = tt
remove-All P c (d ∷ cs) h = elim (Bool-cases (candidate_eq d c)) [
  | inl e ↦ rw e h.1
  | inr e ↦ rw e (h.0, remove-All P c cs h.1)
]

-- The candidate that a round takes.
pub record Taken (relax : Bool) (l : Limits) (s next : Selection) : Type 0 where
  pub candidate : Candidate
  pub allowed : available relax l s.counters candidate ≡ true
  pub there : has candidate s.remaining ≡ true
  pub step : next ≡ take_candidate relax l candidate s

pub choose-Taken :
    (relax : Bool) (l : Limits) (s next : Selection)
    → choose relax l s ≡ some next
    → Taken relax l s next
unfolding choose
choose-Taken relax l s next h =
    let offered = keep (available relax l s.counters) s.remaining in
    elim (Option-cases (best (candidate_rank s.counters) offered)) [
      | inl e ↦ absurd (ground arith)
      | inr (c, e) ↦
          let found = best-has (candidate_rank s.counters) offered c e in
          record {
            candidate = c;
            allowed =
                has-All (λ d. available relax l s.counters d ≡ true) c offered
                  (keep-All (available relax l s.counters) s.remaining) found;
            there = keep-has (available relax l s.counters) c s.remaining found;
            step = ground arith;
          }
    ]

-- A round that takes none has found no candidate available.
pub choose-none :
    (relax : Bool) (l : Limits) (s : Selection)
    → choose relax l s ≡ none
    → All (λ c. available relax l s.counters c ≡ false) s.remaining
unfolding choose
choose-none relax l s h =
    let offered = keep (available relax l s.counters) s.remaining in
    elim (Option-cases (best (candidate_rank s.counters) offered)) [
      | inl e ↦
          keep-none (available relax l s.counters) s.remaining
            (best-none (candidate_rank s.counters) offered e)
      | inr (c, e) ↦ absurd (ground arith)
    ]
