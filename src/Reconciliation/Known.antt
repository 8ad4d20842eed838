-- ===== src/Reconciliation/Known.antt =====
-- What the checks on Pin ids say of the rows of publications and attempts.
use sm_poster.Prelude.{
  ℕ, ◌≡◌, refl, inl, inr, ◌⊎◌, String, true, false, not, ◌&&◌, ◌||◌, Option, none, some, List, [],
  ◌∷◌, arith, All, Bool-cases, eq_iff, eq_refl, length, ltb, ◌==◌, text_eq, text_in, truthy,
  truthy?,
}
use sm_poster.Prelude.Table.{rows}
use sm_poster.Prelude.Kept.{All-map, any-All, text_eq_refl}
use sm_poster.Domain.{Db, Publication, Attempt}
use sm_poster.Reconciliation.{add_text, attempt_pins, in_known, known_pins, pin_taken}

not_other :
    (a b : Option String) (k id : ℕ) → (text_eq a b && not (k == id)) ≡ false → a ≡ b → k ≡ id
not_other a b k id h e = ground (arith, rw e at h, text_eq_refl b)

-- A Pin id that is not taken is on no row of another publication.
pub free-All :
    (id : ℕ) (pin : Option String) (db : Db)
    → pin_taken id pin db ≡ false
    → All (λ (p : Publication). p.pinterest_pin_id ≡ pin → p.id ≡ id) (rows db.publications)
      × All (λ (a : Attempt). a.provider_pin_id ≡ pin → a.publication_id ≡ id) (rows db.attempts)
unfolding pin_taken
free-All id pin db h = (
  All-map _ _ (λ p k e. not_other p.pinterest_pin_id pin p.id id k e) (rows db.publications)
      (any-All _ (rows db.publications) (ground arith)),
  All-map _ _ (λ a k e. not_other a.provider_pin_id pin a.publication_id id k e) (rows db.attempts)
      (any-All _ (rows db.attempts) (ground arith)),
)

-- An id that is there is among the known ones once it is added, and stays there.
add_text-in :
    (o : Option String) (known : List String)
    → truthy? o ≡ true
    → in_known o (add_text o known) ≡ true
add_text-in none known h = absurd (cc)
add_text-in (some s) known h = elim (Bool-cases (text_in s known)) [
  | inl there ↦ rw (h, there) there
  | inr fresh ↦ rw (h, fresh) (ground (arith, eq_refl s))
]

add_text-keeps :
    (p o : Option String) (known : List String)
    → in_known p known ≡ true
    → in_known p (add_text o known) ≡ true
add_text-keeps none o known h = absurd (cc)
add_text-keeps (some t) none known h = h
add_text-keeps (some t) (some s) known h = elim (Bool-cases (not (truthy s) || text_in s known)) [
  | inl same ↦ rw same h
  | inr more ↦ rw more (ground arith)
]

-- The Pin id of each attempt is among those that are known.
abbrev pub IsKnown : List String → Option String → Type 0
IsKnown known o = truthy? o ≡ true → in_known o known ≡ true

attempt_pins-All :
    (attempts : List Attempt)
    → All (λ a. IsKnown (attempt_pins attempts) a.provider_pin_id) attempts
unfolding attempt_pins
attempt_pins-All [] = tt
attempt_pins-All (a ∷ attempts) = (
  add_text-in a.provider_pin_id (attempt_pins attempts),
  All-map (λ b. IsKnown (attempt_pins attempts) b.provider_pin_id) _
      (λ b k e. add_text-keeps b.provider_pin_id a.provider_pin_id (attempt_pins attempts) (k e))
      attempts (attempt_pins-All attempts),
)

pub known_pins-All :
    (p : Publication) (attempts : List Attempt)
    → IsKnown (known_pins p attempts) p.pinterest_pin_id
      × All (λ a. IsKnown (known_pins p attempts) a.provider_pin_id) attempts
unfolding known_pins
known_pins-All p attempts = (
  add_text-in p.pinterest_pin_id (attempt_pins attempts),
  All-map (λ b. IsKnown (attempt_pins attempts) b.provider_pin_id) _
      (λ b k e. add_text-keeps b.provider_pin_id p.pinterest_pin_id (attempt_pins attempts) (k e))
      attempts (attempt_pins-All attempts),
)

-- Of at most one known id, two known ids are the same.
pub one_known :
    (o pin : Option String) (known : List String)
    → ltb 1 (length known) ≡ false
    → (known ≡ []) ⊎ (in_known pin known ≡ true)
    → IsKnown known o
    → truthy? o ≡ true
    → o ≡ pin
one_known none pin known few h k e = absurd (cc)
one_known (some s) none known few h k e = elim h [
  | inl empty ↦ absurd (cc (rw empty at k e))
  | inr there ↦ absurd (cc)
]
one_known (some s) (some t) [] few h k e = absurd (cc (k e))
one_known (some s) (some t) (x ∷ []) few h k e = elim h [
  | inl empty ↦ absurd (cc)
  | inr there ↦
      let a = (eq_iff s x).0 (ground (arith, k e)) in
      let b = (eq_iff t x).0 (ground (arith, there)) in cc (a, b)
]
one_known (some s) (some t) (x ∷ y ∷ rest) few h k e = absurd (ground (arith, few))

pub none_known :
    (o : Option String) (known : List String) → known ≡ [] → IsKnown known o → truthy? o ≡ false
none_known none known empty k = refl
none_known (some s) known empty k = elim (Bool-cases (truthy s)) [
  | inr blank ↦ blank
  | inl there ↦ absurd (cc (rw empty at k there))
]
