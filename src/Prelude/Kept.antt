-- ===== src/Prelude/Kept.antt =====
-- Lemmas on what all rows of a filtered list meet, and on the equality of nullable texts.
use mathlib.Core.List.{List, [], ◌∷◌}
use mathlib.Core.Option.{Option, none, some}
use mathlib.Core.Path.{◌≡◌, refl}
use mathlib.Core.Bool.{Bool, true, false}
use mathlib.Core.Logic.{inl, inr, ◌↔◌}
use Prim.Native.String.{String}
use native.Mathlib.Omega.{arith}
use text.Mathlib.TextEquality.{eq_iff}
use text.Mathlib.TextPositions.{eq_refl}
use sm_poster.Prelude.Tests.{Bool-cases}
use sm_poster.Prelude.Lists.{All, any, keep}
use sm_poster.Prelude.Text.{text_eq}

module _ {ℓ} {A : Type ℓ} where
  -- What no kept row passes, no row passes that is kept.
  pub none-kept :
      (test keeps : A → Bool) (xs : List A)
      → any test (keep keeps xs) ≡ false
      → All (λ x. keeps x ≡ true → test x ≡ false) xs
  none-kept test keeps [] h = tt
  none-kept test keeps (x ∷ xs) h = elim (Bool-cases (keeps x)) [
    | inl kept ↦
        (λ e. ground (arith, rw kept at h), none-kept test keeps xs (ground (arith, rw kept at h)))
    | inr dropped ↦ (λ e. absurd (cc), none-kept test keeps xs (rw dropped at h))
  ]

  pub kept-All :
      (P : A → Type 0) (keeps : A → Bool) (xs : List A)
      → All P (keep keeps xs)
      → All (λ x. keeps x ≡ true → P x) xs
  kept-All P keeps [] h = tt
  kept-All P keeps (x ∷ xs) h = elim (Bool-cases (keeps x)) [
    | inl kept ↦ let k = rw kept at h in (λ e. k.0, kept-All P keeps xs k.1)
    | inr dropped ↦ (λ e. absurd (cc), kept-All P keeps xs (rw dropped at h))
  ]

  pub All-map : (P Q : A → Type 0) → ((x : A) → P x → Q x) → (xs : List A) → All P xs → All Q xs
  All-map P Q f [] h = tt
  All-map P Q f (x ∷ xs) h = (f x h.0, All-map P Q f xs h.1)

  pub any-All : (test : A → Bool) (xs : List A) → any test xs ≡ false → All (λ x. test x ≡ false) xs
  any-All test [] h = tt
  any-All test (x ∷ xs) h = (ground arith, any-All test xs (ground arith))

  pub All-kept :
      (P : A → Type 0) (keeps : A → Bool) (xs : List A)
      → All (λ x. keeps x ≡ true → P x) xs
      → All P (keep keeps xs)
  All-kept P keeps [] h = tt
  All-kept P keeps (x ∷ xs) h = elim (Bool-cases (keeps x)) [
    | inl kept ↦ rw kept (h.0 kept, All-kept P keeps xs h.1)
    | inr dropped ↦ rw dropped (All-kept P keeps xs h.1)
  ]

pub text_eq_refl : (a : Option String) → text_eq a a ≡ true
text_eq_refl none = refl
text_eq_refl (some s) = eq_refl s

pub text_eq_iff : (a b : Option String) → (text_eq a b ≡ true) ↔ (a ≡ b)
text_eq_iff none none = (λ h. refl, λ e. refl)
text_eq_iff none (some t) = (λ h. absurd (cc), λ e. absurd (cc))
text_eq_iff (some s) none = (λ h. absurd (cc), λ e. absurd (cc))
text_eq_iff (some s) (some t) = (λ h. cc ((eq_iff s t).0 h), λ e. (eq_iff s t).1 (cc))
