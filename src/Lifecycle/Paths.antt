-- ===== src/Lifecycle/Paths.antt =====
-- Histories of allowed status changes (publication_state.py): what a publication must have passed
-- through.
use mathlib.Core.List.{Memᴰ}
use sm_poster.Prelude.{subst, ◌≡◌, refl, sym, ◌⊎◌, inl, inr, true, List, [], ◌∷◌, arith}
use sm_poster.Domain.{
  PublicationStatus, approved, publishing, published, publish_failed, publish_unknown, cancelled,
}
use sm_poster.Lifecycle.{can_transition}

-- `History s trail t`: from `s` by allowed changes into the states of `trail`, the last being `t`.
pub data History : PublicationStatus → List PublicationStatus → PublicationStatus → Type 0 where
  here : {s : PublicationStatus} → History s [] s
  change :
      {s t u : PublicationStatus} {trail : List PublicationStatus}
      → can_transition s t ≡ true
      → History t trail u
      → History s (t ∷ trail) u

-- The states in which the provider has been asked to publish and has not refused.
abbrev pub IsDispatched : PublicationStatus → Type 0
IsDispatched s = (s ≡ publishing) ⊎ ((s ≡ published) ⊎ (s ≡ publish_unknown))

IsDispatched-step :
    (s t : PublicationStatus)
    → can_transition s t ≡ true
    → IsDispatched t
    → IsDispatched s ⊎ (t ≡ publishing)
unfolding can_transition
IsDispatched-step s t h d = ground arith

IsDispatched-before :
    {s u : PublicationStatus} {trail : List PublicationStatus}
    → IsDispatched u
    → History s trail u
    → IsDispatched s ⊎ Memᴰ publishing trail
IsDispatched-before d here = inl d
IsDispatched-before d (change {s} {t} h rest) = elim (IsDispatched-before d rest) [
  | inr m ↦ inr (Memᴰ.tail m)
  | inl e ↦ elim (IsDispatched-step s t h e) [ inl x ↦ inl x | inr y ↦ inr (Memᴰ.head (sym y)) ]
]

-- Every history of allowed changes that takes an approved publication to `PUBLISHED` passes
-- through `PUBLISHING`.
pub published_through_publishing :
    {trail : List PublicationStatus} → History approved trail published → Memᴰ publishing trail
published_through_publishing h = elim (IsDispatched-before (inr (inl refl)) h) [
  | inl d ↦ absurd (ground arith)
  | inr m ↦ m
]

unknown_step :
    (t : PublicationStatus)
    → can_transition publish_unknown t ≡ true
    → (t ≡ publish_failed) ⊎ ((t ≡ published) ⊎ (t ≡ cancelled))
unfolding can_transition
unknown_step t h = ground arith

terminal_step :
    (s t : PublicationStatus) → (s ≡ published) ⊎ (s ≡ cancelled) → can_transition s t ≡ true → ⊥
unfolding can_transition
terminal_step s t e h = ground arith

-- From `PUBLISHED` and from `CANCELLED` no change is allowed: every history there is empty.
pub terminal-History :
    {s u : PublicationStatus} {trail : List PublicationStatus}
    → (s ≡ published) ⊎ (s ≡ cancelled)
    → History s trail u
    → (trail ≡ []) × (u ≡ s)
terminal-History e here = (refl, refl)
terminal-History e (change {s} {t} h rest) = absurd (terminal_step s t e h)

retry_from_unknown :
    {s u : PublicationStatus} {trail : List PublicationStatus}
    → s ≡ publish_unknown
    → u ≡ publishing
    → History s trail u
    → Memᴰ publish_failed trail
retry_from_unknown e f here = absurd (ground arith)
retry_from_unknown e f (change {s} {t} h rest) =
    elim (unknown_step t (subst (λ x. can_transition x t ≡ true) e h)) [
      | inl x ↦ Memᴰ.head (sym x)
      | inr y ↦ absurd (stuck y)
    ]
  where
    stuck : (t ≡ published) ⊎ (t ≡ cancelled) → ⊥
    stuck y = let (none_left, same) = terminal-History y rest in ground arith

-- A publication whose outcome is unknown is published again only after the unknown attempt has
-- been ruled a failure: every history from `PUBLISH_UNKNOWN` to `PUBLISHING` enters
-- `PUBLISH_FAILED`.
pub unknown_never_retried_blindly :
    {trail : List PublicationStatus}
    → History publish_unknown trail publishing
    → Memᴰ publish_failed trail
unknown_never_retried_blindly h = retry_from_unknown refl refl h
