-- ===== src/Bounded/Observing.antt =====
-- What looking at a batch, reserving an entry and binding an attempt keep.
use sm_poster.Prelude.{
  ℕ, String, suc, ◌≤◌, ◌≡◌, refl, ap, subst, ◌⊎◌, inl, inr, Bool, true, false, some, List, [], ◌∷◌,
  arith, ◌==◌, Bool-cases, count_if, first, map, if◌then◌else◌,
}
use sm_poster.Bounded.{BatchState, Entry, Identity, Rows, State, close_as, is_reserved, is_terminal}
use sm_poster.Bounded.Manifest.{
  Look, act_on, drifted, failure_seen, five_published, identities, look_at, observe_entry,
  observe_locked, seen, still_open, unknown_seen,
}
use sm_poster.Bounded.Checks.{bind_attempt, bind_row, reserve_row, same_slot}
use sm_poster.Bounded.Keeping.{Keeps, close_as-Keeps, entries-Keeps, has_slot, then-Keeps}

-- A property of both branches, each under its condition.
pub branches {ℓ κ} :
    {A : Type ℓ} (P : A → Type κ) (b : Bool) (x y : A)
    → (b ≡ true → P x)
    → (b ≡ false → P y)
    → P (if b then x else y)
branches P true x y f g = f refl
branches P false x y f g = g refl

observe_entry-identity :
    (rows : Rows) (es : List Entry) → identities (map (observe_entry rows) es) ≡ identities es
unfolding observe_entry
observe_entry-identity rows [] = refl
observe_entry-identity rows (e ∷ es) = elim (Bool-cases (is_reserved e)) [
  | inl held ↦ rw (held, observe_entry-identity rows es) refl
  | inr free ↦ rw (free, observe_entry-identity rows es) refl
]

pub observe_entry-reserved :
    (rows : Rows) (es : List Entry)
    → count_if is_reserved (map (observe_entry rows) es) ≡ count_if is_reserved es
unfolding observe_entry
observe_entry-reserved rows [] = refl
observe_entry-reserved rows (e ∷ es) = elim (Bool-cases (is_reserved e)) [
  | inl held ↦ rw (held, held, observe_entry-reserved rows es) refl
  | inr free ↦ rw (free, free, observe_entry-reserved rows es) refl
]

bind_row-identity : (p a : ℕ) (es : List Entry) → identities (map (bind_row p a) es) ≡ identities es
bind_row-identity p a [] = refl
bind_row-identity p a (e ∷ es) = ground (arith, bind_row-identity p a es)

bind_row-reserved :
    (p a : ℕ) (es : List Entry)
    → count_if is_reserved (map (bind_row p a) es) ≡ count_if is_reserved es
bind_row-reserved p a [] = refl
bind_row-reserved p a (e ∷ es) = ground (arith, bind_row-reserved p a es)

pub reserve_row-identity :
    (now : ℕ) (row : Entry) (es : List Entry)
    → identities (map (reserve_row now row) es) ≡ identities es
reserve_row-identity now row [] = refl
reserve_row-identity now row (e ∷ es) = elim (Bool-cases (same_slot row e)) [
  | inl this ↦ rw (this, reserve_row-identity now row es) refl
  | inr other ↦ rw (other, reserve_row-identity now row es) refl
]

-- No entry has the slot of `row`.
untouched :
    (now : ℕ) (row : Entry) (es : List Entry)
    → count_if (has_slot row.identity.slot) (identities es) ≡ 0
    → count_if is_reserved (map (reserve_row now row) es) ≡ count_if is_reserved es
untouched now row [] h = refl
untouched now row (e ∷ es) h = elim (Bool-cases (same_slot row e)) [
  | inl this ↦ absurd (omega (arith, rw this at h))
  | inr other ↦ rw other (ground (arith, untouched now row es (rw other at h)))
]

some_injective : (a b : Entry) → some a ≡ some b → a ≡ b
some_injective a b h = cc

pub slot_refl : (n : ℕ) → (n == n) ≡ true
slot_refl n = ground arith

-- The found entry is among those of its slot.
found_slot :
    (test : Entry → Bool) (es : List Entry) (row : Entry)
    → first test es ≡ some row
    → 1 ≤ count_if (has_slot row.identity.slot) (identities es)
found_slot test [] row h = absurd (cc)
found_slot test (e ∷ es) row h = elim (Bool-cases (test e)) [
  | inl hit ↦
      subst (λ (r : Entry). 1 ≤ count_if (has_slot r.identity.slot) (identities (e ∷ es)))
        (some_injective e row (rw hit at h)) (rw (slot_refl e.identity.slot) (omega arith))
  | inr miss ↦ let rest = found_slot test es row (rw miss at h) in ground (arith, rest)
]

at_head :
    (now : ℕ) (e : Entry) (es : List Entry) (row : Entry)
    → e ≡ row
    → is_reserved row ≡ false
    → count_if (has_slot row.identity.slot) (identities (e ∷ es)) ≤ 1
    → count_if is_reserved (map (reserve_row now row) (e ∷ es))
      ≡ suc (count_if is_reserved (e ∷ es))
at_head now e es row this free one =
    subst
      (λ (r : Entry).
        is_reserved r ≡ false
        → count_if (has_slot r.identity.slot) (identities (e ∷ es)) ≤ 1
        → count_if is_reserved (map (reserve_row now r) (e ∷ es))
          ≡ suc (count_if is_reserved (e ∷ es)))
      this
      (λ empty most.
        rw (slot_refl e.identity.slot, empty)
          (ap suc (untouched now e es (omega (arith, rw (slot_refl e.identity.slot) at most)))))
      free one

in_tail :
    (now : ℕ) (e : Entry) (es : List Entry) (row : Entry)
    → 1 ≤ count_if (has_slot row.identity.slot) (identities es)
    → count_if (has_slot row.identity.slot) (identities (e ∷ es)) ≤ 1
    → (count_if (has_slot row.identity.slot) (identities es) ≤ 1
        → count_if is_reserved (map (reserve_row now row) es) ≡ suc (count_if is_reserved es))
    → count_if is_reserved (map (reserve_row now row) (e ∷ es))
      ≡ suc (count_if is_reserved (e ∷ es))
in_tail now e es row some_one one rest = elim (Bool-cases (same_slot row e)) [
  | inl this ↦ absurd (omega (arith, some_one, rw this at one))
  | inr other ↦ rw other (ground (arith, rest (rw other at one)))
]

-- The reservation of an entry that was found and not reserved: one more is.
pub reserve_row-reserved :
    (now : ℕ) (test : Entry → Bool) (es : List Entry) (row : Entry)
    → first test es ≡ some row
    → is_reserved row ≡ false
    → count_if (has_slot row.identity.slot) (identities es) ≤ 1
    → count_if is_reserved (map (reserve_row now row) es) ≡ suc (count_if is_reserved es)
reserve_row-reserved now test [] row h free one = absurd (cc)
reserve_row-reserved now test (e ∷ es) row h free one = elim (Bool-cases (test e)) [
  | inl hit ↦ at_head now e es row (some_injective e row (rw hit at h)) free one
  | inr miss ↦
      let found : first test es ≡ some row = rw miss at h in
      in_tail now e es row (found_slot test es row found) one
        (reserve_row-reserved now test es row found free)
]

module _ (hash : List Identity → ℕ) where
  pub seen-Keeps : (s : State) → Keeps hash s (seen s)
  seen-Keeps s =
      entries-Keeps hash s (observe_entry s.rows) (observe_entry-identity s.rows)
        (observe_entry-reserved s.rows)

  pub bind_attempt-Keeps : (p a : ℕ) (s : State) → Keeps hash s (bind_attempt p a s)
  unfolding bind_attempt
  bind_attempt-Keeps p a s =
      entries-Keeps hash s (bind_row p a) (bind_row-identity p a) (bind_row-reserved p a)

  seen_close-Keeps :
      (now : ℕ) (state : BatchState) (reason : String) (s : State)
      → is_terminal state ≡ true
      → Keeps hash s (close_as now state reason (seen s))
  seen_close-Keeps now state reason s t =
      then-Keeps hash s (seen s) (close_as now state reason (seen s)) (seen-Keeps s)
        (close_as-Keeps hash now state reason (seen s) t)

  act_on-Keeps : (now : ℕ) (s : State) (look : Look) → Keeps hash s (act_on now s look)
  act_on-Keeps now s drifted = close_as-Keeps hash now _ _ s refl
  act_on-Keeps now s unknown_seen = seen_close-Keeps now _ _ s refl
  act_on-Keeps now s failure_seen = seen_close-Keeps now _ _ s refl
  act_on-Keeps now s five_published = seen_close-Keeps now _ _ s refl
  act_on-Keeps now s still_open = seen-Keeps s

  pub observe_locked-Keeps : (now : ℕ) (s : State) → Keeps hash s (observe_locked hash now s)
  unfolding observe_locked
  observe_locked-Keeps now s = act_on-Keeps now s (look_at hash s)

  act_on-open :
      (now : ℕ) (s : State) (look : Look)
      → (is_terminal (act_on now s look).batch.state ≡ true) ⊎ (act_on now s look ≡ seen s)
  unfolding close_as
  act_on-open now s drifted = inl refl
  act_on-open now s unknown_seen = inl refl
  act_on-open now s failure_seen = inl refl
  act_on-open now s five_published = inl refl
  act_on-open now s still_open = inr refl

  -- A batch that is not closed is as it was, and its entries have been looked at.
  pub observe_locked-open :
      (now : ℕ) (s : State)
      → (is_terminal (observe_locked hash now s).batch.state ≡ true)
        ⊎ (observe_locked hash now s ≡ seen s)
  unfolding observe_locked
  observe_locked-open now s = act_on-open now s (look_at hash s)
