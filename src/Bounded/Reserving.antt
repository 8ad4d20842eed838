-- ===== src/Bounded/Reserving.antt =====
-- What sealing a batch and reserving an entry keep.
use sm_poster.Prelude.{
  ℕ, suc, ◌+◌, ◌≤◌, ◌<◌, ◌≡◌, refl, sym, ap, subst, ◌∙◌, ◌⊎◌, inl, inr, Bool, true, false, not,
  ◌&&◌, ◌||◌, Option, none, some, List, [], ◌∷◌, arith, ◌==◌, Bool-cases, Option-cases, any,
  count_if, first, length, leb, opt_eq,
}
use sm_poster.Permits.{PermitStatus}
use sm_poster.Scheduler.{Env}
use sm_poster.Bounded.{
  BatchError, BatchSettings, BatchState, Entry, Identity, State, is_preparing, is_ready,
  is_reserved, is_running, is_terminal,
}
use sm_poster.Bounded.Manifest.{identities, observe_locked, unsettled, validate_identity}
use sm_poster.Bounded.Checks.{
  is_live_control, lost_by, names, reserved_state, seal_error, sealed_state, sealing, slots_from,
}
use sm_poster.Bounded.Service.{reserve_entry, reserve_found, seal_batch}
use sm_poster.Bounded.Keeping.{
  Keeps, close_as-Keeps, has_slot, is_admitting, same-Keeps, then-Keeps,
}
use sm_poster.Bounded.Observing.{observe_locked-Keeps, reserve_row-identity, reserve_row-reserved}
use sm_poster.Bounded.Operations.{gated-Keeps, going_on, seen_close-Keeps}

length-identities : (es : List Entry) → length (identities es) ≡ length es
length-identities [] = refl
length-identities (e ∷ es) = ground (arith, length-identities es)

preparing_states : (state : BatchState) → is_preparing state ≡ true → (is_terminal state ≡ false)
preparing_states BatchState.preparing h = refl
preparing_states BatchState.opened h = refl
preparing_states BatchState.ready h = refl
preparing_states BatchState.running h = refl
preparing_states BatchState.paused h = absurd (cc)
preparing_states BatchState.failed h = absurd (cc)
preparing_states BatchState.completed h = absurd (cc)

running_states :
    (state : BatchState)
    → is_running state ≡ true
    → (is_admitting state ≡ true) × (is_preparing state ≡ false)
running_states BatchState.running h = (refl, refl)
running_states BatchState.opened h = absurd (cc)
running_states BatchState.preparing h = absurd (cc)
running_states BatchState.ready h = absurd (cc)
running_states BatchState.paused h = absurd (cc)
running_states BatchState.failed h = absurd (cc)
running_states BatchState.completed h = absurd (cc)

one_more : (a b : ℕ) → a ≡ b → suc a ≡ b + 1
one_more a b h = omega arith

last_slot : (n : ℕ) → n < 5 → (n + 1 < 5) ⊎ ((n + 1 == 5) ≡ true)
last_slot n h = ground arith

sealable : (a c : Bool) (n : ℕ) → (not a || not (n == 5) || not c) ≡ false → (a ≡ true) × (n ≡ 5)
sealable a c n h = (ground arith, ground arith)

module _ (hash : List Identity → ℕ) where
  sealed_state-Keeps :
      (s : State)
      → is_preparing s.batch.state ≡ true
      → length s.entries ≡ 5
      → Keeps hash s (sealed_state (hash (identities s.entries)) s)
  sealed_state-Keeps s begun five sound =
      let none_yet : s.batch.attempts_reserved ≡ 0 = elim sound.unstarted [
        | inl past ↦ absurd (cc)
        | inr zero_yet ↦ zero_yet
      ] in
      record {
        sound = record {
          counted = sound.counted;
          bounded = sound.bounded;
          exhausted = inl (omega (arith, none_yet));
          shut = inl refl;
          unstarted = inl refl;
          sealed = inr (length-identities s.entries ∙ five, refl);
          keys = sound.keys;
        };
        same = refl;
        more = omega arith;
        final = inl (preparing_states s.batch.state begun);
      }

  sealing-Keeps :
      (s : State) (error : Option BatchError)
      → is_preparing s.batch.state ≡ true
      → length s.entries ≡ 5
      → Keeps hash s (sealing (hash (identities s.entries)) s error).1
  sealing-Keeps s none begun five = sealed_state-Keeps s begun five
  sealing-Keeps s (some e) begun five = same-Keeps hash s

  pub seal_batch-Keeps :
      (env : Env) (settings : BatchSettings) (s : State)
      → Keeps hash s (seal_batch hash env settings s).1
  unfolding seal_batch
  seal_batch-Keeps env settings s =
      let manifest = hash (identities s.entries) in
      let again = is_ready s.batch.state && opt_eq s.batch.manifest (some manifest) in
      let wrong =
        not (is_preparing s.batch.state)
        || not (length s.entries == 5)
        || not (slots_from 0 s.entries) in
      gated-Keeps hash settings s _ (elim (Bool-cases again) [
        | inl same ↦ rw same (same-Keeps hash s)
        | inr fresh ↦ rw fresh (elim (Bool-cases wrong) [
          | inl bad ↦ rw bad (same-Keeps hash s)
          | inr good ↦
              let (begun, five) = sealable _ _ (length s.entries) good in
              rw good (sealing-Keeps s (seal_error env s s.entries) begun five)
        ])
      ])

  -- The writes of a reservation, for a running batch with a slot left.
  reserved_state-Keeps :
      (now : ℕ) (test : Entry → Bool) (row : Entry) (s : State)
      → first test s.entries ≡ some row
      → is_reserved row ≡ false
      → is_running s.batch.state ≡ true
      → is_terminal s.batch.state ≡ false
      → s.batch.attempts_reserved < 5
      → Keeps hash s (reserved_state now row s)
  unfolding reserved_state
  reserved_state-Keeps now test row s found free runs live left sound =
      let (admits, begun) = running_states s.batch.state runs in
      let same = reserve_row-identity now row s.entries in
      record {
        sound = record {
          counted =
              reserve_row-reserved now test s.entries row found free (sound.keys row.identity.slot)
              ∙ one_more _ _ sound.counted;
          bounded = omega (arith, left);
          exhausted = last_slot s.batch.attempts_reserved left;
          shut = inl admits;
          unstarted = inl begun;
          sealed = inr (elim sound.sealed [
            | inl idle ↦ absurd (cc)
            | inr (five, frozen) ↦
                (ap length same ∙ five, frozen ∙ ap (λ ids. some (hash ids)) (sym same))
          ]);
          keys = λ k. subst (λ ids. count_if (has_slot k) ids ≤ 1) (sym same) (sound.keys k);
        };
        same = same;
        more = omega arith;
        final = inl live;
      }

  reserve_found-Keeps :
      (env : Env) (now : ℕ) (test : Entry → Bool) (found : Option Entry) (s : State)
      → first test s.entries ≡ found
      → is_running s.batch.state ≡ true
      → is_terminal s.batch.state ≡ false
      → s.batch.attempts_reserved < 5
      → Keeps hash s (reserve_found hash env now found s).1
  unfolding reserve_found
  reserve_found-Keeps env now test none s h runs live left =
      close_as-Keeps hash now BatchState.failed _ s refl
  reserve_found-Keeps env now test (some row) s h runs live left =
      let valid = validate_identity env s PermitStatus.active row in
      elim (Bool-cases (is_reserved row)) [
        | inl taken ↦ rw taken (close_as-Keeps hash now BatchState.failed _ s refl)
        | inr free ↦ rw free (elim (Option-cases valid) [
          | inl bad ↦ rw bad (close_as-Keeps hash now BatchState.failed _ s refl)
          | inr (x, good) ↦ rw good (reserved_state-Keeps now test row s h free runs live left)
        ])
      ]

  admitting :
      (a b : Bool) (n : ℕ) (c : Bool)
      → (not a || b || leb 5 n || not c) ≡ false
      → (a ≡ true) × (n < 5)
  admitting a b n c h = (ground arith, ground arith)

  pub reserve_entry-Keeps :
      (env : Env) (settings : BatchSettings) (owner publication_id permit_id now : ℕ) (s : State)
      → Keeps hash s (reserve_entry hash env settings owner publication_id permit_id now s).1
  unfolding reserve_entry
  reserve_entry-Keeps env settings owner publication_id permit_id now s =
      let looked = observe_locked hash now s in
      let refused =
        not (is_running s.batch.state)
        || s.batch.admission_closed
        || leb 5 s.batch.attempts_reserved
        || not (is_live_control s.control) in
      gated-Keeps hash settings s _ (elim (Bool-cases (is_terminal looked.batch.state)) [
        | inl ended ↦ rw ended (observe_locked-Keeps hash now s)
        | inr live ↦ rw live (elim (Bool-cases refused) [
          | inl no_more ↦ rw no_more (same-Keeps hash s)
          | inr open_yet ↦ rw open_yet (elim (Bool-cases (lost_by now owner s.batch)) [
            | inl lost ↦ rw lost (seen_close-Keeps hash now BatchState.paused _ s refl)
            | inr mine ↦ rw mine (elim (Bool-cases (any unsettled looked.entries)) [
              | inl pending ↦ rw pending (same-Keeps hash s)
              | inr settled ↦ rw settled (
                  let (runs, left) = admitting _ _ s.batch.attempts_reserved _ open_yet in
                  let same = going_on hash now s live in
                  then-Keeps hash s looked _ (observe_locked-Keeps hash now s) (
                    reserve_found-Keeps env now (names publication_id permit_id) _ looked refl
                      (rw same runs) live (rw same left)))
            ])
          ])
        ])
      ])
