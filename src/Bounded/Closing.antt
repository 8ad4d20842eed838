-- ===== src/Bounded/Closing.antt =====
-- What a batch leaves when it is closed, and when a look closes it.
use sm_poster.Prelude.{
  ℕ, String, ◌≡◌, refl, Bool, true, false, ◌&&◌, ◌||◌, List, [], ◌∷◌, arith, any, map, Bool-cases,
  inl, inr, ◌∙◌, All, count_if, not, none, some, Option, opt_eq_iff,
}
use sm_poster.Permits.{Permit, PermitStatus, permit_status_eq}
use sm_poster.Routine.Control.{ControlState}
use sm_poster.Bounded.{
  Answer, Rows, done, is_ready, is_reserved, is_running, BatchState, Entry, EntryOutcome, Identity,
  State, close_as, holds_permit, is_terminal, is_unused, revoke_unused,
}
use sm_poster.Bounded.Manifest.{
  Look, act_on, drifted, failure_seen, has_drifted, look_at, observe_entry, observe_locked, seen,
  some_outcome, unknown_seen,
}
use sm_poster.Bounded.Trigger.{
  batch_allowed, is_completed, is_final, look_allowed, outcome_allowed, outcome_same,
  outcomes_allowed, transition_allowed,
}
use sm_poster.Bounded.Keeping.{Sound}
use sm_poster.Bounded.Observing.{observe_entry-reserved}
use sm_poster.Bounded.Service.{observe_batch}

-- An active permit of an entry that is not reserved.
abbrev pub still_usable : List Entry → Permit → Bool
still_usable entries p =
    permit_status_eq p.status PermitStatus.active && any (holds_permit p) entries

-- A batch that admits nothing, under a control that is paused, with no permit left to use.
pub record IsStopped (s : State) : Type 0 where
  pub ended : is_terminal s.batch.state ≡ true
  pub closed : s.batch.admission_closed ≡ true
  pub paused : s.control.state ≡ ControlState.paused
  pub none_usable : any (still_usable s.entries) s.permits ≡ false

revoked :
    (now : ℕ) (reason : String) (s : State) (ps : List Permit)
    → any (still_usable s.entries) (map (revoke_unused now reason s) ps) ≡ false
unfolding revoke_unused
revoked now reason s [] = refl
revoked now reason s (p ∷ ps) =
    elim (Bool-cases (is_unused s p && permit_status_eq p.status PermitStatus.active)) [
      | inl hit ↦ rw hit (revoked now reason s ps)
      | inr kept ↦ rw kept (ground (arith, revoked now reason s ps, kept))
    ]

close_as-IsStopped :
    (now : ℕ) (state : BatchState) (reason : String) (s : State)
    → is_terminal state ≡ true
    → IsStopped (close_as now state reason s)
unfolding close_as
close_as-IsStopped now state reason s t = record {
  ended = t;
  closed = refl;
  paused = refl;
  none_usable = revoked now reason s s.permits;
}

seen_close-IsStopped :
    (now : ℕ) (state : BatchState) (reason : String) (s : State)
    → is_terminal state ≡ true
    → IsStopped (close_as now state reason (seen s))
seen_close-IsStopped now state reason s t = close_as-IsStopped now state reason (seen s) t

running_closes :
    (old : BatchState)
    → is_running old ≡ true
    → (transition_allowed old BatchState.paused ≡ true)
      × (transition_allowed old BatchState.failed ≡ true)
unfolding transition_allowed
running_closes BatchState.running h = (refl, refl)
running_closes BatchState.opened h = absurd (cc)
running_closes BatchState.preparing h = absurd (cc)
running_closes BatchState.ready h = absurd (cc)
running_closes BatchState.paused h = absurd (cc)
running_closes BatchState.failed h = absurd (cc)
running_closes BatchState.completed h = absurd (cc)

-- The update of a close, of a batch that agrees with its entries.
closes_allowed :
    (now : ℕ) (state : BatchState) (reason : String) (s : State)
    → transition_allowed s.batch.state state ≡ true
    → (is_ready state || is_running state || is_completed state) ≡ false
    → count_if is_reserved s.entries ≡ s.batch.attempts_reserved
    → batch_allowed s.batch (close_as now state reason s) ≡ true
unfolding batch_allowed close_as
closes_allowed now state reason s moves idle counted =
    ground (arith, (opt_eq_iff s.batch.manifest s.batch.manifest).1 refl, moves, idle, counted)

entries_allowed :
    (rows : Rows) (es : List Entry)
    → All (λ e. outcome_allowed e (observe_entry rows e) ≡ true) es
    → outcomes_allowed es (map (observe_entry rows) es) ≡ true
unfolding outcomes_allowed
entries_allowed rows [] h = refl
entries_allowed rows (e ∷ es) (first_kept, rest) =
    rw (first_kept, entries_allowed rows es rest) refl

same_outcome : (o : Option EntryOutcome) → (not (is_final o) || outcome_same o o) ≡ true
same_outcome none = refl
same_outcome (some EntryOutcome.was_published) = refl
same_outcome (some EntryOutcome.was_failed) = refl
same_outcome (some EntryOutcome.was_unknown) = refl

same_allowed : (es : List Entry) → outcomes_allowed es es ≡ true
unfolding outcomes_allowed
same_allowed [] = refl
same_allowed (e ∷ es) = rw (same_outcome e.outcome, same_allowed es) refl

-- The call returned, and the batch is stopped.
abbrev pub Stops : Answer BatchState × State → Type 0
Stops result = ((state : BatchState) × (result.0 ≡ done state)) × IsStopped result.1

module _ (hash : List Identity → ℕ) (now : ℕ) (s : State) where
  -- A look whose close the trigger allows.
  allowed-Stops :
      (look : Look)
      → look_at hash s ≡ look
      → look_allowed look s (act_on now s look) ≡ true
      → IsStopped (act_on now s look)
      → Stops (observe_batch hash now s)
  unfolding observe_batch observe_locked
  allowed-Stops look e allowed stopped = rw (e, allowed) ((_, refl), stopped)

  -- When a running batch is looked at whose recorded outcomes agree with the publications, where they
  -- are final, and the publication of a reserved entry has an unknown outcome or has failed, then the
  -- look succeeds and closes it, with the trigger's leave: nothing is admitted, the control is
  -- paused, and no permit of an entry that is not reserved can be used.
  pub observe_batch-IsStopped :
      Sound hash s
      → is_running s.batch.state ≡ true
      → All (λ e. outcome_allowed e (observe_entry s.rows e) ≡ true) s.entries
      → (some_outcome EntryOutcome.was_unknown s || some_outcome EntryOutcome.was_failed s) ≡ true
      → Stops (observe_batch hash now s)
  unfolding look_allowed close_as
  observe_batch-IsStopped sound runs kept h =
      let (pauses, fails) = running_closes s.batch.state runs in
      let held = entries_allowed s.rows s.entries kept in
      let counted = observe_entry-reserved s.rows s.entries ∙ sound.counted in
      elim (Bool-cases (has_drifted hash s)) [
        | inl yes_drift ↦
            allowed-Stops drifted (rw yes_drift refl)
              (rw (same_allowed s.entries) (
                closes_allowed now BatchState.failed "BOUNDED_BATCH_LEDGER_DRIFT" s fails refl
                  sound.counted))
              (close_as-IsStopped now BatchState.failed "BOUNDED_BATCH_LEDGER_DRIFT" s refl)
        | inr no_drift ↦ elim (Bool-cases (some_outcome EntryOutcome.was_unknown s)) [
          | inl hit ↦
              allowed-Stops unknown_seen (rw (no_drift, hit) refl)
                (rw held (
                  closes_allowed now BatchState.paused "PUBLISH_UNKNOWN_CIRCUIT_BREAKER" (seen s)
                    pauses refl counted))
                (seen_close-IsStopped now BatchState.paused "PUBLISH_UNKNOWN_CIRCUIT_BREAKER" s
                  refl)
          | inr known ↦ elim (Bool-cases (some_outcome EntryOutcome.was_failed s)) [
            | inl hit ↦
                allowed-Stops failure_seen (rw (no_drift, known, hit) refl)
                  (rw held (
                    closes_allowed now BatchState.failed "BOUNDED_BATCH_ATTEMPT_FAILED" (seen s)
                      fails refl counted))
                  (seen_close-IsStopped now BatchState.failed "BOUNDED_BATCH_ATTEMPT_FAILED" s refl)
            | inr well ↦ absurd (cc (rw (known, well) at h))
          ]
        ]
      ]
