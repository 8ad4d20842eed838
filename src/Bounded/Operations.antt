-- ===== src/Bounded/Operations.antt =====
-- What looking, closing, listing, acquiring and settling keep.
use sm_poster.Prelude.{
  ℕ, String, ◌+◌, ◌≡◌, refl, ap, inl, inr, Bool, true, false, not, ◌&&◌, ◌||◌, Option, none, some,
  List, arith, Bool-cases, any, leb, opt_eq,
}
use sm_poster.Domain.{Publication}
use sm_poster.Scheduler.{Env}
use sm_poster.Bounded.{
  Answer, BatchError, BatchSettings, BatchState, Identity, State, close_as, close_batch,
  is_terminal, raised, require_gate, done,
}
use sm_poster.Bounded.Manifest.{observe_locked, seen, unsettled}
use sm_poster.Bounded.Checks.{
  acquired_state, listing, release_owner, due_entries, gated, is_held, is_live_control, lost_by,
  on_gate,
}
use sm_poster.Bounded.Service.{acquire_batch, manifest_candidates, settle_tick}
use sm_poster.Bounded.Keeping.{Keeps, close_as-Keeps, is_admitting, same-Keeps, then-Keeps}
use sm_poster.Bounded.Observing.{observe_locked-Keeps, observe_locked-open}

module _ (hash : List Identity → ℕ) where
  on_gate-Keeps :
      {A : Type 0} (gate : Option BatchError) (s : State) (act : Answer A × State)
      → Keeps hash s act.1
      → Keeps hash s (on_gate gate s act).1
  on_gate-Keeps none s act keeps = keeps
  on_gate-Keeps (some e) s act keeps = same-Keeps hash s

  pub gated-Keeps :
      {A : Type 0} (settings : BatchSettings) (s : State) (act : Answer A × State)
      → Keeps hash s act.1
      → Keeps hash s (gated settings s act).1
  unfolding gated
  gated-Keeps settings s act keeps = on_gate-Keeps (require_gate settings) s act keeps

  pub close_batch-Keeps :
      (now : ℕ) (reason : String) (s : State) → Keeps hash s (close_batch now reason s)
  unfolding close_batch
  close_batch-Keeps now reason s = elim (Bool-cases (is_terminal s.batch.state)) [
    | inl shut ↦ rw shut (same-Keeps hash s)
    | inr free ↦ rw free (close_as-Keeps hash now BatchState.paused reason s refl)
  ]

  pub seen_close-Keeps :
      (now : ℕ) (state : BatchState) (reason : String) (s : State)
      → is_terminal state ≡ true
      → Keeps hash s (close_as now state reason (observe_locked hash now s))
  seen_close-Keeps now state reason s t =
      then-Keeps hash s (observe_locked hash now s)
        (close_as now state reason (observe_locked hash now s)) (observe_locked-Keeps hash now s)
        (close_as-Keeps hash now state reason (observe_locked hash now s) t)

  listing-Keeps :
      (now : ℕ) (s : State) (found : Answer (List Publication))
      → Keeps hash s (listing now (observe_locked hash now s) found).1
  listing-Keeps now s (done found) = observe_locked-Keeps hash now s
  listing-Keeps now s (raised e) = seen_close-Keeps now BatchState.failed _ s refl

  pub manifest_candidates-Keeps :
      (env : Env) (settings : BatchSettings) (owner now : ℕ) (s : State)
      → Keeps hash s (manifest_candidates hash env settings owner now s).1
  unfolding manifest_candidates
  manifest_candidates-Keeps env settings owner now s =
      let looked = observe_locked hash now s in
      gated-Keeps settings s _ (elim (Bool-cases (is_terminal looked.batch.state)) [
        | inl ended ↦ rw ended (observe_locked-Keeps hash now s)
        | inr going ↦ rw going (elim (Bool-cases (lost_by now owner s.batch)) [
          | inl lost ↦ rw lost (seen_close-Keeps now BatchState.paused _ s refl)
          | inr mine ↦ rw mine (listing-Keeps now s (due_entries env now looked looked.entries))
        ])
      ])

  release_owner-Keeps : (owner : ℕ) (s : State) → Keeps hash s (release_owner owner s)
  release_owner-Keeps owner s sound = elim (Bool-cases (opt_eq s.batch.owner (some owner))) [
    | inl mine ↦ rw mine (
        let kept = same-Keeps hash s sound in
        record {
          sound = record {
            counted = sound.counted;
            bounded = sound.bounded;
            exhausted = sound.exhausted;
            shut = sound.shut;
            unstarted = sound.unstarted;
            sealed = sound.sealed;
            keys = sound.keys;
          };
          same = refl;
          more = kept.more;
          final = kept.final;
        })
    | inr other ↦ rw other (same-Keeps hash s sound)
  ]

  pub settle_tick-Keeps :
      (owner : ℕ) (went_well : Bool) (now : ℕ) (s : State)
      → Keeps hash s (settle_tick hash owner went_well now s).1
  unfolding settle_tick
  settle_tick-Keeps owner went_well now s =
      let looked = observe_locked hash now s in
      let bad =
        not went_well || not (is_live_control looked.control) || any unsettled looked.entries in
      elim (Bool-cases (is_terminal looked.batch.state)) [
        | inl ended ↦ rw ended (observe_locked-Keeps hash now s)
        | inr going ↦ rw going (elim (Bool-cases bad) [
          | inl wrong ↦ rw wrong (seen_close-Keeps now BatchState.paused _ s refl)
          | inr well ↦ rw well (
              then-Keeps hash s looked (release_owner owner looked)
                (observe_locked-Keeps hash now s) (release_owner-Keeps owner looked))
        ])
      ]

  -- From a state that is not closed, a batch that is ready or running goes on running.
  acquired_state-Keeps :
      (owner until : ℕ) (s : State)
      → is_terminal s.batch.state ≡ false
      → is_admitting s.batch.state ≡ true
      → Keeps hash s (acquired_state owner until s)
  acquired_state-Keeps owner until s live admits sound = record {
    sound = record {
      counted = sound.counted;
      bounded = sound.bounded;
      exhausted = sound.exhausted;
      shut = inl refl;
      unstarted = inl refl;
      sealed = elim sound.sealed [ inl idle ↦ absurd (cc) | inr kept ↦ inr kept ];
      keys = sound.keys;
    };
    same = refl;
    more = omega arith;
    final = inl live;
  }

  pub going_on :
      (now : ℕ) (s : State)
      → is_terminal (observe_locked hash now s).batch.state ≡ false
      → observe_locked hash now s ≡ seen s
  going_on now s live = elim (observe_locked-open hash now s) [
    | inl ended ↦ absurd (cc)
    | inr same ↦ same
  ]

  neither : (a b : Bool) → (a || b) ≡ false → a ≡ false
  neither a b h = ground arith

  acquiring :
      (owner until now : ℕ) (s : State)
      → is_terminal (observe_locked hash now s).batch.state ≡ false
      → is_admitting s.batch.state ≡ true
      → Keeps hash s (acquired_state owner until (observe_locked hash now s))
  acquiring owner until now s live admits =
      let looked = observe_locked hash now s in
      let same : looked.batch ≡ s.batch = ap (λ (t : State). t.batch) (going_on now s live) in
      then-Keeps hash s looked (acquired_state owner until looked) (observe_locked-Keeps hash now s)
        (acquired_state-Keeps owner until looked live (rw same admits))

  pub acquire_batch-Keeps :
      (settings : BatchSettings) (lease_seconds owner now : ℕ) (s : State)
      → Keeps hash s (acquire_batch hash settings lease_seconds owner now s).1
  unfolding acquire_batch
  acquire_batch-Keeps settings lease_seconds owner now s =
      let looked = observe_locked hash now s in
      let shut = is_terminal looked.batch.state || s.batch.admission_closed in
      let admits = is_admitting s.batch.state in
      gated-Keeps settings s _ (elim (Bool-cases (leb 1 lease_seconds && leb lease_seconds 900)) [
        | inr bad ↦ rw bad (same-Keeps hash s)
        | inl fine ↦ rw fine (elim (Bool-cases shut) [
          | inl ended ↦ rw ended (observe_locked-Keeps hash now s)
          | inr going ↦ rw going (elim (Bool-cases admits) [
            | inr idle ↦ rw idle (same-Keeps hash s)
            | inl armed ↦ rw armed (elim (Bool-cases (is_held now s.batch)) [
              | inl held ↦ rw held (same-Keeps hash s)
              | inr free ↦ rw free (elim (Bool-cases (any unsettled looked.entries)) [
                | inl pending ↦ rw pending (seen_close-Keeps now BatchState.paused _ s refl)
                | inr settled ↦
                    rw settled
                      (acquiring owner (now + lease_seconds) now s (neither _ _ going) armed)
              ])
            ])
          ])
        ])
      ])
