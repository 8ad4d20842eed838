-- ===== src/Bounded/Histories.antt =====
-- What every history of a batch keeps: calls of its operations, in any order, and what other services
-- commit between them.
use sm_poster.Prelude.{ℕ, String, Bool, List, [], ◌∷◌, refl, Bool-cases, inl, inr}
use sm_poster.Bounded.Manifest.{look_at, observe_locked}
use sm_poster.Bounded.Trigger.{look_allowed}
use sm_poster.Permits.{Permit}
use sm_poster.Routine.Control.{Control}
use sm_poster.Scheduler.{Env}
use sm_poster.Bounded.{BatchSettings, Identity, Rows, State, close_batch}
use sm_poster.Bounded.Checks.{bind_attempt}
use sm_poster.Bounded.Service.{
  acquire_batch, manifest_candidates, observe_batch, reserve_entry, seal_batch, settle_tick,
}
use sm_poster.Bounded.Keeping.{Keeps, Kept, Sound, same-Keeps, then-Keeps}
use sm_poster.Bounded.Observing.{bind_attempt-Keeps, observe_locked-Keeps}
use sm_poster.Bounded.Operations.{
  acquire_batch-Keeps, close_batch-Keeps, manifest_candidates-Keeps, settle_tick-Keeps,
}
use sm_poster.Bounded.Reserving.{reserve_entry-Keeps, seal_batch-Keeps}

pub data Call : Type 0 where
  sealing : Env → BatchSettings → Call
  observing : ℕ → Call
  acquiring : BatchSettings → (lease_seconds owner now : ℕ) → Call
  listing : Env → BatchSettings → (owner now : ℕ) → Call
  reserving : Env → BatchSettings → (owner publication_id permit_id now : ℕ) → Call
  binding : (publication_id attempt_id : ℕ) → Call
  settling : (owner : ℕ) → Bool → (now : ℕ) → Call
  closing : ℕ → String → Call
  elsewhere : Control → List Permit → Rows → Call

module _ (hash : List Identity → ℕ) where
  abbrev pub perform : Call → State → State
  perform (sealing env settings) s = (seal_batch hash env settings s).1
  perform (observing now) s = (observe_batch hash now s).1
  perform (acquiring settings lease_seconds owner now) s =
      (acquire_batch hash settings lease_seconds owner now s).1
  perform (listing env settings owner now) s = (manifest_candidates hash env settings owner now s).1
  perform (reserving env settings owner publication_id permit_id now) s =
      (reserve_entry hash env settings owner publication_id permit_id now s).1
  perform (binding publication_id attempt_id) s = bind_attempt publication_id attempt_id s
  perform (settling owner went_well now) s = (settle_tick hash owner went_well now s).1
  perform (closing now reason) s = close_batch now reason s
  perform (elsewhere control permits rows) s = record s {
    control = control;
    permits = permits;
    rows = rows;
  }

  unfoldable pub run_calls : List Call → State → State
  run_calls [] s = s
  run_calls (call ∷ calls) s = run_calls calls (perform call s)

  elsewhere-Keeps :
      (control : Control) (permits : List Permit) (rows : Rows) (s : State)
      → Keeps hash s (record s { control = control; permits = permits; rows = rows })
  elsewhere-Keeps control permits rows s sound =
      let kept = same-Keeps hash s sound in
      record { sound = sound; same = refl; more = kept.more; final = kept.final }

  observe_batch-Keeps : (now : ℕ) (s : State) → Keeps hash s (observe_batch hash now s).1
  unfolding observe_batch
  observe_batch-Keeps now s =
      elim (Bool-cases (look_allowed (look_at hash s) s (observe_locked hash now s))) [
        | inl allowed ↦ rw allowed (observe_locked-Keeps hash now s)
        | inr refused ↦ rw refused (same-Keeps hash s)
      ]

  perform-Keeps : (call : Call) (s : State) → Keeps hash s (perform call s)
  perform-Keeps (sealing env settings) s = seal_batch-Keeps hash env settings s
  perform-Keeps (observing now) s = observe_batch-Keeps now s
  perform-Keeps (acquiring settings lease_seconds owner now) s =
      acquire_batch-Keeps hash settings lease_seconds owner now s
  perform-Keeps (listing env settings owner now) s =
      manifest_candidates-Keeps hash env settings owner now s
  perform-Keeps (reserving env settings owner publication_id permit_id now) s =
      reserve_entry-Keeps hash env settings owner publication_id permit_id now s
  perform-Keeps (binding publication_id attempt_id) s =
      bind_attempt-Keeps hash publication_id attempt_id s
  perform-Keeps (settling owner went_well now) s = settle_tick-Keeps hash owner went_well now s
  perform-Keeps (closing now reason) s = close_batch-Keeps hash now reason s
  perform-Keeps (elsewhere control permits rows) s = elsewhere-Keeps control permits rows s

  -- Through every history of a sound batch, with whatever other services do to the control, the
  -- permits and the other tables, it stays sound: as many entries are reserved as attempts are counted,
  -- at most five; admission is closed when five are, and whenever the batch is neither ready nor
  -- running; a ready or running batch has five entries, whose identities are those that its manifest
  -- was sealed with. No entry's identity ever changes, the count never falls, and a batch that was
  -- paused, failed or completed stays one of these.
  pub run_calls-Kept :
      (calls : List Call) (s : State) → Sound hash s → Kept hash s (run_calls calls s)
  unfolding run_calls
  run_calls-Kept [] s sound = same-Keeps hash s sound
  run_calls-Kept (call ∷ calls) s sound =
      then-Keeps hash s (perform call s) (run_calls calls (perform call s)) (perform-Keeps call s)
        (run_calls-Kept calls (perform call s)) sound
