-- ===== src/Bounded/Service.antt =====
-- The operations of a batch. Each locks the control row and the batch; one that raises without a
-- commit leaves the state as it was, since its callers roll back. The trigger of the tables guards the
-- writes of `observe_batch`; those of the other operations are taken as they are.
use sm_poster.Prelude.{
  ℕ, ◌+◌, Bool, not, ◌&&◌, ◌||◌, Option, none, some, List, ◌==◌, opt_eq, any, first, length, leb,
  if◌then◌else◌,
}
use sm_poster.Domain.{Publication}
use sm_poster.Permits.{PermitStatus}
use sm_poster.Scheduler.{Env}
use sm_poster.Bounded.{
  Answer, BatchSettings, BatchState, Entry, Identity, State, admission_closed, attempt_pending,
  close_as, closed, done, exactly_five_required, identity_mismatch, interrupted_attempt,
  invalid_lease, is_preparing, is_ready, is_reserved, is_running, is_terminal, lease_held,
  lease_lost, manifest_mismatch, not_ready, provider_boundary_denied, raised, refused_by_trigger,
}
use sm_poster.Bounded.Manifest.{identities, look_at, observe_locked, unsettled, validate_identity}
use sm_poster.Bounded.Trigger.{look_allowed}
use sm_poster.Bounded.Checks.{
  gated, is_live_control, lost_by, is_held, slots_from, seal_error, due_entries, reserved_state,
  names, acquired_state, release_owner, sealing, listing,
}

-- The operations, with the hash of `_hash`.
module _ (hash : List Identity → ℕ) where
  unfoldable pub seal_batch : Env → BatchSettings → State → Answer (Unit {0}) × State
  unfolding gated
  seal_batch env settings s =
      let manifest = hash (identities s.entries) in
      gated settings s (
        if is_ready s.batch.state && opt_eq s.batch.manifest (some manifest)
        then (done tt, s)
        else if not (is_preparing s.batch.state)
            || not (length s.entries == 5)
            || not (slots_from 0 s.entries)
        then (raised exactly_five_required, s)
        else sealing manifest s (seal_error env s s.entries))

  -- A write that the trigger refuses raises.
  unfoldable pub observe_batch : ℕ → State → Answer BatchState × State
  unfolding observe_locked look_allowed
  observe_batch now s =
      let seen = observe_locked hash now s in
      if look_allowed (look_at hash s) s seen
      then (done seen.batch.state, seen)
      else (raised refused_by_trigger, s)

  -- `owner` is the new id.
  unfoldable pub acquire_batch : BatchSettings → ℕ → ℕ → ℕ → State → Answer ℕ × State
  unfolding observe_locked close_as gated
  acquire_batch settings lease_seconds owner now s =
      let seen = observe_locked hash now s in
      gated settings s (
        if not (leb 1 lease_seconds && leb lease_seconds 900)
        then (raised invalid_lease, s)
        else if is_terminal seen.batch.state || s.batch.admission_closed
        then (raised closed, seen)
        else if not (is_ready s.batch.state || is_running s.batch.state)
        then (raised not_ready, s)
        else if is_held now s.batch
        then (raised lease_held, s)
        else if any unsettled seen.entries
        then (
          raised interrupted_attempt,
          close_as now BatchState.paused "BOUNDED_BATCH_INTERRUPTED_ATTEMPT" seen,
        )
        else (done owner, acquired_state owner (now + lease_seconds) seen))

  unfoldable pub manifest_candidates :
      Env → BatchSettings → ℕ → ℕ → State → Answer (List Publication) × State
  unfolding observe_locked close_as gated
  manifest_candidates env settings owner now s =
      let seen = observe_locked hash now s in
      gated settings s (
        if is_terminal seen.batch.state
        then (raised closed, seen)
        else if lost_by now owner s.batch
        then (raised lease_lost, close_as now BatchState.paused "BOUNDED_BATCH_LEASE_LOST" seen)
        else listing now seen (due_entries env now seen seen.entries))

  -- The end of a reservation, for the entry that was found.
  unfoldable pub reserve_found : Env → ℕ → Option Entry → State → Answer (Unit {0}) × State
  unfolding reserved_state close_as
  reserve_found env now none s =
      (raised manifest_mismatch, close_as now BatchState.failed "BOUNDED_BATCH_MANIFEST_MISMATCH" s)
  reserve_found env now (some row) s =
      if is_reserved row
      then (
        raised manifest_mismatch,
        close_as now BatchState.failed "BOUNDED_BATCH_MANIFEST_MISMATCH" s,
      )
      else elim (validate_identity env s PermitStatus.active row) [
        | none ↦ (
          raised identity_mismatch,
          close_as now BatchState.failed "BOUNDED_BATCH_MANIFEST_IDENTITY_MISMATCH" s,
        )
        | some x ↦ (done tt, reserved_state now row s)
      ]

  unfoldable pub reserve_entry :
      Env → BatchSettings → ℕ → ℕ → ℕ → ℕ → State → Answer (Unit {0}) × State
  unfolding observe_locked reserve_found close_as gated
  reserve_entry env settings owner publication_id permit_id now s =
      let seen = observe_locked hash now s in
      gated settings s (
        if is_terminal seen.batch.state
        then (raised closed, seen)
        else if not (is_running s.batch.state)
            || s.batch.admission_closed
            || leb 5 s.batch.attempts_reserved
            || not (is_live_control s.control)
        then (raised admission_closed, s)
        else if lost_by now owner s.batch
        then (raised lease_lost, close_as now BatchState.paused "BOUNDED_BATCH_LEASE_LOST" seen)
        else if any unsettled seen.entries
        then (raised attempt_pending, s)
        else reserve_found env now (first (names publication_id permit_id) seen.entries) seen)

  -- `run_bounded_batch_once` after the worker has answered; `went_well` is whether it has reported
  -- `SUCCEEDED` in `LIVE`.
  unfoldable pub settle_tick : ℕ → Bool → ℕ → State → Answer BatchState × State
  unfolding observe_locked close_as
  settle_tick owner went_well now s =
      let seen = observe_locked hash now s in
      if is_terminal seen.batch.state
      then (done seen.batch.state, seen)
      else if not went_well || not (is_live_control seen.control) || any unsettled seen.entries
      then (done BatchState.paused, close_as now BatchState.paused "BOUNDED_BATCH_INCOMPLETE" seen)
      else (done seen.batch.state, release_owner owner seen)

-- `check_provider_boundary`
unfoldable pub check_provider_boundary : Env → ℕ → ℕ → ℕ → ℕ → State → Answer (Unit {0})
check_provider_boundary env owner publication_id attempt_id now s =
    elim (first
      (λ e.
        opt_eq e.identity.publication_id (some publication_id)
        && opt_eq e.attempt_id (some attempt_id)
        && is_reserved e)
      s.entries) [
        | none ↦ raised provider_boundary_denied
        | some e ↦
            if not (is_running s.batch.state)
              || lost_by now owner s.batch
              || not (is_live_control s.control)
            then raised provider_boundary_denied
            else elim (validate_identity env s PermitStatus.consumed e) [
              | none ↦ raised identity_mismatch
              | some x ↦ done tt
            ]
      ]
