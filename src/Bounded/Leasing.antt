-- ===== src/Bounded/Leasing.antt =====
-- Whom a lease shuts out.
use sm_poster.Prelude.{
  ℕ, ◌+◌, ◌<◌, ◌≡◌, sym, ap, subst, true, false, not, ◌&&◌, ◌||◌, List, arith, any, leb,
}
use sm_poster.Permits.{Permit}
use sm_poster.Routine.Control.{Control}
use sm_poster.Bounded.{
  Answer, BatchSettings, Identity, Rows, State, done, is_ready, is_running, is_terminal,
  require_gate,
}
use sm_poster.Bounded.Manifest.{observe_locked, unsettled}
use sm_poster.Bounded.Checks.{acquired_state, gated, is_held}
use sm_poster.Bounded.Service.{acquire_batch}
use sm_poster.Bounded.Admitting.{gate_passed, passed}

module _ (hash : List Identity → ℕ) where
  -- What an acquisition rests on and writes.
  record Acquires (settings : BatchSettings) (lease_seconds owner now : ℕ) (s next : State)
      : Type 0 where
    free : is_held now s.batch ≡ false
    writes : next ≡ acquired_state owner (now + lease_seconds) (observe_locked hash now s)

  -- A guard that closes the batch has not fired.
  acquire_batch-Acquires :
      (settings : BatchSettings) (lease_seconds owner now : ℕ) (s next : State) (got : ℕ)
      → acquire_batch hash settings lease_seconds owner now s ≡ (done got, next)
      → Acquires settings lease_seconds owner now s next
  unfolding acquire_batch gated
  acquire_batch-Acquires settings lease_seconds owner now s next got h =
      let looked = observe_locked hash now s in
      let (gate, h1) = gate_passed (require_gate settings) s _ got next h in
      let (fine, h2) =
        passed (not (leb 1 lease_seconds && leb lease_seconds 900)) _ s _ got next h1 in
      let (going, h3) =
        passed (is_terminal looked.batch.state || s.batch.admission_closed) _ looked _ got next
          h2 in
      let (armed, h4) =
        passed (not (is_ready s.batch.state || is_running s.batch.state)) _ s _ got next h3 in
      let (free, h5) = passed (is_held now s.batch) _ s _ got next h4 in
      let (settled, h6) = passed (any unsettled looked.entries) _ _ _ got next h5 in
      record { free = free; writes = sym (ap (λ (o : Answer ℕ × State). o.1) h6) }

  held_until :
      (owner until now : ℕ) (s : State)
      → now < until
      → is_held now (acquired_state owner until s).batch ≡ true
  held_until owner until now s h = ground arith

  -- While the lease of an acquisition runs, no other acquisition succeeds, whatever other services
  -- have committed to the control, the permits and the other tables.
  pub acquire_batch_excludes :
      (settings settings' : BatchSettings)
      (lease_seconds lease_seconds' owner owner' now now' got : ℕ) (s next last : State)
      (control : Control) (permits : List Permit) (rows : Rows)
      → acquire_batch hash settings lease_seconds owner now s ≡ (done owner, next)
      → now' < now + lease_seconds
      → ¬ acquire_batch hash settings' lease_seconds' owner' now'
          (record next { control = control; permits = permits; rows = rows })
        ≡ (done got, last)
  acquire_batch_excludes settings settings' lease_seconds lease_seconds' owner owner' now now' got s
        next last control permits rows h early again =
      let first_one = acquire_batch-Acquires settings lease_seconds owner now s next owner h in
      let changed : State = record next { control = control; permits = permits; rows = rows } in
      let second =
        acquire_batch-Acquires settings' lease_seconds' owner' now' changed last got again in
      let holds : is_held now' next.batch ≡ true =
        subst (λ (t : State). is_held now' t.batch ≡ true) (sym first_one.writes)
          (held_until owner (now + lease_seconds) now' (observe_locked hash now s) early) in
      cc (holds, second.free)
