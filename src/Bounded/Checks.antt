-- ===== src/Bounded/Checks.antt =====
-- The tests that the operations of a batch make, and what they write.
use sm_poster.Prelude.{
  ℕ, ◌+◌, Bool, true, false, not, ◌&&◌, ◌||◌, Option, none, some, List, [], ◌∷◌, ◌==◌, opt_eq, keep,
  is_some, leb, map, if◌then◌else◌,
}
use sm_poster.Domain.{Publication, PublicationStatus, status_eq}
use sm_poster.Domain.Time.{Datetime, utc_instant}
use sm_poster.Permits.{Permit, PermitStatus, active_for}
use sm_poster.Routine.Control.{Control, ControlState}
use sm_poster.Scheduler.{Env}
use sm_poster.Bounded.{
  Answer, Batch, BatchError, BatchSettings, BatchState, Entry, State, batch_not_found, close_as,
  control_required, done, exact_permit_required, identity_mismatch, is_reserved, raised,
  require_gate, unattempted_publication_required, unreserved_status_drift,
}
use sm_poster.Bounded.Manifest.{validate_identity}

-- `_lock`: the two rows, or the error that their absence raises.
abbrev pub lock : Option Control → Option Batch → (Control → Batch → State) → Answer State
lock none batch state = raised control_required
lock (some control) none state = raised batch_not_found
lock (some control) (some batch) state = done (state control batch)

-- The row that `create_batch` inserts, unless there is one.
abbrev pub new_batch : Batch
new_batch = record {
  attempts_reserved = 0;
  state = BatchState.opened;
  admission_closed = true;
  manifest = none;
  owner = none;
  lease_until = none;
  reason = none;
}

unfoldable pub create_batch : BatchSettings → Option Batch → Answer Batch
create_batch settings existing = elim (require_gate settings) [
  | some e ↦ raised e
  | none ↦ elim existing [ some batch ↦ done batch | none ↦ done new_batch ]
]

abbrev pub on_gate : {A : Type 0} → Option BatchError → State → Answer A × State → Answer A × State
on_gate none s act = act
on_gate (some e) s act = (raised e, s)

unfoldable pub gated : {A : Type 0} → BatchSettings → State → Answer A × State → Answer A × State
gated settings s act = on_gate (require_gate settings) s act

abbrev pub is_live_control : Control → Bool
is_live_control c = elim c.state [
  | ControlState.live ↦ true
  | ControlState.paused ↦ false
  | ControlState.dry_run ↦ false
]

abbrev pub lease_lapsed : ℕ → Option ℕ → Bool
lease_lapsed now none = true
lease_lapsed now (some t) = leb t now

-- `batch["owner"] != owner or not batch["lease_until"] or batch["lease_until"] <= now`
abbrev pub lost_by : ℕ → ℕ → Batch → Bool
lost_by now owner b = not (opt_eq b.owner (some owner)) || lease_lapsed now b.lease_until

-- The other session's lease: `batch["owner"] and batch["lease_until"] and batch["lease_until"] > now`
abbrev pub is_held : ℕ → Batch → Bool
is_held now b = is_some b.owner && not (lease_lapsed now b.lease_until)

-- `[r["slot"] for r in rows] == list(range(5))`
abbrev pub slots_from : ℕ → List Entry → Bool
slots_from n [] = n == 5
slots_from n (e ∷ rest) = let later = slots_from (n + 1) rest in (e.identity.slot == n) && later

-- `active != [row["permit_id"]]`, negated.
abbrev is_only : Option ℕ → List Permit → Bool
is_only id (p ∷ []) = opt_eq id (some p.id)
is_only id _ = false

abbrev only_permit : Option ℕ → ℕ → List Permit → Bool
only_permit id publication_id permits = is_only id (keep (active_for publication_id) permits)

-- The first entry that `seal_batch` refuses, and why.
abbrev pub seal_error : Env → State → List Entry → Option BatchError
seal_error env s [] = none
seal_error env s (e ∷ rest) =
    let later = seal_error env s rest in
    elim (validate_identity env s PermitStatus.active e) [
      | none ↦ some identity_mismatch
      | some x ↦
          if not (status_eq x.publication.status PublicationStatus.scheduled)
            || s.rows.has_attempt x.publication.id
          then some unattempted_publication_required
          else if not (only_permit e.identity.permit_id x.publication.id s.permits)
          then some exact_permit_required
          else later
    ]

abbrev pub is_due : ℕ → Option Datetime → Bool
is_due now none = false
is_due now (some t) = leb (utc_instant t) now

-- The entries that may go now, or the error of the first that is not what was sealed.
abbrev pub due_entries : Env → ℕ → State → List Entry → Answer (List Publication)
due_entries env now s [] = done []
due_entries env now s (e ∷ rest) =
    let later = due_entries env now s rest in
    if is_reserved e then later else elim (validate_identity env s PermitStatus.active e) [
      | none ↦ raised identity_mismatch
      | some x ↦
          if not (status_eq x.publication.status PublicationStatus.scheduled)
          then raised unreserved_status_drift
          else elim later [
            | raised e ↦ raised e
            | done found ↦
                done
                  (if is_due now x.publication.scheduled_for then x.publication ∷ found else found)
          ]
    ]

abbrev pub same_slot : Entry → Entry → Bool
same_slot row e = e.identity.slot == row.identity.slot

abbrev pub reserve_row : ℕ → Entry → Entry → Entry
reserve_row now row e = if same_slot row e then record e { reserved_at = some now } else e

-- The writes of `reserve_entry`.
unfoldable pub reserved_state : ℕ → Entry → State → State
reserved_state now row s = record s {
  entries = map (reserve_row now row) s.entries;
  batch = record s.batch {
    attempts_reserved = s.batch.attempts_reserved + 1;
    admission_closed = s.batch.attempts_reserved + 1 == 5;
    lease_until = some (now + 120);
  };
}

abbrev pub names : ℕ → ℕ → Entry → Bool
names publication_id permit_id e =
    opt_eq e.identity.publication_id (some publication_id)
    && opt_eq e.identity.permit_id (some permit_id)

-- `bind_attempt`
abbrev pub bind_row : ℕ → ℕ → Entry → Entry
bind_row publication_id attempt_id e =
    if opt_eq e.identity.publication_id (some publication_id)
      && is_reserved e
      && not (is_some e.attempt_id)
    then record e { attempt_id = some attempt_id }
    else e

unfoldable pub bind_attempt : ℕ → ℕ → State → State
bind_attempt publication_id attempt_id s = record s {
  entries = map (bind_row publication_id attempt_id) s.entries;
}

abbrev pub acquired_state : ℕ → ℕ → State → State
acquired_state owner until s = record s {
  batch = record s.batch {
    state = BatchState.running;
    owner = some owner;
    lease_until = some until;
  };
}

abbrev pub release_owner : ℕ → State → State
release_owner owner s =
    if opt_eq s.batch.owner (some owner)
    then record s { batch = record s.batch { owner = none; lease_until = none } }
    else s

abbrev pub sealed_state : ℕ → State → State
sealed_state manifest s = record s {
  batch = record s.batch {
    state = BatchState.ready;
    manifest = some manifest;
    admission_closed = false;
  };
}

abbrev pub sealing : ℕ → State → Option BatchError → Answer (Unit {0}) × State
sealing manifest s none = (done tt, sealed_state manifest s)
sealing manifest s (some e) = (raised e, s)

abbrev pub listing : ℕ → State → Answer (List Publication) → Answer (List Publication) × State
listing now s (done found) = (done found, s)
listing now s (raised e) =
    (raised e, close_as now BatchState.failed "BOUNDED_BATCH_MANIFEST_IDENTITY_MISMATCH" s)
