-- ===== src/Bounded.antt =====
-- backend/app/services/routine_bounded_batch.py: batches of five publications that the routine may
-- dispatch, with their manifest, budget and owner (tables of app/db/bounded_batch_schema_0034.py).
pub mod Manifest
pub mod Trigger
pub mod Checks
pub mod Service
pub mod Keeping
pub mod Observing
pub mod Operations
pub mod Reserving
pub mod Histories
pub mod Admitting
pub mod Leasing
pub mod Closing
use sm_poster.Prelude.{
  ℕ, String, Bool, true, false, not, ◌&&◌, ◌||◌, Option, none, some, List, ◌==◌, is_some, opt_eq,
  any, map, str_eq, if◌then◌else◌,
}
use sm_poster.Domain.{Publication, Board, Connection, Creative, Draft}
use sm_poster.Permits.{Permit, PermitStatus, permit_status_eq}
use sm_poster.Routine.Control.{Control, ControlState}

pub data BatchState : Type 0 where
  opened preparing ready running paused failed completed : BatchState

-- `TERMINAL`
abbrev pub is_terminal : BatchState → Bool
is_terminal BatchState.paused = true
is_terminal BatchState.failed = true
is_terminal BatchState.completed = true
is_terminal _ = false

abbrev pub is_preparing : BatchState → Bool
is_preparing BatchState.preparing = true
is_preparing _ = false

abbrev pub is_ready : BatchState → Bool
is_ready BatchState.ready = true
is_ready _ = false

abbrev pub is_running : BatchState → Bool
is_running BatchState.running = true
is_running _ = false

-- `batches`
pub record Batch : Type 0 where
  pub attempts_reserved : ℕ
  pub state : BatchState
  pub admission_closed : Bool
  pub manifest : Option ℕ
  pub owner : Option ℕ
  pub lease_until : Option ℕ
  pub reason : Option String

pub data EntryOutcome : Type 0 where
  was_published was_failed was_unknown : EntryOutcome

-- The columns `IDENTITY`.
pub record Identity : Type 0 where
  pub slot : ℕ
  pub item_id : ℕ
  pub product_id : ℕ
  pub board_id : ℕ
  pub external_board_id : String
  pub item_fingerprint : String
  pub publication_id : Option ℕ
  pub permit_id : Option ℕ
  pub publication_fingerprint : Option String
  pub request_fingerprint : Option ℕ

-- `entries`
pub record Entry : Type 0 where
  pub identity : Identity
  pub reserved_at : Option ℕ
  pub attempt_id : Option ℕ
  pub outcome : Option EntryOutcome

-- Rows of other tables, with the columns that are read of them.
pub record PlanItemRow : Type 0 where
  pub product_id : ℕ
  pub local_board_id : ℕ
  pub content_angle_id : ℕ
  pub item_fingerprint : String
  pub publication_id : Option ℕ

pub record ConceptRow : Type 0 where
  pub product_id : ℕ
  pub board_id : Option ℕ
  pub content_angle_id : ℕ

pub record ApprovalRow : Type 0 where
  pub draft_id : ℕ
  pub creative_id : Option ℕ
  pub decision : String
  pub decided_by : String

-- `db.get` of each table, and whether a publication has an attempt.
pub record Rows : Type 0 where
  pub item : ℕ → Option PlanItemRow
  pub publication : ℕ → Option Publication
  pub board : ℕ → Option Board
  pub connection : ℕ → Option Connection
  pub approval : ℕ → Option ApprovalRow
  pub draft : ℕ → Option Draft
  pub concept : ℕ → Option ConceptRow
  pub creative : ℕ → Option Creative
  pub has_attempt : ℕ → Bool

-- What `_lock` holds, and the tables that go with it. The entries are those of the batch, by slot.
pub record State : Type 0 where
  pub control : Control
  pub batch : Batch
  pub entries : List Entry
  pub permits : List Permit
  pub rows : Rows

pub data BatchError : Type 0 where
  postgres_required disabled recurring_or_legacy_mode_forbidden board_creation_forbidden
        unrelated_write_mode_forbidden limits_must_be_five control_required batch_not_found
        exactly_five_required unattempted_publication_required exact_permit_required
        identity_mismatch closed invalid_lease not_ready lease_held interrupted_attempt lease_lost
        unreserved_status_drift admission_closed attempt_pending manifest_mismatch
        provider_boundary_denied refused_by_trigger :
      BatchError

pub data Answer (A : Type 0) : Type 0 where
  done : A → Answer A
  raised : BatchError → Answer A

pub record BatchSettings : Type 0 where
  pub is_postgresql : Bool
  pub bounded_batch_enabled : Bool
  pub scheduler_enabled : Bool
  pub scheduled_autonomy_enabled : Bool
  pub board_provisioning_enabled : Bool
  pub board_write_scope_enabled : Bool
  pub autonomous_board_ensure_enabled : Bool
  pub write_scope_enabled : Bool
  pub single_pin_pilot_enabled : Bool
  pub buffer_single_pin_pilot_enabled : Bool
  pub batch_size : ℕ
  pub daily_write_limit : ℕ

-- The error that the settings raise, if any.
unfoldable pub require_gate : BatchSettings → Option BatchError
require_gate s =
    if not s.is_postgresql
    then some postgres_required
    else if not s.bounded_batch_enabled
    then some disabled
    else if s.scheduler_enabled || s.scheduled_autonomy_enabled
    then some recurring_or_legacy_mode_forbidden
    else if s.board_provisioning_enabled || s.board_write_scope_enabled
        || s.autonomous_board_ensure_enabled
    then some board_creation_forbidden
    else if s.write_scope_enabled || s.single_pin_pilot_enabled || s.buffer_single_pin_pilot_enabled
    then some unrelated_write_mode_forbidden
    else if not (s.batch_size == 5) || not (s.daily_write_limit == 5)
    then some limits_must_be_five
    else none

abbrev pub autonomous_actor : String
autonomous_actor = "autonomous-policy-v1"

abbrev pub is_reserved : Entry → Bool
is_reserved e = is_some e.reserved_at

-- The permit of an entry that is not reserved, or of the publication of its plan item.
abbrev pub holds_permit : Permit → Entry → Bool
holds_permit p e = not (is_reserved e) && opt_eq e.identity.permit_id (some p.id)

abbrev item_publication : Option PlanItemRow → Option ℕ
item_publication none = none
item_publication (some item) = item.publication_id

abbrev pub is_candidate_of : Rows → Permit → Entry → Bool
is_candidate_of rows p e =
    not (is_reserved e)
    && opt_eq (item_publication (rows.item e.identity.item_id)) (some p.publication_id)

abbrev pub is_unused : State → Permit → Bool
is_unused s p =
    any (holds_permit p) s.entries
    || str_eq p.authorized_by autonomous_actor && any (is_candidate_of s.rows p) s.entries

unfoldable pub revoke_unused : ℕ → String → State → Permit → Permit
revoke_unused now reason s p =
    if is_unused s p && permit_status_eq p.status PermitStatus.active
    then record p {
      status = PermitStatus.revoked;
      revoked_at = some now;
      revoked_by = some "bounded-batch";
      revoke_reason = some reason;
    }
    else p

-- `_close`, where the trigger of the tables lets it through.
unfoldable pub close_as : ℕ → BatchState → String → State → State
close_as now state reason s = record s {
  control = record s.control {
    state = ControlState.paused;
    pause_reason = some reason;
    paused_at = some now;
    paused_by = some "bounded-batch";
  };
  batch = record s.batch {
    state = state;
    admission_closed = true;
    reason = some reason;
    owner = none;
    lease_until = none;
  };
  permits = map (revoke_unused now reason s) s.permits;
}

-- `close_batch`
unfoldable pub close_batch : ℕ → String → State → State
unfolding close_as
close_batch now reason s =
    if is_terminal s.batch.state then s else close_as now BatchState.paused reason s
