-- ===== src/Permits.antt =====
-- backend/app/services/routine_dispatch_authorization.py: the permits under which the routine worker
-- dispatches through Buffer.
pub mod Holding
pub mod Validity
use sm_poster.Prelude.{
  ℕ, ◌+◌, max, String, Bool, true, false, not, ◌&&◌, ◌||◌, Option, none, some, List, [], ◌∷◌, ◌++◌,
  map, any, ◌==◌, leb, ltb, if◌then◌else◌, truthy, count_if, char_count, text_take, str_eq, text_eq,
  opt_eq,
}
use sm_poster.Domain.{Publication, PublicationStatus, status_eq}
use sm_poster.Domain.Time.{Datetime, aware, utc, utc_instant}
use sm_poster.CanaryMedia.{MediaStore, publication_has_pending_local_canary_media}
use sm_poster.Duplicates.{Evaluation, DuplicateStatus}
use sm_poster.Scheduler.{Env, request_fingerprint}
use sm_poster.Authorization.Readiness.{Manual, ManualStatus, manual_structural_readiness}
use sm_poster.Authorization.Store.{
  Quality, QualityStatus, Services, quality_v1, quality_passes, duplicate_of, duplicate_safe,
}
use sm_poster.Authorization.Validity.{same_quality, same_evaluation}

pub data PermitStatus : Type 0 where
  active consumed revoked expired : PermitStatus

abbrev pub permit_rank : PermitStatus → ℕ
permit_rank PermitStatus.active = 0
permit_rank PermitStatus.consumed = 1
permit_rank PermitStatus.revoked = 2
permit_rank PermitStatus.expired = 3

abbrev pub permit_status_eq : PermitStatus → PermitStatus → Bool
permit_status_eq a b = permit_rank a == permit_rank b

-- Times are instants.
pub record Permit : Type 0 where
  pub id : ℕ
  pub publication_id : ℕ
  pub dispatch_provider : String
  pub approval_id : Option ℕ
  pub pinterest_board_record_id : Option ℕ
  pub publication_fingerprint : String
  pub request_fingerprint : ℕ
  pub scheduled_for_snapshot : ℕ
  pub quality_policy_version : String
  pub quality_snapshot : Quality
  pub duplicate_snapshot : Evaluation
  pub readiness_snapshot : Manual
  pub authorized_by : String
  pub authorized_at : ℕ
  pub expires_at : ℕ
  pub status : PermitStatus
  pub revoked_at : Option ℕ
  pub revoked_by : Option String
  pub revoke_reason : Option String

pub data PermitError : Type 0 where
  actor_required publication_not_scheduled local_canary_media_pending active_permit_exists
        quality_warning quality_failed permit_not_active invalid_revoke_reason :
      PermitError
  duplicate : DuplicateStatus → PermitError
  not_ready : ManualStatus → PermitError

pub data PermitResult : Type 0 where
  ok : Permit → PermitResult
  raised : PermitError → PermitResult

-- The rows that are committed, and those of the session.
pub record PermitRows : Type 0 where
  pub durable : List Permit
  pub working : List Permit

-- What the service calls, in the database as it is.
pub record PermitServices : Type 0 where
  pub base : Services
  pub env : Env
  pub media : MediaStore

-- `timedelta(hours=24)` and `timedelta(hours=2)`, in seconds.
abbrev pub permit_ttl : ℕ
permit_ttl = 86400

abbrev pub schedule_margin : ℕ
schedule_margin = 7200

abbrev pub active_for : ℕ → Permit → Bool
active_for publication_id p =
    permit_status_eq p.status PermitStatus.active && (p.publication_id == publication_id)

abbrev later_of : Permit → Option Permit → Option Permit
later_of p none = some p
later_of p (some q) = if ltb p.authorized_at q.authorized_at then some q else some p

-- The active permit with the latest `authorized_at`.
unfoldable pub active_permit : ℕ → List Permit → Option Permit
active_permit publication_id [] = none
active_permit publication_id (p ∷ rows) =
    let rest = active_permit publication_id rows in
    if active_for publication_id p then later_of p rest else rest

abbrev pub expire_permit : ℕ → ℕ → Permit → Permit
expire_permit publication_id now p =
    if active_for publication_id p && leb p.expires_at now
    then record p { status = PermitStatus.expired }
    else p

unfoldable pub expire_stale_permits : ℕ → ℕ → List Permit → List Permit
expire_stale_permits publication_id now = map (expire_permit publication_id now)

-- `uq_routine_dispatch_permit_active`, for the rows of one publication.
abbrev pub permit_index_holds : ℕ → List Permit → Bool
permit_index_holds publication_id rows = leb (count_if (active_for publication_id) rows) 1

-- The third of `_snapshots`.
abbrev pub readiness_of : PermitServices → Publication → ℕ → PublicationStatus → Bool → Manual
readiness_of s p now expected require_due =
    manual_structural_readiness s.base.urls s.base.db p (aware now utc) expected require_due
      "buffer"

abbrev pub quality_of : PermitServices → Publication → Quality
quality_of s p = s.base.quality p "buffer"

abbrev pub has_pending_media : PermitServices → Publication → Bool
has_pending_media s p = publication_has_pending_local_canary_media s.media s.base.db p

unfoldable pub new_permit : PermitServices → ℕ → Publication → Datetime → String → ℕ → Permit
new_permit s id p scheduled_for actor now = record {
  id = id;
  publication_id = p.id;
  dispatch_provider = "buffer";
  approval_id = p.approval_id;
  pinterest_board_record_id = p.pinterest_board_record_id;
  publication_fingerprint = p.publication_fingerprint;
  request_fingerprint = request_fingerprint s.env p;
  scheduled_for_snapshot = utc_instant scheduled_for;
  quality_policy_version = quality_v1;
  quality_snapshot = quality_of s p;
  duplicate_snapshot = duplicate_of s.base p;
  readiness_snapshot = readiness_of s p now PublicationStatus.scheduled false;
  authorized_by = text_take 255 actor;
  authorized_at = now;
  expires_at = max (now + permit_ttl) (utc_instant scheduled_for + schedule_margin);
  status = PermitStatus.active;
  revoked_at = none;
  revoked_by = none;
  revoke_reason = none;
}

-- The insert with its commit, or with its flush where the caller commits. `meanwhile` are rows that
-- other sessions have committed since the check.
unfoldable pub insert_permit : Bool → Permit → List Permit → PermitRows → PermitResult × PermitRows
insert_permit commit p meanwhile rows =
    let after = (rows.working ++ meanwhile) ++ p ∷ [] in
    let before = rows.durable ++ meanwhile in
    if permit_index_holds p.publication_id after
    then (ok p, record { durable = if commit then after else before; working = after })
    else (raised active_permit_exists, record { durable = before; working = before })

abbrev quality_error : Quality → PermitError
quality_error q = elim q.status [
  | QualityStatus.pass ↦ quality_failed
  | QualityStatus.warning ↦ quality_warning
  | QualityStatus.fail ↦ quality_failed
]

-- From the look at the scheduled time on.
unfoldable pub create_scheduled :
    PermitServices
    → ℕ
    → Publication
    → Datetime
    → String
    → ℕ
    → Bool
    → List Permit
    → PermitRows
    → PermitResult × PermitRows
unfolding expire_stale_permits insert_permit new_permit
create_scheduled s id p scheduled_for actor now commit meanwhile rows =
    let swept = record rows { working = expire_stale_permits p.id now rows.working } in
    let readiness = readiness_of s p now PublicationStatus.scheduled false in
    let inserted =
      insert_permit commit (new_permit s id p scheduled_for actor now) meanwhile swept in
    if has_pending_media s p
    then (raised local_canary_media_pending, rows)
    else if any (active_for p.id) swept.working
    then (raised active_permit_exists, swept)
    else if not (quality_passes (quality_of s p))
    then (raised (quality_error (quality_of s p)), swept)
    else if not (duplicate_safe (duplicate_of s.base p))
    then (raised (duplicate (duplicate_of s.base p).status), swept)
    else if not readiness.ready
    then (raised (not_ready readiness.status), swept)
    else inserted

abbrev pub with_schedule :
    PermitServices
    → ℕ
    → Publication
    → Option Datetime
    → String
    → ℕ
    → Bool
    → List Permit
    → PermitRows
    → PermitResult × PermitRows
with_schedule s id p none actor now commit meanwhile rows = (raised publication_not_scheduled, rows)
with_schedule s id p (some t) actor now commit meanwhile rows =
    create_scheduled s id p t actor now commit meanwhile rows

unfoldable pub create_permit :
    PermitServices
    → ℕ
    → Publication
    → String
    → ℕ
    → Bool
    → List Permit
    → PermitRows
    → PermitResult × PermitRows
unfolding create_scheduled
create_permit s id p actor now commit meanwhile rows =
    let created = with_schedule s id p p.scheduled_for actor now commit meanwhile rows in
    if not (truthy actor)
    then (raised actor_required, rows)
    else if not (status_eq p.status PublicationStatus.scheduled)
    then (raised publication_not_scheduled, rows)
    else created

abbrev pub revoke_permit_row : ℕ → String → String → Permit → Permit
revoke_permit_row now actor reason p = record p {
  status = PermitStatus.revoked;
  revoked_at = some now;
  revoked_by = some (text_take 255 actor);
  revoke_reason = some reason;
}

abbrev pub is_row : ℕ → Permit → Bool
is_row id p = (p.id == id) && permit_status_eq p.status PermitStatus.active

-- `update(...).where(id == permit.id, status == "ACTIVE")`
unfoldable pub update_active : ℕ → (Permit → Permit) → List Permit → List Permit
update_active id f = map (λ p. if is_row id p then f p else p)

-- `permit` is the row as the caller holds it; the result is the row as it is refreshed.
unfoldable pub revoke_permit : Permit → String → String → ℕ → PermitRows → PermitResult × PermitRows
unfolding update_active
revoke_permit permit actor reason now rows =
    let after = update_active permit.id (revoke_permit_row now actor reason) rows.working in
    if not (truthy actor)
    then (raised actor_required, rows)
    else if not (permit_status_eq permit.status PermitStatus.active)
    then (raised permit_not_active, rows)
    else if not (truthy reason) || ltb 255 (char_count reason)
    then (raised invalid_revoke_reason, rows)
    else if not (count_if (is_row permit.id) rows.working == 1)
    then (raised permit_not_active, record rows { working = rows.durable })
    else (
      ok (revoke_permit_row now actor reason permit),
      record { durable = after; working = after },
    )

pub data PermitValidity : Type 0 where
  valid media_pending permit_required mismatch permit_expired schedule_drift policy_drift
        snapshot_drift :
      PermitValidity
  has_status : PermitStatus → PermitValidity
  unready : ManualStatus → PermitValidity

abbrev pub same_schedule : ℕ → Option Datetime → Bool
same_schedule snapshot none = false
same_schedule snapshot (some t) = snapshot == utc_instant t

unfoldable pub validate_held :
    PermitServices
    → Publication
    → Permit
    → ℕ
    → PublicationStatus
    → Bool
    → PermitStatus
    → PermitValidity
validate_held s p permit now expected require_due allowed =
    let readiness = readiness_of s p now expected require_due in
    if not (permit_status_eq permit.status allowed)
    then has_status permit.status
    else if not (permit.publication_id == p.id) || not (str_eq permit.dispatch_provider "buffer")
    then mismatch
    else if leb permit.expires_at now
    then permit_expired
    else if not (str_eq permit.publication_fingerprint p.publication_fingerprint)
    then mismatch
    else if not (opt_eq permit.approval_id p.approval_id)
        || not (opt_eq permit.pinterest_board_record_id p.pinterest_board_record_id)
    then mismatch
    else if not (permit.request_fingerprint == request_fingerprint s.env p)
    then mismatch
    else if not (same_schedule permit.scheduled_for_snapshot p.scheduled_for)
    then schedule_drift
    else if not (str_eq permit.quality_policy_version quality_v1)
    then policy_drift
    else if not (same_quality (quality_of s p) permit.quality_snapshot)
        || not (same_evaluation (duplicate_of s.base p) permit.duplicate_snapshot)
    then snapshot_drift
    else if not readiness.ready
    then unready readiness.status
    else if not (text_eq permit.readiness_snapshot.dispatch_provider readiness.dispatch_provider)
    then snapshot_drift
    else valid

-- `validate_permit`; no permit is `none`.
unfoldable pub validate_permit :
    PermitServices
    → Publication
    → Option Permit
    → ℕ
    → PublicationStatus
    → Bool
    → PermitStatus
    → PermitValidity
unfolding validate_held
validate_permit s p none now expected require_due allowed =
    if has_pending_media s p then media_pending else permit_required
validate_permit s p (some permit) now expected require_due allowed =
    if has_pending_media s p
    then media_pending
    else validate_held s p permit now expected require_due allowed
