-- ===== src/Publisher/Readiness.antt =====
-- The readiness gates of pinterest_publisher.py, in the order of their checks.
pub mod Gates
use sm_poster.Prelude.{
  ℕ, String, Bool, true, false, not, ◌&&◌, ◌||◌, Option, none, some, List, [], ◌∷◌, ◌==◌, str_eq,
  if◌then◌else◌, opt_eq, is_some, truthy, truthy?, text_eq, text_in, any,
}
use sm_poster.Prelude.Table.{get, get_opt}
use sm_poster.Domain.{
  Db, Publication, PublicationStatus, scheduled, publishing, status_eq, Attempt, is_started,
  Connection, Board, Approval, Creative,
}
use sm_poster.Domain.Time.{Datetime, is_after, normalize_persisted_utc}
use sm_poster.Scheduler.{Env, request_fingerprint}
use sm_poster.Publisher.Media.{UrlLibrary, media_publishable}

pub data Reason : Type 0 where
  invalid_publication_state incomplete_snapshot publishing_disabled publishing_scope_required
        invalid_destination destination_mismatch invalid_approval invalid_creative
        media_not_publishable not_due attempt_mismatch :
      Reason

-- `True, None` and `False, reason`.
pub data Readiness : Type 0 where
  ready : Readiness
  not_ready : Reason → Readiness

-- A row of checks: the first one that fails gives the reason.
infixr 10 ◌or_not◌
abbrev pub ◌or_not◌ : Bool × Reason → Readiness → Readiness
check or_not rest = if check.0 then not_ready check.1 else rest

unfoldable pub snapshot_complete : Publication → Bool
snapshot_complete p =
    truthy p.publication_fingerprint
    && is_some p.pinterest_connection_id
    && is_some p.pinterest_board_record_id
    && truthy? p.pinterest_board_id_snapshot
    && truthy? p.title_snapshot
    && truthy? p.description_snapshot
    && truthy? p.destination_url
    && truthy? p.utm_url
    && truthy? p.media_url_snapshot

abbrev pub connection_writable : Option Connection → Bool
connection_writable none = false
connection_writable (some c) = str_eq c.status "CONNECTED" && text_in "pins:write" c.granted_scopes

abbrev pub board_usable : Option Connection → Option Board → Bool
board_usable (some c) (some b) = (b.connection_id == c.id) && b.is_active && b.is_eligible
board_usable _ _ = false

abbrev pub board_matches : Publication → Option Board → Bool
board_matches p none = false
board_matches p (some b) = text_eq (some b.external_board_id) p.pinterest_board_id_snapshot

abbrev pub approval_valid : Publication → Option Approval → Bool
approval_valid p none = false
approval_valid p (some a) =
    str_eq a.decision "APPROVED"
    && (a.draft_id == p.draft_id)
    && opt_eq a.revision_id p.revision_id
    && opt_eq a.creative_id (some p.creative_id)

abbrev pub creative_valid : Publication → Option Creative → Bool
creative_valid p none = false
creative_valid p (some c) =
    (c.draft_id == p.draft_id) && opt_eq (some c.source_image_id) p.source_image_id

abbrev pub is_active_state : PublicationStatus → Bool
is_active_state s = any (status_eq s) (scheduled ∷ publishing ∷ [])

-- `settings.publishing_enabled`, and what is outside the repository.
pub record Gate : Type 0 where
  pub publishing_enabled : Bool
  pub urls : UrlLibrary
  pub env : Env

unfoldable pub publishing_ready : Gate → Db → Publication → Readiness
publishing_ready gate db p =
    let connection = get_opt p.pinterest_connection_id db.connections in
    let board = get_opt p.pinterest_board_record_id db.boards in
    let approval = get_opt p.approval_id db.approvals in
    let creative = get p.creative_id db.creatives in
    (not (is_active_state p.status), invalid_publication_state)
    or_not (not (snapshot_complete p), incomplete_snapshot)
    or_not (not gate.publishing_enabled, publishing_disabled)
    or_not (not (connection_writable connection), publishing_scope_required)
    or_not (not (board_usable connection board), invalid_destination)
    or_not (not (board_matches p board), destination_mismatch)
    or_not (not (approval_valid p approval), invalid_approval)
    or_not (not (creative_valid p creative), invalid_creative)
    or_not (not (media_publishable gate.urls p.media_url_snapshot), media_not_publishable)
    or_not ready

-- No time, or one after `now`, once both are read as UTC.
abbrev pub later_than : Datetime → Option Datetime → Bool
later_than now none = true
later_than now (some when) = is_after when now

unfoldable pub preflight_publish_readiness : Gate → Db → Publication → Datetime → Readiness
unfolding publishing_ready
preflight_publish_readiness gate db p now =
    if not (status_eq p.status scheduled)
      || later_than now (normalize_persisted_utc p.scheduled_for)
    then not_ready not_due
    else publishing_ready gate db p

unfoldable pub publication_readiness : Gate → Db → Publication → Datetime → Readiness
unfolding publishing_ready
publication_readiness gate db p now =
    (not gate.publishing_enabled, publishing_disabled)
    or_not (not (is_active_state p.status), invalid_publication_state)
    or_not (
      status_eq p.status scheduled && later_than now (normalize_persisted_utc p.scheduled_for),
      not_due,
    )
    or_not publishing_ready gate db p

-- The attempt is open, belongs to the publication and was made for the request as it is now.
unfoldable pub attempt_matches : Gate → Publication → Attempt → Bool
attempt_matches gate p a =
    is_started a.status
    && (a.publication_id == p.id)
    && opt_eq a.request_fingerprint (some (request_fingerprint gate.env p))

unfoldable pub execution_publish_readiness : Gate → Db → Publication → Attempt → Readiness
execution_publish_readiness gate db p a =
    if not (attempt_matches gate p a)
    then not_ready attempt_mismatch
    else publishing_ready gate db p
