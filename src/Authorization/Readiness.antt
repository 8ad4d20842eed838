-- ===== src/Authorization/Readiness.antt =====
-- `manual_structural_readiness` and `provider_readiness`.
use sm_poster.Prelude.{
  String, Bool, true, false, not, ◌&&◌, ◌||◌, Option, none, some, ◌==◌, str_eq, if◌then◌else◌,
  opt_eq, is_some, truthy, truthy?, text_eq,
}
use sm_poster.Prelude.Table.{get, get_opt}
use sm_poster.Domain.{
  Db, Publication, PublicationStatus, status_eq, Connection, Board, ShopBoard, Draft, Concept,
  Creative,
}
use sm_poster.Domain.Time.{Datetime, normalize_persisted_utc}
use sm_poster.Publisher.Media.{UrlLibrary, media_publishable}
use sm_poster.Publisher.Readiness.{
  approval_valid, connection_writable, board_usable, board_matches, later_than,
}

pub data ManualStatus : Type 0 where
  invalid_dispatch_provider invalid_publication_state not_due incomplete_snapshot
        destination_invalid approval_invalid creative_invalid media_not_publishable
        ready_for_manual_dispatch :
      ManualStatus

-- The dictionary of the result; `dispatch_provider` is the key that only Buffer's has.
pub record Manual : Type 0 where
  pub status : ManualStatus
  pub ready : Bool
  pub dispatch_provider : Option String

infixr 10 ◌otherwise◌
abbrev pub ◌otherwise◌ : Bool × ManualStatus → Manual → Manual
check otherwise rest =
    if check.0 then record { status = check.1; ready = false; dispatch_provider = none } else rest

-- `public_creative_url_matches` of public_creative_media.py, and `urllib`.
pub record Urls : Type 0 where
  pub library : UrlLibrary
  pub public_creative_url_matches : Creative → Option String → Bool

abbrev is_buffer : String → Bool
is_buffer provider = str_eq provider "buffer"

abbrev pub is_provider : String → Bool
is_provider provider = str_eq provider "pinterest_direct" || is_buffer provider

-- Buffer needs no Pinterest rows: the shop's own board is enough.
abbrev destination_identity_complete : Publication → String → Bool
destination_identity_complete p provider =
    if is_buffer provider
      && not (is_some p.pinterest_connection_id)
      && not (is_some p.pinterest_board_record_id)
    then is_some p.board_id
    else is_some p.pinterest_connection_id && is_some p.pinterest_board_record_id

unfoldable pub base_snapshot_complete : Publication → String → Bool
base_snapshot_complete p provider =
    truthy p.publication_fingerprint
    && truthy? p.text_fingerprint
    && destination_identity_complete p provider
    && truthy? p.pinterest_board_id_snapshot
    && truthy? p.title_snapshot
    && truthy? p.description_snapshot
    && truthy? p.alt_text_snapshot
    && truthy? p.destination_url
    && truthy? p.utm_url
    && truthy? p.media_url_snapshot
    && is_some p.source_image_id
    && truthy? p.creative_fingerprint
    && is_some p.template_id
    && truthy? p.template_key
    && is_some p.template_version

abbrev connected : Option Connection → Bool
connected none = false
connected (some c) = str_eq c.status "CONNECTED"

-- Both were synchronised, and in the same run.
abbrev synced_together : Option Connection → Option Board → Bool
synced_together (some c) (some b) =
    is_some b.last_synced_at
    && is_some c.boards_last_synced_at
    && opt_eq b.last_synced_at c.boards_last_synced_at
synced_together _ _ = false

abbrev concept_of : Option Draft → Db → Option Concept
concept_of none db = none
concept_of (some d) db = get d.concept_id db.concepts

abbrev shop_destination_of : Publication → Option ShopBoard → Option Concept → Bool
shop_destination_of p (some b) (some c) =
    b.active
    && truthy? b.pinterest_board_id
    && text_eq b.pinterest_board_id p.pinterest_board_id_snapshot
    && opt_eq c.board_id p.board_id
    && (c.store_id == b.store_id)
shop_destination_of p _ _ = false

unfoldable pub destination_valid : Db → Publication → String → Bool
destination_valid db p provider =
    let connection = get_opt p.pinterest_connection_id db.connections in
    let board = get_opt p.pinterest_board_record_id db.boards in
    let pinterest =
      connected connection && board_usable connection board && board_matches p board in
    if is_buffer provider
    then if is_some p.pinterest_connection_id || is_some p.pinterest_board_record_id
      then pinterest && synced_together connection board
      else shop_destination_of p (get_opt p.board_id db.shop_boards)
          (concept_of (get p.draft_id db.drafts) db)
    else pinterest

abbrev pub creative_row_valid : Urls → Publication → Option Creative → Bool
creative_row_valid urls p none = false
creative_row_valid urls p (some c) =
    (c.draft_id == p.draft_id)
    && opt_eq (some c.source_image_id) p.source_image_id
    && text_eq (some c.creative_fingerprint) p.creative_fingerprint
    && (text_eq c.rendered_url p.media_url_snapshot
        || urls.public_creative_url_matches c p.media_url_snapshot)

abbrev pub ready_result : String → Manual
ready_result provider = record {
  status = ready_for_manual_dispatch;
  ready = true;
  dispatch_provider = if is_buffer provider then some "buffer" else none;
}

-- The checks that do not look at the clock.
unfoldable pub structural_checks : Urls → Db → Publication → String → Manual
unfolding base_snapshot_complete destination_valid
structural_checks urls db p provider =
    (not (base_snapshot_complete p provider), incomplete_snapshot)
    otherwise (not (destination_valid db p provider), destination_invalid)
    otherwise (not (approval_valid p (get_opt p.approval_id db.approvals)), approval_invalid)
    otherwise (not (creative_row_valid urls p (get p.creative_id db.creatives)), creative_invalid)
    otherwise (not (media_publishable urls.library p.media_url_snapshot), media_not_publishable)
    otherwise ready_result provider

unfoldable pub manual_structural_readiness :
    Urls → Db → Publication → Datetime → PublicationStatus → Bool → String → Manual
unfolding structural_checks
manual_structural_readiness urls db p now expected require_due provider =
    let scheduled_for = normalize_persisted_utc p.scheduled_for in
    (not (is_provider provider), invalid_dispatch_provider)
    otherwise (not (status_eq p.status expected), invalid_publication_state)
    otherwise (not (is_some scheduled_for), not_due)
    otherwise (require_due && later_than now scheduled_for, not_due)
    otherwise structural_checks urls db p provider

pub data ProviderStatus : Type 0 where
  publishing_disabled publishing_scope_required ready : ProviderStatus

unfoldable pub provider_readiness : Bool → Db → Publication → ProviderStatus
provider_readiness publishing_enabled db p =
    if not publishing_enabled
    then publishing_disabled
    else if not (connection_writable (get_opt p.pinterest_connection_id db.connections))
    then publishing_scope_required
    else ProviderStatus.ready
