-- ===== src/Authorization/Agreement.antt =====
-- The structural readiness that an authorization records, against the publisher's own check.
use sm_poster.Prelude.{
  ◌≡◌, Bool, true, false, Option, none, some, arith, sym, ◌∙◌, not, ◌||◌, if◌then◌else◌, ◌&&◌,
  truthy, truthy?, is_some,
}
use sm_poster.Prelude.Table.{get, get_opt}
use sm_poster.Domain.{Publication, Db, scheduled, status_eq, Creative}
use sm_poster.Domain.Time.{Datetime, normalize_persisted_utc}
use sm_poster.Publisher.Readiness.{
  Gate, Readiness, not_ready, not_due, later_than, preflight_publish_readiness, publishing_ready,
  snapshot_complete, connection_writable, board_usable, board_matches, creative_valid,
}
use sm_poster.Publisher.Readiness.Gates.{Passed, Passed-ready}
use sm_poster.Authorization.Readiness.{
  Urls, ProviderStatus, manual_structural_readiness, base_snapshot_complete, destination_valid,
  provider_readiness, creative_row_valid,
}
use sm_poster.Authorization.Checks.{manual-Timely, structural_checks-Structural}

-- The publisher's nine columns are among those of the structural check.
fewer :
    (f t c r b ti de al du u m si cf te tk tv : Bool)
    → (f && t && (c && r) && b && ti && de && al && du && u && m && si && cf && te && tk && tv)
      ≡ true
    → (f && c && r && b && ti && de && du && u && m) ≡ true
fewer f t c r b ti de al du u m si cf te tk tv h = ground arith

base-snapshot :
    (p : Publication)
    → base_snapshot_complete p "pinterest_direct" ≡ true
    → snapshot_complete p ≡ true
unfolding base_snapshot_complete snapshot_complete
base-snapshot p h =
    fewer (truthy p.publication_fingerprint) (truthy? p.text_fingerprint)
      (is_some p.pinterest_connection_id) (is_some p.pinterest_board_record_id)
      (truthy? p.pinterest_board_id_snapshot) (truthy? p.title_snapshot)
      (truthy? p.description_snapshot) (truthy? p.alt_text_snapshot) (truthy? p.destination_url)
      (truthy? p.utm_url) (truthy? p.media_url_snapshot) (is_some p.source_image_id)
      (truthy? p.creative_fingerprint) (is_some p.template_id) (truthy? p.template_key)
      (is_some p.template_version) h

destination-rows :
    (db : Db) (p : Publication)
    → destination_valid db p "pinterest_direct" ≡ true
    → (board_usable
          (get_opt p.pinterest_connection_id db.connections)
          (get_opt p.pinterest_board_record_id db.boards)
        ≡ true)
      × (board_matches p (get_opt p.pinterest_board_record_id db.boards) ≡ true)
unfolding destination_valid
destination-rows db p h = (ground arith, ground arith)

creative_row-valid :
    (urls : Urls) (p : Publication) (o : Option Creative)
    → creative_row_valid urls p o ≡ true
    → creative_valid p o ≡ true
creative_row-valid urls p none h = absurd (cc)
creative_row-valid urls p (some c) h = ground arith

provider-enabled :
    (enabled : Bool) (db : Db) (p : Publication)
    → provider_readiness enabled db p ≡ ProviderStatus.ready
    → (enabled ≡ true)
      × (connection_writable (get_opt p.pinterest_connection_id db.connections) ≡ true)
unfolding provider_readiness
provider-enabled enabled db p h = (ground arith, ground arith)

once_due :
    (waiting late : Bool) (rest : Readiness)
    → waiting ≡ true
    → late ≡ false
    → (if not waiting || late then not_ready not_due else rest) ≡ rest
once_due waiting late rest h k = ground arith

-- A publication that is ready for a manual dispatch by Pinterest, when the provider is ready too,
-- also passes the publisher's preflight check at that time.
pub manual_ready_preflight :
    (gate : Gate) (urls : Urls) (db : Db) (p : Publication) (now : Datetime)
    → urls.library ≡ gate.urls
    → (manual_structural_readiness urls db p now scheduled true "pinterest_direct").ready ≡ true
    → provider_readiness gate.publishing_enabled db p ≡ ProviderStatus.ready
    → preflight_publish_readiness gate db p now ≡ Readiness.ready
unfolding preflight_publish_readiness
manual_ready_preflight gate urls db p now same manual provider =
    let (timely, checked) = manual-Timely urls db p "pinterest_direct" now manual in
    let s = structural_checks-Structural urls db p "pinterest_direct" checked in
    let (enabled, writable) = provider-enabled gate.publishing_enabled db p provider in
    let (usable, matches) = destination-rows db p s.destination in
    let passed : Passed gate db p = record {
      state = ground (arith, timely.waiting);
      snapshot = base-snapshot p s.complete;
      enabled = enabled;
      connection = writable;
      board = usable;
      destination = matches;
      approval = s.approval;
      creative = creative_row-valid urls p (get p.creative_id db.creatives) s.creative;
      media = rw (sym same) s.media;
    } in
    once_due (status_eq p.status scheduled)
      (later_than now (normalize_persisted_utc p.scheduled_for)) (publishing_ready gate db p)
      timely.waiting timely.due
    ∙ Passed-ready gate db p passed
