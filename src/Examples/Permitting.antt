-- ===== src/Examples/Permitting.antt =====
-- A permit for a publication that is due, and the scheduler's rounds in a process that takes the lease.
use sm_poster.Prelude.{◌≡◌, refl, true, false, some, [], ◌∷◌, arith, inl, inr}
use sm_poster.Prelude.Table.{get}
use sm_poster.Domain.{Db, Publication, scheduled}
use sm_poster.Domain.Time.{normalize_persisted_utc}
use sm_poster.Duplicates.{evaluate_publication_duplicates, other_publications}
use sm_poster.CanaryMedia.{publication_has_pending_local_canary_media}
use sm_poster.Publisher.Media.{media_publishable, public_host}
use sm_poster.Authorization.Readiness.{Urls, manual_structural_readiness}
use sm_poster.Authorization.Store.{QualityStatus, Services}
use sm_poster.Permits.{
  Permit, PermitRows, PermitServices, PermitStatus, ok, valid, create_permit, expire_stale_permits,
  insert_permit, new_permit, validate_permit, readiness_of,
}
use sm_poster.Permits.Validity.{StillPermitted, created_permit_valid, valid_permit-StillPermitted}
use sm_poster.Examples.Data.{at, publication, urls, gate, due}

abbrev pub links : Urls
links = record { library = urls; public_creative_url_matches = λ c value. false }

-- The connection and the board were synchronised together.
abbrev pub synced : Db
synced = record due {
  connections =
      (
        15,
        record {
          id = 15;
          granted_scopes = "pins:write" ∷ [];
          status = "CONNECTED";
          boards_last_synced_at = some 3;
        },
      )
      ∷ [];
  boards =
      (
        16,
        record {
          id = 16;
          connection_id = 15;
          external_board_id = "board";
          is_active = true;
          is_eligible = true;
          last_synced_at = some 3;
        },
      )
      ∷ [];
}

abbrev pub base : Services
base = record {
  db = synced;
  urls = links;
  quality = λ p provider. record { status = QualityStatus.pass; checks = "[]" };
}

abbrev pub services : PermitServices
services = record { base = base; env = gate.env; media = gate.env.media }

abbrev row : Publication
row = publication 1 scheduled (some (at 5))

abbrev no_rows : PermitRows
no_rows = record { durable = []; working = [] }

abbrev permit : Permit
permit = new_permit services 3 row (at 5) "admin" 100

creates : (create_permit services 3 row "admin" 100 true [] no_rows).0 ≡ ok permit
unfolding create_permit insert_permit new_permit evaluate_publication_duplicates other_publications
    manual_structural_readiness normalize_persisted_utc get media_publishable public_host
    expire_stale_permits publication_has_pending_local_canary_media
creates = refl

ready_soon : (readiness_of services row 200 scheduled true).ready ≡ true
unfolding manual_structural_readiness normalize_persisted_utc get media_publishable public_host
ready_soon = refl

abbrev late_row : Publication
late_row = publication 1 scheduled (some (at 88000))

abbrev late_permit : Permit
late_permit = new_permit services 3 late_row (at 88000) "admin" 100

late_creates : (create_permit services 3 late_row "admin" 100 true [] no_rows).0 ≡ ok late_permit
unfolding create_permit insert_permit new_permit evaluate_publication_duplicates other_publications
    manual_structural_readiness normalize_persisted_utc get media_publishable public_host
    expire_stale_permits publication_has_pending_local_canary_media
late_creates = refl

late_ready : (readiness_of services late_row 90000 scheduled true).ready ≡ true
unfolding manual_structural_readiness normalize_persisted_utc get media_publishable public_host
late_ready = refl

-- The permit would last for a day; the worker comes after that and within two hours of the time.
created_permit_valid_example :
    validate_permit services late_row (some late_permit) 90000 scheduled true PermitStatus.active
    ≡ valid
created_permit_valid_example =
    created_permit_valid services 3 late_row "admin" 100 true [] no_rows late_permit 90000
      (at 88000) late_creates refl late_ready (inr (omega arith))

still_valid :
    validate_permit services row (some permit) 200 scheduled true PermitStatus.active ≡ valid
still_valid =
    created_permit_valid services 3 row "admin" 100 true [] no_rows permit 200 (at 5) creates refl
      ready_soon (inl (omega arith))

valid_permit-StillPermitted_example : StillPermitted services row 200 row services 100
valid_permit-StillPermitted_example =
    valid_permit-StillPermitted services 3 row "admin" 100 true [] no_rows permit services row 200
      creates still_valid
