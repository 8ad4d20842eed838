-- ===== src/Examples/Authorizing.antt =====
-- Authorizations at a publication that is due.
use sm_poster.Prelude.{◌≡◌, refl, false, some, [], arith}
use sm_poster.Prelude.Table.{get}
use sm_poster.Domain.{Publication, scheduled}
use sm_poster.Domain.Time.{normalize_persisted_utc}
use sm_poster.Duplicates.{evaluate_publication_duplicates, other_publications}
use sm_poster.Publisher.Media.{media_publishable, public_host}
use sm_poster.Publisher.Readiness.{Readiness, preflight_publish_readiness}
use sm_poster.Authorization.Readiness.{
  Urls, manual_structural_readiness, structural_checks, base_snapshot_complete, destination_valid,
  provider_readiness,
}
use sm_poster.Authorization.Store.{
  Authorization, QualityStatus, Services, Rows, ok, create_authorization, insert_authorization,
  new_authorization, expire_stale_active_authorizations,
}
use sm_poster.Authorization.Validity.{valid, validate_authorization}
use sm_poster.Authorization.Binding.{
  Created, StillGood, create_authorization-Created, created_authorization_valid,
  valid_authorization-StillGood,
}
use sm_poster.Authorization.Agreement.{manual_ready_preflight}
use sm_poster.Examples.Data.{at, publication, urls, gate, due}

abbrev links : Urls
links = record { library = urls; public_creative_url_matches = λ c value. false }

abbrev services : Services
services = record {
  db = due;
  urls = links;
  quality = λ p provider. record { status = QualityStatus.pass; checks = "[]" };
}

abbrev row : Publication
row = publication 1 scheduled (some (at 5))

abbrev no_rows : Rows
no_rows = record { durable = []; working = [] }

abbrev authorization : Authorization
authorization = new_authorization services 3 row "admin" 100 "pinterest_direct"

creates :
    (create_authorization services 3 row "admin" 100 "pinterest_direct" [] no_rows).0
    ≡ ok authorization
unfolding create_authorization insert_authorization new_authorization
    evaluate_publication_duplicates other_publications manual_structural_readiness
    normalize_persisted_utc get media_publishable public_host expire_stale_active_authorizations
creates = refl

create_authorization-Created_example :
    Created services 3 row "admin" 100 "pinterest_direct" authorization
      (create_authorization services 3 row "admin" 100 "pinterest_direct" [] no_rows).1
create_authorization-Created_example =
    create_authorization-Created services 3 row "admin" 100 "pinterest_direct" [] no_rows
      authorization creates

created_authorization_valid_example :
    validate_authorization services row (some authorization) 200 "pinterest_direct" ≡ valid
created_authorization_valid_example =
    created_authorization_valid services 3 row "admin" 100 "pinterest_direct" [] no_rows
      authorization 200 creates (omega arith) (omega arith)

still_valid :
    validate_authorization services row (some authorization) 200 "pinterest_direct" ≡ valid
still_valid =
    created_authorization_valid services 3 row "admin" 100 "pinterest_direct" [] no_rows
      authorization 200 creates (omega arith) (omega arith)

valid_authorization-StillGood_example : StillGood services row 200 "pinterest_direct" row 100
valid_authorization-StillGood_example =
    valid_authorization-StillGood services 3 row "admin" 100 "pinterest_direct" [] no_rows
      authorization services row 200 "pinterest_direct" creates still_valid

manual_ready_preflight_example : preflight_publish_readiness gate due row (at 9) ≡ Readiness.ready
unfolding manual_structural_readiness structural_checks base_snapshot_complete destination_valid
    provider_readiness media_publishable public_host get normalize_persisted_utc
manual_ready_preflight_example = manual_ready_preflight gate links due row (at 9) refl refl refl
