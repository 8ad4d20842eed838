-- ===== src/Examples/Publishing.antt =====
-- The publisher at concrete inputs.
use sm_poster.Prelude.{◌≡◌, ◌↔◌, refl, none, some}
use sm_poster.Prelude.Table.{get}
use sm_poster.Domain.{Publication, Attempt, AttemptStatus, publishing, published}
use sm_poster.Session.{ok, commit}
use sm_poster.Scheduler.{request_fingerprint}
use sm_poster.Publisher.Metadata.{is_numeric_pin_id}
use sm_poster.Publisher.Media.{media_publishable, public_host}
use sm_poster.Publisher.Readiness.{
  ready, attempt_matches, snapshot_complete, publishing_ready, execution_publish_readiness,
}
use sm_poster.Publisher.Readiness.Gates.{IsPublishable, publishing_ready_iff}
use sm_poster.Publisher.Dispatch.{publish_once}
use sm_poster.Publisher.Dispatch.Once.{Settled, publish_once-Settled}
use sm_poster.Publisher.Dispatch.Request.{
  MayAsk, publish_once_asks_only_ready, publish_once_publishes,
}
use sm_poster.Examples.Data.{at, publication, attempt, world, gate, accepts, rejects, claimed}

passes :
    execution_publish_readiness gate claimed
      (publication 1 publishing (some (at 5)))
      (attempt 7 1 AttemptStatus.started)
    ≡ ready
unfolding execution_publish_readiness attempt_matches request_fingerprint publishing_ready
    snapshot_complete media_publishable public_host get
passes = refl

publish_once-Settled_example :
    Settled rejects 1 7
      (at 9)
      (publication 1 publishing (some (at 5)))
      (attempt 7 1 AttemptStatus.started)
      (world claimed)
      (publish_once gate (at 9) rejects 1 (some 7) (world claimed))
unfolding get
publish_once-Settled_example =
    publish_once-Settled gate (at 9) rejects 1 7 (publication 1 publishing (some (at 5)))
      (attempt 7 1 AttemptStatus.started) (world claimed) refl refl refl

publish_once_publishes_example :
    ((publish_once gate (at 9) accepts 1 (some 7) (world claimed)).0 ≡ ok "4711")
    × ((q : Publication) × (get 1
            (publish_once gate (at 9) accepts 1 (some 7) (world claimed)).1.durable.publications
          ≡ some q)
        × (q.status ≡ published)
        × (q.pinterest_pin_id ≡ some "4711")
        × (q.published_at ≡ some (at 9)))
    × ((b : Attempt) × (get 7
            (publish_once gate (at 9) accepts 1 (some 7) (world claimed)).1.durable.attempts
          ≡ some b)
        × (b.status ≡ AttemptStatus.succeeded)
        × (b.provider_pin_id ≡ some "4711")
        × (b.completed_at ≡ some (at 9)))
unfolding get is_numeric_pin_id
publish_once_publishes_example =
    publish_once_publishes gate (at 9) accepts 1 7 (publication 1 publishing (some (at 5)))
      (attempt 7 1 AttemptStatus.started) (world claimed) refl refl "4711" refl passes refl refl
      refl

publish_once_asks_only_ready_example :
    MayAsk gate
      (publication 1 publishing (some (at 5)))
      (attempt 7 1 AttemptStatus.started)
      (world claimed)
unfolding get publish_once is_numeric_pin_id execution_publish_readiness attempt_matches
    request_fingerprint publishing_ready snapshot_complete media_publishable public_host commit
publish_once_asks_only_ready_example =
    publish_once_asks_only_ready gate (at 9) accepts 1 7 (publication 1 publishing (some (at 5)))
      (attempt 7 1 AttemptStatus.started) (world claimed) refl refl (λ e. cc)

publishing_ready_iff_example :
    (publishing_ready gate claimed (publication 1 publishing none) ≡ ready)
    ↔ IsPublishable gate claimed (publication 1 publishing none)
publishing_ready_iff_example = publishing_ready_iff gate claimed (publication 1 publishing none)
