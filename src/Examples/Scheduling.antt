-- ===== src/Examples/Scheduling.antt =====
-- The scheduler at concrete inputs.
use sm_poster.Prelude.{ℕ, ◌≡◌, ◌≢◌, refl, true, false, none, some, [], ◌∷◌, take, keep, arith}
use sm_poster.Prelude.Table.{get}
use sm_poster.Domain.{AttemptStatus, scheduled}
use sm_poster.Domain.Time.{naive}
use sm_poster.Lifecycle.{require_transition}
use sm_poster.CanaryMedia.{
  pending_local_canary_creative_ids, publication_has_pending_local_canary_media,
}
use sm_poster.Session.{World, ok, commit, read_publication, set_publication}
use sm_poster.Scheduler.{
  claim, schedule, is_claimable, new_attempt, last_attempt_number, request_fingerprint,
}
use sm_poster.Scheduler.Claim.{Claimed, claim-Claimed, claim_once}
use sm_poster.Scheduler.Changes.{IsSchedulable, place, schedule_success}
use sm_poster.Scheduler.Due.{
  DueResult, due_publications, due_query, order_rows, insert_ordered, pages, collect,
}
use sm_poster.Scheduler.Due.Batch.{is_ready, due_publications-eq-take}
use sm_poster.Examples.Data.{at, publication, attempt, database, world, media, env, due}

claim-Claimed_example :
    Claimed env
      (at 9)
      7
      1
      (world due)
      (attempt 7 1 AttemptStatus.started)
      (claim env (at 9) 7 1 (world due)).1
unfolding claim get is_claimable commit new_attempt last_attempt_number request_fingerprint
    read_publication publication_has_pending_local_canary_media set_publication
    pending_local_canary_creative_ids
claim-Claimed_example = claim-Claimed env (at 9) 7 1 (world due) refl

claim_once_example :
    claim env (at 10) 8 1 (world (claim env (at 9) 7 1 (world due)).1.durable)
    ≡ (ok none, world (claim env (at 9) 7 1 (world due)).1.durable)
unfolding claim get is_claimable commit new_attempt last_attempt_number request_fingerprint
    read_publication publication_has_pending_local_canary_media set_publication
    pending_local_canary_creative_ids
claim_once_example =
    claim_once env (at 9) (at 10) 7 8 1 (world due)
      (world (claim env (at 9) 7 1 (world due)).1.durable)
      {attempt = attempt 7 1 AttemptStatus.started} refl refl

abbrev retried : World
retried = world (database scheduled ((3, attempt 3 1 AttemptStatus.failed) ∷ []))

due_publications-eq-take_example :
    due_publications media due (at 9) 25
    ≡ DueResult.eligible (take 25 (keep (is_ready media due) (due_query (at 9) due)))
due_publications-eq-take_example =
    due_publications-eq-take media due (at 9) 25 (omega arith) (omega arith)

selects :
    due_publications media due (at 9) 25
    ≡ DueResult.eligible (publication 1 scheduled (some (at 5)) ∷ [])
unfolding due_publications due_query order_rows insert_ordered pages collect is_claimable
    pending_local_canary_creative_ids publication_has_pending_local_canary_media get
selects = refl

schedule_success_example :
    ((wall : ℕ) → at 6 ≢ naive wall)
    × IsSchedulable scheduled
    × (publication_has_pending_local_canary_media media due (publication 1 scheduled (some (at 5)))
        ≡ false)
    × (get 1 (schedule media 1 (at 6) true (world due)).1.working.publications
        ≡ some (place 6 (publication 1 scheduled (some (at 5)))))
unfolding schedule get require_transition commit read_publication
    publication_has_pending_local_canary_media set_publication
schedule_success_example =
    schedule_success media 1 (world due) (publication 1 scheduled (some (at 5))) refl (at 6) true
      refl
