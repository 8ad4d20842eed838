-- ===== src/Scheduler/Changes.antt =====
-- Every write of publication_scheduler.py is an allowed change of status, and a refused call leaves
-- the database as it was.
use sm_poster.Prelude.{ℕ, ◌≡◌, ◌≢◌, ◌⊎◌, Bool, false, some, arith}
use sm_poster.Prelude.Table.{get, get-update}
use sm_poster.Domain.{Publication, PublicationStatus, scheduled, approved, publish_failed}
use sm_poster.Domain.Time.{Datetime, utc, naive, aware, utc_instant}
use sm_poster.Lifecycle.{require_transition}
use sm_poster.CanaryMedia.{MediaStore, publication_has_pending_local_canary_media}
use sm_poster.Session.{World, ok, raised, read_publication, set_publication, commit}
use sm_poster.Scheduler.{ScheduleError, schedule}

abbrev pub IsSchedulable : PublicationStatus → Type 0
IsSchedulable s = (s ≡ approved) ⊎ ((s ≡ scheduled) ⊎ (s ≡ publish_failed))

abbrev pub place : ℕ → Publication → Publication
place instant p = record p { scheduled_for = some (aware instant utc); status = scheduled }

module _ (media : MediaStore) (id : ℕ) (w : World) (p : Publication)
    (found : get id w.working.publications ≡ some p) where
  -- A call of `schedule` on a publication that is there which raises has changed nothing, in the
  -- session or in the database.
  pub schedule_raises_unchanged :
      (when : Datetime) (commits : Bool) (e : ScheduleError)
      → (schedule media id when commits w).0 ≡ raised e
      → (schedule media id when commits w).1 ≡ w
  unfolding schedule read_publication set_publication commit
  schedule_raises_unchanged when commits e h = ground arith

  -- `schedule` succeeds only for an aware time, on an approved, scheduled or failed publication with
  -- no canary media pending, and then sets it to `SCHEDULED` for that time turned to UTC.
  pub schedule_success :
      (when : Datetime) (commits : Bool)
      → (schedule media id when commits w).0 ≡ ok tt
      → ((wall : ℕ) → when ≢ naive wall)
        × IsSchedulable p.status
        × (publication_has_pending_local_canary_media media w.working p ≡ false)
        × (get id (schedule media id when commits w).1.working.publications
            ≡ some (place (utc_instant when) p))
  unfolding schedule read_publication set_publication commit require_transition
  schedule_success when commits h = (
    λ wall e. ground arith,
    ground arith,
    ground arith,
    ground (arith, get-update id id (place (utc_instant when)) w.working.publications),
  )
