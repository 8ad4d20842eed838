-- ===== src/Scheduler/Due/Batch.antt =====
-- What `due_publications` returns, against the query that it pages through.
use sm_poster.Prelude.{
  ℕ, zero, suc, ◌≤◌, min, ◌≡◌, Bool, not, some, List, [], ◌∷◌, arith, length, take, keep, All,
}
use sm_poster.Domain.{Db, Publication, scheduled}
use sm_poster.Domain.Time.{Datetime, utc_instant}
use sm_poster.CanaryMedia.{MediaStore, publication_has_pending_local_canary_media}
use sm_poster.Scheduler.Due.{due_query, DueResult, due_publications}
use sm_poster.Scheduler.Due.Pages.{pages-eq-take}

abbrev pub is_ready : MediaStore → Db → Publication → Bool
is_ready media db p = not (publication_has_pending_local_canary_media media db p)

-- With a limit from 1 to 25, `due_publications` ends, and returns the first `limit` rows of the
-- ordered query whose media are not pending: paging loses no row and repeats none.
pub due_publications-eq-take :
    (media : MediaStore) (db : Db) (now : Datetime) (limit : ℕ)
    → 1 ≤ limit
    → limit ≤ 25
    → due_publications media db now limit
      ≡ DueResult.eligible (take limit (keep (is_ready media db) (due_query now db)))
unfolding due_publications
due_publications-eq-take media db now limit low high =
    let found = due_query now db in
    let pending = publication_has_pending_local_canary_media media db in
    let whole : min limit 25 ≡ limit = omega arith in
    ground (
      arith,
      whole,
      pages-eq-take pending limit (suc (length found)) found 0 [] low (omega arith) (omega arith),
    )

-- A row may be dispatched at `now`: it is scheduled for a time that has come.
pub record IsDispatchable (now : Datetime) (p : Publication) : Type 0 where
  pub waiting : p.status ≡ scheduled
  pub timed :
      (when : Datetime) × (p.scheduled_for ≡ some when) × (utc_instant when ≤ utc_instant now)

module _ {A : Type 0} (P : A → Type 0) where
  All-take : (n : ℕ) (xs : List A) → All P xs → All P (take n xs)
  All-take zero xs h = tt
  All-take (suc n) [] h = tt
  All-take (suc n) (x ∷ xs) h = (h.0, All-take n xs h.1)
