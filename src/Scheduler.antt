-- ===== src/Scheduler.antt =====
-- backend/app/services/publication_scheduler.py: explicit scheduling, cancelling and claiming.
pub mod Due
pub mod Claim
pub mod Changes
use sm_poster.Prelude.{
  ℕ, suc, ◌+◌, ◌==◌, max, String, Bool, true, false, not, ◌&&◌, ◌||◌, Option, none, some, List, [],
  ◌∷◌, ◌++◌, any, keep, is_some, if◌then◌else◌,
}
use sm_poster.Prelude.Table.{get, update, rows}
use sm_poster.Domain.{
  Db, Publication, PublicationStatus, approved, scheduled, publishing, publish_failed,
  publish_unknown, cancelled, status_eq, Attempt, AttemptStatus,
}
use sm_poster.Domain.Time.{Datetime, Offset, utc_instant, is_due}
use sm_poster.Lifecycle.{Allowed, require_transition}
use sm_poster.CanaryMedia.{
  MediaStore, pending_local_canary_creative_ids, publication_has_pending_local_canary_media,
}
use sm_poster.Session.{
  World, Action, pure, raise, gets, raise_if, modify, commit, ◌>>=◌, ◌>>◌, read_publication,
  set_publication,
}

pub data ScheduleError : Type 0 where
  not_timezone_aware unknown_cannot_be_rescheduled invalid_transition local_canary_media_pending
        limit_out_of_range :
      ScheduleError

-- What `request_fingerprint` hashes.
pub record DispatchRequest : Type 0 where
  pub publication_fingerprint : String
  pub board_id : Option String
  pub title : Option String
  pub description : Option String
  pub alt_text : Option String
  pub link_url : Option String
  pub media_url : Option String

-- `_sha256` of the JSON text, and the pictures in storage.
pub record Env : Type 0 where
  pub sha256 : DispatchRequest → ℕ
  pub media : MediaStore

unfoldable pub request_fingerprint : Env → Publication → ℕ
request_fingerprint env p = env.sha256 (record {
  publication_fingerprint = p.publication_fingerprint;
  board_id = p.pinterest_board_id_snapshot;
  title = p.title_snapshot;
  description = p.description_snapshot;
  alt_text = p.alt_text_snapshot;
  link_url = p.utm_url;
  media_url = p.media_url_snapshot;
})

-- `when.tzinfo is None or when.utcoffset() is None`
abbrev is_naive : Datetime → Bool
is_naive (Datetime.naive wall) = true
is_naive (Datetime.aware instant offset) = false

abbrev is_schedulable : PublicationStatus → Bool
is_schedulable s = any (status_eq s) (scheduled ∷ approved ∷ publish_failed ∷ [])

abbrev is_refused : Allowed → Bool
is_refused Allowed.permitted = false
is_refused Allowed.invalid_transition = true

-- `db.commit()` if the caller wants it; a flush leaves the change in the session.
abbrev commit_if : {E : Type 0} → Bool → Action E (Unit {0})
commit_if true = commit
commit_if false = pure tt

-- A naive time is not scheduled; an aware one is turned to UTC.
unfoldable pub schedule : MediaStore → ℕ → Datetime → Bool → Action ScheduleError (Unit {0})
schedule media id when commits = do
  raise_if (is_naive when) not_timezone_aware
  publication ← read_publication id
  raise_if (status_eq publication.status publish_unknown) unknown_cannot_be_rescheduled
  raise_if
      (not (is_schedulable publication.status)
        && is_refused (require_transition publication.status scheduled))
      invalid_transition
  pending ← gets (λ db. publication_has_pending_local_canary_media media db publication)
  raise_if pending local_canary_media_pending
  set_publication id (λ p. record p {
    scheduled_for = some (Datetime.aware (utc_instant when) Offset.utc);
    status = scheduled;
  })
  commit_if commits

unfoldable pub cancel : ℕ → Action ScheduleError (Unit {0})
cancel id = do
  publication ← read_publication id
  raise_if (is_refused (require_transition publication.status cancelled)) invalid_transition
  set_publication id (λ p. record p { status = cancelled; scheduled_for = none })
  commit

-- `scheduled_for <= now`, which no row without a time meets.
abbrev pub is_due_at : Datetime → Option Datetime → Bool
is_due_at now none = false
is_due_at now (some when) = is_due when now

abbrev contains : ℕ → List ℕ → Bool
contains k = any (λ j. k == j)

-- The rows that `claim` updates and that `due_publications` selects.
unfoldable pub is_claimable : Datetime → Db → Publication → Bool
is_claimable now db p =
    status_eq p.status scheduled
    && is_due_at now p.scheduled_for
    && not (contains p.creative_id (pending_local_canary_creative_ids db))

-- The highest attempt number of a publication, or 0.
unfoldable pub last_attempt_number : ℕ → List Attempt → ℕ
last_attempt_number id [] = 0
last_attempt_number id (a ∷ attempts) =
    let rest = last_attempt_number id attempts in
    if a.publication_id == id then max a.attempt_number rest else rest

unfoldable pub new_attempt : Env → ℕ → Publication → Db → Attempt
new_attempt env new_id p db = record {
  id = new_id;
  publication_id = p.id;
  attempt_number = last_attempt_number p.id (rows db.attempts) + 1;
  status = AttemptStatus.started;
  request_fingerprint = some (request_fingerprint env p);
  completed_at = none;
  provider_pin_id = none;
  dispatch_provider = "pinterest_direct";
  provider_operation_id = none;
  error_code = none;
  safe_response_metadata = none;
}

-- `rowcount == 1`: the row is still there and still meets the condition.
abbrev row_claimable : Datetime → Db → Option Publication → Bool
row_claimable now db none = false
row_claimable now db (some p) = is_claimable now db p

abbrev pub mark_publishing : Datetime → Publication → Publication
mark_publishing now p = record p { status = publishing; attempt_started_at = some now }

-- Compare and set: the update takes effect only on a row that is still due and scheduled.
unfoldable pub claim : Env → Datetime → ℕ → ℕ → Action ScheduleError (Option Attempt)
claim env now new_id id = do
  publication ← read_publication id
  pending ← gets (λ db. publication_has_pending_local_canary_media env.media db publication)
  matched ← gets (λ db. row_claimable now db (get id db.publications))
  if pending || not matched then pure none else do
    set_publication id (mark_publishing now)
    attempt ← gets (new_attempt env new_id publication)
    modify (λ db. record db { attempts = db.attempts ++ (new_id, attempt) ∷ [] })
    commit
    pure (some attempt)
