-- ===== src/Permits/Validity.antt =====
-- When a created permit is found valid.
use sm_poster.Prelude.{
  ℕ, ◌+◌, ◌<◌, max, ◌≡◌, refl, ◌⊎◌, inl, inr, String, Bool, true, false, not, ◌||◌, Option, none,
  some, List, arith, eq_refl, eq_iff, Bool-cases, opt_eq, opt_eq_iff, text_eq, str_eq,
  if◌then◌else◌, leb, ◌==◌,
}
use sm_poster.Domain.{Publication, PublicationStatus}
use sm_poster.Domain.Time.{Datetime, utc_instant}
use sm_poster.Scheduler.{request_fingerprint}
use sm_poster.Authorization.Readiness.{ManualStatus}
use sm_poster.Authorization.Store.{quality_v1, quality_passes, duplicate_of, duplicate_safe}
use sm_poster.Authorization.Validity.{same_quality, same_evaluation}
use sm_poster.Authorization.Binding.{
  same_quality_refl, same_evaluation_refl, same_quality-passes, same_evaluation-safe,
}
use sm_poster.Permits.{
  Permit, PermitRows, PermitServices, PermitStatus, ok, valid, has_status, mismatch, permit_expired,
  schedule_drift, policy_drift, snapshot_drift, unready, permit_status_eq, create_permit,
  has_pending_media, new_permit, quality_of, readiness_of, same_schedule, validate_held,
  validate_permit,
}
use sm_poster.Permits.Holding.{create_permit-Permitted, readiness-NamesBuffer}

opt_eq_refl : (a : Option ℕ) → opt_eq a a ≡ true
opt_eq_refl a = (opt_eq_iff a a).1 refl

same_schedule_lem :
    (o : Option Datetime) (t : Datetime) → o ≡ some t → same_schedule (utc_instant t) o ≡ true
same_schedule_lem none t e = absurd (cc)
same_schedule_lem (some u) t e = ground arith

names_same : (a b : Option String) → a ≡ some "buffer" → b ≡ some "buffer" → text_eq a b ≡ true
names_same a b e f = rw (e, f) refl

-- The permit of a publication that has not changed.
module _ (s : PermitServices) (id : ℕ) (p : Publication) (t : Datetime) (actor : String)
    (now later : ℕ) where
  new_permit_valid :
      p.scheduled_for ≡ some t
      → (readiness_of s p now PublicationStatus.scheduled false).ready ≡ true
      → (readiness_of s p later PublicationStatus.scheduled true).ready ≡ true
      → (later < now + 86400) ⊎ (later < utc_instant t + 7200)
      → validate_held s p
          (new_permit s id p t actor now)
          later
          PublicationStatus.scheduled
          true
          PermitStatus.active
        ≡ valid
  unfolding validate_held new_permit
  new_permit_valid e before after time =
      let a = readiness-NamesBuffer s p now PublicationStatus.scheduled false before in
      let b = readiness-NamesBuffer s p later PublicationStatus.scheduled true after in
      let in_time : leb (max (now + 86400) (utc_instant t + 7200)) later ≡ false = ground arith in
      let fresh : (request_fingerprint s.env p == request_fingerprint s.env p) ≡ true =
        ground arith in
      let row : (p.id == p.id) ≡ true = ground arith in
      let when = same_schedule_lem p.scheduled_for t e in
      rw
        (
          row,
          in_time,
          eq_refl p.publication_fingerprint,
          opt_eq_refl p.approval_id,
          opt_eq_refl p.pinterest_board_record_id,
          fresh,
          when,
          same_quality_refl (quality_of s p),
          same_evaluation_refl (duplicate_of s.base p),
          after,
          names_same (readiness_of s p now PublicationStatus.scheduled false).dispatch_provider
              (readiness_of s p later PublicationStatus.scheduled true).dispatch_provider a b,
        )
        refl

-- A permit that was just created is valid for the worker for at least a day, and until two hours
-- after the scheduled time, as long as the database, the publication and the quality verdict stay as
-- they were and the publication is ready for dispatch then.
pub created_permit_valid :
    (s : PermitServices) (id : ℕ) (p : Publication) (actor : String) (now : ℕ) (commit : Bool)
    (meanwhile : List Permit) (rows : PermitRows) (permit : Permit) (later : ℕ) (t : Datetime)
    → (create_permit s id p actor now commit meanwhile rows).0 ≡ ok permit
    → p.scheduled_for ≡ some t
    → (readiness_of s p later PublicationStatus.scheduled true).ready ≡ true
    → (later < now + 86400) ⊎ (later < utc_instant t + 7200)
    → validate_permit s p (some permit) later PublicationStatus.scheduled true PermitStatus.active
      ≡ valid
unfolding validate_permit
created_permit_valid s id p actor now commit meanwhile rows permit later t h e after time =
    let c = create_permit-Permitted s id p actor now commit meanwhile rows permit h in
    let same : c.scheduled_for ≡ t = ground (arith, c.timed) in
    let bound : permit ≡ new_permit s id p t actor now = rw same at c.bound in
    rw (c.no_pending, bound) (new_permit_valid s id p t actor now later e c.ready after time)

-- What a permit that is found valid agrees with.
record Agrees (s : PermitServices) (p : Publication) (now : ℕ) (permit : Permit) : Type 0 where
  row : (permit.publication_id == p.id) ≡ true
  in_time : leb permit.expires_at now ≡ false
  content : str_eq permit.publication_fingerprint p.publication_fingerprint ≡ true
  approval : opt_eq permit.approval_id p.approval_id ≡ true
  board : opt_eq permit.pinterest_board_record_id p.pinterest_board_record_id ≡ true
  request : (permit.request_fingerprint == request_fingerprint s.env p) ≡ true
  time : same_schedule permit.scheduled_for_snapshot p.scheduled_for ≡ true
  quality : same_quality (quality_of s p) permit.quality_snapshot ≡ true
  duplicates : same_evaluation (duplicate_of s.base p) permit.duplicate_snapshot ≡ true
  ready : (readiness_of s p now PublicationStatus.scheduled true).ready ≡ true

-- The guards of `validate_permit` in their order.
guards_passed :
    (status row provider expired content approval board request time policy quality duplicates ready
      named : Bool)
    (in_status : PermitStatus) (why : ManualStatus)
    → (if not status
        then has_status in_status
        else if not row || not provider
        then mismatch
        else if expired
        then permit_expired
        else if not content
        then mismatch
        else if not approval || not board
        then mismatch
        else if not request
        then mismatch
        else if not time
        then schedule_drift
        else if not policy
        then policy_drift
        else if not quality || not duplicates
        then snapshot_drift
        else if not ready
        then unready why
        else if not named
        then snapshot_drift
        else valid)
      ≡ valid
    → (row ≡ true)
      × (expired ≡ false)
      × (content ≡ true)
      × (approval ≡ true)
      × (board ≡ true)
      × (request ≡ true)
      × (time ≡ true)
      × (quality ≡ true)
      × (duplicates ≡ true)
      × (ready ≡ true)
guards_passed status row provider expired content approval board request time policy quality
      duplicates ready named in_status why h =
    (
      ground arith,
      ground arith,
      ground arith,
      ground arith,
      ground arith,
      ground arith,
      ground arith,
      ground arith,
      ground arith,
      ground arith,
    )

validate_held-Agrees :
    (s : PermitServices) (p : Publication) (now : ℕ) (permit : Permit)
    → validate_held s p permit now PublicationStatus.scheduled true PermitStatus.active ≡ valid
    → Agrees s p now permit
unfolding validate_held
validate_held-Agrees s p now permit h =
    let readiness = readiness_of s p now PublicationStatus.scheduled true in
    let (row, expired, content, approval, board, request, time, quality, duplicates, ready) =
      guards_passed (permit_status_eq permit.status PermitStatus.active)
        (permit.publication_id == p.id) (str_eq permit.dispatch_provider "buffer")
        (leb permit.expires_at now)
        (str_eq permit.publication_fingerprint p.publication_fingerprint)
        (opt_eq permit.approval_id p.approval_id)
        (opt_eq permit.pinterest_board_record_id p.pinterest_board_record_id)
        (permit.request_fingerprint == request_fingerprint s.env p)
        (same_schedule permit.scheduled_for_snapshot p.scheduled_for)
        (str_eq permit.quality_policy_version quality_v1)
        (same_quality (quality_of s p) permit.quality_snapshot)
        (same_evaluation (duplicate_of s.base p) permit.duplicate_snapshot) readiness.ready
        (text_eq permit.readiness_snapshot.dispatch_provider readiness.dispatch_provider)
        permit.status readiness.status h in
    record {
      row = row;
      in_time = expired;
      content = content;
      approval = approval;
      board = board;
      request = request;
      time = time;
      quality = quality;
      duplicates = duplicates;
      ready = ready;
    }

-- The dispatch for which a created permit is found valid, at any later state of the database.
pub record StillPermitted (s : PermitServices) (p : Publication) (now : ℕ)
    (created_for : Publication) (created_in : PermitServices) (created_at : ℕ) : Type 0 where
  pub same_row : created_for.id ≡ p.id
  pub same_content : created_for.publication_fingerprint ≡ p.publication_fingerprint
  pub same_approval : created_for.approval_id ≡ p.approval_id
  pub same_board : created_for.pinterest_board_record_id ≡ p.pinterest_board_record_id
  pub same_request : request_fingerprint created_in.env created_for ≡ request_fingerprint s.env p
  pub same_time :
      (t : Datetime) × (u : Datetime) × (created_for.scheduled_for ≡ some t)
      × (p.scheduled_for ≡ some u)
      × (utc_instant t ≡ utc_instant u)
      × (now < max (created_at + 86400) (utc_instant t + 7200))
  pub no_pending : has_pending_media s p ≡ false
  pub good : quality_passes (quality_of s p) ≡ true
  pub single : duplicate_safe (duplicate_of s.base p) ≡ true
  pub ready : (readiness_of s p now PublicationStatus.scheduled true).ready ≡ true

same_schedule-inv :
    (snapshot : ℕ) (o : Option Datetime)
    → same_schedule snapshot o ≡ true
    → (u : Datetime) × (o ≡ some u) × (snapshot ≡ utc_instant u)
same_schedule-inv snapshot none h = absurd (cc)
same_schedule-inv snapshot (some u) h = (u, refl, ground arith)

new_permit-StillPermitted :
    (s : PermitServices) (id : ℕ) (p : Publication) (t : Datetime) (actor : String) (now : ℕ)
    (s' : PermitServices) (p' : Publication) (later : ℕ)
    → p.scheduled_for ≡ some t
    → quality_passes (quality_of s p) ≡ true
    → duplicate_safe (duplicate_of s.base p) ≡ true
    → has_pending_media s' p' ≡ false
    → Agrees s' p' later (new_permit s id p t actor now)
    → StillPermitted s' p' later p s now
unfolding new_permit
new_permit-StillPermitted s id p t actor now s' p' later e good single no_pending a =
    let (u, f, same) = same_schedule-inv (utc_instant t) p'.scheduled_for a.time in
    let row = a.row in
    let in_time = a.in_time in
    let request = a.request in
    record {
      same_row = ground arith;
      same_content = (eq_iff p.publication_fingerprint p'.publication_fingerprint).0 a.content;
      same_approval = (opt_eq_iff p.approval_id p'.approval_id).0 a.approval;
      same_board = (opt_eq_iff p.pinterest_board_record_id p'.pinterest_board_record_id).0 a.board;
      same_request = ground arith;
      same_time = (t, u, e, f, same, ground arith);
      no_pending = no_pending;
      good = same_quality-passes (quality_of s' p') (quality_of s p) a.quality good;
      single =
          same_evaluation-safe (duplicate_of s'.base p') (duplicate_of s.base p) a.duplicates
            single;
      ready = a.ready;
    }

-- Whatever has happened to the database and the publication since, a created permit is valid for the
-- worker only for the same row, with the same content, approval, board, request and time, before it
-- expires, and only if no canary media is pending and the publication passes the quality rules, has
-- no duplicate and is ready.
pub valid_permit-StillPermitted :
    (s : PermitServices) (id : ℕ) (p : Publication) (actor : String) (now : ℕ) (commit : Bool)
    (meanwhile : List Permit) (rows : PermitRows) (permit : Permit) (s' : PermitServices)
    (p' : Publication) (later : ℕ)
    → (create_permit s id p actor now commit meanwhile rows).0 ≡ ok permit
    → validate_permit s' p' (some permit) later PublicationStatus.scheduled true PermitStatus.active
      ≡ valid
    → StillPermitted s' p' later p s now
unfolding validate_permit
valid_permit-StillPermitted s id p actor now commit meanwhile rows permit s' p' later h v =
    let c = create_permit-Permitted s id p actor now commit meanwhile rows permit h in
    elim (Bool-cases (has_pending_media s' p')) [
      | inl pending ↦ absurd (cc (rw pending at v))
      | inr no_pending ↦
          let held = validate_held-Agrees s' p' later permit (rw no_pending at v) in
          new_permit-StillPermitted s id p c.scheduled_for actor now s' p' later c.timed c.good
            c.single no_pending (rw c.bound at held)
    ]
