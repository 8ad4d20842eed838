-- ===== src/Authorization/Store.antt =====
-- The rows of authorizations: expiry, revocation and creation.
use sm_poster.Prelude.{
  ℕ, ◌+◌, String, Bool, true, false, not, ◌&&◌, ◌||◌, Option, none, some, List, [], ◌∷◌, ◌++◌, map,
  any, ◌==◌, leb, ltb, if◌then◌else◌, truthy, count_if, char_count, any_char, has_content,
  is_control, text_take,
}
use sm_poster.Domain.{Db, Publication, scheduled}
use sm_poster.Domain.Time.{aware, utc}
use sm_poster.Duplicates.{Evaluation, DuplicateStatus, evaluate_publication_duplicates}
use sm_poster.Authorization.Readiness.{Manual, ManualStatus, Urls, manual_structural_readiness}

pub data AuthorizationStatus : Type 0 where
  active consumed revoked expired : AuthorizationStatus

abbrev pub is_active : AuthorizationStatus → Bool
is_active AuthorizationStatus.active = true
is_active _ = false

pub data QualityStatus : Type 0 where
  pass warning fail : QualityStatus

-- What `validate_publication_quality` of pinterest_publication_quality.py returns: its verdict, and
-- the rest of the dictionary as text.
pub record Quality : Type 0 where
  pub status : QualityStatus
  pub checks : String

-- Times are instants; the code turns every stored time to UTC before it compares.
pub record Authorization : Type 0 where
  pub id : ℕ
  pub publication_id : ℕ
  pub authorized_by : String
  pub authorized_at : ℕ
  pub publication_fingerprint : String
  pub quality_policy_version : String
  pub quality_snapshot : Quality
  pub readiness_snapshot : Manual
  pub duplicate_snapshot : Evaluation
  pub expires_at : ℕ
  pub revoked_at : Option ℕ
  pub revoke_reason : Option String
  pub status : AuthorizationStatus

pub data AuthorizationError : Type 0 where
  authorized_by_required quality_warning quality_failed active_authorization_exists actor_required
        invalid_revoke_reason authorization_not_active :
      AuthorizationError
  duplicate : DuplicateStatus → AuthorizationError
  not_ready : ManualStatus → AuthorizationError

pub data Result : Type 0 where
  ok : Authorization → Result
  raised : AuthorizationError → Result

-- The rows that are committed, and those of the session.
pub record Rows : Type 0 where
  pub durable : List Authorization
  pub working : List Authorization

-- What the service calls, in the database as it is: the other tables, the quality rules and the urls.
pub record Services : Type 0 where
  pub db : Db
  pub urls : Urls
  pub quality : Publication → String → Quality

-- `timedelta(minutes=15)`, in seconds.
abbrev pub authorization_ttl : ℕ
authorization_ttl = 900

abbrev pub quality_v1 : String
quality_v1 = "PINTEREST_QUALITY_V1"

abbrev pub active_of : ℕ → Authorization → Bool
active_of publication_id a = is_active a.status && (a.publication_id == publication_id)

abbrev pub expire_row : ℕ → ℕ → Authorization → Authorization
expire_row publication_id now a =
    if active_of publication_id a && leb a.expires_at now
    then record a { status = AuthorizationStatus.expired }
    else a

unfoldable pub expire_stale_active_authorizations : ℕ → ℕ → List Authorization → List Authorization
expire_stale_active_authorizations publication_id now = map (expire_row publication_id now)

-- `uq_publication_dispatch_authorizations_active`, for the rows of one publication.
abbrev pub index_holds : ℕ → List Authorization → Bool
index_holds publication_id rows = leb (count_if (active_of publication_id) rows) 1

abbrev pub manual_of : Services → Publication → ℕ → String → Manual
manual_of s p now provider =
    manual_structural_readiness s.urls s.db p (aware now utc) scheduled true provider

abbrev pub duplicate_of : Services → Publication → Evaluation
duplicate_of s p = evaluate_publication_duplicates true s.db p

unfoldable pub new_authorization : Services → ℕ → Publication → String → ℕ → String → Authorization
new_authorization s id p actor now provider = record {
  id = id;
  publication_id = p.id;
  authorized_by = actor;
  authorized_at = now;
  publication_fingerprint = p.publication_fingerprint;
  quality_policy_version = quality_v1;
  quality_snapshot = s.quality p provider;
  readiness_snapshot = manual_of s p now provider;
  duplicate_snapshot = duplicate_of s p;
  expires_at = now + authorization_ttl;
  revoked_at = none;
  revoke_reason = none;
  status = AuthorizationStatus.active;
}

abbrev pub quality_passes : Quality → Bool
quality_passes q = elim q.status [ pass ↦ true | warning ↦ false | fail ↦ false ]

abbrev quality_error : Quality → AuthorizationError
quality_error q = elim q.status [
  | pass ↦ quality_failed
  | warning ↦ quality_warning
  | fail ↦ quality_failed
]

abbrev pub duplicate_safe : Evaluation → Bool
duplicate_safe e = elim e.status [
  | DuplicateStatus.safe_to_continue ↦ true
  | DuplicateStatus.already_published ↦ false
  | DuplicateStatus.unknown_outcome_blocks_retry ↦ false
  | DuplicateStatus.duplicate_publication ↦ false
  | DuplicateStatus.possible_duplicate_pin ↦ false
]

-- The insert and its commit. `meanwhile` are rows that other sessions have committed since the check;
-- with one of them active the index refuses the insert, and the session is rolled back.
unfoldable pub insert_authorization : Authorization → List Authorization → Rows → Result × Rows
insert_authorization a meanwhile rows =
    let after = (rows.working ++ meanwhile) ++ a ∷ [] in
    let before = rows.durable ++ meanwhile in
    if index_holds a.publication_id after
    then (ok a, record { durable = after; working = after })
    else (raised active_authorization_exists, record { durable = before; working = before })

-- A call that raises before the commit leaves the expiry in the session, uncommitted.
unfoldable pub create_authorization :
    Services → ℕ → Publication → String → ℕ → String → List Authorization → Rows → Result × Rows
create_authorization s id p actor now provider meanwhile rows =
    let swept = record rows {
      working = expire_stale_active_authorizations p.id now rows.working;
    } in
    let inserted =
      insert_authorization (new_authorization s id p actor now provider) meanwhile swept in
    if not (truthy actor)
    then (raised authorized_by_required, rows)
    else if not (quality_passes (s.quality p provider))
    then (raised (quality_error (s.quality p provider)), swept)
    else if not (duplicate_safe (duplicate_of s p))
    then (raised (duplicate (duplicate_of s p).status), swept)
    else if not (manual_of s p now provider).ready
    then (raised (not_ready (manual_of s p now provider).status), swept)
    else if any (active_of p.id) swept.working
    then (raised active_authorization_exists, swept)
    else inserted

unfoldable pub revoke_reason_bad : String → Bool
revoke_reason_bad reason =
    not (has_content reason) || ltb 255 (char_count reason) || any_char is_control reason

abbrev pub revoke_row : ℕ → String → Authorization → Authorization
revoke_row now reason a = record a {
  status = AuthorizationStatus.revoked;
  revoked_at = some now;
  revoke_reason = some (text_take 255 reason);
}

unfoldable pub set_authorization :
    ℕ → (Authorization → Authorization) → List Authorization → List Authorization
set_authorization id f [] = []
set_authorization id f (a ∷ rows) =
    if a.id == id then f a ∷ rows else a ∷ set_authorization id f rows

-- On the row as the caller holds it; its audit entry, which nothing reads, is left out.
unfoldable pub revoke_authorization : Authorization → String → String → ℕ → Rows → Result × Rows
revoke_authorization a actor reason now rows =
    let after = set_authorization a.id (revoke_row now reason) rows.working in
    if not (truthy actor)
    then (raised actor_required, rows)
    else if revoke_reason_bad reason
    then (raised invalid_revoke_reason, rows)
    else if not (is_active a.status)
    then (raised authorization_not_active, rows)
    else (ok (revoke_row now reason a), record { durable = after; working = after })
