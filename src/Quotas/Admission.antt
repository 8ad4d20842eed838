-- ===== src/Quotas/Admission.antt =====
-- backend/app/services/routine_scheduled_admission.py: the reservation and the claim of a publication,
-- together or not at all.
pub mod Admitted
use sm_poster.Quotas.Calendar.{Date}
use sm_poster.Prelude.{
  ℕ, String, Bool, true, false, not, ◌&&◌, ◌||◌, Option, none, some, List, [], ◌∷◌, map, count_if,
  ltb, leb, ◌==◌, str_eq, text_eq, if◌then◌else◌,
}
use sm_poster.Domain.{PublicationStatus, status_eq}
use sm_poster.Quotas.Envelope.{
  Limits, Plan, Result, Settings, ◌>>=◌, ◌>>◌, raise_if, scheduled_quota_limits, commitment_stale,
  commitment_ambiguous, database_unsupported, control_row_missing, local_canary_media_pending,
  publication_not_claimable, claim_lost, admission_inconsistent, ok, err,
}
use sm_poster.Quotas.Ledger.{Counts, Database, Request, Reservation}
use sm_poster.Quotas.Reserve.{reserve_scheduled_quota}
use sm_poster.Quotas.Lineage.{CommitmentRow}
use sm_poster.Quotas.Commitments.{CommitmentAssessment, assess_scheduled_quota_with_commitments}

-- The row of the first query: the item with its plan, product and publication. `scheduled_at` is the
-- instant of the publication's time, and `scheduled_day` its date in UTC.
pub record AdmissionRow : Type 0 where
  pub item_publication_id : Option String
  pub plan_id : String
  pub item_id : String
  pub product_id : String
  pub board_id : String
  pub plan : Plan
  pub vendor : String
  pub publication_status : PublicationStatus
  pub scheduled_at : Option ℕ
  pub scheduled_day : Date

-- What the service reads and writes: the ledger, the joined rows of the commitments, and the times of
-- the publications.
pub record AdmissionState : Type 0 where
  pub db : Database
  pub rows : List CommitmentRow

pub record ScheduledAdmission : Type 0 where
  pub publication_id : String
  pub plan_item_id : String
  pub reservation : Reservation
  pub already_reserved : Bool
  pub used : Counts

unfoldable pub same_counts : Counts → Counts → Bool
same_counts a b =
    a.daily == b.daily
    && a.monthly == b.monthly
    && a.product == b.product
    && a.vendor == b.vendor
    && a.board == b.board

abbrev pub is_due_at : ℕ → Option ℕ → Bool
is_due_at now none = false
is_due_at now (some t) = leb t now

-- The condition of the claim's update.
abbrev pub is_claimable_row : ℕ → String → CommitmentRow → Bool
is_claimable_row now id row =
    str_eq row.publication_id id
    && status_eq row.status PublicationStatus.scheduled
    && is_due_at now row.scheduled_at

-- The update of the claim.
unfoldable pub claim_row : ℕ → String → CommitmentRow → CommitmentRow
claim_row now id row =
    if is_claimable_row now id row
    then record row { status = PublicationStatus.publishing }
    else row

unfoldable pub request_of : String → AdmissionRow → Request
request_of publication_id row = record {
  publication_id = publication_id;
  plan_id = row.plan_id;
  plan_item_id = row.item_id;
  product_id = row.product_id;
  vendor_key = row.vendor;
  board_id = row.board_id;
  scheduled_for = row.scheduled_day;
}

module _ (normalize : String → String) where
  -- The nested transaction: the reservation, the claim and the check of both.
  unfoldable pub reserve_and_claim :
      AdmissionState → Request → Limits → Counts → ℕ → Result (Reservation × AdmissionState)
  unfolding claim_row same_counts
  reserve_and_claim s r limits used now = do
    (reservation, ledger) ← reserve_scheduled_quota normalize s.db r limits
    raise_if (not (count_if (is_claimable_row now r.publication_id) s.rows == 1)) claim_lost
    let next : AdmissionState = record {
      db = record s.db { ledger = ledger };
      rows = map (claim_row now r.publication_id) s.rows;
    }
    after ← assess_scheduled_quota_with_commitments normalize next.db next.rows r limits
    raise_if (not after.already_reserved || not (same_counts after.used used))
        admission_inconsistent
    ok (reservation, next)

  unfoldable pub admit_row :
      AdmissionState
      → String
      → AdmissionRow
      → Settings
      → ℕ
      → Result (ScheduledAdmission × AdmissionState)
  unfolding reserve_and_claim request_of
  admit_row s publication_id row settings now = do
    raise_if (not (text_eq row.item_publication_id (some publication_id))) commitment_ambiguous
    raise_if
        (not (status_eq row.publication_status PublicationStatus.scheduled)
          || not (is_due_at now row.scheduled_at))
        publication_not_claimable
    limits ← scheduled_quota_limits (some row.plan) settings row.scheduled_day
    before ←
        assess_scheduled_quota_with_commitments normalize s.db s.rows
          (request_of publication_id row) limits
    raise_if (not before.already_committed) commitment_stale
    (reservation, next) ← reserve_and_claim s (request_of publication_id row) limits before.used now
    ok (
      record {
        publication_id = publication_id;
        plan_item_id = row.item_id;
        reservation = reservation;
        already_reserved = before.already_reserved;
        used = before.used;
      },
      next,
    )

  abbrev pub with_row :
      AdmissionState
      → String
      → Option AdmissionRow
      → Settings
      → ℕ
      → Result (ScheduledAdmission × AdmissionState)
  with_row s publication_id none settings now = err commitment_ambiguous
  with_row s publication_id (some row) settings now = admit_row s publication_id row settings now

  -- `pending` is the answer of the canary media check, and `row` of the first query.
  unfoldable pub admit_scheduled_publication :
      AdmissionState
      → Bool
      → String
      → Option AdmissionRow
      → Settings
      → ℕ
      → Result (ScheduledAdmission × AdmissionState)
  unfolding admit_row
  admit_scheduled_publication s pending publication_id row settings now = do
    raise_if (not s.db.is_postgresql) database_unsupported
    raise_if (not s.db.control_row) control_row_missing
    raise_if pending local_canary_media_pending
    with_row s publication_id row settings now
