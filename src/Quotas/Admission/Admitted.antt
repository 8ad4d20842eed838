-- ===== src/Quotas/Admission/Admitted.antt =====
-- What an admission has written, and that it uses no more of the quota than the commitment did.
use sm_poster.Prelude.{
  ℕ, suc, ◌+◌, ◌≤◌, ◌≡◌, refl, inl, inr, String, Bool, true, false, not, ◌&&◌, ◌||◌, some, List, [],
  ◌∷◌, arith, map, subst, count_if, ◌==◌, str_eq, text_eq, Bool-cases,
}
use sm_poster.Domain.{PublicationStatus, status_eq}
use sm_poster.Quotas.Envelope.{
  Limits, Settings, scheduled_quota_limits, ok, commitment_stale, commitment_ambiguous,
  database_unsupported, control_row_missing, local_canary_media_pending, publication_not_claimable,
  claim_lost, admission_inconsistent,
}
use sm_poster.Quotas.Ledger.{Counts, Request, Reservation}
use sm_poster.Quotas.Reserve.{exceeds, reserve_scheduled_quota}
use sm_poster.Quotas.Lineage.{CommitmentRow}
use sm_poster.Quotas.Commitments.{CommitmentAssessment, assess_scheduled_quota_with_commitments}
use sm_poster.Quotas.Commitments.Rounds.{bind-ok, raise-ok, ok-inj}
use sm_poster.Quotas.Commitments.Counted.{assess_scheduled_quota_with_commitments-IsReconciled}
use sm_poster.Quotas.Admission.{
  AdmissionRow, AdmissionState, ScheduledAdmission, admit_row, admit_scheduled_publication,
  claim_row, is_claimable_row, is_due_at, request_of, reserve_and_claim, same_counts,
}

-- Every dimension is used as far in the one as in the other.
abbrev pub SameUse : Counts → Counts → Type 0
SameUse c d =
    (c.daily ≡ d.daily)
    × (c.monthly ≡ d.monthly)
    × (c.product ≡ d.product)
    × (c.vendor ≡ d.vendor)
    × (c.board ≡ d.board)

abbrev pub IsUnder : Counts → Limits → Type 0
IsUnder c l =
    (c.daily ≤ l.daily)
    × (c.monthly ≤ l.monthly)
    × (c.product ≤ l.product)
    × (c.vendor ≤ l.vendor)
    × (c.board ≤ l.board)

same_counts-SameUse : (c d : Counts) → same_counts c d ≡ true → SameUse c d
unfolding same_counts
same_counts-SameUse c d h = (ground arith, ground arith, ground arith, ground arith, ground arith)

exceeds-IsUnder : (c : Counts) (l : Limits) → exceeds c l ≡ false → IsUnder c l
exceeds-IsUnder c l h = (ground arith, ground arith, ground arith, ground arith, ground arith)

-- The rows of a publication with a status.
abbrev pub in_status : PublicationStatus → String → CommitmentRow → Bool
in_status status id row = str_eq row.publication_id id && status_eq row.status status

claimed_rows :
    (now : ℕ) (id : String) (rows : List CommitmentRow)
    → count_if (in_status PublicationStatus.publishing id) (map (claim_row now id) rows)
      ≡ count_if (in_status PublicationStatus.publishing id) rows
        + count_if (is_claimable_row now id) rows
unfolding claim_row
claimed_rows now id [] = refl
claimed_rows now id (row ∷ rows) = elim (Bool-cases (is_claimable_row now id row)) [
  | inl hit ↦ rw hit (ground (arith, claimed_rows now id rows))
  | inr miss ↦ rw miss (ground (arith, miss, claimed_rows now id rows))
]

scheduled_rows :
    (now : ℕ) (id : String) (rows : List CommitmentRow)
    → count_if (in_status PublicationStatus.scheduled id) (map (claim_row now id) rows)
        + count_if (is_claimable_row now id) rows
      ≡ count_if (in_status PublicationStatus.scheduled id) rows
unfolding claim_row
scheduled_rows now id [] = refl
scheduled_rows now id (row ∷ rows) = elim (Bool-cases (is_claimable_row now id row)) [
  | inl hit ↦ rw hit (ground (arith, scheduled_rows now id rows))
  | inr miss ↦ rw miss (ground (arith, miss, scheduled_rows now id rows))
]

module _ (normalize : String → String) where
  -- What the nested transaction has done.
  pub record IsClaimed (s : AdmissionState) (r : Request) (limits : Limits) (used : Counts)
      (reservation : Reservation) (next : AdmissionState) : Type 0 where
    pub reserves :
        reserve_scheduled_quota normalize s.db r limits ≡ ok (reservation, next.db.ledger)
    pub is_publishing :
        count_if (in_status PublicationStatus.publishing r.publication_id) next.rows
        ≡ suc (count_if (in_status PublicationStatus.publishing r.publication_id) s.rows)
    pub was_scheduled :
        suc (count_if (in_status PublicationStatus.scheduled r.publication_id) next.rows)
        ≡ count_if (in_status PublicationStatus.scheduled r.publication_id) s.rows
    pub after : CommitmentAssessment
    pub assessed :
        assess_scheduled_quota_with_commitments normalize next.db next.rows r limits ≡ ok after
    pub is_reserved : after.already_reserved ≡ true
    pub same_use : SameUse after.used used

  guard_both : (a b : Bool) → (not a || not b) ≡ false → (a ≡ true) × (b ≡ true)
  guard_both a b h = (ground arith, ground arith)

  found_one : (n : ℕ) → not (n == 1) ≡ false → n ≡ 1
  found_one n h = ground arith

  reserve_and_claim-IsClaimed :
      (s : AdmissionState) (r : Request) (limits : Limits) (used : Counts) (now : ℕ)
      (reservation : Reservation) (next : AdmissionState)
      → reserve_and_claim normalize s r limits used now ≡ ok (reservation, next)
      → IsClaimed s r limits used reservation next
  unfolding reserve_and_claim
  reserve_and_claim-IsClaimed s r limits used now reservation next h =
      let ((made, ledger), reserves, h1) =
        bind-ok (reserve_scheduled_quota normalize s.db r limits) _ (reservation, next) h in
      let once = count_if (is_claimable_row now r.publication_id) s.rows == 1 in
      let (claimed, h2) = raise-ok (not once) claim_lost _ (reservation, next) h1 in
      let written : AdmissionState = record {
        db = record s.db { ledger = ledger };
        rows = map (claim_row now r.publication_id) s.rows;
      } in
      let (after, assessed, h3) =
        bind-ok (assess_scheduled_quota_with_commitments normalize written.db written.rows r limits)
          _ (reservation, next) h2 in
      let (same, h4) =
        raise-ok (not after.already_reserved || not (same_counts after.used used))
          admission_inconsistent _ (reservation, next) h3 in
      let one = found_one (count_if (is_claimable_row now r.publication_id) s.rows) claimed in
      let result = ok-inj (made, written) (reservation, next) h4 in
      let (is_reserved, same_use) =
        guard_both after.already_reserved (same_counts after.used used) same in
      subst (λ (p : Reservation × AdmissionState). IsClaimed s r limits used p.0 p.1) result
        (record {
          reserves = reserves;
          is_publishing = grind (arith, one, claimed_rows now r.publication_id s.rows);
          was_scheduled = grind (arith, one, scheduled_rows now r.publication_id s.rows);
          after = after;
          assessed = assessed;
          is_reserved = is_reserved;
          same_use = same_counts-SameUse after.used used same_use;
        })

  -- What an admission rests on and has done.
  pub record IsAdmitted (s : AdmissionState) (pending : Bool) (publication_id : String)
      (row : AdmissionRow) (settings : Settings) (a : ScheduledAdmission) (next : AdmissionState)
      : Type 0 where
    pub supported : s.db.is_postgresql ≡ true
    pub controlled : s.db.control_row ≡ true
    pub no_pending : pending ≡ false
    pub limits : Limits
    pub allowed : scheduled_quota_limits (some row.plan) settings row.scheduled_day ≡ ok limits
    pub before : CommitmentAssessment
    pub assessed :
        assess_scheduled_quota_with_commitments normalize s.db s.rows
          (request_of publication_id row)
          limits
        ≡ ok before
    pub committed : before.already_committed ≡ true
    pub within : IsUnder before.used limits
    pub claimed : IsClaimed s (request_of publication_id row) limits before.used a.reservation next

  undenied : (b : Bool) → not b ≡ false → b ≡ true
  undenied b h = ground arith

  -- An admission happens only on PostgreSQL, with the control row and without pending canary media,
  -- for a publication that is already among the month's commitments, with no count above its limit.
  -- It reserves the quota and claims the publication: one row of it fewer is `SCHEDULED` and one more
  -- `PUBLISHING`. Assessed again, the publication is reserved, and each of the five counts is equal
  -- to what it was before.
  pub admit_scheduled_publication-IsAdmitted :
      (s : AdmissionState) (pending : Bool) (publication_id : String) (row : AdmissionRow)
      (settings : Settings) (now : ℕ) (a : ScheduledAdmission) (next : AdmissionState)
      → admit_scheduled_publication normalize s pending publication_id (some row) settings now
        ≡ ok (a, next)
      → IsAdmitted s pending publication_id row settings a next
  unfolding admit_scheduled_publication admit_row
  admit_scheduled_publication-IsAdmitted s pending publication_id row settings now a next h =
      let r = request_of publication_id row in
      let (c1, h1) = raise-ok (not s.db.is_postgresql) database_unsupported _ (a, next) h in
      let (c2, h2) = raise-ok (not s.db.control_row) control_row_missing _ (a, next) h1 in
      let (c3, h3) = raise-ok pending local_canary_media_pending _ (a, next) h2 in
      let (c4, h4) =
        raise-ok (not (text_eq row.item_publication_id (some publication_id))) commitment_ambiguous
          _ (a, next) h3 in
      let (c5, h5) =
        raise-ok
          (not (status_eq row.publication_status PublicationStatus.scheduled)
            || not (is_due_at now row.scheduled_at))
          publication_not_claimable _ (a, next) h4 in
      let (limits, allowed, h6) =
        bind-ok (scheduled_quota_limits (some row.plan) settings row.scheduled_day) _ (a, next)
          h5 in
      let (before, assessed, h7) =
        bind-ok (assess_scheduled_quota_with_commitments normalize s.db s.rows r limits) _ (a, next)
          h6 in
      let (c8, h8) = raise-ok (not before.already_committed) commitment_stale _ (a, next) h7 in
      let ((reservation, last), claims, h9) =
        bind-ok (reserve_and_claim normalize s r limits before.used now) _ (a, next) h8 in
      let made : ScheduledAdmission = record {
        publication_id = publication_id;
        plan_item_id = row.item_id;
        reservation = reservation;
        already_reserved = before.already_reserved;
        used = before.used;
      } in
      let result = ok-inj (made, last) (a, next) h9 in
      let committed = undenied before.already_committed c8 in
      let reconciled =
        assess_scheduled_quota_with_commitments-IsReconciled normalize s.db s.rows r limits before
          assessed in
      subst
        (λ (p : ScheduledAdmission × AdmissionState).
          IsAdmitted s pending publication_id row settings p.0 p.1)
        result
        (record {
          supported = undenied s.db.is_postgresql c1;
          controlled = undenied s.db.control_row c2;
          no_pending = c3;
          limits = limits;
          allowed = allowed;
          before = before;
          assessed = assessed;
          committed = committed;
          within = exceeds-IsUnder before.used limits (reconciled.within committed);
          claimed = reserve_and_claim-IsClaimed s r limits before.used now reservation last claims;
        })
