-- ===== src/Quotas/Commitments/Counted.antt =====
-- What an assessment with commitments has counted, and what it has checked.
use sm_poster.Prelude.{
  ℕ, ◌+◌, ◌≡◌, refl, ◌∙◌, String, Bool, true, false, not, ◌&&◌, List, [], arith, All, all, count_if,
  length, ltb, keep,
}
use sm_poster.Quotas.Envelope.{
  Limits, ◌>>◌, raise_if, ok, commitment_stale, commitments_too_large, existing_limit_exceeded,
}
use sm_poster.Quotas.Ledger.{Database, Request, Reservation, reservation_identity}
use sm_poster.Quotas.Reserve.{Assessment, assess_scheduled_quota, exceeds}
use sm_poster.Quotas.Lineage.{CommitmentRow}
use sm_poster.Quotas.Commitments.{
  CommitmentAssessment, Tally, add_counts, assess_scheduled_quota_with_commitments, request_again,
  commitment_rows, is_seen, ledger_of_rows, no_counts, tally_rows, tally_commitments,
  finish_commitments, of_month, max_commitments_to_validate,
}
use sm_poster.Quotas.Commitments.Rounds.{
  bind-ok, raise-ok, ok-inj, takes_slot, IsSettled, tally_rows-IsSettled,
}

added : (b t c : ℕ) → t ≡ 0 + c → b + t ≡ b + c
added b t c h = omega arith

same_monthly :
    (x a : CommitmentAssessment) → x ≡ a → (n : ℕ) → x.used.monthly ≡ n → a.used.monthly ≡ n
same_monthly x a e n h = rw (← e) h

abbrev pub Within : Limits → CommitmentAssessment → Type 0
Within limits a = a.already_committed ≡ true → exceeds a.used limits ≡ false

same-Within :
    (limits : Limits) (x a : CommitmentAssessment) → x ≡ a → Within limits x → Within limits a
same-Within limits x a e h = rw (← e) h

module _ (normalize : String → String) where
  commitment_limit :
      (committed over : Bool) → (committed && over) ≡ false → committed ≡ true → over ≡ false
  commitment_limit committed over h k = ground arith

  -- What an assessment that returned `a` rests on.
  pub record IsReconciled (db : Database) (all_rows : List CommitmentRow) (r : Request)
      (limits : Limits) (a : CommitmentAssessment) : Type 0 where
    pub identity : Reservation
    pub base : Assessment
    pub named : reservation_identity normalize r ≡ ok identity
    pub assessed :
        assess_scheduled_quota normalize db (request_again normalize identity) limits ≡ ok base
    pub settled :
        let rows = commitment_rows normalize identity.month_start db.ledger all_rows in
        All
          (IsSettled normalize identity.month_start
            (ledger_of_rows normalize identity.month_start rows db.ledger))
          rows
    pub monthly :
        let rows = commitment_rows normalize identity.month_start db.ledger all_rows in
        a.used.monthly
        ≡ base.used.monthly
          + count_if
              (takes_slot (ledger_of_rows normalize identity.month_start rows db.ledger))
              rows
    pub within : a.already_committed ≡ true → exceeds a.used limits ≡ false

  record Finished (limits : Limits) (base : Assessment) (tally : Tally) (a : CommitmentAssessment)
      : Type 0 where
    monthly : a.used.monthly ≡ base.used.monthly + tally.extra.monthly
    within : Within limits a

  finish-Finished :
      (id : String) (limits : Limits) (ledger : List Reservation) (base : Assessment)
      (tally : Tally) (a : CommitmentAssessment)
      → finish_commitments id limits ledger base tally ≡ ok a
      → Finished limits base tally a
  unfolding finish_commitments
  finish-Finished id limits ledger base tally a h =
      let over = exceeds (add_counts base.used tally.extra) limits in
      let (c1, h1) =
        raise-ok (not (all (λ x. is_seen x.publication_id tally.seen) ledger)) commitment_stale _ a
          h in
      let (c2, h2) = raise-ok (not (is_seen id tally.seen)) commitment_stale _ a h1 in
      let (c3, h3) = raise-ok (tally.already_committed && over) existing_limit_exceeded _ a h2 in
      let result = ok-inj _ a h3 in
      record {
        monthly = same_monthly _ a result _ refl;
        within =
            same-Within limits _ a result (λ k. commitment_limit tally.already_committed over c3 k);
      }

  record Tallied (limits : Limits) (identity : Reservation) (base : Assessment)
      (rows : List CommitmentRow) (ledger : List Reservation) (a : CommitmentAssessment)
      : Type 0 where
    settled : All (IsSettled normalize identity.month_start ledger) rows
    monthly : a.used.monthly ≡ base.used.monthly + count_if (takes_slot ledger) rows
    within : Within limits a

  tally-Tallied :
      (r : Request) (limits : Limits) (identity : Reservation) (base : Assessment)
      (rows : List CommitmentRow) (ledger : List Reservation) (a : CommitmentAssessment)
      → tally_commitments normalize r limits identity base rows ledger ≡ ok a
      → Tallied limits identity base rows ledger a
  unfolding tally_commitments
  tally-Tallied r limits identity base rows ledger a h =
      let start : Tally = record { seen = []; extra = no_counts; already_committed = false } in
      let (c1, h1) =
        raise-ok (ltb max_commitments_to_validate (length ledger)) commitments_too_large _ a h in
      let (tally, counted, h2) =
        bind-ok (tally_rows normalize identity ledger rows start)
          (finish_commitments r.publication_id limits ledger base) a h1 in
      let (settled, monthly) =
        tally_rows-IsSettled normalize identity ledger rows start tally counted in
      let finished = finish-Finished r.publication_id limits ledger base tally a h2 in
      record {
        settled = settled;
        monthly =
            finished.monthly
            ∙ added base.used.monthly tally.extra.monthly (count_if (takes_slot ledger) rows)
                monthly;
        within = finished.within;
      }

  assess_rest :
      (db : Database) (all_rows : List CommitmentRow) (r : Request) (limits : Limits)
      (identity : Reservation) (base : Assessment) (a : CommitmentAssessment)
      → (raise_if
            (ltb max_commitments_to_validate
              (length (keep (of_month identity.month_start) db.ledger)))
            commitments_too_large
          >> (raise_if
                (ltb max_commitments_to_validate
                  (length (commitment_rows normalize identity.month_start db.ledger all_rows)))
                commitments_too_large
              >> tally_commitments normalize r limits identity base
                  (commitment_rows normalize identity.month_start db.ledger all_rows)
                  (ledger_of_rows normalize identity.month_start
                    (commitment_rows normalize identity.month_start db.ledger all_rows)
                    db.ledger)))
        ≡ ok a
      → Tallied limits identity base
          (commitment_rows normalize identity.month_start db.ledger all_rows)
          (ledger_of_rows normalize identity.month_start
            (commitment_rows normalize identity.month_start db.ledger all_rows)
            db.ledger)
          a
  assess_rest db all_rows r limits identity base a h =
      let (c1, h1) =
        raise-ok
          (ltb max_commitments_to_validate
            (length (keep (of_month identity.month_start) db.ledger)))
          commitments_too_large _ a h in
      let (c2, h2) =
        raise-ok
          (ltb max_commitments_to_validate
            (length (commitment_rows normalize identity.month_start db.ledger all_rows)))
          commitments_too_large _ a h1 in
      tally-Tallied r limits identity base _ _ a h2

  -- An assessment with commitments that answers has accounted for the month: every row of it is a
  -- cancelled publication without a reservation, or its lineage names one identity, which is that of
  -- its reservation if there is one; the pins that it counts for the month are those of the ledger and
  -- one for each commitment without a reservation; and a publication that is already committed is
  -- within all limits.
  pub assess_scheduled_quota_with_commitments-IsReconciled :
      (db : Database) (all_rows : List CommitmentRow) (r : Request) (limits : Limits)
      (a : CommitmentAssessment)
      → assess_scheduled_quota_with_commitments normalize db all_rows r limits ≡ ok a
      → IsReconciled db all_rows r limits a
  unfolding assess_scheduled_quota_with_commitments
  assess_scheduled_quota_with_commitments-IsReconciled db all_rows r limits a h =
      let (identity, named, h1) = bind-ok (reservation_identity normalize r) _ a h in
      let (base, assessed, h2) =
        bind-ok (assess_scheduled_quota normalize db (request_again normalize identity) limits) _ a
          h1 in
      let tallied = assess_rest db all_rows r limits identity base a h2 in
      record {
        identity = identity;
        base = base;
        named = named;
        assessed = assessed;
        settled = tallied.settled;
        monthly = tallied.monthly;
        within = tallied.within;
      }
