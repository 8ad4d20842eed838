-- ===== src/Quotas/Agreement.antt =====
-- The read-only assessment and the reservation give the same answer.
use sm_poster.Prelude.{
  ◌≡◌, refl, inl, inr, String, Bool, true, false, Option, none, some, List, [], ◌∷◌, ◌++◌, ◌∙◌,
  arith, ◌||◌, ◌&&◌, is_some, Bool-cases,
}
use sm_poster.Quotas.Envelope.{
  Limits, Result, ok, err, limits_ok, existing_limit_exceeded, raise_if, ◌>>◌,
}
use sm_poster.Quotas.Ledger.{
  Database, Reservation, Request, Counts, quota_usage, reservation_identity,
}
use sm_poster.Quotas.Reserve.{
  Assessment, check_limits, settle, assess_scheduled_quota, reserve_scheduled_quota, exceeds,
  all_positive, remaining_of,
}
use sm_poster.Quotas.Caps.{check-cases}

abbrev pub is_ok : {A : Type 0} → Result A → Bool
is_ok (ok a) = true
is_ok (err e) = false

abbrev pub answer : Result Assessment → Bool
answer (ok a) = a.already_reserved || a.can_reserve
answer (err e) = false

check_limits-all_positive :
    (c : Counts) (l : Limits) → is_ok (check_limits c l) ≡ all_positive (remaining_of c l)
unfolding check_limits
check_limits-all_positive c l = ground arith

module _ (normalize : String → String) (db : Database) (l : Limits) (identity : Reservation) where
  abbrev assessed : Counts → Option Reservation → Result Assessment
  assessed c existing = do
    raise_if (is_some existing && exceeds c l) existing_limit_exceeded
    ok (record {
      used = c;
      remaining = remaining_of c l;
      can_reserve = all_positive (remaining_of c l);
      already_reserved = is_some existing;
    })

  then_ok :
      (r : Result (Unit {0}))
      → is_ok {A = Reservation × List Reservation} (r >> ok (identity, db.ledger ++ identity ∷ []))
        ≡ is_ok r
  then_ok (ok t) = refl
  then_ok (err e) = refl

  settle_agrees :
      (c : Counts) (existing : Option Reservation)
      → db.refuses_row ≡ false
      → is_ok (settle normalize db l identity c existing) ≡ answer (assessed c existing)
  unfolding settle
  settle_agrees c none accepts =
      rw accepts (then_ok (check_limits c l) ∙ check_limits-all_positive c l)
  settle_agrees c (some row) accepts = elim (Bool-cases (exceeds c l)) [
    | inl over ↦ rw over
    | inr within ↦ rw within
  ]

-- On PostgreSQL, with the control row in place and where the database does not refuse the new row, a
-- reservation succeeds exactly when the read-only assessment of the same request and limits says
-- that the publication has its reservation already or that one can be made.
pub reserve_agrees_with_assess :
    (normalize : String → String) (db : Database) (r : Request) (l : Limits)
    → db.is_postgresql ≡ true
    → db.control_row ≡ true
    → db.refuses_row ≡ false
    → is_ok (reserve_scheduled_quota normalize db r l)
      ≡ answer (assess_scheduled_quota normalize db r l)
unfolding reserve_scheduled_quota assess_scheduled_quota
reserve_agrees_with_assess normalize db r l dialect control accepts =
    rw (dialect, control, accepts)
      (elim (check-cases (reservation_identity normalize r)) [
        | inr (x, e) ↦ rw e
        | inl (identity, e) ↦ rw e (elim (Bool-cases (limits_ok l)) [
          | inr bad ↦ rw bad
          | inl good ↦ rw good (elim (check-cases (quota_usage normalize db.ledger identity)) [
            | inr (x, u) ↦ rw u
            | inl ((c, existing), u) ↦ rw u (
                settle_agrees normalize
                  (record {
                    ledger = db.ledger;
                    control_row = true;
                    is_postgresql = true;
                    refuses_row = false;
                  })
                  l identity c existing refl)
          ])
        ])
      ])
