-- ===== src/Examples/Admitting.antt =====
-- The admission of a publication that is due and has no reservation yet.
use sm_poster.Prelude.{◌≡◌, refl, String, true, false, some, none, [], ◌∷◌}
use sm_poster.Domain.{scheduled, publishing}
use sm_poster.Quotas.Calendar.{Date, date_eq, date_lt, date_le, first_of_month, following_month}
use sm_poster.Quotas.Envelope.{Limits, Settings, Share, ok, scheduled_quota_limits, share_limit}
use sm_poster.Quotas.Ledger.{
  Counts, Reservation, reservation_identity, quota_usage, counts_of, row_consistent, same_identity,
}
use sm_poster.Quotas.Reserve.{reserve_scheduled_quota, assess_scheduled_quota, settle, check_limits}
use sm_poster.Quotas.Lineage.{
  CommitmentRow, ItemStatus, PlanState, canonical_identity, lineage_agrees, resolved_identity,
}
use sm_poster.Quotas.Commitments.{
  CommitmentAssessment, assess_scheduled_quota_with_commitments, commitment_rows, count_extra,
  finish_commitments, is_commitment_row, ledger_of_rows, reserved_for, tally_commitments, tally_row,
  tally_rows,
}
use sm_poster.Quotas.Commitments.Counted.{
  IsReconciled, assess_scheduled_quota_with_commitments-IsReconciled,
}
use sm_poster.Quotas.Admission.{
  AdmissionRow, AdmissionState, ScheduledAdmission, admit_row, admit_scheduled_publication,
  claim_row, request_of, reserve_and_claim, same_counts,
}
use sm_poster.Quotas.Admission.Admitted.{IsAdmitted, admit_scheduled_publication-IsAdmitted}

abbrev day : Date
day = record { year = 2026; month = 3; day = 14 }

abbrev first_day : Date
first_day = record { year = 2026; month = 3; day = 1 }

abbrev last_day : Date
last_day = record { year = 2026; month = 3; day = 31 }

abbrev row : CommitmentRow
row = record {
  publication_id = "publication";
  status = scheduled;
  scheduled_at = some 50;
  scheduled_day = some day;
  publication_board_id = none;
  has_draft = true;
  concept = some (record {
    store_id = "store";
    product_id = "product";
    board_id = some "board";
    angle_id = "angle";
  });
  item = some (record {
    id = "item";
    publication_id = some "publication";
    plan_id = "plan";
    planned_date = some day;
    product_id = "product";
    local_board_id = "board";
    board_key_snapshot = "perfumes";
    angle_id = "angle";
    is_reserve = false;
    status = ItemStatus.is_scheduled;
  });
  plan = some (record {
    id = "plan";
    store_id = "store";
    month_start = first_day;
    month_end = last_day;
    status = PlanState.is_active;
  });
  product = some (record { id = "product"; store_id = "store"; vendor = some "vendor" });
  board = some (record { id = "board"; store_id = "store"; slug = "perfumes"; is_active = true });
}

abbrev state : AdmissionState
state = record {
  db = record { ledger = []; control_row = true; is_postgresql = true; refuses_row = false };
  rows = row ∷ [];
}

abbrev admission_row : AdmissionRow
admission_row = record {
  item_publication_id = some "publication";
  plan_id = "plan";
  item_id = "item";
  product_id = "product";
  board_id = "board";
  plan = record { month_start = first_day; month_end = last_day; target_pins = 20 };
  vendor = "vendor";
  publication_status = scheduled;
  scheduled_at = some 50;
  scheduled_day = day;
}

abbrev quarter : Share
quarter = record { numerator = 1; scale = 4 }

abbrev settings : Settings
settings = record {
  monthly_pin_target = 150;
  daily_write_limit = 1;
  max_pins_per_product = 3;
  max_vendor_share = quarter;
  max_board_share = quarter;
}

abbrev as_written : String → String
as_written s = s

abbrev ones : Counts
ones = record { daily = 1; monthly = 1; product = 1; vendor = 1; board = 1 }

abbrev reserved : Reservation
reserved = record {
  publication_id = "publication";
  plan_id = "plan";
  plan_item_id = "item";
  product_id = "product";
  vendor_key = "vendor";
  board_id = "board";
  scheduled_for = day;
  month_start = first_day;
}

abbrev admission : ScheduledAdmission
admission = record {
  publication_id = "publication";
  plan_item_id = "item";
  reservation = reserved;
  already_reserved = false;
  used = ones;
}

abbrev claimed_state : AdmissionState
claimed_state = record {
  db = record {
    ledger = reserved ∷ [];
    control_row = true;
    is_postgresql = true;
    refuses_row = false;
  };
  rows = record row { status = publishing } ∷ [];
}

admits :
    admit_scheduled_publication as_written state false "publication"
      (some admission_row)
      settings
      60
    ≡ ok (admission, claimed_state)
unfolding admit_scheduled_publication admit_row reserve_and_claim request_of claim_row same_counts
    scheduled_quota_limits share_limit assess_scheduled_quota_with_commitments commitment_rows
    is_commitment_row ledger_of_rows tally_commitments finish_commitments tally_rows tally_row
    canonical_identity resolved_identity lineage_agrees reserved_for count_extra
    reserve_scheduled_quota assess_scheduled_quota settle check_limits reservation_identity
    quota_usage counts_of row_consistent same_identity date_eq date_lt date_le first_of_month
    following_month
admits = refl

admit_scheduled_publication-IsAdmitted_example :
    IsAdmitted as_written state false "publication" admission_row settings admission claimed_state
admit_scheduled_publication-IsAdmitted_example =
    admit_scheduled_publication-IsAdmitted as_written state false "publication" admission_row
      settings 60 admission claimed_state admits

abbrev assessment : CommitmentAssessment
assessment = record {
  used = ones;
  remaining = record { daily = 0; monthly = 19; product = 2; vendor = 4; board = 4 };
  can_reserve = false;
  already_reserved = false;
  already_committed = true;
}

abbrev limits : Limits
limits = record { daily = 1; monthly = 20; product = 3; vendor = 5; board = 5 }

assesses :
    assess_scheduled_quota_with_commitments as_written state.db state.rows
      (request_of "publication" admission_row)
      limits
    ≡ ok assessment
unfolding request_of assess_scheduled_quota_with_commitments commitment_rows is_commitment_row
    ledger_of_rows tally_commitments finish_commitments tally_rows tally_row canonical_identity
    resolved_identity lineage_agrees reserved_for count_extra assess_scheduled_quota
    reservation_identity quota_usage counts_of row_consistent same_identity date_eq date_lt date_le
    first_of_month following_month
assesses = refl

assess_scheduled_quota_with_commitments-IsReconciled_example :
    IsReconciled as_written state.db state.rows
      (request_of "publication" admission_row)
      limits
      assessment
assess_scheduled_quota_with_commitments-IsReconciled_example =
    assess_scheduled_quota_with_commitments-IsReconciled as_written state.db state.rows
      (request_of "publication" admission_row) limits assessment assesses
