-- ===== src/Examples/Reconciling.antt =====
-- Reconciliation at a publication of unknown outcome.
use sm_poster.Prelude.{◌≡◌, refl, true, some, none, arith}
use sm_poster.Prelude.Table.{get}
use sm_poster.Session.{ok, commit, set_publication}
use sm_poster.Reconciliation.{
  Request, reconcile, apply_verdict, verdict_of, row_verdict, confirm_verdict, reason_bad,
  pin_valid, pin_taken, attempts_of, known_pins, attempt_pins,
}
use sm_poster.Reconciliation.Resolved.{Resolved, reconcile-Resolved}
use sm_poster.Reconciliation.Pins.{PinsUnique, reconcile-PinsUnique}
use sm_poster.Examples.Data.{at, world, unknown}

abbrev confirm : Request
confirm = record {
  actor = "operator";
  action = "PROVIDER_PIN_CONFIRMED";
  confirmed = true;
  provider_pin_id = some "4711";
  reason = none;
}

abbrev nobody : Request
nobody = record confirm { actor = "" }

confirms : (reconcile (at 9) 1 confirm (world unknown)).0 ≡ ok tt
unfolding reconcile apply_verdict verdict_of row_verdict confirm_verdict reason_bad pin_valid
    pin_taken attempts_of known_pins attempt_pins commit set_publication get
confirms = refl

reconcile-Resolved_example :
    Resolved (at 9) 1 confirm (world unknown) (reconcile (at 9) 1 confirm (world unknown)).1
reconcile-Resolved_example = reconcile-Resolved (at 9) 1 confirm (world unknown) confirms

unknown-PinsUnique : PinsUnique unknown.publications
unfolding get
unknown-PinsUnique = record {
  keyed = λ k p found. ground arith;
  unique = λ j k p q pin fj fk ep eq. ground arith;
}

reconcile-PinsUnique_example :
    PinsUnique (reconcile (at 9) 1 confirm (world unknown)).1.durable.publications
reconcile-PinsUnique_example =
    reconcile-PinsUnique (at 9) 1 confirm (world unknown) unknown-PinsUnique confirms
