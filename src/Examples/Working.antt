-- ===== src/Examples/Working.antt =====
-- A run of the routine worker at a concrete input: an outcome that is unknown ends it.
use sm_poster.Prelude.{ℕ, true, false, none, some, String, List, [], ◌∷◌}
use sm_poster.Domain.{PublicationStatus}
use sm_poster.Permits.{PermitValidity}
use sm_poster.Routine.Control.{Control, live}
use sm_poster.Routine.Worker.{
  Counters, Visit, WorkerCode, WorkerSettings, passed, sent, unknown_circuit_breaker,
}

abbrev settings : WorkerSettings
settings = record {
  worker_enabled = true;
  dry_run = false;
  scheduled_autonomy_enabled = false;
  daily_write_limit = 5;
  claim_stale_seconds = 900;
}

abbrev control : Control
control = record {
  state = live;
  pause_reason = none;
  paused_at = none;
  paused_by = none;
  last_unknown_publication_id = none;
}

abbrev visit : PermitValidity → ℕ → PublicationStatus → Visit
visit permit writes status = record {
  permit = permit;
  offline = passed;
  preflight = passed;
  writes = writes;
  attempt = sent status;
}

abbrev visits : List Visit
visits =
    visit PermitValidity.valid 0 PublicationStatus.published
    ∷ visit PermitValidity.permit_expired 1 PublicationStatus.published
    ∷ visit PermitValidity.valid 1 PublicationStatus.publish_unknown
    ∷ visit PermitValidity.valid 2 PublicationStatus.published
    ∷ []

abbrev code_text : WorkerCode → String
code_text code = "CODE"

abbrev counted : Counters
counted = record {
  scanned = 4;
  eligible = 2;
  skipped = 1;
  claimed = 2;
  dispatched = 2;
  published = 1;
  failed = 0;
  unknown = 1;
  error_code = some unknown_circuit_breaker;
}
