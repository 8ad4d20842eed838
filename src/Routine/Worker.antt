-- ===== src/Routine/Worker.antt =====
-- backend/app/services/routine_pinterest_worker.py: `run_once` without a canary, a bounded batch or a
-- target, and without the certificates of the scheduled autonomy.
pub mod Accounts
pub mod Report
use sm_poster.Prelude.{
  ℕ, suc, ◌+◌, String, Bool, true, false, not, ◌&&◌, ◌||◌, Option, none, some, List, [], ◌∷◌,
  length, leb, if◌then◌else◌,
}
use sm_poster.Domain.{PublicationStatus}
use sm_poster.Permits.{PermitValidity}
use sm_poster.Routine.Control.{Control, ControlState, get_control}
use sm_poster.Routine.Runs.{
  Run, RunError, RunResult, RunStatus, worker_already_running, integrity_error, finish_run,
  start_run,
}

pub data Mode : Type 0 where
  dry_mode live_mode : Mode

-- What `run.error_code` is set to.
pub data WorkerCode : Type 0 where
  permit_code : PermitValidity → WorkerCode
  service_code : String → WorkerCode
  daily_limit_reached unknown_circuit_breaker : WorkerCode

-- The answer of a preflight: its evidence, the error that the loop catches, or any other exception.
pub data Check : Type 0 where
  passed crashed : Check
  failed_with : String → Check

-- What `dispatch_routine_buffer` returns or raises.
pub data Attempt : Type 0 where
  sent : PublicationStatus → Attempt
  rejected : String → Attempt
  broke : Attempt

-- What the services answer for one candidate, and the day's writes when they are counted for it.
pub record Visit : Type 0 where
  pub permit : PermitValidity
  pub offline : Check
  pub preflight : Check
  pub writes : ℕ
  pub attempt : Attempt

pub record Counters : Type 0 where
  pub scanned : ℕ
  pub eligible : ℕ
  pub skipped : ℕ
  pub claimed : ℕ
  pub dispatched : ℕ
  pub published : ℕ
  pub failed : ℕ
  pub unknown : ℕ
  pub error_code : Option WorkerCode

abbrev pub no_counters : ℕ → Counters
no_counters n = record {
  scanned = n;
  eligible = 0;
  skipped = 0;
  claimed = 0;
  dispatched = 0;
  published = 0;
  failed = 0;
  unknown = 0;
  error_code = none;
}

-- The loop goes on, breaks, or is left by an exception.
pub data Next : Type 0 where
  go stop : Counters → Next
  unexpected : Next

abbrev pub is_valid : PermitValidity → Bool
is_valid PermitValidity.valid = true
is_valid _ = false

abbrev pub skip : WorkerCode → Counters → Counters
skip code c = record c { skipped = c.skipped + 1; error_code = some code }

-- The status that the dispatch left.
unfoldable pub settle : PublicationStatus → Counters → Next
settle PublicationStatus.published c = go (record c { published = c.published + 1 })
settle PublicationStatus.publish_failed c = go (record c { failed = c.failed + 1 })
settle PublicationStatus.publish_unknown c =
    stop (record c { unknown = c.unknown + 1; error_code = some unknown_circuit_breaker })
settle _ c = go c

unfoldable pub after_attempt : Attempt → Counters → Next
unfolding settle
after_attempt (sent status) c =
    settle status (record c { claimed = c.claimed + 1; dispatched = c.dispatched + 1 })
after_attempt (rejected code) c = go (skip (service_code code) c)
after_attempt broke c = unexpected

-- LIVE: the preflight, the limit of the day's writes, the dispatch.
unfoldable pub after_preflight : ℕ → Visit → Check → Counters → Next
unfolding after_attempt
after_preflight limit v passed c =
    if leb limit v.writes
    then stop (record c { error_code = some daily_limit_reached })
    else after_attempt v.attempt c
after_preflight limit v (failed_with code) c = go (skip (service_code code) c)
after_preflight limit v crashed c = unexpected

-- DRY_RUN: the offline evidence.
abbrev pub after_offline : Check → Counters → Next
after_offline passed c = go c
after_offline (failed_with code) c = go (skip (service_code code) c)
after_offline crashed c = unexpected

abbrev pub visit_eligible : Mode → ℕ → Visit → Counters → Next
visit_eligible dry_mode limit v c = after_offline v.offline c
visit_eligible live_mode limit v c = after_preflight limit v v.preflight c

-- The body of the loop.
unfoldable pub visit_candidate : Mode → ℕ → Visit → Counters → Next
unfolding after_preflight
visit_candidate mode limit v c =
    if not (is_valid v.permit)
    then go (skip (permit_code v.permit) c)
    else visit_eligible mode limit v (record c { eligible = c.eligible + 1 })

abbrev pub after_visit : (Counters → Option Counters) → Next → Option Counters
after_visit go_on (go c) = go_on c
after_visit go_on (stop c) = some c
after_visit go_on unexpected = none

-- The loop; `none` is an exception that leaves it.
unfoldable pub run_candidates : Mode → ℕ → List Visit → Counters → Option Counters
unfolding visit_candidate
run_candidates mode limit [] c = some c
run_candidates mode limit (v ∷ visits) c =
    after_visit (run_candidates mode limit visits) (visit_candidate mode limit v c)

pub record WorkerSettings : Type 0 where
  pub worker_enabled : Bool
  pub dry_run : Bool
  pub scheduled_autonomy_enabled : Bool
  pub daily_write_limit : ℕ
  pub claim_stale_seconds : ℕ

pub data WorkerResult : Type 0 where
  worker_disabled scheduled_autonomy_live_disabled already_running raised : WorkerResult
  paused_for : Option String → WorkerResult
  succeeded : Mode → ℕ → Counters → WorkerResult

-- `"DRY_RUN" if settings.routine_pinterest_dry_run or control.state == "DRY_RUN" else "LIVE"`
abbrev pub mode_of : Bool → ControlState → Mode
mode_of true state = dry_mode
mode_of false ControlState.dry_run = dry_mode
mode_of false _ = live_mode

abbrev pub mode_name : Mode → String
mode_name dry_mode = "DRY_RUN"
mode_name live_mode = "LIVE"

-- The end of the loop: the run is finished, and after an exception as `FAILED`.
abbrev pub finish_worker :
    Mode → Run → ℕ → Option Counters → (WorkerCode → String) → List Run → WorkerResult × List Run
finish_worker mode run finished_at (some c) text runs = (
  succeeded mode run.id c,
  (finish_run run RunStatus.succeeded (elim c.error_code [ none ↦ none | some e ↦ some (text e) ])
      finished_at runs).1,
)
finish_worker mode run finished_at none text runs = (
  raised,
  (finish_run run RunStatus.failed (some "ROUTINE_WORKER_UNEXPECTED_ERROR") finished_at runs).1,
)

abbrev pub after_start :
    WorkerSettings
    → Mode
    → List Visit
    → ℕ
    → (WorkerCode → String)
    → RunResult Run × List Run
    → WorkerResult × List Run
after_start settings mode visits finished_at text (RunResult.ok run, runs) =
    finish_worker mode run finished_at
      (run_candidates mode settings.daily_write_limit visits (no_counters (length visits))) text
      runs
after_start settings mode visits finished_at text (RunResult.raised worker_already_running, runs) =
    (already_running, runs)
after_start settings mode visits finished_at text (RunResult.raised integrity_error, runs) =
    (raised, runs)

abbrev pub is_live : Mode → Bool
is_live live_mode = true
is_live dry_mode = false

abbrev pub is_paused_state : ControlState → Bool
is_paused_state ControlState.paused = true
is_paused_state _ = false

-- `visits` are the due candidates with what the services answer for them, `text` the text of a code,
-- `meanwhile` the rows that other sessions insert.
unfoldable pub run_once :
    WorkerSettings
    → Control
    → ℕ
    → ℕ
    → ℕ
    → List Visit
    → (WorkerCode → String)
    → List Run
    → List Run
    → WorkerResult × List Run
unfolding run_candidates
run_once settings control id now finished_at visits text meanwhile runs =
    let mode = mode_of settings.dry_run control.state in
    if not settings.worker_enabled
    then (worker_disabled, runs)
    else if is_paused_state control.state
    then (paused_for control.pause_reason, runs)
    else if settings.scheduled_autonomy_enabled && is_live mode
    then (scheduled_autonomy_live_disabled, runs)
    else after_start settings mode visits finished_at text
        (start_run true id (mode_name mode) now settings.claim_stale_seconds meanwhile runs)
