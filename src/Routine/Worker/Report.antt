-- ===== src/Routine/Worker/Report.antt =====
-- What the counters of a run add up to.
use sm_poster.Prelude.{ℕ, ◌+◌, ◌≡◌, true, false, ◌&&◌, List, count_if, length}
use sm_poster.Routine.Worker.{
  Counters, Mode, Visit, WorkerSettings, is_live, is_paused_state, mode_of,
}
use sm_poster.Routine.Control.{Control}
use sm_poster.Routine.Runs.{Run}
use sm_poster.Routine.Worker.Accounts.{Accounted, may_send}

-- What the loop ends with.
abbrev Ends : Mode → ℕ → List Visit → ℕ → ℕ → ℕ → Counters → Type 0
Ends mode limit visits n k scanned c =
    Accounted (n + length visits) (k + count_if (may_send mode limit) visits) c
    × (c.scanned ≡ scanned)

-- What a run that reports `SUCCEEDED` has done.
pub record Reported (settings : WorkerSettings) (control : Control) (visits : List Visit)
    (mode : Mode) (c : Counters) : Type 0 where
  pub enabled : settings.worker_enabled ≡ true
  pub unpaused : is_paused_state control.state ≡ false
  pub mode_is : mode ≡ mode_of settings.dry_run control.state
  pub no_autonomy : (settings.scheduled_autonomy_enabled && is_live mode) ≡ false
  pub all_scanned : c.scanned ≡ length visits
  pub accounted :
      Accounted (length visits) (count_if (may_send mode settings.daily_write_limit) visits) c

abbrev Rows : Type 0
Rows = List Run
