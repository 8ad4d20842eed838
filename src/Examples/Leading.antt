-- ===== src/Examples/Leading.antt =====
-- The leader's lease over a few calls.
use sm_poster.Prelude.{refl, true, false, none, some, List, [], ◌∷◌}
use sm_poster.Lease.{LeaseStatus, Process, fresh_process, answered, observed, probe_failed, held}
use sm_poster.Lease.Safety.{
  Call, acquires, validates, run_calls, IsClean, run_calls-IsClean, fresh-IsClean,
}
use sm_poster.Routine.Ticks.{
  Role, Round, Runtime, SchedulerState, Tick, is_cancelled, raises, returns, scheduler_loop,
}
use sm_poster.Routine.Ticks.Leadership.{IsLed, IsStopped, scheduler_loop-IsStopped}

abbrev calls : List Call
calls =
    acquires true 1 (answered 5 77 true)
    ∷ validates 2 (observed 77)
    ∷ validates 3 (probe_failed "OperationalError")
    ∷ acquires true 4 (answered 6 78 false)
    ∷ []

run_calls-IsClean_example : IsClean (run_calls calls fresh_process)
run_calls-IsClean_example = run_calls-IsClean calls (refl, (refl, (refl, (refl, tt))))

abbrev leading : Process
leading = record fresh_process {
  lease = record fresh_process.lease {
    connection = some 5;
    backend_pid = some 77;
    acquired_at = some 1;
    last_status = LeaseStatus.acquired;
  };
  detached = 5 ∷ [];
  locks = 5 ∷ [];
}

abbrev rounds : List Round
rounds =
    record {
      attempt = answered 5 77 true;
      attempted_at = 10;
      locked = false;
      tick = record {
        now = 11;
        probe = observed 77;
        session_raises = false;
        close_raises = false;
        worker = returns "SUCCEEDED";
        completed_at = 12;
      };
    }
    ∷ record {
      attempt = answered 6 78 true;
      attempted_at = 20;
      locked = false;
      tick = record {
        now = 21;
        probe = probe_failed "OperationalError";
        session_raises = false;
        close_raises = false;
        worker = is_cancelled;
        completed_at = 22;
      };
    }
    ∷ []

abbrev idle_state : SchedulerState
idle_state = record {
  tick_running = false;
  last_tick_started_at = none;
  last_tick_completed_at = none;
  last_result = none;
  last_error = none;
  lease_supported = true;
  lease_role = Role.disabled;
  lease_held = false;
  last_lease_status = LeaseStatus.not_attempted;
  last_lease_acquired_at = none;
  last_lease_lost_at = none;
  last_lease_error = none;
}

abbrev idle_runtime : Runtime
idle_runtime = record {
  state = idle_state;
  process = fresh_process;
  has_lease = false;
  worker_calls = [];
}

idle-IsLed : IsLed idle_runtime
unfolding held
idle-IsLed = record { clean = fresh-IsClean; led = λ h. refl; calls = tt; told = refl }

scheduler_loop-IsStopped_example :
    IsStopped (scheduler_loop true true (observed 78) none rounds idle_runtime)
scheduler_loop-IsStopped_example =
    scheduler_loop-IsStopped true true (observed 78) none rounds idle_runtime (refl, (refl, tt))
      idle-IsLed

abbrev led_runtime : Runtime
led_runtime = record idle_runtime { process = leading; has_lease = true }

abbrev tick : Tick
tick = record {
  now = 11;
  probe = observed 77;
  session_raises = false;
  close_raises = false;
  worker = raises "RuntimeError";
  completed_at = 12;
}
