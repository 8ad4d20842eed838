-- ===== src/Routine/Ticks.antt =====
-- backend/app/services/routine_pinterest_scheduler.py, without a canary: `scheduler_tick` and
-- `_scheduler_loop`, which runs the worker while the process leads.
pub mod Leadership
use sm_poster.Prelude.{
  ℕ, Bool, true, false, not, ◌||◌, ◌&&◌, Option, none, some, List, [], ◌∷◌, ◌++◌, String, is_some,
  if◌then◌else◌,
}
use sm_poster.Lease.{
  Lease, LeaseStatus, LockAttempt, Probe, Process, acquire, fresh_process, held, release, validate,
}

pub data Role : Type 0 where
  disabled waiting standby leader error stopped : Role

-- What a tick returns: its own refusals, or the status that the worker returned.
pub data TickStatus : Type 0 where
  scheduler_disabled tick_already_running lease_not_held lease_lost tick_error : TickStatus
  worker_status : String → TickStatus

-- `_state`
pub record SchedulerState : Type 0 where
  pub tick_running : Bool
  pub last_tick_started_at : Option ℕ
  pub last_tick_completed_at : Option ℕ
  pub last_result : Option TickStatus
  pub last_error : Option String
  pub lease_supported : Bool
  pub lease_role : Role
  pub lease_held : Bool
  pub last_lease_status : LeaseStatus
  pub last_lease_acquired_at : Option ℕ
  pub last_lease_lost_at : Option ℕ
  pub last_lease_error : Option String

-- `role if role is not None`, or what the lease's status says.
abbrev pub role_of : Bool → LeaseStatus → Option Role → Role
role_of holds status (some role) = role
role_of true status none = Role.leader
role_of false LeaseStatus.standby none = Role.standby
role_of false LeaseStatus.error none = Role.error
role_of false LeaseStatus.unsupported_backend none = Role.error
role_of false LeaseStatus.lost none = Role.error
role_of false _ none = Role.waiting

abbrev or_kept : Option ℕ → Option ℕ → Option ℕ
or_kept none old = old
or_kept (some new) old = some new

-- `_record_lease`
unfoldable pub record_lease : Bool → Lease → Option Role → SchedulerState → SchedulerState
record_lease supported lease role s = record s {
  lease_supported = supported;
  lease_held = held lease;
  last_lease_status = lease.last_status;
  last_lease_error = lease.last_error;
  last_lease_acquired_at = or_kept lease.acquired_at s.last_lease_acquired_at;
  last_lease_lost_at = or_kept lease.lost_at s.last_lease_lost_at;
  lease_role = role_of (held lease) lease.last_status role;
}

-- A call of the worker: the lease at that moment, and what the server had just answered on its
-- connection.
pub record WorkerCall : Type 0 where
  pub lease : Lease
  pub probe : Probe

-- The process with its scheduler; `has_lease` is `lease is not None` in the loop.
pub record Runtime : Type 0 where
  pub state : SchedulerState
  pub process : Process
  pub has_lease : Bool
  pub worker_calls : List WorkerCall

-- How the worker ends: it returns a status, raises an exception of a class, or is cancelled.
pub data WorkerEnd : Type 0 where
  returns : String → WorkerEnd
  raises : String → WorkerEnd
  is_cancelled : WorkerEnd

pub data Outcome : Type 0 where
  returned : TickStatus → Outcome
  raised : Outcome

abbrev pub refused : TickStatus → SchedulerState → SchedulerState
refused status s = record s { last_result = some status }

abbrev pub worker_outcome : WorkerEnd → Outcome
worker_outcome (returns status) = returned (TickStatus.worker_status status)
worker_outcome (raises name) = raised
worker_outcome is_cancelled = raised

abbrev pub worker_state : WorkerEnd → SchedulerState → SchedulerState
worker_state (returns status) s = record s { last_result = some (TickStatus.worker_status status) }
worker_state (raises name) s = record s {
  last_error = some name;
  last_result = some TickStatus.tick_error;
}
worker_state is_cancelled s = s

-- What happens between the start of a tick and its end; `session_factory` and `db.close` may raise.
pub record Tick : Type 0 where
  pub now : ℕ
  pub probe : Probe
  pub session_raises : Bool
  pub worker : WorkerEnd
  pub close_raises : Bool
  pub completed_at : ℕ

-- The state when the session is made.
abbrev pub started : Bool → Tick → Runtime → SchedulerState
started supported t r = record (record_lease supported r.process.lease (some Role.leader) r.state) {
  tick_running = true;
  last_tick_started_at = some t.now;
  last_error = none;
}

-- From the look at the validated lease on. The session is made before the `try`, and its close comes
-- first in the `finally`, so that `tick_running` stays set where one of them raises.
unfoldable pub run_worker : Bool → Tick → Runtime → Outcome × Runtime
unfolding record_lease
run_worker supported t r =
    let ready = started supported t r in
    let ended = worker_state t.worker ready in
    let calls = r.worker_calls ++ record { lease = r.process.lease; probe = t.probe } ∷ [] in
    if t.session_raises
    then (raised, record r { state = ready })
    else if t.close_raises
    then (raised, record r { state = ended; worker_calls = calls })
    else (
      worker_outcome t.worker,
      record r {
        state = record ended { last_tick_completed_at = some t.completed_at; tick_running = false };
        worker_calls = calls;
      },
    )

abbrev pub validated : Bool → Tick → Runtime → Bool × Process → Outcome × Runtime
validated supported t r (true, p) = run_worker supported t (record r { process = p })
validated supported t r (false, p) = (
  returned TickStatus.lease_lost,
  record r {
    process = p;
    state =
        record (refused TickStatus.lease_lost
          (record_lease supported p.lease (some Role.error) r.state)) {
            last_error = some "SCHEDULER_LEASE_LOST";
          };
  },
)

-- `locked` is whether another tick runs in the process.
unfoldable pub scheduler_tick : Bool → Bool → Bool → Tick → Runtime → Outcome × Runtime
unfolding run_worker record_lease
scheduler_tick enabled supported locked t r =
    if not enabled
    then (returned TickStatus.scheduler_disabled, r)
    else if locked
    then (returned TickStatus.tick_already_running, r)
    else if not (r.has_lease && held r.process.lease)
    then (
      returned TickStatus.lease_not_held,
      record r { state = refused TickStatus.lease_not_held r.state },
    )
    else validated supported t r (validate t.now t.probe r.process)

-- A round of the loop after its sleep: the attempt at the lease, if it makes one, and the tick.
pub record Round : Type 0 where
  pub attempt : LockAttempt
  pub attempted_at : ℕ
  pub locked : Bool
  pub tick : Tick

-- The lease of `lease_factory()` in place of the last one.
abbrev pub new_lease : Process → Process
new_lease p = record p { lease = fresh_process.lease }

unfoldable pub take_lease : Bool → Round → Runtime → Runtime
unfolding record_lease
take_lease supported round r =
    let p = acquire supported round.attempted_at round.attempt (new_lease r.process) in
    record r {
      process = p;
      has_lease = held p.lease;
      state =
          if held p.lease
          then record_lease supported p.lease (some Role.leader)
              (record_lease supported p.lease none r.state)
          else record_lease supported p.lease none r.state;
    }

-- `lease is None or not lease.held`, and then the attempt.
unfoldable pub with_lease : Bool → Round → Runtime → Runtime
unfolding take_lease
with_lease supported round r =
    if r.has_lease && held r.process.lease then r else take_lease supported round r

abbrev pub is_lost : TickStatus → Bool
is_lost TickStatus.lease_lost = true
is_lost _ = false

-- The end of a round: `lease = None` after a loss.
abbrev pub drop_lost : Outcome × Runtime → Outcome × Runtime
drop_lost (raised, r) = (raised, r)
drop_lost (returned status, r) = (
  returned status,
  if is_lost status || not (held r.process.lease) then record r { has_lease = false } else r,
)

-- The tick, if the process leads; `continue` if not.
abbrev pub tick_if : Bool → Bool → Bool → Round → Runtime → Outcome × Runtime
tick_if true enabled supported round r =
    drop_lost (scheduler_tick enabled supported round.locked round.tick r)
tick_if false enabled supported round r = (returned TickStatus.lease_not_held, r)

-- A round after which the loop goes on, or which raises.
unfoldable pub loop_round : Bool → Bool → Round → Runtime → Outcome × Runtime
loop_round enabled supported round r =
    let ready = with_lease supported round r in
    tick_if (ready.has_lease && held ready.process.lease) enabled supported round ready

-- `finally`
unfoldable pub end_loop : Bool → Probe → Option String → Runtime → Runtime
unfolding record_lease
end_loop supported probe failure r =
    if r.has_lease
    then (let p = release probe failure r.process in
        record r {
          process = p;
          has_lease = false;
          state = record_lease supported p.lease (some Role.stopped) r.state;
        })
    else r

abbrev pub after_round : (Runtime → Runtime) → (Runtime → Runtime) → Outcome × Runtime → Runtime
after_round go_on end (returned status, r) = go_on r
after_round go_on end (raised, r) = end r

-- The loop through some rounds, until one raises or it is cancelled in the sleep after them.
unfoldable pub scheduler_loop : Bool → Bool → Probe → Option String → List Round → Runtime → Runtime
scheduler_loop enabled supported probe failure [] r = end_loop supported probe failure r
scheduler_loop enabled supported probe failure (round ∷ rounds) r =
    after_round (scheduler_loop enabled supported probe failure rounds)
      (end_loop supported probe failure) (loop_round enabled supported round r)
