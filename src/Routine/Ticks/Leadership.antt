-- ===== src/Routine/Ticks/Leadership.antt =====
-- The worker runs only in the process that leads.
use sm_poster.Prelude.{
  ℕ, ◌≡◌, refl, ◌∙◌, ◌⊎◌, inl, inr, Bool, true, false, not, ◌&&◌, ◌||◌, String, Option, some, List,
  [], ◌∷◌, arith, All, All-append, Bool-cases,
}
use sm_poster.Lease.{Process, Probe, observed, held, acquire, validate, release}
use sm_poster.Lease.Safety.{
  IsClean, leaves_no_lock, acquire-IsClean, validate-IsClean, release-IsClean, validate_answer,
  release_own_backend,
}
use sm_poster.Routine.Ticks.{
  SchedulerState, started, worker_state, worker_outcome, validated, is_lost, after_round, Outcome,
  Round, Runtime, Tick, TickStatus, WorkerCall, WorkerEnd, returned, raised, drop_lost, end_loop,
  loop_round, new_lease, record_lease, run_worker, scheduler_loop, scheduler_tick, take_lease,
  with_lease, tick_if,
}

-- The lease was held, and the backend that took the lock had just answered on its connection.
abbrev pub IsBacked : WorkerCall → Type 0
IsBacked c =
    (held c.lease ≡ true)
    × ((pid : ℕ) × (c.probe ≡ observed pid) × (c.lease.backend_pid ≡ some pid))

-- Between two rounds.
pub record IsLed (r : Runtime) : Type 0 where
  pub clean : IsClean r.process
  pub led : r.has_lease ≡ false → held r.process.lease ≡ false
  pub calls : All IsBacked r.worker_calls
  pub told : r.state.lease_held ≡ held r.process.lease

not_held : (p : Process) → IsClean p → held p.lease ≡ false → (p.detached ≡ []) × (p.locks ≡ [])
not_held p h e = (ground (arith, h.leads), ground (arith, h.leads))

new_lease-IsClean : (p : Process) → (p.detached ≡ []) × (p.locks ≡ []) → IsClean (new_lease p)
unfolding held
new_lease-IsClean p (e, f) = record { leads = inr (refl, refl, refl, e, f) }

module _ (supported : Bool) (round : Round) (orderly : leaves_no_lock round.attempt ≡ true) where
  take_lease-IsLed :
      (r : Runtime) → IsLed r → held r.process.lease ≡ false → IsLed (take_lease supported round r)
  unfolding take_lease record_lease
  take_lease-IsLed r h e =
      let p = acquire supported round.attempted_at round.attempt (new_lease r.process) in
      let clean =
        acquire-IsClean supported round.attempted_at round.attempt (new_lease r.process) orderly
          (new_lease-IsClean r.process (not_held r.process h.clean e)) in
      elim (Bool-cases (held p.lease)) [
        | inl leads ↦ record { clean = clean; led = λ k. k; calls = h.calls; told = rw leads refl }
        | inr waits ↦ record { clean = clean; led = λ k. k; calls = h.calls; told = rw waits refl }
      ]

  with_lease-IsLed : (r : Runtime) → IsLed r → IsLed (with_lease supported round r)
  unfolding with_lease
  with_lease-IsLed r h = elim (Bool-cases (r.has_lease && held r.process.lease)) [
    | inl leads ↦ rw leads h
    | inr waits ↦ elim (Bool-cases r.has_lease) [
      | inl has ↦ rw waits (take_lease-IsLed r h (ground arith))
      | inr has_none ↦ rw waits (take_lease-IsLed r h (h.led has_none))
    ]
  ]

worker_state_same :
    (w : WorkerEnd) (s : SchedulerState) → (worker_state w s).lease_held ≡ s.lease_held
worker_state_same (WorkerEnd.returns status) s = refl
worker_state_same (WorkerEnd.raises name) s = refl
worker_state_same WorkerEnd.is_cancelled s = refl

-- What a tick leaves; if it reports the lease as lost, the process does not lead.
record IsTicked (o : Outcome × Runtime) : Type 0 where
  still : IsLed o.1
  lost : o.0 ≡ returned TickStatus.lease_lost → held o.1.process.lease ≡ false

raised_not_lost : {A : Type 0} → raised ≡ returned TickStatus.lease_lost → A
raised_not_lost h = absurd (cc)

worker_not_lost :
    (w : WorkerEnd) {A : Type 0} → worker_outcome w ≡ returned TickStatus.lease_lost → A
worker_not_lost (WorkerEnd.returns status) h = absurd (cc)
worker_not_lost (WorkerEnd.raises name) h = absurd (cc)
worker_not_lost WorkerEnd.is_cancelled h = absurd (cc)

module _ (supported : Bool) (t : Tick) (r : Runtime) (h : IsLed r) where
  run_worker-IsTicked :
      IsBacked (record { lease = r.process.lease; probe = t.probe })
      → IsTicked (run_worker supported t r)
  unfolding run_worker record_lease
  run_worker-IsTicked backed =
      let calls = All-append IsBacked r.worker_calls _ h.calls (backed, tt) in
      elim (Bool-cases t.session_raises) [
        | inl no_session ↦ rw no_session (record {
          still = record { clean = h.clean; led = h.led; calls = h.calls; told = refl };
          lost = λ k. raised_not_lost k;
        })
        | inr session ↦ elim (Bool-cases t.close_raises) [
          | inl unclosed ↦
              rw (session, unclosed)
                (record {
                  still = record {
                    clean = h.clean;
                    led = h.led;
                    calls = calls;
                    told = worker_state_same t.worker (started supported t r);
                  };
                  lost = λ k. raised_not_lost k;
                })
          | inr closes ↦
              rw (session, closes)
                (record {
                  still = record {
                    clean = h.clean;
                    led = h.led;
                    calls = calls;
                    told = worker_state_same t.worker (started supported t r);
                  };
                  lost = λ k. worker_not_lost t.worker k;
                })
        ]
      ]

  lost-IsTicked :
      (p : Process)
      → IsClean p
      → held p.lease ≡ false
      → r.has_lease ≡ true
      → IsTicked (validated supported t r (false, p))
  unfolding record_lease
  lost-IsTicked p clean lost has = record {
    still = record { clean = clean; led = λ k. lost; calls = h.calls; told = refl };
    lost = λ k. lost;
  }

-- `validate` has answered.
validated-IsTicked :
    (supported : Bool) (t : Tick) (r : Runtime) (answer : Bool × Process)
    → IsLed r
    → r.has_lease ≡ true
    → held r.process.lease ≡ true
    → IsClean answer.1
    → ((answer.0 ≡ false) × (held answer.1.lease ≡ false))
      ⊎ ((answer.0 ≡ true)
          × (answer.1 ≡ r.process)
          × ((pid : ℕ) × (t.probe ≡ observed pid) × (r.process.lease.backend_pid ≡ some pid)))
    → IsTicked (validated supported t r answer)
validated-IsTicked supported t r (false, p) h has leads clean (inl (failed, lost)) =
    lost-IsTicked supported t r h p clean lost has
validated-IsTicked supported t r (false, p) h has leads clean (inr (passed, same, answered)) =
    absurd (cc)
validated-IsTicked supported t r (true, p) h has leads clean (inl (failed, lost)) = absurd (cc)
validated-IsTicked supported t r (true, p) h has leads clean (inr (passed, same, answered)) =
    rw same (run_worker-IsTicked supported t r h (leads, answered))

scheduler_tick-IsTicked :
    (enabled supported locked : Bool) (t : Tick) (r : Runtime)
    → IsLed r
    → r.has_lease ≡ true
    → held r.process.lease ≡ true
    → IsTicked (scheduler_tick enabled supported locked t r)
unfolding scheduler_tick
scheduler_tick-IsTicked false supported locked t r h has leads = record {
  still = h;
  lost = λ k. absurd (cc);
}
scheduler_tick-IsTicked true supported true t r h has leads = record {
  still = h;
  lost = λ k. absurd (cc);
}
scheduler_tick-IsTicked true supported false t r h has leads =
    let both : (r.has_lease && held r.process.lease) ≡ true = ground arith in
    rw both (
      validated-IsTicked supported t r (validate t.now t.probe r.process) h has leads
        (validate-IsClean t.now t.probe r.process h.clean)
        (validate_answer t.now t.probe r.process))

gone :
    (status : TickStatus) (r : Runtime)
    → IsTicked (returned status, r)
    → (is_lost status || not (held r.process.lease)) ≡ true
    → held r.process.lease ≡ false
gone TickStatus.lease_lost r h k = h.lost refl
gone TickStatus.scheduler_disabled r h k = ground arith
gone TickStatus.tick_already_running r h k = ground arith
gone TickStatus.lease_not_held r h k = ground arith
gone TickStatus.tick_error r h k = ground arith
gone (TickStatus.worker_status name) r h k = ground arith

drop_lost-IsLed : (o : Outcome × Runtime) → IsTicked o → IsLed (drop_lost o).1
drop_lost-IsLed (raised, r) h = h.still
drop_lost-IsLed (returned status, r) h =
    elim (Bool-cases (is_lost status || not (held r.process.lease))) [
      | inr stays ↦ rw stays h.still
      | inl drops ↦ rw drops (record {
        clean = h.still.clean;
        led = λ k. gone status r h drops;
        calls = h.still.calls;
        told = h.still.told;
      })
    ]

tick_if-IsLed :
    (leads enabled supported : Bool) (round : Round) (r : Runtime)
    → (r.has_lease && held r.process.lease) ≡ leads
    → IsLed r
    → IsLed (tick_if leads enabled supported round r).1
tick_if-IsLed true enabled supported round r e h =
    drop_lost-IsLed (scheduler_tick enabled supported round.locked round.tick r) (
      scheduler_tick-IsTicked enabled supported round.locked round.tick r h (ground arith)
        (ground arith))
tick_if-IsLed false enabled supported round r e h = h

loop_round-IsLed :
    (enabled supported : Bool) (round : Round) (r : Runtime)
    → leaves_no_lock round.attempt ≡ true
    → IsLed r
    → IsLed (loop_round enabled supported round r).1
unfolding loop_round
loop_round-IsLed enabled supported round r orderly h =
    tick_if-IsLed _ enabled supported round (with_lease supported round r) refl
      (with_lease-IsLed supported round orderly r h)

-- How the loop leaves the process.
pub record IsStopped (r : Runtime) : Type 0 where
  pub no_lease : held r.process.lease ≡ false
  pub no_connection : r.process.detached ≡ []
  pub no_lock : r.process.locks ≡ []
  pub calls : All IsBacked r.worker_calls
  pub told : r.state.lease_held ≡ false

end_loop-IsStopped :
    (supported : Bool) (probe : Probe) (failure : Option String) (r : Runtime)
    → IsLed r
    → IsStopped (end_loop supported probe failure r)
unfolding end_loop record_lease
end_loop-IsStopped supported probe failure r h = elim (Bool-cases r.has_lease) [
  | inr without ↦
      let gone = h.led without in
      rw without (record {
        no_lease = gone;
        no_connection = (not_held r.process h.clean gone).0;
        no_lock = (not_held r.process h.clean gone).1;
        calls = h.calls;
        told = h.told ∙ gone;
      })
  | inl has ↦
      let (gone, own) = release_own_backend probe failure r.process in
      let clean = release-IsClean probe failure r.process h.clean in
      rw has (record {
        no_lease = gone;
        no_connection = (not_held (release probe failure r.process) clean gone).0;
        no_lock = (not_held (release probe failure r.process) clean gone).1;
        calls = h.calls;
        told = gone;
      })
]

after_round-IsStopped :
    (go_on end : Runtime → Runtime) (o : Outcome × Runtime)
    → IsLed o.1
    → ((r : Runtime) → IsLed r → IsStopped (go_on r))
    → ((r : Runtime) → IsLed r → IsStopped (end r))
    → IsStopped (after_round go_on end o)
after_round-IsStopped go_on end (returned status, r) h a b = a r h
after_round-IsStopped go_on end (raised, r) h a b = b r h

-- However the rounds go, if no attempt at the lease fails while its session holds the lock, whatever
-- the server answers, and whether the loop is cancelled or the worker, `session_factory` or
-- `db.close` raises: every call of the worker was made while the process held the lease, right after
-- the very backend that took the lock had answered on the lease's connection; and when the loop has
-- ended, the process does not lead, has no detached connection open, holds the lock in no session,
-- of the pool or not, and reports no lease.
pub scheduler_loop-IsStopped :
    (enabled supported : Bool) (probe : Probe) (failure : Option String) (rounds : List Round)
    (r : Runtime)
    → All (λ (round : Round). leaves_no_lock round.attempt ≡ true) rounds
    → IsLed r
    → IsStopped (scheduler_loop enabled supported probe failure rounds r)
unfolding scheduler_loop
scheduler_loop-IsStopped enabled supported probe failure [] r orderly h =
    end_loop-IsStopped supported probe failure r h
scheduler_loop-IsStopped enabled supported probe failure (round ∷ rounds) r orderly h =
    after_round-IsStopped _ _ (loop_round enabled supported round r)
      (loop_round-IsLed enabled supported round r orderly.0 h)
      (λ s k. scheduler_loop-IsStopped enabled supported probe failure rounds s orderly.1 k)
      (λ s k. end_loop-IsStopped supported probe failure s k)
