-- ===== src/Lease/Safety.antt =====
-- What holds of the lease after any sequence of calls.
use sm_poster.Prelude.{
  ℕ, ◌≡◌, refl, ◌⊎◌, inr, Bool, true, false, String, Option, none, some, List, [], ◌∷◌, arith, All,
  not,
}
use sm_poster.Lease.{
  Process, LockAttempt, Probe, observed, command_failed, fresh_process, held, acquire, lock, close,
  detach, validate, mark_lost, release, released_on,
}

pub data Call : Type 0 where
  acquires : Bool → ℕ → LockAttempt → Call
  validates : ℕ → Probe → Call
  releases : Probe → Option String → Call

unfoldable pub run_call : Call → Process → Process
run_call (acquires supported now attempt) p = acquire supported now attempt p
run_call (validates now probe) p = (validate now probe p).1
run_call (releases probe failure) p = release probe failure p

unfoldable pub run_calls : List Call → Process → Process
unfolding run_call
run_calls [] p = p
run_calls (c ∷ calls) p = run_calls calls (run_call c p)

-- An attempt that does not fail while its session holds the lock.
abbrev pub leaves_no_lock : LockAttempt → Bool
leaves_no_lock (command_failed c holds e) = not holds
leaves_no_lock _ = true

abbrev pub is_orderly : Call → Bool
is_orderly (acquires supported now attempt) = leaves_no_lock attempt
is_orderly _ = true

-- The process leads, with one detached connection whose backend it knows and whose session alone holds
-- the lock, or it does not, and then it has no detached connection and holds no lock.
pub record IsClean (p : Process) : Type 0 where
  pub leads :
      ((held p.lease ≡ true)
        × ((c : ℕ) × (pid : ℕ) × (p.lease.connection ≡ some c)
            × (p.lease.backend_pid ≡ some pid)
            × (p.detached ≡ c ∷ [])
            × (p.locks ≡ c ∷ [])))
      ⊎ ((held p.lease ≡ false)
          × (p.lease.connection ≡ none)
          × (p.lease.backend_pid ≡ none)
          × (p.detached ≡ [])
          × (p.locks ≡ []))

pub acquire-IsClean :
    (supported : Bool) (now : ℕ) (attempt : LockAttempt) (p : Process)
    → leaves_no_lock attempt ≡ true
    → IsClean p
    → IsClean (acquire supported now attempt p)
unfolding acquire lock close detach held
acquire-IsClean supported now attempt p orderly h = record { leads = ground (arith, h.leads) }

pub validate-IsClean :
    (now : ℕ) (probe : Probe) (p : Process) → IsClean p → IsClean (validate now probe p).1
unfolding validate held mark_lost close
validate-IsClean now probe p h = record { leads = ground (arith, h.leads) }

pub release-IsClean :
    (probe : Probe) (failure : Option String) (p : Process)
    → IsClean p
    → IsClean (release probe failure p)
unfolding release released_on close held
release-IsClean probe failure p h = record { leads = ground (arith, h.leads) }

run_call-IsClean :
    (c : Call) (p : Process) → is_orderly c ≡ true → IsClean p → IsClean (run_call c p)
unfolding run_call
run_call-IsClean (acquires supported now attempt) p orderly h =
    acquire-IsClean supported now attempt p orderly h
run_call-IsClean (validates now probe) p orderly h = validate-IsClean now probe p h
run_call-IsClean (releases probe failure) p orderly h = release-IsClean probe failure p h

run_calls_from :
    (calls : List Call) (p : Process)
    → All (λ c. is_orderly c ≡ true) calls
    → IsClean p
    → IsClean (run_calls calls p)
unfolding run_calls
run_calls_from [] p orderly h = h
run_calls_from (c ∷ calls) p orderly h =
    run_calls_from calls (run_call c p) orderly.1 (run_call-IsClean c p orderly.0 h)

pub fresh-IsClean : IsClean fresh_process
unfolding held
fresh-IsClean = record { leads = inr (refl, refl, refl, refl, refl) }

-- After any calls, whatever the server answered in each, if no attempt failed while its session held
-- the lock: while the process leads, it has exactly one detached connection, the one recorded in the
-- lease, whose session alone of the process holds the lock; otherwise no session of the process, of
-- the pool or not, holds the lock, and no detached connection is open.
pub run_calls-IsClean :
    (calls : List Call)
    → All (λ c. is_orderly c ≡ true) calls
    → IsClean (run_calls calls fresh_process)
run_calls-IsClean calls orderly = run_calls_from calls fresh_process orderly fresh-IsClean

-- A release never unlocks another backend's lock: it sends the unlock command only on the lease's
-- connection and only if the backend that answers there is the one recorded when the lock was
-- taken; and in every case the process no longer leads.
pub release_own_backend :
    (probe : Probe) (failure : Option String) (p : Process)
    → (held (release probe failure p).lease ≡ false)
      × (((release probe failure p).unlocked ≡ p.unlocked)
          ⊎ ((c : ℕ) × (pid : ℕ) × (p.lease.connection ≡ some c)
              × (p.lease.backend_pid ≡ some pid)
              × (probe ≡ observed pid)
              × ((release probe failure p).unlocked ≡ (c, pid) ∷ p.unlocked)))
unfolding release released_on held
release_own_backend probe failure p = (ground arith, ground arith)

-- A validation that fails leaves the process without the lease, and one that succeeds was answered
-- by the very backend that took the lock.
pub validate_answer :
    (now : ℕ) (probe : Probe) (p : Process)
    → (((validate now probe p).0 ≡ false) × (held (validate now probe p).1.lease ≡ false))
      ⊎ (((validate now probe p).0 ≡ true)
          × ((validate now probe p).1 ≡ p)
          × ((pid : ℕ) × (probe ≡ observed pid) × (p.lease.backend_pid ≡ some pid)))
unfolding validate held mark_lost
validate_answer now probe p = ground arith
