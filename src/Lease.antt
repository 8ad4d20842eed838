-- ===== src/Lease.antt =====
-- backend/app/services/routine_scheduler_lease.py: the leader's lease, held by one connection to
-- PostgreSQL with an advisory lock. What the server answers is an argument of each call.
pub mod Safety
use sm_poster.Prelude.{
  ℕ, Bool, true, false, ◌&&◌, Option, none, some, List, [], ◌∷◌, ◌==◌, if◌then◌else◌, is_some,
  String, keep, not, any,
}

pub data LeaseStatus : Type 0 where
  not_attempted acquired unsupported_backend standby error lost released : LeaseStatus

pub record Lease : Type 0 where
  pub connection : Option ℕ
  pub backend_pid : Option ℕ
  pub acquired_at : Option ℕ
  pub lost_at : Option ℕ
  pub last_status : LeaseStatus
  pub last_error : Option String

-- The process: its lease, its open connections, detached from the engine's pool or of it, those of
-- them whose sessions hold the lock, and those on which it has sent the unlock command, each with the
-- backend that answered there.
pub record Process : Type 0 where
  pub lease : Lease
  pub detached : List ℕ
  pub pooled : List ℕ
  pub locks : List ℕ
  pub unlocked : List (ℕ × ℕ)

-- `__init__`
abbrev pub fresh_process : Process
fresh_process = record {
  lease = record {
    connection = none;
    backend_pid = none;
    acquired_at = none;
    lost_at = none;
    last_status = LeaseStatus.not_attempted;
    last_error = none;
  };
  detached = [];
  pooled = [];
  locks = [];
  unlocked = [];
}

-- How an attempt to lock goes: connecting raises; a later command on the connection raises, when its
-- session holds the lock or not; or the server says which backend it is and whether the lock was
-- free.
pub data LockAttempt : Type 0 where
  connect_failed : String → LockAttempt
  command_failed : ℕ → Bool → String → LockAttempt
  answered : ℕ → ℕ → Bool → LockAttempt

-- `SELECT pg_backend_pid()` on the lease's connection.
pub data Probe : Type 0 where
  observed : ℕ → Probe
  probe_failed : String → Probe

abbrev is_acquired : LeaseStatus → Bool
is_acquired LeaseStatus.acquired = true
is_acquired _ = false

unfoldable pub held : Lease → Bool
held l = is_some l.connection && is_some l.backend_pid && is_acquired l.last_status

abbrev without : ℕ → List ℕ → List ℕ
without c = keep (λ d. not (d == c))

-- `engine.connect()` gives a connection of the pool.
abbrev checked_out : ℕ → Process → Process
checked_out c p = record p { pooled = c ∷ without c p.pooled }

-- `connection.detach()`
unfoldable pub detach : ℕ → Process → Process
detach c p = record p { detached = c ∷ p.detached; pooled = without c p.pooled }

-- `connection.close()`: it ends the session of a detached connection, and with it the lock, also when
-- it raises; any other connection goes back to the pool with its session and its lock.
unfoldable pub close : ℕ → Process → Process
close c p =
    if any (λ d. d == c) p.detached
    then record p { detached = without c p.detached; locks = without c p.locks }
    else p

-- `pg_try_advisory_lock` has given the lock to the connection's session.
abbrev lock_granted : Bool → ℕ → Process → Process
lock_granted true c p = record p { locks = c ∷ p.locks }
lock_granted false c p = p

abbrev failed : String → Lease → Lease
failed e l = record l {
  connection = none;
  backend_pid = none;
  last_status = LeaseStatus.error;
  last_error = some e;
}

unfoldable lock : ℕ → LockAttempt → Process → Process
unfolding close detach
lock now (connect_failed e) p = record p { lease = failed e p.lease }
lock now (command_failed c holds e) p = record (close c (lock_granted holds c (checked_out c p))) {
  lease = failed e p.lease;
}
lock now (answered c pid false) p = record (close c (checked_out c p)) {
  lease = record p.lease { last_status = LeaseStatus.standby; last_error = none };
}
lock now (answered c pid true) p = record (detach c (lock_granted true c (checked_out c p))) {
  lease = record p.lease {
    connection = some c;
    backend_pid = some pid;
    acquired_at = some now;
    last_status = LeaseStatus.acquired;
    last_error = none;
  };
}

unfoldable pub acquire : Bool → ℕ → LockAttempt → Process → Process
unfolding lock
acquire supported now attempt p =
    if held p.lease
    then p
    else if not supported
    then record p {
      lease = record p.lease {
        last_status = LeaseStatus.unsupported_backend;
        last_error = some "POSTGRESQL_REQUIRED";
      };
    }
    else lock now attempt p

abbrev close_some : Option ℕ → Process → Process
close_some none p = p
close_some (some c) p = close c p

unfoldable pub mark_lost : ℕ → String → Process → Process
unfolding close
mark_lost now e p = record (close_some p.lease.connection p) {
  lease = record p.lease {
    connection = none;
    backend_pid = none;
    lost_at = some now;
    last_status = LeaseStatus.lost;
    last_error = some e;
  };
}

abbrev same_backend : ℕ → Option ℕ → Bool
same_backend pid none = false
same_backend pid (some recorded) = pid == recorded

abbrev checked : ℕ → Probe → Process → Bool × Process
checked now (probe_failed e) p = (false, mark_lost now e p)
checked now (observed pid) p =
    if same_backend pid p.lease.backend_pid
    then (true, p)
    else (false, mark_lost now "BACKEND_PID_CHANGED" p)

unfoldable pub validate : ℕ → Probe → Process → Bool × Process
unfolding mark_lost
validate now probe p = if held p.lease then checked now probe p else (false, p)

abbrev without_connection : Lease → Lease
without_connection l = record l {
  connection = none;
  backend_pid = none;
  last_status = if is_acquired l.last_status then LeaseStatus.released else l.last_status;
}

abbrev closed_lease : Option String → Lease → Lease
closed_lease e l = record l {
  connection = none;
  backend_pid = none;
  last_status = LeaseStatus.released;
  last_error = e;
}

abbrev or_earlier : Option String → Option String → Option String
or_earlier none e = e
or_earlier (some new) e = some new

-- The unlock command, which leaves the lock where it is if it raises.
abbrev unlock : ℕ → ℕ → Option String → Process → Process
unlock c pid none p = record p { locks = without c p.locks; unlocked = (c, pid) ∷ p.unlocked }
unlock c pid (some e) p = record p { unlocked = (c, pid) ∷ p.unlocked }

unfoldable released_on : ℕ → Probe → Option String → Process → Process
unfolding close
released_on c (probe_failed e) failure p = record (close c p) {
  lease = closed_lease (some e) p.lease;
}
released_on c (observed pid) failure p =
    if same_backend pid p.lease.backend_pid
    then record (close c (unlock c pid failure p)) {
      lease = closed_lease (or_earlier failure p.lease.last_error) p.lease;
    }
    else record (close c p) { lease = closed_lease (some "BACKEND_PID_CHANGED") p.lease }

-- `failure` is what the unlock command raises, if it is sent and raises.
unfoldable pub release : Probe → Option String → Process → Process
unfolding released_on
release probe failure p = elim p.lease.connection [
  | none ↦ record p { lease = without_connection p.lease }
  | some c ↦ released_on c probe failure p
]
