-- ===== src/Routine/Runs.antt =====
-- The record of runs, of which the database lets one be `RUNNING`.
use sm_poster.Prelude.{
  ℕ, ◌+◌, String, Bool, true, false, not, Option, none, some, List, [], ◌∷◌, ◌++◌, ◌==◌, ltb, leb,
  any, count_if, if◌then◌else◌, first,
}

pub data RunStatus : Type 0 where
  running succeeded failed blocked : RunStatus

abbrev pub is_running : RunStatus → Bool
is_running RunStatus.running = true
is_running _ = false

pub record Run : Type 0 where
  pub id : ℕ
  pub mode : String
  pub started_at : ℕ
  pub heartbeat_at : Option ℕ
  pub completed_at : Option ℕ
  pub status : RunStatus
  pub error_code : Option String

pub data RunError : Type 0 where
  worker_already_running integrity_error : RunError

pub data RunResult (A : Type 0) : Type 0 where
  ok : A → RunResult A
  raised : RunError → RunResult A

abbrev pub row_running : Run → Bool
row_running r = is_running r.status

-- `uq_routine_publishing_run_running`
unfoldable pub index_holds : List Run → Bool
index_holds runs = leb (count_if row_running runs) 1

-- A commit of the rows: with two of them running the index refuses it, and the rollback leaves the
-- rows as they were committed before.
abbrev pub commit_runs : {A : Type 0} → RunError → A → List Run → List Run → RunResult A × List Run
commit_runs error a before after =
    if index_holds after then (ok a, after) else (raised error, before)

-- An assignment to a row by its id.
unfoldable pub update_run : ℕ → (Run → Run) → List Run → List Run
update_run id f [] = []
update_run id f (r ∷ runs) = if r.id == id then f r ∷ runs else r ∷ update_run id f runs

-- `current.heartbeat_at or current.started_at`
abbrev pub last_heartbeat : Run → ℕ
last_heartbeat r = elim r.heartbeat_at [ none ↦ r.started_at | some t ↦ t ]

abbrev pub fail_stale : ℕ → Run → Run
fail_stale now r = record r {
  status = RunStatus.failed;
  error_code = some "ROUTINE_WORKER_STALE";
  completed_at = some now;
  heartbeat_at = some now;
}

-- `heartbeat > now - timedelta(seconds=stale_seconds)`
abbrev pub is_fresh : ℕ → ℕ → Run → Bool
is_fresh now stale_seconds r = ltb now (last_heartbeat r + stale_seconds)

abbrev recover : ℕ → ℕ → Option Run → List Run → RunResult Bool × List Run
recover now stale_seconds none runs = (ok false, runs)
recover now stale_seconds (some current) runs =
    if is_fresh now stale_seconds current
    then (raised worker_already_running, runs)
    else commit_runs integrity_error true runs (update_run current.id (fail_stale now) runs)

-- `_recover_stale_running_run`, on the running row that the query finds.
unfoldable pub recover_stale_running_run : ℕ → ℕ → List Run → RunResult Bool × List Run
recover_stale_running_run now stale_seconds runs =
    recover now stale_seconds (first row_running runs) runs

abbrev pub new_run : ℕ → String → ℕ → Run
new_run id mode now = record {
  id = id;
  mode = mode;
  started_at = now;
  heartbeat_at = some now;
  completed_at = none;
  status = RunStatus.running;
  error_code = none;
}

-- The insert. `meanwhile` are runs that other sessions have committed since the check.
unfoldable pub insert_run : ℕ → String → ℕ → List Run → List Run → RunResult Run × List Run
insert_run id mode now meanwhile runs =
    commit_runs worker_already_running (new_run id mode now) (runs ++ meanwhile)
      ((runs ++ meanwhile) ++ new_run id mode now ∷ [])

abbrev insert_after :
    ℕ → String → ℕ → List Run → RunResult Bool × List Run → RunResult Run × List Run
insert_after id mode now meanwhile (ok recovered, runs) = insert_run id mode now meanwhile runs
insert_after id mode now meanwhile (raised e, runs) = (raised e, runs)

unfoldable pub start_run :
    Bool → ℕ → String → ℕ → ℕ → List Run → List Run → RunResult Run × List Run
start_run true id mode now stale_seconds meanwhile runs =
    insert_after id mode now meanwhile (recover_stale_running_run now stale_seconds runs)
start_run false id mode now stale_seconds meanwhile runs =
    if any row_running runs
    then (raised worker_already_running, runs)
    else insert_run id mode now meanwhile runs

-- `run` is the row as the caller holds it.
unfoldable pub heartbeat_run : Run → ℕ → List Run → RunResult ℕ × List Run
heartbeat_run run now runs =
    if not (is_running run.status)
    then (ok run.id, runs)
    else commit_runs integrity_error run.id runs
        (update_run run.id (λ r. record r { heartbeat_at = some now }) runs)

unfoldable pub finish_run : Run → RunStatus → Option String → ℕ → List Run → RunResult ℕ × List Run
finish_run run status error_code now runs = commit_runs integrity_error run.id runs (
    update_run run.id
      (λ r. record r {
        status = status;
        error_code = error_code;
        heartbeat_at = some now;
        completed_at = some now;
      })
      runs)
