-- ===== src/Routine/Safety.antt =====
-- What the control row and the record of runs guarantee.
use sm_poster.Prelude.{
  ℕ, ◌≡◌, String, Bool, true, false, ◌&&◌, Option, none, some, List, [], ◌∷◌, ◌++◌, arith, truthy,
  any, first, count_if, count_if-append,
}
use sm_poster.Routine.Control.{
  Control, ControlState, paused, dry_run, live, Event, commanded, tripped, asked, get_control,
  parse_state, write_state, set_control, pause_on_unknown, apply, apply_all,
}
use sm_poster.Routine.Runs.{
  Run, ok, row_running, index_holds, new_run, insert_run, recover_stale_running_run, start_run,
}

abbrev pub is_paused : Option Control → Bool
is_paused none = true
is_paused (some row) = elim row.state [ paused ↦ true | dry_run ↦ false | live ↦ false ]

-- A command of a named actor for a state other than `PAUSED`.
abbrev pub lifts : Option ControlState → Bool
lifts none = false
lifts (some paused) = false
lifts (some dry_run) = true
lifts (some live) = true

abbrev pub resumes : Event → Bool
resumes (commanded state actor reason) = truthy actor && lifts (parse_state state)
resumes (tripped publication_id reason) = false
resumes asked = false

apply-is_paused :
    (now : ℕ) (e : Event) (row : Option Control)
    → resumes e ≡ false
    → is_paused row ≡ true
    → is_paused (apply now e row) ≡ true
unfolding apply set_control write_state get_control pause_on_unknown
apply-is_paused now e row h p = ground arith

-- A routine that is paused, as it is without a control row, stays paused, whatever is called, the circuit breaker and refused commands
-- included, until a named actor sets the state to `DRY_RUN` or `LIVE`.
pub apply_all-is_paused :
    (events : List (ℕ × Event)) (row : Option Control)
    → any (λ e. resumes e.1) events ≡ false
    → is_paused row ≡ true
    → is_paused (apply_all events row) ≡ true
unfolding apply_all
apply_all-is_paused [] row h p = p
apply_all-is_paused ((now, e) ∷ rest) row h p =
    apply_all-is_paused rest (apply now e row) (ground arith)
      (apply-is_paused now e row (ground arith) p)

any-first :
    (runs : List Run) (r : Run) → first row_running runs ≡ some r → any row_running runs ≡ true
any-first [] r h = absurd (cc)
any-first (x ∷ runs) r h = ground (arith, any-first runs r)

insert-only :
    (id : ℕ) (mode : String) (now : ℕ) (meanwhile runs : List Run) (r : Run)
    → (insert_run id mode now meanwhile runs).0 ≡ ok r
    → (r ≡ new_run id mode now)
      × ((insert_run id mode now meanwhile runs).1 ≡ (runs ++ meanwhile) ++ r ∷ [])
      × (count_if row_running (insert_run id mode now meanwhile runs).1 ≡ 1)
unfolding insert_run index_holds
insert-only id mode now meanwhile runs r h = (
  ground arith,
  ground arith,
  ground (arith, count_if-append row_running (runs ++ meanwhile) (new_run id mode now ∷ [])),
)

-- A start that succeeds, whatever other sessions have committed in between, has recorded its run
-- as the last row, and that run is the only one that is running.
pub start_run_alone :
    (recovers : Bool) (id : ℕ) (mode : String) (now stale_seconds : ℕ) (meanwhile runs : List Run)
    (r : Run)
    → (start_run recovers id mode now stale_seconds meanwhile runs).0 ≡ ok r
    → (r ≡ new_run id mode now)
      × ((earlier : List Run) × ((start_run recovers id mode now stale_seconds meanwhile runs).1
            ≡ earlier ++ r ∷ []))
      × (count_if row_running (start_run recovers id mode now stale_seconds meanwhile runs).1 ≡ 1)
unfolding start_run
start_run_alone true id mode now stale_seconds meanwhile runs r h =
    let before = (recover_stale_running_run now stale_seconds runs).1 in
    (
      ground (arith, insert-only id mode now meanwhile before r),
      (before ++ meanwhile, ground (arith, insert-only id mode now meanwhile before r)),
      ground (arith, insert-only id mode now meanwhile before r),
    )
start_run_alone false id mode now stale_seconds meanwhile runs r h = (
  ground (arith, insert-only id mode now meanwhile runs r),
  (runs ++ meanwhile, ground (arith, insert-only id mode now meanwhile runs r)),
  ground (arith, insert-only id mode now meanwhile runs r),
)
