-- ===== src/Examples/Running.antt =====
-- The routine's control and runs at concrete inputs.
use sm_poster.Prelude.{ℕ, ◌≡◌, refl, true, false, none, List, [], ◌∷◌, ◌++◌, count_if}
use sm_poster.Routine.Control.{
  Control, Event, commanded, tripped, asked, live, parse_state, apply_all,
}
use sm_poster.Routine.Runs.{Run, row_running, new_run, index_holds, start_run, insert_run}
use sm_poster.Routine.Safety.{is_paused, apply_all-is_paused, start_run_alone}

abbrev armed : Control
armed = record {
  state = live;
  pause_reason = none;
  paused_at = none;
  paused_by = none;
  last_unknown_publication_id = none;
}

abbrev calls : List (ℕ × Event)
calls =
    (1, asked)
    ∷ (2, tripped "publication" "PUBLISH_UNKNOWN_CIRCUIT_BREAKER")
    ∷ (3, commanded "LIVE" "" none)
    ∷ []

apply_all-is_paused_example : is_paused (apply_all calls none) ≡ true
unfolding parse_state
apply_all-is_paused_example = apply_all-is_paused calls none refl refl

abbrev running_run : Run
running_run = new_run 1 "LIVE" 100

start_run_alone_example :
    (new_run 1 "LIVE" 100 ≡ new_run 1 "LIVE" 100)
    × ((earlier : List Run) × ((start_run false 1 "LIVE" 100 900 [] []).1
          ≡ earlier ++ new_run 1 "LIVE" 100 ∷ []))
    × (count_if row_running (start_run false 1 "LIVE" 100 900 [] []).1 ≡ 1)
unfolding start_run insert_run index_holds
start_run_alone_example = start_run_alone false 1 "LIVE" 100 900 [] [] (new_run 1 "LIVE" 100) refl
