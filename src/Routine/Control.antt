-- ===== src/Routine/Control.antt =====
-- The control row: whether the routine publishes, and why it does not.
use sm_poster.Prelude.{
  ℕ, String, not, Option, none, some, List, [], ◌∷◌, str_eq, if◌then◌else◌, truthy, truthy?,
  or_empty, text_take,
}

pub data ControlState : Type 0 where
  paused dry_run live : ControlState

pub record Control : Type 0 where
  pub state : ControlState
  pub pause_reason : Option String
  pub paused_at : Option ℕ
  pub paused_by : Option String
  pub last_unknown_publication_id : Option String

pub data ControlError : Type 0 where
  invalid_state actor_required : ControlError

pub data Outcome : Type 0 where
  set : Control → Outcome
  refused : ControlError → Outcome

-- The row that `get_control` makes.
abbrev pub not_armed : ℕ → Control
not_armed now = record {
  state = paused;
  pause_reason = some "ROUTINE_CONTROL_NOT_ARMED";
  paused_at = some now;
  paused_by = some "system";
  last_unknown_publication_id = none;
}

-- `get_control(db)`: the row, or the one it inserts; if another session has inserted one meanwhile,
-- the insert is refused and that one is read.
unfoldable pub get_control : ℕ → Option Control → Option Control → Control
get_control now (some row) meanwhile = row
get_control now none (some other) = other
get_control now none none = not_armed now

-- `"PAUSED"`, `"DRY_RUN"` or `"LIVE"`.
unfoldable pub parse_state : String → Option ControlState
parse_state s =
    if str_eq s "PAUSED"
    then some paused
    else if str_eq s "DRY_RUN"
    then some dry_run
    else if str_eq s "LIVE"
    then some live
    else none

-- `reason or "OPERATOR_PAUSE"`
abbrev or_operator_pause : Option String → String
or_operator_pause reason = if truthy? reason then or_empty reason else "OPERATOR_PAUSE"

unfoldable pub write_state : ℕ → String → Option String → ControlState → Control → Control
write_state now actor reason paused row = record row {
  state = paused;
  pause_reason = some (text_take 255 (or_operator_pause reason));
  paused_at = some now;
  paused_by = some (text_take 255 actor);
}
write_state now actor reason dry_run row = record row {
  state = dry_run;
  pause_reason = none;
  paused_at = none;
  paused_by = none;
}
write_state now actor reason live row = record row {
  state = live;
  pause_reason = none;
  paused_at = none;
  paused_by = none;
}

-- The row after the call, or the error before anything is written.
abbrev set_parsed : ℕ → String → Option String → Option ControlState → Control → Outcome
set_parsed now actor reason none row = refused invalid_state
set_parsed now actor reason (some state) row =
    if not (truthy actor)
    then refused actor_required
    else set (write_state now actor reason state row)

unfoldable pub set_control :
    ℕ → String → String → Option String → Option Control → Option Control → Outcome
set_control now state actor reason row meanwhile =
    set_parsed now actor reason (parse_state state) (get_control now row meanwhile)

-- The circuit breaker.
unfoldable pub pause_on_unknown : ℕ → String → String → Option Control → Option Control → Control
pause_on_unknown now publication_id reason row meanwhile = record (get_control now row meanwhile) {
  state = paused;
  pause_reason = some (text_take 255 reason);
  paused_at = some now;
  paused_by = some "routine-worker";
  last_unknown_publication_id = some publication_id;
}

-- The calls that change the row.
pub data Event : Type 0 where
  commanded : String → String → Option String → Event
  tripped : String → String → Event
  asked : Event

abbrev after_outcome : Option Control → Outcome → Option Control
after_outcome row (set new) = some new
after_outcome row (refused e) = row

-- The row in the database after a call at `now`. A row that `get_control` makes is committed before
-- the rest of the call.
unfoldable pub apply : ℕ → Event → Option Control → Option Control
apply now (commanded state actor reason) row =
    after_outcome row (set_control now state actor reason row none)
apply now (tripped publication_id reason) row =
    some (pause_on_unknown now publication_id reason row none)
apply now asked row = some (get_control now row none)

unfoldable pub apply_all : List (ℕ × Event) → Option Control → Option Control
unfolding apply
apply_all [] row = row
apply_all ((now, e) ∷ rest) row = apply_all rest (apply now e row)
