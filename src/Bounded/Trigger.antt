-- ===== src/Bounded/Trigger.antt =====
-- backend/app/db/bounded_batch_schema_0034.py: what the trigger `bounded_batch_guard` lets an update
-- write.
use sm_poster.Prelude.{
  ◌+◌, Bool, true, false, not, ◌&&◌, ◌||◌, Option, none, some, List, [], ◌∷◌, ◌==◌, count_if,
  is_some, leb, opt_eq,
}
use sm_poster.Bounded.{
  Batch, BatchState, Entry, EntryOutcome, State, is_ready, is_reserved, is_running,
}
use sm_poster.Bounded.Manifest.{Look, outcome_is, still_open}

abbrev pub is_completed : BatchState → Bool
is_completed BatchState.completed = true
is_completed _ = false

abbrev is_preparing_state : BatchState → Bool
is_preparing_state BatchState.preparing = true
is_preparing_state _ = false

-- The transitions, and every state to itself.
unfoldable pub transition_allowed : BatchState → BatchState → Bool
transition_allowed BatchState.opened new = not (is_ready new || is_running new || is_completed new)
transition_allowed BatchState.preparing BatchState.opened = false
transition_allowed BatchState.preparing new = not (is_running new || is_completed new)
transition_allowed BatchState.ready BatchState.opened = false
transition_allowed BatchState.ready BatchState.preparing = false
transition_allowed BatchState.ready new = not (is_completed new)
transition_allowed BatchState.running BatchState.opened = false
transition_allowed BatchState.running BatchState.preparing = false
transition_allowed BatchState.running BatchState.ready = false
transition_allowed BatchState.running new = true
transition_allowed BatchState.paused BatchState.paused = true
transition_allowed BatchState.paused BatchState.failed = true
transition_allowed BatchState.paused BatchState.completed = true
transition_allowed BatchState.paused new = false
transition_allowed BatchState.failed BatchState.failed = true
transition_allowed BatchState.failed new = false
transition_allowed BatchState.completed new = is_completed new

abbrev is_frozen : Entry → Bool
is_frozen e =
    is_some e.identity.publication_id
    && is_some e.identity.permit_id
    && is_some e.identity.publication_fingerprint
    && is_some e.identity.request_fingerprint

-- The update of a batch, when the entries are those of `new`.
unfoldable pub batch_allowed : Batch → State → Bool
unfolding transition_allowed
batch_allowed old new =
    leb old.attempts_reserved new.batch.attempts_reserved
    && leb new.batch.attempts_reserved (old.attempts_reserved + 1)
    && (not (is_some old.manifest) || opt_eq new.batch.manifest old.manifest)
    && (not old.admission_closed || is_preparing_state old.state || new.batch.admission_closed)
    && transition_allowed old.state new.batch.state
    && (new.batch.attempts_reserved == count_if is_reserved new.entries)
    && (not (is_ready new.batch.state || is_running new.batch.state || is_completed new.batch.state)
        || (is_some new.batch.manifest && count_if is_frozen new.entries == 5))
    && (not (is_completed new.batch.state)
        || (new.batch.attempts_reserved == 5
            && count_if (λ e. outcome_is EntryOutcome.was_published e.outcome) new.entries == 5))

abbrev pub is_final : Option EntryOutcome → Bool
is_final (some EntryOutcome.was_published) = true
is_final (some EntryOutcome.was_failed) = true
is_final _ = false

abbrev pub outcome_same : Option EntryOutcome → Option EntryOutcome → Bool
outcome_same none none = true
outcome_same (some o) other = outcome_is o other
outcome_same _ _ = false

-- The update of an entry's outcome.
abbrev pub outcome_allowed : Entry → Entry → Bool
outcome_allowed old new = not (is_final old.outcome) || outcome_same old.outcome new.outcome

unfoldable pub outcomes_allowed : List Entry → List Entry → Bool
outcomes_allowed [] new = true
outcomes_allowed (e ∷ old) [] = true
outcomes_allowed (e ∷ old) (f ∷ new) = outcome_allowed e f && outcomes_allowed old new

abbrev is_open : Look → Bool
is_open still_open = true
is_open _ = false

-- The writes of a look at the batch `s`: the outcomes of entries, and then the batch if it is closed.
unfoldable pub look_allowed : Look → State → State → Bool
unfolding outcomes_allowed batch_allowed
look_allowed look s next =
    outcomes_allowed s.entries next.entries && (is_open look || batch_allowed s.batch next)
