-- ===== src/Reconciliation.antt =====
-- backend/app/services/publication_reconciliation.py: an operator's verdict on a publication of
-- unknown outcome.
pub mod Verdicts
pub mod Known
pub mod Pins
pub mod Resolved
use sm_poster.Prelude.{
  ℕ, String, Bool, true, false, not, ◌&&◌, ◌||◌, Option, none, some, List, [], ◌∷◌, ◌++◌, ◌==◌, leb,
  ltb, str_eq, if◌then◌else◌, keep, first, any, truthy, truthy?, text_eq, text_in, char_count,
  all_chars, any_char, is_control, is_space, has_content, is_digit, length,
}
use sm_poster.Prelude.Table.{get, rows}
use sm_poster.Domain.{
  Db, Publication, PublicationStatus, published, publish_unknown, cancelled, status_eq, Attempt,
  is_unknown, ReconciliationEvent,
}
use sm_poster.Domain.Time.{Datetime}
use sm_poster.Session.{
  Action, World, pure, raise, gets, raise_if, modify, commit, rollback, try_except, ◌>>=◌, ◌>>◌,
  set_publication,
}

pub data ReconciliationError : Type 0 where
  actor_required confirmation_required requires_publish_unknown conflicting_known_pins
        known_provider_operation invalid_provider_pin_id reason_required invalid_reason
        known_pin_mismatch pin_already_assigned known_pin_requires_confirmation unsupported_action
        conflict persistence_failed :
      ReconciliationError

-- The new status and the Pin id of the event, or the error.
pub data Verdict : Type 0 where
  accept : PublicationStatus → Option String → Verdict
  refuse : ReconciliationError → Verdict

infixr 10 ◌otherwise◌
abbrev pub ◌otherwise◌ : Bool × ReconciliationError → Verdict → Verdict
check otherwise rest = if check.0 then refuse check.1 else rest

-- `[A-Za-z0-9._:-]`
abbrev is_pin_char : ℕ → Bool
is_pin_char c =
    (leb b'A' c && leb c b'Z')
    || (leb b'a' c && leb c b'z')
    || is_digit c
    || c == b'.'
    || c == b'_'
    || c == b':'
    || c == b'-'

abbrev pub max_provider_pin_id_length : ℕ
max_provider_pin_id_length = 80

unfoldable pub pin_valid : Option String → Bool
pin_valid none = false
pin_valid (some s) =
    leb 1 (char_count s)
    && leb (char_count s) max_provider_pin_id_length
    && all_chars is_pin_char s
    && not (any_char (λ c. is_space c || ltb c 32) s)

-- Whether `_validate_reason` raises.
unfoldable pub reason_bad : Bool → Option String → Bool
reason_bad required none = required
reason_bad required (some s) =
    ltb 500 (char_count s) || not (has_content s) || any_char is_control s

abbrev reason_error : Bool → Option String → ReconciliationError
reason_error required none = reason_required
reason_error required (some s) = if required then reason_required else invalid_reason

-- `set.add`
abbrev pub add_text : Option String → List String → List String
add_text none known = known
add_text (some s) known = if not (truthy s) || text_in s known then known else s ∷ known

unfoldable pub attempts_of : ℕ → Db → List Attempt
attempts_of id db = keep (λ a. a.publication_id == id) (rows db.attempts)

unfoldable pub attempt_pins : List Attempt → List String
attempt_pins [] = []
attempt_pins (a ∷ attempts) = add_text a.provider_pin_id (attempt_pins attempts)

unfoldable pub known_pins : Publication → List Attempt → List String
unfolding attempt_pins
known_pins p attempts = add_text p.pinterest_pin_id (attempt_pins attempts)

abbrev is_empty : List String → Bool
is_empty [] = true
is_empty (s ∷ rest) = false

-- Another publication, or an attempt of another one, has the Pin id.
unfoldable pub pin_taken : ℕ → Option String → Db → Bool
pin_taken id pin db =
    any (λ p. text_eq p.pinterest_pin_id pin && not (p.id == id)) (rows db.publications)
    || any (λ a. text_eq a.provider_pin_id pin && not (a.publication_id == id)) (rows db.attempts)

abbrev pub in_known : Option String → List String → Bool
in_known none known = false
in_known (some pin) known = text_in pin known

pub record Request : Type 0 where
  pub actor : String
  pub action : String
  pub confirmed : Bool
  pub provider_pin_id : Option String
  pub reason : Option String

unfoldable pub confirm_verdict : ℕ → Request → Db → List Attempt → List String → Verdict
confirm_verdict id r db attempts known =
    (
      any (λ a. str_eq a.dispatch_provider "buffer" && truthy? a.provider_operation_id) attempts,
      known_provider_operation,
    )
    otherwise (not (pin_valid r.provider_pin_id), invalid_provider_pin_id)
    otherwise (reason_bad false r.reason, reason_error false r.reason)
    otherwise (not (is_empty known) && not (in_known r.provider_pin_id known), known_pin_mismatch)
    otherwise (pin_taken id r.provider_pin_id db, pin_already_assigned)
    otherwise accept published r.provider_pin_id

unfoldable pub cancel_verdict : Request → List Attempt → List String → Verdict
cancel_verdict r attempts known =
    (any (λ a. truthy? a.provider_operation_id) attempts, known_provider_operation)
    otherwise (reason_bad true r.reason, reason_error true r.reason)
    otherwise (not (is_empty known), known_pin_requires_confirmation)
    otherwise accept cancelled none

-- The checks on a publication that is there.
unfoldable pub row_verdict : ℕ → Request → Db → Option Publication → Verdict
unfolding confirm_verdict cancel_verdict
row_verdict id r db none = refuse requires_publish_unknown
row_verdict id r db (some p) =
    let attempts = attempts_of id db in
    let known = known_pins p attempts in
    (not (status_eq p.status publish_unknown), requires_publish_unknown)
    otherwise (ltb 1 (length known), conflicting_known_pins)
    otherwise (if str_eq r.action "PROVIDER_PIN_CONFIRMED"
        then confirm_verdict id r db attempts known
        else if str_eq r.action "CANCELLED_UNKNOWN"
        then cancel_verdict r attempts known
        else refuse unsupported_action)

-- All that `reconcile` checks before it writes.
unfoldable pub verdict_of : ℕ → Request → Db → Verdict
unfolding row_verdict
verdict_of id r db =
    (not (truthy r.actor), actor_required)
    otherwise (not r.confirmed, confirmation_required)
    otherwise row_verdict id r db (get id db.publications)

abbrev pub resolve_row : Datetime → PublicationStatus → Option String → Publication → Publication
resolve_row now status none p = record p {
  status = status;
  pinterest_pin_id = none;
  published_at = none;
  scheduled_for = none;
  error_code = none;
}
resolve_row now status (some pin) p = record p {
  status = status;
  pinterest_pin_id = some pin;
  published_at = some now;
  error_code = none;
}

abbrev unknown_attempt_id : Option Attempt → Option ℕ
unknown_attempt_id none = none
unknown_attempt_id (some a) = some a.id

abbrev pub event_of : ℕ → Request → PublicationStatus → Option String → Db → ReconciliationEvent
event_of id r status pin db = record {
  publication_id = id;
  attempt_id = unknown_attempt_id (first (λ a. is_unknown a.status) (attempts_of id db));
  actor = r.actor;
  action = r.action;
  previous_status = publish_unknown;
  new_status = status;
  provider_pin_id = pin;
  reason = r.reason;
}

-- The update's condition, on the row as it is.
abbrev still_unknown : Option Publication → Bool
still_unknown none = false
still_unknown (some p) = status_eq p.status publish_unknown

unfoldable pub apply_verdict :
    Datetime → ℕ → Request → Verdict → Action ReconciliationError (Unit {0})
unfolding commit set_publication
apply_verdict now id r (refuse e) = raise e
apply_verdict now id r (accept status pin) = do
  event ← gets (event_of id r status pin)
  claimed ← gets (λ db. still_unknown (get id db.publications))
  if not claimed then rollback >> raise conflict else do
    set_publication id (resolve_row now status pin)
    modify (λ db. record db { events = db.events ++ event ∷ [] })
    try_except commit (rollback >> raise persistence_failed)

unfoldable pub reconcile : Datetime → ℕ → Request → Action ReconciliationError (Unit {0})
unfolding apply_verdict
reconcile now id r = do verdict ← gets (verdict_of id r); apply_verdict now id r verdict
