-- ===== src/Publisher/Dispatch.antt =====
-- `publish_once` of pinterest_publisher.py, with `_reconcile` and `finalize_post_claim_unknown`: one
-- request to the provider, and the recording of what came of it.
pub mod Record
pub mod Settled
pub mod Outcomes
pub mod Answers
pub mod Once
pub mod Request
use sm_poster.Prelude.{
  ℕ, String, Bool, not, ◌&&◌, Option, none, some, [], ◌∷◌, ◌==◌, if◌then◌else◌, truthy?, or_empty,
  is_some,
}
use sm_poster.Prelude.Table.{get}
use sm_poster.Domain.{
  Db, Publication, PublicationStatus, publishing, published, publish_failed, publish_unknown,
  status_eq, Attempt, AttemptStatus, is_started, PinPayload,
}
use sm_poster.Domain.Time.{Datetime}
use sm_poster.Session.{
  Action, pure, raise, gets, raise_if, commit, rollback, try_except, send, ◌>>=◌, ◌>>◌,
  read_publication, read_attempt, set_publication, set_attempt,
}
use sm_poster.Publisher.Metadata.{
  Value, null, int, text, Metadata, is_numeric_pin_id, sanitize_metadata,
}
use sm_poster.Publisher.Readiness.{
  Gate, Reason, Readiness, ready, not_ready, execution_publish_readiness,
}
use Record.{
  PublishError, Answer, reason_code, commit_or_reconciliation_error, close_unknown, mark_unknown,
  finalize_post_claim_unknown, pin_metadata, Verdict, attempt_status, publication_status, with_pin,
  close_attempt, pin_or, close_publication, reconcile, attempt_identity_mismatch,
  publish_unknown_outcome, provider_rejected, reconciliation_error, refused, returned,
  definitive_rejection, ambiguous_failure, other_exception,
}

-- `a or b or ""`
abbrev or_first : Option String → Option String → String
or_first a b = if truthy? a then or_empty a else or_empty b

abbrev pub payload_of : Publication → PinPayload
payload_of p = record {
  board_id = or_first p.pinterest_board_id_snapshot p.pinterest_board_id;
  title = or_empty p.title_snapshot;
  description = or_empty p.description_snapshot;
  link = or_empty p.utm_url;
  image_url = p.media_url_snapshot;
  alt_text = p.alt_text_snapshot;
}

abbrev pub succeed_attempt : Datetime → String → Attempt → Attempt
succeed_attempt now pin a = record a {
  status = AttemptStatus.succeeded;
  provider_pin_id = some pin;
  safe_response_metadata = some (sanitize_metadata (pin_metadata pin));
  completed_at = some now;
}

abbrev pub mark_published : Datetime → String → Publication → Publication
mark_published now pin p = record p {
  status = published;
  pinterest_pin_id = some pin;
  published_at = some now;
}

-- The rows are still there after the rollback.
abbrev both_there : ℕ → ℕ → Db → Bool
both_there id attempt_id db =
    is_some (get attempt_id db.attempts) && is_some (get id db.publications)

-- The provider has published and the commit has failed: the outcome is recorded as unknown, with
-- the Pin id as audit data.
unfoldable pub persist_unknown : Datetime → ℕ → ℕ → String → Action PublishError String
unfolding reconcile
persist_unknown now id attempt_id pin = do
  rollback
  there ← gets (both_there id attempt_id)
  if not there then rollback >> raise reconciliation_error else do
    reconcile now id attempt_id Verdict.unknown "PUBLISHED_STATE_PERSISTENCE_UNKNOWN" (some pin) []
    raise publish_unknown_outcome

unfoldable pub persist_success : Datetime → ℕ → ℕ → String → Action PublishError String
unfolding set_attempt set_publication commit persist_unknown
persist_success now id attempt_id pin = do
  set_attempt attempt_id (succeed_attempt now pin)
  set_publication id (mark_published now pin)
  try_except (commit >> pure pin) (persist_unknown now id attempt_id pin)

abbrev status_value : Option ℕ → Value
status_value none = null
status_value (some n) = int n

abbrev pub error_metadata : String → Option ℕ → Metadata
error_metadata code status =
    ("http_status", status_value status) ∷ ("provider_error_code", text code) ∷ []

-- The handler of any other exception: what this session holds is dropped, and the attempt is closed.
unfoldable pub record_failure :
    Datetime → ℕ → ℕ → Verdict → String → PublishError → Metadata → Action PublishError String
unfolding reconcile read_attempt
record_failure now id attempt_id verdict code error metadata = do
  rollback
  read_attempt attempt_id
  reconcile now id attempt_id verdict code none metadata
  raise error

unfoldable pub record_unknown : Datetime → ℕ → ℕ → Metadata → Action PublishError String
unfolding record_failure
record_unknown now id attempt_id metadata =
    record_failure now id attempt_id Verdict.unknown "PUBLISH_UNKNOWN" publish_unknown_outcome
      metadata

unfoldable pub record_answer : Datetime → ℕ → ℕ → Answer → Action PublishError String
unfolding persist_success record_unknown record_failure
record_answer now id attempt_id (returned (text pin)) =
    if is_numeric_pin_id pin
    then persist_success now id attempt_id pin
    else record_unknown now id attempt_id (error_metadata "PINTEREST_MISSING_PIN_ID" none)
record_answer now id attempt_id (returned v) =
    record_unknown now id attempt_id (error_metadata "PINTEREST_MISSING_PIN_ID" none)
record_answer now id attempt_id (definitive_rejection code status) =
    record_failure now id attempt_id Verdict.failed "PROVIDER_REJECTED" provider_rejected
      (error_metadata code status)
record_answer now id attempt_id (ambiguous_failure code status) =
    record_unknown now id attempt_id (error_metadata code status)
record_answer now id attempt_id other_exception = record_unknown now id attempt_id []

abbrev identity_ok : Publication → Attempt → Bool
identity_ok p a = status_eq p.status publishing && (a.publication_id == p.id) && is_started a.status

-- What follows the last check.
unfoldable pub dispatch :
    Datetime → (PinPayload → Answer) → ℕ → ℕ → Publication → Readiness → Action PublishError String
unfolding finalize_post_claim_unknown record_answer
dispatch now provider id attempt_id p (not_ready reason) = do
  finalize_post_claim_unknown now id attempt_id (reason_code reason)
  raise (refused reason)
dispatch now provider id attempt_id p ready = do
  answer ← send provider (payload_of p)
  record_answer now id attempt_id answer

-- The result is the Pin id of the body that the code returns.
unfoldable pub publish_once :
    Gate → Datetime → (PinPayload → Answer) → ℕ → Option ℕ → Action PublishError String
unfolding read_publication read_attempt dispatch
publish_once gate now provider id none = raise attempt_identity_mismatch
publish_once gate now provider id (some attempt_id) = do
  p ← read_publication id
  a ← read_attempt attempt_id
  raise_if (not (identity_ok p a)) attempt_identity_mismatch
  verdict ← gets (λ db. execution_publish_readiness gate db p a)
  dispatch now provider id attempt_id p verdict
