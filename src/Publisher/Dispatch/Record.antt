-- ===== src/Publisher/Dispatch/Record.antt =====
-- What `publish_once` raises and what it writes: `finalize_post_claim_unknown` and `_reconcile`.
use sm_poster.Prelude.{ℕ, String, Option, none, some, [], ◌∷◌}
use sm_poster.Domain.{
  Publication, PublicationStatus, publish_failed, publish_unknown, Attempt, AttemptStatus,
}
use sm_poster.Domain.Time.{Datetime}
use sm_poster.Session.{
  Action, raise, commit, rollback, try_except, ◌>>◌, set_publication, set_attempt,
}
use sm_poster.Publisher.Metadata.{Value, text, Metadata, sanitize_metadata}
use sm_poster.Publisher.Readiness.{Reason}

-- What `publish_once` raises: a `RuntimeError` with one of these texts, or
-- `PublicationReconciliationError`.
pub data PublishError : Type 0 where
  attempt_identity_mismatch publish_unknown_outcome provider_rejected reconciliation_error :
      PublishError
  refused : Reason → PublishError

-- What the provider's gateway does: it returns a body, in which `id` is `null` where the body is no
-- dict or has none, or raises one of its two errors or any other (not one of those that
-- `publish_once` raises itself).
pub data Answer : Type 0 where
  returned : Value → Answer
  definitive_rejection ambiguous_failure : String → Option ℕ → Answer
  other_exception : Answer

-- The text of a refusal.
abbrev pub reason_code : Reason → String
reason_code Reason.invalid_publication_state = "INVALID_PUBLICATION_STATE"
reason_code Reason.incomplete_snapshot = "INCOMPLETE_SNAPSHOT"
reason_code Reason.publishing_disabled = "PUBLISHING_DISABLED"
reason_code Reason.publishing_scope_required = "PUBLISHING_SCOPE_REQUIRED"
reason_code Reason.invalid_destination = "INVALID_DESTINATION"
reason_code Reason.destination_mismatch = "DESTINATION_MISMATCH"
reason_code Reason.invalid_approval = "INVALID_APPROVAL"
reason_code Reason.invalid_creative = "INVALID_CREATIVE"
reason_code Reason.media_not_publishable = "MEDIA_NOT_PUBLISHABLE"
reason_code Reason.not_due = "NOT_DUE"
reason_code Reason.attempt_mismatch = "ATTEMPT_MISMATCH"

-- `try: db.commit()`, `except: db.rollback(); raise PublicationReconciliationError`
unfoldable pub commit_or_reconciliation_error : Action PublishError (Unit {0})
unfolding commit
commit_or_reconciliation_error = try_except commit (rollback >> raise reconciliation_error)

abbrev pub close_unknown : Datetime → String → Attempt → Attempt
close_unknown now code a = record a {
  status = AttemptStatus.unknown;
  error_code = some code;
  completed_at = some now;
}

abbrev pub mark_unknown : String → Publication → Publication
mark_unknown code p = record p { status = publish_unknown; error_code = some code }

unfoldable pub finalize_post_claim_unknown :
    Datetime → ℕ → ℕ → String → Action PublishError (Unit {0})
unfolding set_attempt set_publication commit_or_reconciliation_error
finalize_post_claim_unknown now id attempt_id code = do
  set_attempt attempt_id (close_unknown now code)
  set_publication id (mark_unknown code)
  commit_or_reconciliation_error

abbrev pub pin_metadata : String → Metadata
pin_metadata pin = ("validated_pin_id", text pin) ∷ []

-- The outcome of an attempt that did not succeed: the two states that `_reconcile` writes.
pub data Verdict : Type 0 where
  failed unknown : Verdict

abbrev pub attempt_status : Verdict → AttemptStatus
attempt_status Verdict.failed = AttemptStatus.failed
attempt_status Verdict.unknown = AttemptStatus.unknown

abbrev pub publication_status : Verdict → PublicationStatus
publication_status Verdict.failed = publish_failed
publication_status Verdict.unknown = publish_unknown

-- `if pin_id: …`: a Pin id is kept as audit data; without one, the sanitised metadata are.
abbrev pub with_pin : Option String → Metadata → Attempt → Attempt
with_pin none metadata a = record a { safe_response_metadata = some (sanitize_metadata metadata) }
with_pin (some pin) metadata a = record a {
  provider_pin_id = some pin;
  safe_response_metadata = some (sanitize_metadata (pin_metadata pin));
}

abbrev pub close_attempt :
    Datetime → Verdict → String → Option String → Metadata → Attempt → Attempt
close_attempt now verdict code pin metadata a =
    with_pin pin metadata (record a {
      status = attempt_status verdict;
      error_code = some code;
      completed_at = some now;
    })

abbrev pub pin_or : Option String → Option String → Option String
pin_or none old = old
pin_or (some pin) old = some pin

abbrev pub close_publication : Verdict → String → Option String → Publication → Publication
close_publication verdict code pin p = record p {
  status = publication_status verdict;
  error_code = some code;
  pinterest_pin_id = pin_or pin p.pinterest_pin_id;
}

-- `_reconcile`; the Pin ids that it is given are not empty.
unfoldable pub reconcile :
    Datetime → ℕ → ℕ → Verdict → String → Option String → Metadata → Action PublishError (Unit {0})
unfolding set_attempt set_publication commit_or_reconciliation_error
reconcile now id attempt_id verdict code pin metadata = do
  set_attempt attempt_id (close_attempt now verdict code pin metadata)
  set_publication id (close_publication verdict code pin)
  commit_or_reconciliation_error
