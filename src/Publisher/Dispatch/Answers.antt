-- ===== src/Publisher/Dispatch/Answers.antt =====
-- What is committed once the provider has answered, by the answer and by how the call ends.
use sm_poster.Prelude.{
  ℕ, ◌≡◌, refl, ◌⊎◌, inl, inr, String, Bool, true, false, Option, none, some, List, [], ◌∷◌, arith,
  Bool-cases, if◌then◌else◌,
}
use sm_poster.Prelude.Table.{get-update}
use sm_poster.Domain.{
  Publication, published, publish_failed, publish_unknown, Attempt, AttemptStatus,
}
use sm_poster.Domain.Time.{Datetime}
use sm_poster.Session.{
  World, Result, ok, raised, fault, commit, set_attempt, set_publication, database_error,
}
use sm_poster.Publisher.Metadata.{
  Metadata, is_numeric_pin_id, null, other, bool, int, negative, text,
}
use sm_poster.Publisher.Dispatch.{
  persist_unknown, persist_success, record_failure, record_unknown, record_answer, mark_published,
  succeed_attempt, error_metadata,
}
use sm_poster.Publisher.Dispatch.Record.{
  PublishError, attempt_identity_mismatch, publish_unknown_outcome, provider_rejected,
  reconciliation_error, refused, Answer, returned, definitive_rejection, ambiguous_failure,
  other_exception, Verdict,
}
use sm_poster.Publisher.Dispatch.Settled.{later, Recorded, Holds, with_rows}
use sm_poster.Publisher.Dispatch.Outcomes.{
  RaisedOrLost, record_failure-RaisedOrLost, persist_unknown-RaisedOrLost,
}

-- The Pin id that is kept once the provider has answered: the one that it returned, if it is valid.
abbrev pub kept_pin : Answer → Option String → Option String
kept_pin (returned (text pin)) old = if is_numeric_pin_id pin then some pin else old
kept_pin _ old = old

abbrev pub IsRejection : Answer → Type 0
IsRejection answer =
    (code : String) × (status : Option ℕ) × (answer ≡ definitive_rejection code status)

-- The metadata of a body without a valid Pin id.
abbrev missing_id : Metadata
missing_id = error_metadata "PINTEREST_MISSING_PIN_ID" none

module _ (id attempt_id : ℕ) (now : Datetime) (p : Publication) (a : Attempt) where
  -- After the provider's answer, from a world `w` whose database holds the rows: by how the call
  -- ends.
  abbrev pub Answered : Answer → World → Result PublishError String × World → Type 0
  Answered answer w (ok pin, w') =
      (answer ≡ returned (text pin))
      × (is_numeric_pin_id pin ≡ true)
      × Recorded id attempt_id published AttemptStatus.succeeded (some pin) w'.durable
      × (w'.sent ≡ w.sent)
  Answered answer w (raised provider_rejected, w') =
      IsRejection answer
      × Recorded id attempt_id publish_failed AttemptStatus.failed p.pinterest_pin_id w'.durable
      × (w'.sent ≡ w.sent)
  Answered answer w (raised publish_unknown_outcome, w') =
      Recorded id attempt_id publish_unknown AttemptStatus.unknown
        (kept_pin answer p.pinterest_pin_id) w'.durable
      × (w'.sent ≡ w.sent)
  Answered answer w (raised reconciliation_error, w') =
      (w'.durable ≡ w.durable) × (w'.sent ≡ w.sent)
  Answered answer w (raised attempt_identity_mismatch, w') = ⊥
  Answered answer w (raised (refused reason), w') = ⊥
  Answered answer w (fault f, w') = ⊥

  unknown-Answered :
      (answer : Answer) (w : World) (r : Result PublishError String × World)
      → RaisedOrLost publish_unknown_outcome
          (Recorded id attempt_id publish_unknown AttemptStatus.unknown
            (kept_pin answer p.pinterest_pin_id))
          w
          r
      → Answered answer w r
  unknown-Answered answer w (ok pin, w') h = absurd h
  unknown-Answered answer w (fault f, w') h = absurd h
  unknown-Answered answer w (raised e, w') (inl (same, done, sent)) = rw same (done, sent)
  unknown-Answered answer w (raised e, w') (inr (same, kept, sent)) = rw same (kept, sent)

  rejected-Answered :
      (answer : Answer) (w : World) (r : Result PublishError String × World)
      → IsRejection answer
      → RaisedOrLost provider_rejected
          (Recorded id attempt_id publish_failed AttemptStatus.failed p.pinterest_pin_id)
          w
          r
      → Answered answer w r
  rejected-Answered answer w (ok pin, w') rejection h = absurd h
  rejected-Answered answer w (fault f, w') rejection h = absurd h
  rejected-Answered answer w (raised e, w') rejection (inl (same, done, sent)) =
      rw same (rejection, done, sent)
  rejected-Answered answer w (raised e, w') rejection (inr (same, kept, sent)) =
      rw same (kept, sent)

  commit-at :
      (w : World) (faults : List Bool)
      → w.faults ≡ faults
      → (commit {E = PublishError} w
          ≡ (ok tt, record w { durable = w.working; faults = later faults }))
        ⊎ (commit {E = PublishError} w ≡ (fault database_error, record w { faults = later faults }))
  unfolding commit
  commit-at w [] e = inl (ground arith)
  commit-at w (false ∷ rest) e = inl (ground arith)
  commit-at w (true ∷ rest) e = inr (ground arith)

  lost-Answered :
      (w : World) (pin : String)
      → is_numeric_pin_id pin ≡ true
      → Holds id attempt_id now p a w.durable
      → Answered (returned (text pin)) w (persist_unknown now id attempt_id pin w)
  lost-Answered w pin valid h =
      unknown-Answered (returned (text pin)) w (persist_unknown now id attempt_id pin w)
        (rw valid (persist_unknown-RaisedOrLost id attempt_id now p a w pin h))

  record_unknown-Answered :
      (w : World) (answer : Answer) (metadata : Metadata)
      → kept_pin answer p.pinterest_pin_id ≡ p.pinterest_pin_id
      → Holds id attempt_id now p a w.durable
      → Answered answer w (record_unknown now id attempt_id metadata w)
  unfolding record_unknown
  record_unknown-Answered w answer metadata same h =
      unknown-Answered answer w
        (record_failure now id attempt_id Verdict.unknown "PUBLISH_UNKNOWN" publish_unknown_outcome
          metadata w)
        (rw same (
          record_failure-RaisedOrLost id attempt_id now p a w Verdict.unknown "PUBLISH_UNKNOWN"
            publish_unknown_outcome metadata h))

  persist_success-Answered :
      (w : World) (pin : String)
      → is_numeric_pin_id pin ≡ true
      → Holds id attempt_id now p a w.durable
      → Holds id attempt_id now p a w.working
      → Answered (returned (text pin)) w (persist_success now id attempt_id pin w)
  unfolding persist_success set_attempt set_publication
  persist_success-Answered w pin valid h held =
      let w1 =
        with_rows id attempt_id now p a (succeed_attempt now pin) (mark_published now pin) w in
      elim (commit-at w1 w.faults refl) [
        | inl e ↦ rw e (
          refl,
          valid,
          record {
            publication = mark_published now pin p;
            publication_found = ground (
              arith,
              get-update id id (mark_published now pin) w.working.publications,
              held.publication_found,
            );
            publication_status = refl;
            publication_pin = refl;
            attempt = succeed_attempt now pin a;
            attempt_found = ground (
              arith,
              get-update attempt_id attempt_id (succeed_attempt now pin) w.working.attempts,
              held.attempt_found,
            );
            attempt_status = refl;
          },
          refl,
        )
        | inr e ↦ rw e (lost-Answered (record w1 { faults = later w.faults }) pin valid h)
      ]

  pub record_answer-Answered :
      (w : World) (answer : Answer)
      → Holds id attempt_id now p a w.durable
      → Holds id attempt_id now p a w.working
      → Answered answer w (record_answer now id attempt_id answer w)
  unfolding record_answer
  record_answer-Answered w (returned (text pin)) h held =
      elim (Bool-cases (is_numeric_pin_id pin)) [
        | inl valid ↦ rw valid (persist_success-Answered w pin valid h held)
        | inr invalid ↦
            rw invalid (record_unknown-Answered w (returned (text pin)) missing_id (rw invalid) h)
      ]
  record_answer-Answered w (returned null) h held =
      record_unknown-Answered w (returned null) missing_id refl h
  record_answer-Answered w (returned other) h held =
      record_unknown-Answered w (returned other) missing_id refl h
  record_answer-Answered w (returned (bool b)) h held =
      record_unknown-Answered w (returned (bool b)) missing_id refl h
  record_answer-Answered w (returned (int n)) h held =
      record_unknown-Answered w (returned (int n)) missing_id refl h
  record_answer-Answered w (returned (negative n)) h held =
      record_unknown-Answered w (returned (negative n)) missing_id refl h
  record_answer-Answered w (definitive_rejection code status) h held =
      rejected-Answered (definitive_rejection code status) w
        (record_failure now id attempt_id Verdict.failed "PROVIDER_REJECTED" provider_rejected
          (error_metadata code status) w)
        (code, status, refl)
        (record_failure-RaisedOrLost id attempt_id now p a w Verdict.failed "PROVIDER_REJECTED"
          provider_rejected (error_metadata code status) h)
  record_answer-Answered w (ambiguous_failure code status) h held =
      record_unknown-Answered w (ambiguous_failure code status) (error_metadata code status) refl h
  record_answer-Answered w other_exception h held =
      record_unknown-Answered w other_exception [] refl h
