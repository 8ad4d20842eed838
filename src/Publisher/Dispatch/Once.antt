-- ===== src/Publisher/Dispatch/Once.antt =====
-- `publish_once` as a whole: every way it can end, for any answer of the provider and any commits
-- that the database refuses.
use sm_poster.Prelude.{ℕ, ◌≡◌, refl, ◌⊎◌, inl, inr, String, true, some, ◌∷◌, Bool-cases}
use sm_poster.Prelude.Table.{get}
use sm_poster.Domain.{
  Publication, published, publish_failed, publish_unknown, Attempt, AttemptStatus, PinPayload,
}
use sm_poster.Domain.Time.{Datetime}
use sm_poster.Session.{World, Result, ok, raised, fault, raise, continue}
use sm_poster.Publisher.Metadata.{is_numeric_pin_id, text}
use sm_poster.Publisher.Readiness.{
  Gate, Reason, Readiness, ready, not_ready, execution_publish_readiness,
}
use sm_poster.Publisher.Dispatch.{record_answer, dispatch, publish_once, identity_ok, payload_of}
use sm_poster.Publisher.Dispatch.Record.{
  PublishError, attempt_identity_mismatch, publish_unknown_outcome, provider_rejected,
  reconciliation_error, refused, Answer, returned, finalize_post_claim_unknown, reason_code,
}
use sm_poster.Publisher.Dispatch.Settled.{Recorded, Holds, SavedOrLost, finalize-SavedOrLost}
use sm_poster.Publisher.Dispatch.Answers.{Answered, IsRejection, kept_pin, record_answer-Answered}

module _ (provider : PinPayload → Answer) (id attempt_id : ℕ) (now : Datetime) (p : Publication)
    (a : Attempt) where
  abbrev pub answer : Answer
  answer = provider (payload_of p)

  -- How a call that began in the world `w` has ended.
  abbrev pub Settled : World → Result PublishError String × World → Type 0
  Settled w (ok pin, w') =
      (answer ≡ returned (text pin))
      × (is_numeric_pin_id pin ≡ true)
      × Recorded id attempt_id published AttemptStatus.succeeded (some pin) w'.durable
      × (w'.sent ≡ payload_of p ∷ w.sent)
  Settled w (raised provider_rejected, w') =
      IsRejection answer
      × Recorded id attempt_id publish_failed AttemptStatus.failed p.pinterest_pin_id w'.durable
      × (w'.sent ≡ payload_of p ∷ w.sent)
  Settled w (raised publish_unknown_outcome, w') =
      Recorded id attempt_id publish_unknown AttemptStatus.unknown
        (kept_pin answer p.pinterest_pin_id) w'.durable
      × (w'.sent ≡ payload_of p ∷ w.sent)
  Settled w (raised (refused reason), w') =
      Recorded id attempt_id publish_unknown AttemptStatus.unknown p.pinterest_pin_id w'.durable
      × (w'.sent ≡ w.sent)
  Settled w (raised reconciliation_error, w') =
      (w'.durable ≡ w.durable) × ((w'.sent ≡ w.sent) ⊎ (w'.sent ≡ payload_of p ∷ w.sent))
  Settled w (raised attempt_identity_mismatch, w') = w' ≡ w
  Settled w (fault f, w') = ⊥

  Answered-Settled :
      (w : World) (r : Result PublishError String × World)
      → Answered id attempt_id now p a answer (record w { sent = payload_of p ∷ w.sent }) r
      → Settled w r
  Answered-Settled w (ok pin, w') h = h
  Answered-Settled w (fault f, w') h = h
  Answered-Settled w (raised provider_rejected, w') h = h
  Answered-Settled w (raised publish_unknown_outcome, w') h = h
  Answered-Settled w (raised reconciliation_error, w') h = (h.0, inr h.1)
  Answered-Settled w (raised attempt_identity_mismatch, w') h = absurd h
  Answered-Settled w (raised (refused reason), w') h = absurd h

  refused-Settled :
      (reason : Reason) (w : World) (r : Result PublishError (Unit {0}) × World)
      → SavedOrLost
          (Recorded id attempt_id publish_unknown AttemptStatus.unknown p.pinterest_pin_id)
          w
          r
      → Settled w (continue r.0 (λ _. raise (refused reason)) r.1)
  refused-Settled reason w (ok t, w') h = h
  refused-Settled reason w (raised e, w') (same, kept, sent) = rw same (kept, inl sent)
  refused-Settled reason w (fault f, w') h = h

  dispatch-Settled :
      (w : World) (verdict : Readiness)
      → Holds id attempt_id now p a w.durable
      → Holds id attempt_id now p a w.working
      → Settled w (dispatch now provider id attempt_id p verdict w)
  unfolding dispatch
  dispatch-Settled w (not_ready reason) h held =
      refused-Settled reason w
        (finalize_post_claim_unknown now id attempt_id (reason_code reason) w)
        (finalize-SavedOrLost id attempt_id now p a w (reason_code reason) held)
  dispatch-Settled w ready h held =
      let w1 = record w { sent = payload_of p ∷ w.sent } in
      Answered-Settled w (record_answer now id attempt_id answer w1)
        (record_answer-Answered id attempt_id now p a w1 answer h held)

-- Every way `publish_once` ends, for any answer of the provider and whichever commits the database
-- refuses, when the publication and the attempt are committed rows. It returns a Pin id only if the
-- provider returned it, and then PUBLISHED and the attempt's success are committed with it. It
-- raises PROVIDER_REJECTED only if the provider refused definitively, and then PUBLISH_FAILED is
-- committed. It raises PUBLISH_UNKNOWN with PUBLISH_UNKNOWN committed, and with the Pin id that the
-- provider returned, if there was a valid one. A refusal by a gate commits PUBLISH_UNKNOWN, and an
-- attempt that does not fit changes nothing; neither asks the provider. A reconciliation error
-- leaves the database as it was. No other exception escapes, and the provider is asked at most once.
pub publish_once-Settled :
    (gate : Gate) (now : Datetime) (provider : PinPayload → Answer) (id attempt_id : ℕ)
    (p : Publication) (a : Attempt) (w : World)
    → w.durable ≡ w.working
    → get id w.working.publications ≡ some p
    → get attempt_id w.working.attempts ≡ some a
    → Settled provider id attempt_id now p a w
        (publish_once gate now provider id (some attempt_id) w)
unfolding publish_once
publish_once-Settled gate now provider id attempt_id p a w same fp fa =
    let held : Holds id attempt_id now p a w.working = record {
      publication_found = fp;
      attempt_found = fa;
    } in
    rw (fp, fa)
      (elim (Bool-cases (identity_ok p a)) [
        | inl fits ↦ rw fits (
            dispatch-Settled provider id attempt_id now p a w
              (execution_publish_readiness gate w.working p a) (rw same held) held)
        | inr unfit ↦ rw unfit refl
      ])
