-- ===== src/Publisher/Dispatch/Request.antt =====
-- When `publish_once` asks the provider, and that it then returns the Pin.
use sm_poster.Prelude.{ℕ, ◌≡◌, ◌≢◌, refl, inl, inr, String, true, some, [], arith, Bool-cases}
use sm_poster.Prelude.Table.{get, get-update}
use sm_poster.Domain.{
  Db, Publication, publishing, published, publish_unknown, Attempt, AttemptStatus, started,
  PinPayload,
}
use sm_poster.Domain.Time.{Datetime}
use sm_poster.Session.{World, Result, ok, raised, fault, raise, continue, commit}
use sm_poster.Scheduler.{request_fingerprint}
use sm_poster.Publisher.Metadata.{is_numeric_pin_id, text}
use sm_poster.Publisher.Readiness.{
  Gate, Readiness, Reason, ready, not_ready, execution_publish_readiness,
}
use sm_poster.Publisher.Readiness.Gates.{IsPublishable, execution_publish_readiness_sound}
use sm_poster.Publisher.Dispatch.{
  dispatch, publish_once, identity_ok, payload_of, mark_published, succeed_attempt,
}
use sm_poster.Publisher.Dispatch.Record.{
  PublishError, refused, Answer, returned, finalize_post_claim_unknown, reason_code,
}
use sm_poster.Publisher.Dispatch.Settled.{Recorded, SavedOrLost, finalize-SavedOrLost}

-- What holds whenever the provider is asked.
pub record MayAsk (gate : Gate) (p : Publication) (a : Attempt) (w : World) : Type 0 where
  pub claimed : p.status ≡ publishing
  pub open_attempt : a.status ≡ started
  pub own_attempt : a.publication_id ≡ p.id
  pub same_request : a.request_fingerprint ≡ some (request_fingerprint gate.env p)
  pub publishable : IsPublishable gate w.working p

sent_when_refused :
    (reason : Reason) (done : Db → Type 0) (w : World) (r : Result PublishError (Unit {0}) × World)
    → SavedOrLost done w r
    → (continue r.0 (λ _. raise {A = String} (refused reason)) r.1).1.sent ≡ w.sent
sent_when_refused reason done w (ok t, w') h = h.1
sent_when_refused reason done w (raised e, w') h = h.2
sent_when_refused reason done w (fault f, w') h = absurd h

module _ (gate : Gate) (now : Datetime) (provider : PinPayload → Answer) (id attempt_id : ℕ)
    (p : Publication) (a : Attempt) (w : World) (found : get id w.working.publications ≡ some p)
    (attempt_found : get attempt_id w.working.attempts ≡ some a) where
  asks_only_ready :
      (verdict : Readiness)
      → execution_publish_readiness gate w.working p a ≡ verdict
      → identity_ok p a ≡ true
      → (dispatch now provider id attempt_id p verdict w).1.sent ≢ w.sent
      → MayAsk gate p a w
  unfolding dispatch
  asks_only_ready (not_ready reason) e fits asked = absurd (
      asked (
        sent_when_refused reason
          (Recorded id attempt_id publish_unknown AttemptStatus.unknown p.pinterest_pin_id) w
          (finalize_post_claim_unknown now id attempt_id (reason_code reason) w)
          (finalize-SavedOrLost id attempt_id now p a w (reason_code reason)
            (record { publication_found = found; attempt_found = attempt_found }))))
  asks_only_ready ready e fits asked =
      let (opened, own, same, publishable) =
        execution_publish_readiness_sound gate w.working p a e in
      record {
        claimed = ground arith;
        open_attempt = opened;
        own_attempt = own;
        same_request = same;
        publishable = publishable;
      }

  -- The provider is asked only for a publication that is claimed, with an open attempt made for
  -- this very request, and that meets every condition of the gate at that moment.
  pub publish_once_asks_only_ready :
      (publish_once gate now provider id (some attempt_id) w).1.sent ≢ w.sent → MayAsk gate p a w
  unfolding publish_once
  publish_once_asks_only_ready asked = elim (Bool-cases (identity_ok p a)) [
    | inl fits ↦
        asks_only_ready (execution_publish_readiness gate w.working p a) refl fits
          (rw (found, attempt_found, fits) at asked)
    | inr unfit ↦ absurd (rw (found, attempt_found, unfit) at asked refl)
  ]

  -- A claimed publication that passes every gate is published: if the provider returns a valid Pin
  -- id and the database accepts the commit, the call returns that id; the committed row is
  -- `PUBLISHED` at this time and carries the id as its Pin, and the committed attempt is succeeded
  -- and completed at this time and carries it too.
  pub publish_once_publishes :
      (pin : String)
      → identity_ok p a ≡ true
      → execution_publish_readiness gate w.working p a ≡ ready
      → provider (payload_of p) ≡ returned (text pin)
      → is_numeric_pin_id pin ≡ true
      → w.faults ≡ []
      → ((publish_once gate now provider id (some attempt_id) w).0 ≡ ok pin)
        × ((q : Publication) × (get id
                (publish_once gate now provider id (some attempt_id) w).1.durable.publications
              ≡ some q)
            × (q.status ≡ published)
            × (q.pinterest_pin_id ≡ some pin)
            × (q.published_at ≡ some now))
        × ((b : Attempt) × (get attempt_id
                (publish_once gate now provider id (some attempt_id) w).1.durable.attempts
              ≡ some b)
            × (b.status ≡ AttemptStatus.succeeded)
            × (b.provider_pin_id ≡ some pin)
            × (b.completed_at ≡ some now))
  unfolding publish_once commit
  publish_once_publishes pin fits passes answer valid calm =
      rw (found, attempt_found, fits, passes, answer, valid, calm)
        (
          refl,
          (
            mark_published now pin p,
            ground (arith, found, get-update id id (mark_published now pin) w.working.publications),
            refl,
            refl,
            refl,
          ),
          (
            succeed_attempt now pin a,
            ground (
              arith,
              attempt_found,
              get-update attempt_id attempt_id (succeed_attempt now pin) w.working.attempts,
            ),
            refl,
            refl,
            refl,
          ),
        )
