-- ===== src/Publisher/Dispatch/Outcomes.antt =====
-- What is left when `publish_once` records a failed or an unknown outcome.
use sm_poster.Prelude.{ℕ, ◌≡◌, refl, ◌⊎◌, inl, inr, String, none, some, []}
use sm_poster.Domain.{Db, Publication, publish_unknown, Attempt, AttemptStatus}
use sm_poster.Domain.Time.{Datetime}
use sm_poster.Session.{World, Result, ok, raised, fault, raise, continue, read_attempt}
use sm_poster.Publisher.Metadata.{Metadata}
use sm_poster.Publisher.Dispatch.{persist_unknown, record_failure}
use sm_poster.Publisher.Dispatch.Record.{
  PublishError, publish_unknown_outcome, reconciliation_error, Verdict, reconcile,
  publication_status, attempt_status,
}
use sm_poster.Publisher.Dispatch.Settled.{Recorded, Holds, SavedOrLost, reconcile-SavedOrLost}

-- A call that raises `error` once `done` is committed, or reports that the record was lost.
abbrev pub RaisedOrLost :
    PublishError → (Db → Type 0) → World → Result PublishError String × World → Type 0
RaisedOrLost error done w (raised e, w') =
    ((e ≡ error) × done w'.durable × (w'.sent ≡ w.sent))
    ⊎ ((e ≡ reconciliation_error) × (w'.durable ≡ w.durable) × (w'.sent ≡ w.sent))
RaisedOrLost error done w (ok pin, w') = ⊥
RaisedOrLost error done w (fault f, w') = ⊥

then_raise :
    (error : PublishError) (done : Db → Type 0) (w : World)
    (r : Result PublishError (Unit {0}) × World)
    → SavedOrLost done w r
    → RaisedOrLost error done w (continue r.0 (λ _. raise error) r.1)
then_raise error done w (ok t, w') h = inl (refl, h.0, h.1)
then_raise error done w (raised e, w') h = inr h
then_raise error done w (fault f, w') h = absurd h

module _ (id attempt_id : ℕ) (now : Datetime) (p : Publication) (a : Attempt) where
  pub record_failure-RaisedOrLost :
      (w : World) (verdict : Verdict) (code : String) (error : PublishError) (metadata : Metadata)
      → Holds id attempt_id now p a w.durable
      → RaisedOrLost error
          (Recorded id attempt_id
            (publication_status verdict)
            (attempt_status verdict)
            p.pinterest_pin_id)
          w
          (record_failure now id attempt_id verdict code error metadata w)
  unfolding record_failure read_attempt
  record_failure-RaisedOrLost w verdict code error metadata h =
      let w1 = record w { working = w.durable } in
      rw h.attempt_found (
        then_raise error
          (Recorded id attempt_id (publication_status verdict) (attempt_status verdict)
            p.pinterest_pin_id)
          w (reconcile now id attempt_id verdict code none metadata w1)
          (reconcile-SavedOrLost id attempt_id now p a w1 verdict code none metadata h))

  pub persist_unknown-RaisedOrLost :
      (w : World) (pin : String)
      → Holds id attempt_id now p a w.durable
      → RaisedOrLost publish_unknown_outcome
          (Recorded id attempt_id publish_unknown AttemptStatus.unknown (some pin))
          w
          (persist_unknown now id attempt_id pin w)
  unfolding persist_unknown
  persist_unknown-RaisedOrLost w pin h =
      let w1 = record w { working = w.durable } in
      rw (h.attempt_found, h.publication_found)
        (then_raise publish_unknown_outcome
          (Recorded id attempt_id publish_unknown AttemptStatus.unknown (some pin)) w
          (reconcile now id attempt_id Verdict.unknown "PUBLISHED_STATE_PERSISTENCE_UNKNOWN"
            (some pin) [] w1)
          (reconcile-SavedOrLost id attempt_id now p a w1 Verdict.unknown
            "PUBLISHED_STATE_PERSISTENCE_UNKNOWN" (some pin) [] h))
