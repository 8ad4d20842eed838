-- ===== src/Publisher/Dispatch/Settled.antt =====
-- Every end of `publish_once` leaves the publication in a known state, whatever the provider answers
-- and whichever commits the database refuses.
use sm_poster.Prelude.{
  ℕ, ◌≡◌, refl, ◌⊎◌, inl, inr, String, Bool, true, false, Option, none, some, List, [], ◌∷◌, arith,
}
use sm_poster.Prelude.Table.{get, update, get-update}
use sm_poster.Domain.{Db, Publication, PublicationStatus, publish_unknown, Attempt, AttemptStatus}
use sm_poster.Domain.Time.{Datetime}
use sm_poster.Session.{World, Result, ok, raised, fault}
use sm_poster.Publisher.Metadata.{Metadata}
use sm_poster.Publisher.Dispatch.Record.{
  PublishError, reconciliation_error, Verdict, commit_or_reconciliation_error,
  finalize_post_claim_unknown, reconcile, close_attempt, close_publication, close_unknown, pin_or,
  mark_unknown, publication_status, attempt_status,
}

-- The faults that are left after one commit.
abbrev pub later : List Bool → List Bool
later [] = []
later (b ∷ rest) = rest

-- A commit takes effect, or nothing has happened in the database.
commit_or-at :
    (w : World) (faults : List Bool)
    → w.faults ≡ faults
    → (commit_or_reconciliation_error w
        ≡ (ok tt, record w { durable = w.working; faults = later faults }))
      ⊎ (commit_or_reconciliation_error w
          ≡ (raised reconciliation_error, record w { working = w.durable; faults = later faults }))
unfolding commit_or_reconciliation_error
commit_or-at w [] e = inl (ground arith)
commit_or-at w (false ∷ rest) e = inl (ground arith)
commit_or-at w (true ∷ rest) e = inr (ground arith)

-- The rows of the publication and of the attempt, as committed.
pub record Recorded (id attempt_id : ℕ) (status : PublicationStatus) (outcome : AttemptStatus)
    (pin : Option String) (db : Db) : Type 0 where
  pub publication : Publication
  pub publication_found : get id db.publications ≡ some publication
  pub publication_status : publication.status ≡ status
  pub publication_pin : publication.pinterest_pin_id ≡ pin
  pub attempt : Attempt
  pub attempt_found : get attempt_id db.attempts ≡ some attempt
  pub attempt_status : attempt.status ≡ outcome

-- A change to both rows that is then committed, or reported as lost.
abbrev pub SavedOrLost : (Db → Type 0) → World → Result PublishError (Unit {0}) × World → Type 0
SavedOrLost done w (ok t, w') = done w'.durable × (w'.sent ≡ w.sent)
SavedOrLost done w (raised e, w') =
    (e ≡ reconciliation_error) × (w'.durable ≡ w.durable) × (w'.sent ≡ w.sent)
SavedOrLost done w (fault f, w') = ⊥

module _ (id attempt_id : ℕ) (now : Datetime) (p : Publication) (a : Attempt) where
  -- The two rows are in the session.
  pub record Holds (db : Db) : Type 0 where
    pub publication_found : get id db.publications ≡ some p
    pub attempt_found : get attempt_id db.attempts ≡ some a

  abbrev pub with_rows : (Attempt → Attempt) → (Publication → Publication) → World → World
  with_rows f g w = record w {
    working = record w.working {
      attempts = update attempt_id f w.working.attempts;
      publications = update id g w.working.publications;
    };
  }

  pub saved :
      (w : World) (f : Attempt → Attempt) (g : Publication → Publication)
      → Holds w.working
      → SavedOrLost
          (Recorded id attempt_id (g p).status (f a).status (g p).pinterest_pin_id)
          w
          (commit_or_reconciliation_error (with_rows f g w))
  saved w f g h = elim (commit_or-at (with_rows f g w) w.faults refl) [
    | inl e ↦ rw e (
      record {
        publication = g p;
        publication_found =
            ground (arith, get-update id id g w.working.publications, h.publication_found);
        publication_status = refl;
        publication_pin = refl;
        attempt = f a;
        attempt_found =
            ground (arith, get-update attempt_id attempt_id f w.working.attempts, h.attempt_found);
        attempt_status = refl;
      },
      refl,
    )
    | inr e ↦ rw e (refl, refl, refl)
  ]

  pub finalize-SavedOrLost :
      (w : World) (code : String)
      → Holds w.working
      → SavedOrLost
          (Recorded id attempt_id publish_unknown AttemptStatus.unknown p.pinterest_pin_id)
          w
          (finalize_post_claim_unknown now id attempt_id code w)
  unfolding finalize_post_claim_unknown
  finalize-SavedOrLost w code h = saved w (close_unknown now code) (mark_unknown code) h

  pub reconcile-SavedOrLost :
      (w : World) (verdict : Verdict) (code : String) (pin : Option String) (metadata : Metadata)
      → Holds w.working
      → SavedOrLost
          (Recorded id attempt_id
            (publication_status verdict)
            (attempt_status verdict)
            (pin_or pin p.pinterest_pin_id))
          w
          (reconcile now id attempt_id verdict code pin metadata w)
  unfolding reconcile
  reconcile-SavedOrLost w verdict code none metadata h =
      saved w (close_attempt now verdict code none metadata) (close_publication verdict code none) h
  reconcile-SavedOrLost w verdict code (some pin) metadata h =
      saved w (close_attempt now verdict code (some pin) metadata)
        (close_publication verdict code (some pin)) h
