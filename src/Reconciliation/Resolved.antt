-- ===== src/Reconciliation/Resolved.antt =====
-- What a reconciliation rests on and writes, in terms of the rows.
use sm_poster.Prelude.{
  ℕ, ◌≡◌, refl, ◌⊎◌, inl, inr, String, Bool, true, false, ◌&&◌, Option, none, some, List, [], ◌∷◌,
  ◌++◌, All, any, ◌==◌, str_eq, truthy, truthy?, sym, length, ltb,
}
use sm_poster.Prelude.Table.{get, rows}
use sm_poster.Prelude.Kept.{All-map, kept-All, none-kept}
use sm_poster.Domain.{
  Db, Publication, PublicationStatus, published, publish_unknown, cancelled, Attempt,
  ReconciliationEvent,
}
use sm_poster.Domain.Time.{Datetime}
use sm_poster.Session.{World, ok}
use sm_poster.Reconciliation.{
  Request, attempts_of, event_of, in_known, known_pins, pin_taken, pin_valid, reconcile,
  resolve_row,
}
use sm_poster.Reconciliation.Known.{IsKnown, free-All, known_pins-All, none_known, one_known}
use sm_poster.Reconciliation.Verdicts.{Accepted, reconcile-Decided}

-- An attempt of the publication `id`.
abbrev of_publication : ℕ → Attempt → Bool
of_publication id a = a.publication_id == id

-- A confirmed Pin id: every id that is recorded for the publication is this one, it is on no row of
-- another one, and no attempt of the publication is an operation of Buffer.
pub record IsConfirmable (id : ℕ) (p : Publication) (pin : Option String) (db : Db) : Type 0 where
  pub valid : pin_valid pin ≡ true
  pub own_pin : truthy? p.pinterest_pin_id ≡ true → p.pinterest_pin_id ≡ pin
  pub own_attempts :
      All
        (λ (a : Attempt).
          (a.publication_id == id) ≡ true
          → truthy? a.provider_pin_id ≡ true
          → a.provider_pin_id ≡ pin)
        (rows db.attempts)
  pub no_buffer :
      All
        (λ (a : Attempt).
          (a.publication_id == id) ≡ true
          → (str_eq a.dispatch_provider "buffer" && truthy? a.provider_operation_id) ≡ false)
        (rows db.attempts)
  pub on_no_other :
      All (λ (q : Publication). q.pinterest_pin_id ≡ pin → q.id ≡ id) (rows db.publications)
  pub on_no_other_attempt :
      All (λ (a : Attempt). a.provider_pin_id ≡ pin → a.publication_id ≡ id) (rows db.attempts)

-- A cancelled outcome: nothing that a provider gave is recorded for the publication.
pub record IsCancellable (id : ℕ) (p : Publication) (db : Db) : Type 0 where
  pub no_pin : truthy? p.pinterest_pin_id ≡ false
  pub no_attempt_pin :
      All
        (λ (a : Attempt). (a.publication_id == id) ≡ true → truthy? a.provider_pin_id ≡ false)
        (rows db.attempts)
  pub no_operation :
      All
        (λ (a : Attempt). (a.publication_id == id) ≡ true → truthy? a.provider_operation_id ≡ false)
        (rows db.attempts)

module _ (id : ℕ) (p : Publication) (db : Db) where
  abbrev known : List String
  known = known_pins p (attempts_of id db)

  own_known :
      All
        (λ (a : Attempt). (a.publication_id == id) ≡ true → IsKnown known a.provider_pin_id)
        (rows db.attempts)
  unfolding attempts_of
  own_known =
      kept-All (λ a. IsKnown known a.provider_pin_id) (of_publication id) (rows db.attempts)
        (known_pins-All p (attempts_of id db)).1

  confirmable :
      (pin : Option String)
      → ltb 1 (length known) ≡ false
      → pin_valid pin ≡ true
      → any
          (λ a. str_eq a.dispatch_provider "buffer" && truthy? a.provider_operation_id)
          (attempts_of id db)
        ≡ false
      → pin_taken id pin db ≡ false
      → (known ≡ []) ⊎ (in_known pin known ≡ true)
      → IsConfirmable id p pin db
  unfolding attempts_of
  confirmable pin few good quiet free agrees = record {
    valid = good;
    own_pin =
        one_known p.pinterest_pin_id pin known few agrees (known_pins-All p (attempts_of id db)).0;
    own_attempts =
        All-map _ _ (λ a k own. one_known a.provider_pin_id pin known few agrees (k own))
          (rows db.attempts) own_known;
    no_buffer =
        none-kept (λ a. str_eq a.dispatch_provider "buffer" && truthy? a.provider_operation_id)
          (of_publication id) (rows db.attempts) quiet;
    on_no_other = (free-All id pin db free).0;
    on_no_other_attempt = (free-All id pin db free).1;
  }

  cancellable :
      any (λ a. truthy? a.provider_operation_id) (attempts_of id db) ≡ false
      → known ≡ []
      → IsCancellable id p db
  unfolding attempts_of
  cancellable quiet empty = record {
    no_pin = none_known p.pinterest_pin_id known empty (known_pins-All p (attempts_of id db)).0;
    no_attempt_pin =
        All-map _ _ (λ a k own. none_known a.provider_pin_id known empty (k own)) (rows db.attempts)
          own_known;
    no_operation =
        none-kept (λ a. truthy? a.provider_operation_id) (of_publication id) (rows db.attempts)
          quiet;
  }

-- The row that a confirmation or a cancellation leaves, and what it rests on.
pub data Outcome (now : Datetime) (id : ℕ) (r : Request) (before after : Publication) (db : Db)
    : Type 0 where
  confirmed :
      (pin : String)
      → r.action ≡ "PROVIDER_PIN_CONFIRMED"
      → r.provider_pin_id ≡ some pin
      → IsConfirmable id before (some pin) db
      → after.status ≡ published
      → after.pinterest_pin_id ≡ some pin
      → after.published_at ≡ some now
      → Outcome now id r before after db
  given_up :
      r.action ≡ "CANCELLED_UNKNOWN"
      → IsCancellable id before db
      → after.status ≡ cancelled
      → after.pinterest_pin_id ≡ none
      → after.published_at ≡ none
      → after.scheduled_for ≡ none
      → Outcome now id r before after db

-- A reconciliation that succeeded, between the worlds `w` and `w'`.
pub record Resolved (now : Datetime) (id : ℕ) (r : Request) (w w' : World) : Type 0 where
  pub before : Publication
  pub found : get id w.working.publications ≡ some before
  pub was_unknown : before.status ≡ publish_unknown
  pub by_actor : truthy r.actor ≡ true
  pub was_confirmed : r.confirmed ≡ true
  pub after : Publication
  pub committed : get id w'.durable.publications ≡ some after
  pub outcome : Outcome now id r before after w.working
  pub event : ReconciliationEvent
  pub recorded : w'.durable.events ≡ w.working.events ++ event ∷ []
  pub of_this : event.publication_id ≡ id
  pub actor : event.actor ≡ r.actor
  pub action : event.action ≡ r.action
  pub reason : event.reason ≡ r.reason
  pub from_unknown : event.previous_status ≡ publish_unknown
  pub to_status : event.new_status ≡ after.status
  pub with_pin : event.provider_pin_id ≡ after.pinterest_pin_id

pin_valid-none : ¬ pin_valid none ≡ true
unfolding pin_valid
pin_valid-none h = absurd (cc)

outcome_of :
    (now : Datetime) (id : ℕ) (r : Request) (db : Db) (status : PublicationStatus)
    (pin : Option String) (a : Accepted id r db status pin)
    → Outcome now id r a.publication (resolve_row now status pin a.publication) db
outcome_of now id r db status none a = elim a.grounds [
  | inl (s, action, same, good, quiet, free, agrees) ↦ absurd (pin_valid-none good)
  | inr (s, action, same, quiet, empty) ↦
      given_up action (cancellable id a.publication db quiet empty) s refl refl refl
]
outcome_of now id r db status (some pin) a = elim a.grounds [
  | inl (s, action, same, good, quiet, free, agrees) ↦
      confirmed pin action (sym same)
        (confirmable id a.publication db (some pin) a.one_known_pin good quiet free agrees) s refl
        refl
  | inr (s, action, same, quiet, empty) ↦ absurd (cc)
]

resolved_row :
    (now : Datetime) (status : PublicationStatus) (pin : Option String) (p : Publication)
    → ((resolve_row now status pin p).status ≡ status)
      × ((resolve_row now status pin p).pinterest_pin_id ≡ pin)
resolved_row now status none p = (refl, refl)
resolved_row now status (some s) p = (refl, refl)

-- `reconcile` succeeds only on a confirmed request of a named actor for a publication of unknown
-- outcome. A confirmation needs a valid Pin id: every Pin id that the publication or an attempt of it
-- has is this one, no row of another publication or attempt has it, and no attempt of the publication
-- is an operation of Buffer; the row is then `PUBLISHED` now, with that Pin. A cancellation needs
-- that no Pin id and no provider operation is recorded for the publication; the row is then
-- `CANCELLED`, without Pin and times. The row is committed, and with it one more event, which names
-- the publication, the request's actor, action and reason, the old and the new status and the Pin.
pub reconcile-Resolved :
    (now : Datetime) (id : ℕ) (r : Request) (w : World)
    → (reconcile now id r w).0 ≡ ok tt
    → Resolved now id r w (reconcile now id r w).1
reconcile-Resolved now id r w h =
    let d = reconcile-Decided now id r w h in
    let (status_is, pin_is) = resolved_row now d.status d.pin d.accepted.publication in
    record {
      before = d.accepted.publication;
      found = d.accepted.found;
      was_unknown = d.accepted.was_unknown;
      by_actor = d.accepted.by_actor;
      was_confirmed = d.accepted.was_confirmed;
      after = resolve_row now d.status d.pin d.accepted.publication;
      committed = d.after;
      outcome = outcome_of now id r w.working d.status d.pin d.accepted;
      event = event_of id r d.status d.pin w.working;
      recorded = d.recorded;
      of_this = refl;
      actor = refl;
      action = refl;
      reason = refl;
      from_unknown = refl;
      to_status = sym status_is;
      with_pin = sym pin_is;
    }
