-- ===== src/Reconciliation/Verdicts.antt =====
-- What an accepted verdict rests on and what it writes, by the names of the checks and writes.
use sm_poster.Prelude.{
  ℕ, ◌≡◌, refl, ◌⊎◌, inl, inr, String, true, false, Option, none, some, List, [], ◌∷◌, ◌++◌, arith,
  ◌&&◌, Bool-cases, eq_iff, any, truthy, truthy?, length, str_eq, ltb,
}
use sm_poster.Prelude.Table.{get, update, get-update}
use sm_poster.Domain.{
  Db, Publication, PublicationStatus, published, publish_unknown, cancelled, Attempt,
}
use sm_poster.Domain.Time.{Datetime}
use sm_poster.Lifecycle.{can_transition}
use sm_poster.Session.{World, ok}
use sm_poster.Reconciliation.{
  Verdict, accept, refuse, Request, verdict_of, row_verdict, confirm_verdict, cancel_verdict,
  pin_valid, pin_taken, attempts_of, known_pins, resolve_row, event_of, apply_verdict, is_empty,
  in_known, reconcile,
}

-- The grounds on which the operator's verdict was accepted.
pub record Accepted (id : ℕ) (r : Request) (db : Db) (status : PublicationStatus)
    (pin : Option String) : Type 0 where
  pub publication : Publication
  pub found : get id db.publications ≡ some publication
  pub was_unknown : publication.status ≡ publish_unknown
  pub by_actor : truthy r.actor ≡ true
  pub was_confirmed : r.confirmed ≡ true
  pub one_known_pin : ltb 1 (length (known_pins publication (attempts_of id db))) ≡ false
  pub grounds :
      ((status ≡ published)
        × (r.action ≡ "PROVIDER_PIN_CONFIRMED")
        × (pin ≡ r.provider_pin_id)
        × (pin_valid pin ≡ true)
        × (any
              (λ a. str_eq a.dispatch_provider "buffer" && truthy? a.provider_operation_id)
              (attempts_of id db)
            ≡ false)
        × (pin_taken id pin db ≡ false)
        × ((known_pins publication (attempts_of id db) ≡ [])
            ⊎ (in_known pin (known_pins publication (attempts_of id db)) ≡ true)))
      ⊎ ((status ≡ cancelled)
          × (r.action ≡ "CANCELLED_UNKNOWN")
          × (pin ≡ none)
          × (any (λ a. truthy? a.provider_operation_id) (attempts_of id db) ≡ false)
          × (known_pins publication (attempts_of id db) ≡ []))

module _ (id : ℕ) (r : Request) (db : Db) where
  empty-nil : (known : List String) → is_empty known ≡ true → known ≡ []
  empty-nil [] h = refl
  empty-nil (s ∷ rest) h = absurd (cc)

  confirm-inv :
      (attempts : List Attempt) (known : List String) (status : PublicationStatus)
      (pin : Option String)
      → confirm_verdict id r db attempts known ≡ accept status pin
      → (status ≡ published)
        × (pin ≡ r.provider_pin_id)
        × (pin_valid pin ≡ true)
        × (any
              (λ a. str_eq a.dispatch_provider "buffer" && truthy? a.provider_operation_id)
              attempts
            ≡ false)
        × (pin_taken id pin db ≡ false)
        × ((known ≡ []) ⊎ (in_known pin known ≡ true))
  unfolding confirm_verdict
  confirm-inv attempts known status pin h = (
    ground arith,
    ground arith,
    ground arith,
    ground arith,
    ground arith,
    elim (Bool-cases (is_empty known)) [
      | inl none_known ↦ inl (empty-nil known none_known)
      | inr some_known ↦ inr (ground arith)
    ],
  )

  cancel-inv :
      (attempts : List Attempt) (known : List String) (status : PublicationStatus)
      (pin : Option String)
      → cancel_verdict r attempts known ≡ accept status pin
      → (status ≡ cancelled)
        × (pin ≡ none)
        × (any (λ a. truthy? a.provider_operation_id) attempts ≡ false)
        × (known ≡ [])
  unfolding cancel_verdict
  cancel-inv attempts known status pin h =
      (ground arith, ground arith, ground arith, empty-nil known (ground arith))

  row-Accepted :
      (o : Option Publication) (status : PublicationStatus) (pin : Option String)
      → get id db.publications ≡ o
      → truthy r.actor ≡ true
      → r.confirmed ≡ true
      → row_verdict id r db o ≡ accept status pin
      → Accepted id r db status pin
  unfolding row_verdict
  row-Accepted none status pin found actor confirmed h = absurd (cc)
  row-Accepted (some p) status pin found actor confirmed h =
      let attempts = attempts_of id db in
      let known = known_pins p attempts in
      record {
        publication = p;
        found = found;
        was_unknown = ground arith;
        by_actor = actor;
        was_confirmed = confirmed;
        one_known_pin = ground arith;
        grounds = elim (Bool-cases (str_eq r.action "PROVIDER_PIN_CONFIRMED")) [
          | inl confirms ↦
              let (s, same, valid, no_buffer, free, known_ok) =
                confirm-inv attempts known status pin (ground arith) in
              inl (
                s,
                (eq_iff r.action "PROVIDER_PIN_CONFIRMED").0 confirms,
                same,
                valid,
                no_buffer,
                free,
                known_ok,
              )
          | inr other ↦
              let cancels : str_eq r.action "CANCELLED_UNKNOWN" ≡ true = ground arith in
              let (s, same, no_operation, none_known) =
                cancel-inv attempts known status pin (ground arith) in
              inr
                (s, (eq_iff r.action "CANCELLED_UNKNOWN").0 cancels, same, no_operation, none_known)
        ];
      }

  verdict-Accepted :
      (status : PublicationStatus) (pin : Option String)
      → verdict_of id r db ≡ accept status pin
      → Accepted id r db status pin
  unfolding verdict_of
  verdict-Accepted status pin h =
      row-Accepted (get id db.publications) status pin refl (ground arith) (ground arith)
        (ground arith)

-- A reconciliation that succeeds was decided on these grounds, set the row to the new status in the
-- database, and recorded one event of it.
pub record Decided (now : Datetime) (id : ℕ) (r : Request) (w w' : World) : Type 0 where
  pub status : PublicationStatus
  pub pin : Option String
  pub accepted : Accepted id r w.working status pin
  pub allowed : can_transition publish_unknown status ≡ true
  pub after :
      get id w'.durable.publications ≡ some (resolve_row now status pin accepted.publication)
  pub updated :
      w'.durable.publications ≡ update id (resolve_row now status pin) w.working.publications
  pub recorded : w'.durable.events ≡ w.working.events ++ event_of id r status pin w.working ∷ []

module _ (now : Datetime) (id : ℕ) (r : Request) (w : World) where
  apply-Decided :
      (v : Verdict)
      → verdict_of id r w.working ≡ v
      → (apply_verdict now id r v w).0 ≡ ok tt
      → Decided now id r w (apply_verdict now id r v w).1
  unfolding apply_verdict can_transition
  apply-Decided (refuse e) same h = absurd (cc)
  apply-Decided (accept status pin) same h =
      let grounds = verdict-Accepted id r w.working status pin same in
      record {
        status = status;
        pin = pin;
        accepted = grounds;
        allowed = ground (arith, grounds.grounds);
        after = ground (
          arith,
          grounds.found,
          get-update id id (resolve_row now status pin) w.working.publications,
        );
        updated = ground arith;
        recorded = ground arith;
      }

  -- What a successful `reconcile` has checked, by the checks' names, and written.
  pub reconcile-Decided :
      (reconcile now id r w).0 ≡ ok tt → Decided now id r w (reconcile now id r w).1
  unfolding reconcile
  reconcile-Decided h = apply-Decided (verdict_of id r w.working) refl h
