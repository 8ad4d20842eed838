-- ===== src/Reconciliation/Pins.antt =====
-- No two publications are given the same Pin id by reconciliation.
use sm_poster.Prelude.{
  ℕ, ◌≡◌, refl, inl, inr, String, Option, some, arith, Option-cases, false, ◌==◌, eq_refl, text_eq,
  not, ◌&&◌,
}
use sm_poster.Prelude.Table.{Table, get, update, update-origin, any-rows-get}
use sm_poster.Domain.{Db, Publication, PublicationStatus}
use sm_poster.Domain.Time.{Datetime}
use sm_poster.Session.{World, ok}
use sm_poster.Reconciliation.{Request, reconcile, pin_taken, resolve_row}
use sm_poster.Reconciliation.Verdicts.{reconcile-Decided}

-- Every row is kept under its id, and no two rows have the same Pin id.
pub record PinsUnique (t : Table Publication) : Type 0 where
  pub keyed : (k : ℕ) (p : Publication) → get k t ≡ some p → p.id ≡ k
  pub unique :
      (j k : ℕ) (p q : Publication) (pin : String)
      → get j t ≡ some p
      → get k t ≡ some q
      → p.pinterest_pin_id ≡ some pin
      → q.pinterest_pin_id ≡ some pin
      → j ≡ k

-- A Pin id that is not taken belongs to no other row.
fresh_pin :
    (id : ℕ) (db : Db) (pin : String) (k : ℕ) (q : Publication)
    → pin_taken id (some pin) db ≡ false
    → get k db.publications ≡ some q
    → q.pinterest_pin_id ≡ some pin
    → q.id ≡ id
unfolding pin_taken
fresh_pin id db pin k q free found e =
    let quiet =
      any-rows-get (λ p. text_eq p.pinterest_pin_id (some pin) && not (p.id == id)) db.publications
        k {a = q} (ground arith) found in
    ground (arith, quiet, e, eq_refl pin)

module _ (now : Datetime) (id : ℕ) (status : PublicationStatus) (pin : Option String) where
  resolved_fields :
      (p : Publication)
      → ((resolve_row now status pin p).pinterest_pin_id ≡ pin)
        × ((resolve_row now status pin p).id ≡ p.id)
  resolved_fields p = elim (Option-cases pin) [
    | inl e ↦ rw e (refl, refl)
    | inr (s, e) ↦ rw e (refl, refl)
  ]

  resolve-PinsUnique :
      (db : Db)
      → ((s : String) → pin ≡ some s → pin_taken id pin db ≡ false)
      → PinsUnique db.publications
      → PinsUnique (update id (resolve_row now status pin) db.publications)
  resolve-PinsUnique db free h = record {
    keyed = λ k p found.
        let (old, there, how) =
          update-origin id k (resolve_row now status pin) db.publications found in
        ground (arith, h.keyed k old there, resolved_fields old);
    unique = λ j k p q s fj fk ep eq.
        let (pj, tj, hj) = update-origin id j (resolve_row now status pin) db.publications fj in
        let (pk, tk, hk) = update-origin id k (resolve_row now status pin) db.publications fk in
        ground (
          arith,
          h.unique j k pj pk s tj tk,
          resolved_fields pj,
          resolved_fields pk,
          h.keyed j pj tj,
          h.keyed k pk tk,
          free s,
          fresh_pin id db s j pj,
          fresh_pin id db s k pk,
        );
  }

-- Reconciliation keeps Pin ids unique: if no two publications of the session had the same Pin id,
-- then none have after a reconciliation that succeeds.
pub reconcile-PinsUnique :
    (now : Datetime) (id : ℕ) (r : Request) (w : World)
    → PinsUnique w.working.publications
    → (reconcile now id r w).0 ≡ ok tt
    → PinsUnique (reconcile now id r w).1.durable.publications
reconcile-PinsUnique now id r w h done =
    let c = reconcile-Decided now id r w done in
    rw c.updated (
      resolve-PinsUnique now id c.status c.pin w.working (λ s e. ground (arith, c.accepted.grounds))
        h)
