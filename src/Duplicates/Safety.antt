-- ===== src/Duplicates/Safety.antt =====
-- When the duplicate check lets a publication pass.
use sm_poster.Prelude.{
  ◌≡◌, ◌≢◌, ◌↔◌, refl, sym, ◌⊎◌, inl, inr, ap, Bool, true, false, not, List, arith, All, Bool-cases,
  first-none_iff, ◌==◌, eq_iff, truthy, truthy?,
}
use sm_poster.Prelude.Table.{rows}
use sm_poster.Prelude.Kept.{All-kept, All-map, kept-All, text_eq_iff}
use sm_poster.Domain.{Db, Publication, published, publish_unknown}
use sm_poster.Duplicates.{
  Evaluation, safe_to_continue, is_out, same_fingerprint, same_board_link_creative,
  same_operational_identity, unknown_twin, published_twin, other_publications,
  evaluate_publication_duplicates, safe,
}

-- Every stored publication but the publication itself; one that is not persisted has all as others.
pub record AllOthers (persisted : Bool) (p : Publication) (P : Publication → Type 0) (db : Db)
    : Type 0 where
  pub each : All (λ q. (persisted ≡ false) ⊎ (q.id ≢ p.id) → P q) (rows db.publications)

-- A publication with the same fingerprint, which is not empty.
abbrev pub HasFingerprintOf : Publication → Publication → Type 0
HasFingerprintOf p q =
    (truthy q.publication_fingerprint ≡ true)
    × (q.publication_fingerprint ≡ p.publication_fingerprint)

-- One of unknown outcome for the same board, link, creative and text.
abbrev pub IsUnknownTwin : Publication → Publication → Type 0
IsUnknownTwin p q =
    (q.status ≡ publish_unknown)
    × (q.pinterest_board_id_snapshot ≡ p.pinterest_board_id_snapshot)
    × (q.utm_url ≡ p.utm_url)
    × (q.creative_fingerprint ≡ p.creative_fingerprint)
    × (q.text_fingerprint ≡ p.text_fingerprint)

-- One that is published, or has a Pin, for the same board, link and creative.
abbrev pub IsPublishedTwin : Publication → Publication → Type 0
IsPublishedTwin p q =
    ((q.status ≡ published) ⊎ (truthy? q.pinterest_pin_id ≡ true))
    × (q.pinterest_board_id_snapshot ≡ p.pinterest_board_id_snapshot)
    × (q.utm_url ≡ p.utm_url)
    × (q.creative_fingerprint ≡ p.creative_fingerprint)

-- Nothing stands in the way of dispatching `p`.
pub record HasNoTwin (persisted : Bool) (p : Publication) (db : Db) : Type 0 where
  pub not_published : p.status ≢ published
  pub no_pin : truthy? p.pinterest_pin_id ≡ false
  pub not_unknown : p.status ≢ publish_unknown
  pub fingerprints : AllOthers persisted p (λ q. ¬ HasFingerprintOf p q) db
  pub unknown_twins : AllOthers persisted p (λ q. ¬ IsUnknownTwin p q) db
  pub published_twins : AllOthers persisted p (λ q. ¬ IsPublishedTwin p q) db

-- A test that finds what a predicate says.
abbrev Decides : (Publication → Bool) → (Publication → Type 0) → Type 0
Decides test P = (q : Publication) → (test q ≡ true) ↔ P q

fingerprint-Decides : (p : Publication) → Decides (same_fingerprint p) (HasFingerprintOf p)
unfolding same_fingerprint
fingerprint-Decides p q =
    let e = eq_iff q.publication_fingerprint p.publication_fingerprint in
    (λ h. (ground arith, e.0 (ground arith)), λ (a, b). ground (arith, a, e.1 b))

unknown-Decides : (p : Publication) → Decides (unknown_twin p) (IsUnknownTwin p)
unfolding unknown_twin same_operational_identity
unknown-Decides p q =
    let a = text_eq_iff p.pinterest_board_id_snapshot q.pinterest_board_id_snapshot in
    let b = text_eq_iff p.utm_url q.utm_url in
    let c = text_eq_iff p.creative_fingerprint q.creative_fingerprint in
    let d = text_eq_iff p.text_fingerprint q.text_fingerprint in
    (
      λ h. (
        ground arith,
        sym (a.0 (ground arith)),
        sym (b.0 (ground arith)),
        sym (c.0 (ground arith)),
        sym (d.0 (ground arith)),
      ),
      λ (s, ea, eb, ec, ed).
          ground (arith, s, a.1 (sym ea), b.1 (sym eb), c.1 (sym ec), d.1 (sym ed)),
    )

published-Decides : (p : Publication) → Decides (published_twin p) (IsPublishedTwin p)
unfolding same_board_link_creative
published-Decides p q =
    let a = text_eq_iff q.pinterest_board_id_snapshot p.pinterest_board_id_snapshot in
    let b = text_eq_iff q.utm_url p.utm_url in
    let c = text_eq_iff q.creative_fingerprint p.creative_fingerprint in
    (
      λ h. (ground arith, a.0 (ground arith), b.0 (ground arith), c.0 (ground arith)),
      λ (s, ea, eb, ec). ground (arith, s, a.1 ea, b.1 eb, c.1 ec),
    )

none-Decides :
    (test : Publication → Bool) (P : Publication → Type 0)
    → Decides test P
    → (q : Publication) → (test q ≡ false) ↔ (¬ P q)
none-Decides test P d q = (
  λ h k. absurd (cc ((d q).1 k, h)),
  λ h. elim (Bool-cases (test q)) [ inl e ↦ absurd (h ((d q).0 e)) | inr e ↦ e ],
)

module _ (persisted : Bool) (db : Db) (p : Publication) where
  abbrev others : List Publication
  others = other_publications persisted p db

  -- The rows that the query selects are the others.
  others-All :
      (test : Publication → Bool) (P : Publication → Type 0)
      → Decides test P
      → (All (λ q. test q ≡ false) others) ↔ AllOthers persisted p (λ q. ¬ P q) db
  unfolding other_publications
  others-All test P d = elim (Bool-cases persisted) [
    | inl e ↦ rw e (
      λ h. record {
        each =
            All-map _ _ (λ q k other. (none-Decides test P d q).0 (k (ground (arith, other))))
              (rows db.publications)
              (kept-All (λ q. test q ≡ false) (λ q. not (q.id == p.id)) (rows db.publications) h);
      },
      λ h.
          All-kept (λ q. test q ≡ false) (λ q. not (q.id == p.id)) (rows db.publications)
            (All-map _ _
              (λ q k other. (none-Decides test P d q).1 (k (inr (λ same. ground (arith, other)))))
              (rows db.publications) h.each),
    )
    | inr e ↦ rw e (
      λ h. record {
        each = All-map _ _ (λ q k other. (none-Decides test P d q).0 k) (rows db.publications) h;
      },
      λ h.
          All-map _ _ (λ q k. (none-Decides test P d q).1 (k (inl refl))) (rows db.publications)
            h.each,
    )
  ]

  safe-HasNoTwin :
      (evaluate_publication_duplicates persisted db p).status ≡ safe_to_continue
      → HasNoTwin persisted p db
  unfolding evaluate_publication_duplicates
  safe-HasNoTwin h =
      let out : is_out p ≡ false = ground arith in
      record {
        not_published = λ e. ground (arith, out);
        no_pin = ground (arith, out);
        not_unknown = λ e. ground arith;
        fingerprints =
            (others-All (same_fingerprint p) (HasFingerprintOf p) (fingerprint-Decides p)).0
              ((first-none_iff (same_fingerprint p) others).0 (ground arith));
        unknown_twins =
            (others-All (unknown_twin p) (IsUnknownTwin p) (unknown-Decides p)).0
              ((first-none_iff (unknown_twin p) others).0 (ground arith));
        published_twins =
            (others-All (published_twin p) (IsPublishedTwin p) (published-Decides p)).0
              ((first-none_iff (published_twin p) others).0 (ground arith));
      }

  HasNoTwin-safe : HasNoTwin persisted p db → evaluate_publication_duplicates persisted db p ≡ safe
  unfolding evaluate_publication_duplicates
  HasNoTwin-safe h =
      let a = (first-none_iff (same_fingerprint p) others).1 (
        (others-All (same_fingerprint p) (HasFingerprintOf p) (fingerprint-Decides p)).1
          h.fingerprints) in
      let b =
        (first-none_iff (unknown_twin p) others).1
          ((others-All (unknown_twin p) (IsUnknownTwin p) (unknown-Decides p)).1 h.unknown_twins) in
      let c = (first-none_iff (published_twin p) others).1 (
        (others-All (published_twin p) (IsPublishedTwin p) (published-Decides p)).1
          h.published_twins) in
      let out : is_out p ≡ false = ground (arith, h.not_published, h.no_pin) in
      ground (arith, out, h.not_unknown)

-- The check says it is safe to continue exactly for a publication that is not published, has no Pin
-- and is not of unknown outcome, when no other stored publication has its fingerprint, none that is of
-- unknown outcome has its board, link, creative and text, and none that is published or has a Pin has
-- its board, link and creative. The others are the rows with another id, or all rows for a
-- publication that is not persisted.
pub duplicates_safe_iff :
    (persisted : Bool) (db : Db) (p : Publication)
    → ((evaluate_publication_duplicates persisted db p).status ≡ safe_to_continue)
      ↔ HasNoTwin persisted p db
duplicates_safe_iff persisted db p = (
  safe-HasNoTwin persisted db p,
  λ h. ap (λ (e : Evaluation). e.status) (HasNoTwin-safe persisted db p h),
)
