-- ===== src/Authorization/Binding.antt =====
-- What a created authorization rests on, and that it holds for that and for nothing else.
use sm_poster.Prelude.{
  ℕ, ◌+◌, ◌≤◌, ◌<◌, ◌≡◌, refl, String, true, some, List, [], ◌∷◌, ◌++◌, arith, truthy, count_if,
  count_if-append, eq_refl, eq_iff, Option-cases, inl, inr,
}
use sm_poster.Domain.{Publication}
use sm_poster.Duplicates.{Evaluation, Match}
use sm_poster.Authorization.Readiness.{Manual}
use sm_poster.Authorization.Checks.{manual_later}
use sm_poster.Authorization.Store.{
  Authorization, Quality, Services, Rows, ok, active_of, manual_of, duplicate_of,
  create_authorization, insert_authorization, new_authorization, expire_stale_active_authorizations,
  quality_passes, duplicate_safe,
}
use sm_poster.Authorization.Validity.{
  valid, same_quality, same_manual, same_matches, same_evaluation, validate_authorization,
  validate_authorization_snapshot_binding,
}

-- What a creation that returned `a` has found, and what it has written.
pub record Created (s : Services) (id : ℕ) (p : Publication) (actor : String) (now : ℕ)
    (provider : String) (a : Authorization) (rows : Rows) : Type 0 where
  pub by_actor : truthy actor ≡ true
  pub good : quality_passes (s.quality p provider) ≡ true
  pub single : duplicate_safe (duplicate_of s p) ≡ true
  pub ready : (manual_of s p now provider).ready ≡ true
  pub bound : a ≡ new_authorization s id p actor now provider
  pub committed : rows.durable ≡ rows.working
  pub earlier : List Authorization
  pub recorded : rows.durable ≡ earlier ++ a ∷ []
  pub alone : count_if (active_of p.id) rows.durable ≡ 1

module _ (s : Services) (id : ℕ) (p : Publication) (actor : String) (now : ℕ) (provider : String)
    (meanwhile : List Authorization) (rows : Rows) where
  insert-alone :
      (swept : Rows) (a : Authorization)
      → (insert_authorization (new_authorization s id p actor now provider) meanwhile swept).0
        ≡ ok a
      → (a ≡ new_authorization s id p actor now provider)
        × ((insert_authorization
              (new_authorization s id p actor now provider)
              meanwhile
              swept).1.durable
            ≡ (insert_authorization
                (new_authorization s id p actor now provider)
                meanwhile
                swept).1.working)
        × (count_if
              (active_of p.id)
              (insert_authorization
                (new_authorization s id p actor now provider)
                meanwhile
                swept).1.durable
            ≡ 1)
        × ((insert_authorization
              (new_authorization s id p actor now provider)
              meanwhile
              swept).1.durable
            ≡ (swept.working ++ meanwhile) ++ a ∷ [])
  unfolding insert_authorization new_authorization
  insert-alone swept a h =
      let new = new_authorization s id p actor now provider in
      (
        ground arith,
        ground arith,
        ground (arith, count_if-append (active_of p.id) (swept.working ++ meanwhile) (new ∷ [])),
        ground arith,
      )

  -- An authorization is created only by a named actor, for a scheduled publication that is due, passes
  -- the quality rules, has no duplicate and is structurally ready; it records what was found, it is
  -- committed as the last row, and it is the one active authorization of the publication, also if
  -- other sessions have created some since the check.
  pub create_authorization-Created :
      (a : Authorization)
      → (create_authorization s id p actor now provider meanwhile rows).0 ≡ ok a
      → Created s id p actor now provider a
          (create_authorization s id p actor now provider meanwhile rows).1
  unfolding create_authorization
  create_authorization-Created a h =
      let swept : Rows = record rows {
        working = expire_stale_active_authorizations p.id now rows.working;
      } in
      record {
        by_actor = ground arith;
        good = ground arith;
        single = ground arith;
        ready = ground arith;
        bound = ground (arith, insert-alone swept a);
        committed = ground (arith, insert-alone swept a);
        earlier = swept.working ++ meanwhile;
        recorded = ground (arith, insert-alone swept a);
        alone = ground (arith, insert-alone swept a);
      }

pub same_quality_refl : (q : Quality) → same_quality q q ≡ true
unfolding same_quality
same_quality_refl q = ground (arith, eq_refl q.checks)

same_manual_refl : (m : Manual) → same_manual m m ≡ true
unfolding same_manual
same_manual_refl m = elim (Option-cases m.dispatch_provider) [
  | inl e ↦ ground arith
  | inr (t, e) ↦ ground (arith, eq_refl t)
]

same_matches_refl : (ms : List Match) → same_matches ms ms ≡ true
unfolding same_matches
same_matches_refl [] = refl
same_matches_refl (m ∷ ms) = ground (arith, same_matches_refl ms)

pub same_evaluation_refl : (e : Evaluation) → same_evaluation e e ≡ true
unfolding same_evaluation
same_evaluation_refl e = ground (arith, same_matches_refl e.matches)

-- An authorization that was just created holds for the next fifteen minutes, for as long as the
-- database, the publication and the quality verdict stay as they were.
pub created_authorization_valid :
    (s : Services) (id : ℕ) (p : Publication) (actor : String) (now : ℕ) (provider : String)
    (meanwhile : List Authorization) (rows : Rows) (a : Authorization) (later : ℕ)
    → (create_authorization s id p actor now provider meanwhile rows).0 ≡ ok a
    → now ≤ later
    → later < now + 900
    → validate_authorization s p (some a) later provider ≡ valid
unfolding validate_authorization validate_authorization_snapshot_binding new_authorization
created_authorization_valid s id p actor now provider meanwhile rows a later h order limit =
    let c = create_authorization-Created s id p actor now provider meanwhile rows a h in
    rw (c.bound, manual_later s.urls s.db p provider now later c.ready order)
      (ground (
        arith,
        eq_refl p.publication_fingerprint,
        same_quality_refl (s.quality p provider),
        same_evaluation_refl (duplicate_of s p),
        same_manual_refl (manual_of s p now provider),
      ))

pub same_quality-passes :
    (a b : Quality) → same_quality a b ≡ true → quality_passes b ≡ true → quality_passes a ≡ true
unfolding same_quality
same_quality-passes a b h g = ground arith

pub same_evaluation-safe :
    (a b : Evaluation)
    → same_evaluation a b ≡ true
    → duplicate_safe b ≡ true
    → duplicate_safe a ≡ true
unfolding same_evaluation
same_evaluation-safe a b h g = ground arith

same_manual-ready : (a b : Manual) → same_manual a b ≡ true → b.ready ≡ true → a.ready ≡ true
unfolding same_manual
same_manual-ready a b h g = ground arith

-- The dispatch for which a created authorization is found valid, at any later state of the database.
pub record StillGood (s : Services) (p : Publication) (now : ℕ) (provider : String)
    (created_for : Publication) (created_at : ℕ) : Type 0 where
  pub same_row : created_for.id ≡ p.id
  pub same_content : created_for.publication_fingerprint ≡ p.publication_fingerprint
  pub in_time : now < created_at + 900
  pub good : quality_passes (s.quality p provider) ≡ true
  pub single : duplicate_safe (duplicate_of s p) ≡ true
  pub ready : (manual_of s p now provider).ready ≡ true

-- Whatever has happened to the database and the publication since, a created authorization is valid
-- only for the same row with the same fingerprint, within fifteen minutes, and only if the
-- publication still passes the quality rules, has no duplicate and is structurally ready.
pub valid_authorization-StillGood :
    (s : Services) (id : ℕ) (p : Publication) (actor : String) (now : ℕ) (provider : String)
    (meanwhile : List Authorization) (rows : Rows) (a : Authorization) (s' : Services)
    (p' : Publication) (later : ℕ) (provider' : String)
    → (create_authorization s id p actor now provider meanwhile rows).0 ≡ ok a
    → validate_authorization s' p' (some a) later provider' ≡ valid
    → StillGood s' p' later provider' p now
unfolding validate_authorization validate_authorization_snapshot_binding new_authorization
valid_authorization-StillGood s id p actor now provider meanwhile rows a s' p' later provider' h v =
    let c = create_authorization-Created s id p actor now provider meanwhile rows a h in
    let v' : validate_authorization s' p' (some (new_authorization s id p actor now provider)) later
          provider'
        ≡ valid =
      ground (arith, c.bound) in
    record {
      same_row = ground arith;
      same_content = (eq_iff p.publication_fingerprint p'.publication_fingerprint).0 (ground arith);
      in_time = ground arith;
      good =
          same_quality-passes (s'.quality p' provider') (s.quality p provider) (ground arith)
            c.good;
      single = same_evaluation-safe (duplicate_of s' p') (duplicate_of s p) (ground arith) c.single;
      ready =
          same_manual-ready (manual_of s' p' later provider') (manual_of s p now provider)
            (ground arith) c.ready;
    }
