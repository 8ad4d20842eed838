-- ===== src/Permits/Holding.antt =====
-- For what a permit holds, and for how long.
use sm_poster.Prelude.{
  ℕ, ◌≡◌, refl, inl, inr, String, Bool, true, false, not, ◌&&◌, is_some, Option, none, some, List,
  [], ◌∷◌, ◌++◌, arith, truthy, count_if, count_if-append, Bool-cases,
}
use sm_poster.Domain.{Db, Publication, PublicationStatus, status_eq}
use sm_poster.Domain.Time.{Datetime, aware, utc, normalize_persisted_utc}
use sm_poster.Prelude.Table.{get, get_opt}
use sm_poster.Publisher.Media.{media_publishable}
use sm_poster.Publisher.Readiness.{approval_valid, later_than}
use sm_poster.Authorization.Readiness.{
  Manual, Urls, ◌otherwise◌, ready_result, is_provider, base_snapshot_complete, destination_valid,
  creative_row_valid, invalid_dispatch_provider, invalid_publication_state, not_due,
  incomplete_snapshot, destination_invalid, approval_invalid, creative_invalid,
  media_not_publishable, structural_checks, manual_structural_readiness,
}
use sm_poster.Authorization.Store.{quality_passes, duplicate_of, duplicate_safe}
use sm_poster.Permits.{
  Permit, PermitRows, PermitServices, ok, active_for, create_permit, create_scheduled,
  with_schedule, expire_stale_permits, has_pending_media, insert_permit, new_permit, quality_of,
  readiness_of,
}

-- A readiness that is ready names Buffer.
abbrev pub NamesBuffer : Manual → Type 0
NamesBuffer m = m.ready ≡ true → m.dispatch_provider ≡ some "buffer"

four-NamesBuffer :
    (a b c d : Bool) (m : Manual)
    → NamesBuffer m
    → NamesBuffer (
        (a, invalid_dispatch_provider)
        otherwise (b, invalid_publication_state)
        otherwise (c, not_due)
        otherwise (d, not_due)
        otherwise m)
four-NamesBuffer a b c d m h k = ground arith

five-NamesBuffer :
    (a b c d e : Bool) (m : Manual)
    → NamesBuffer m
    → NamesBuffer (
        (a, incomplete_snapshot)
        otherwise (b, destination_invalid)
        otherwise (c, approval_invalid)
        otherwise (d, creative_invalid)
        otherwise (e, media_not_publishable)
        otherwise m)
five-NamesBuffer a b c d e m h k = ground arith

structural-NamesBuffer :
    (urls : Urls) (db : Db) (p : Publication) → NamesBuffer (structural_checks urls db p "buffer")
unfolding structural_checks
structural-NamesBuffer urls db p =
    five-NamesBuffer (not (base_snapshot_complete p "buffer"))
      (not (destination_valid db p "buffer"))
      (not (approval_valid p (get_opt p.approval_id db.approvals)))
      (not (creative_row_valid urls p (get p.creative_id db.creatives)))
      (not (media_publishable urls.library p.media_url_snapshot)) (ready_result "buffer")
      (λ k. refl)

pub readiness-NamesBuffer :
    (s : PermitServices) (p : Publication) (now : ℕ) (expected : PublicationStatus) (due : Bool)
    → NamesBuffer (readiness_of s p now expected due)
unfolding manual_structural_readiness
readiness-NamesBuffer s p now expected due =
    let time = normalize_persisted_utc p.scheduled_for in
    four-NamesBuffer (not (is_provider "buffer")) (not (status_eq p.status expected))
      (not (is_some time)) (due && later_than (aware now utc) time)
      (structural_checks s.base.urls s.base.db p "buffer")
      (structural-NamesBuffer s.base.urls s.base.db p)

-- What a creation that returned `permit` has found.
pub record Permitted (s : PermitServices) (id : ℕ) (p : Publication) (actor : String) (now : ℕ)
    (permit : Permit) (rows : PermitRows) : Type 0 where
  pub scheduled_for : Datetime
  pub timed : p.scheduled_for ≡ some scheduled_for
  pub waiting : status_eq p.status PublicationStatus.scheduled ≡ true
  pub no_pending : has_pending_media s p ≡ false
  pub good : quality_passes (quality_of s p) ≡ true
  pub single : duplicate_safe (duplicate_of s.base p) ≡ true
  pub ready : (readiness_of s p now PublicationStatus.scheduled false).ready ≡ true
  pub bound : permit ≡ new_permit s id p scheduled_for actor now
  pub alone : count_if (active_for p.id) rows.working ≡ 1

module _ (s : PermitServices) (id : ℕ) (p : Publication) (actor : String) (now : ℕ) (commit : Bool)
    (meanwhile : List Permit) (rows : PermitRows) where
  inserted :
      (t : Datetime) (swept : PermitRows) (permit : Permit)
      → (insert_permit commit (new_permit s id p t actor now) meanwhile swept).0 ≡ ok permit
      → (permit ≡ new_permit s id p t actor now)
        × (count_if
              (active_for p.id)
              (insert_permit commit (new_permit s id p t actor now) meanwhile swept).1.working
            ≡ 1)
  unfolding insert_permit new_permit
  inserted t swept permit h =
      let new = new_permit s id p t actor now in
      (
        ground arith,
        ground (arith, count_if-append (active_for p.id) (swept.working ++ meanwhile) (new ∷ [])),
      )

  scheduled-Permitted :
      (t : Datetime) (permit : Permit)
      → p.scheduled_for ≡ some t
      → status_eq p.status PublicationStatus.scheduled ≡ true
      → (create_scheduled s id p t actor now commit meanwhile rows).0 ≡ ok permit
      → Permitted s id p actor now permit
          (create_scheduled s id p t actor now commit meanwhile rows).1
  unfolding create_scheduled
  scheduled-Permitted t permit e w h =
      let swept : PermitRows = record rows {
        working = expire_stale_permits p.id now rows.working;
      } in
      record {
        scheduled_for = t;
        timed = e;
        waiting = w;
        no_pending = ground arith;
        good = ground arith;
        single = ground arith;
        ready = ground arith;
        bound = ground (arith, inserted t swept permit);
        alone = ground (arith, inserted t swept permit);
      }

  with_schedule-Permitted :
      (o : Option Datetime) (permit : Permit)
      → p.scheduled_for ≡ o
      → status_eq p.status PublicationStatus.scheduled ≡ true
      → (with_schedule s id p o actor now commit meanwhile rows).0 ≡ ok permit
      → Permitted s id p actor now permit (with_schedule s id p o actor now commit meanwhile rows).1
  with_schedule-Permitted none permit e w h = absurd (cc)
  with_schedule-Permitted (some t) permit e w h = scheduled-Permitted t permit e w h

  -- A permit is created only for a scheduled publication with a time, without pending canary media,
  -- that passes the quality rules, has no duplicate and is structurally ready; it records what was
  -- found, and is the one active permit of the publication in the session.
  pub create_permit-Permitted :
      (permit : Permit)
      → (create_permit s id p actor now commit meanwhile rows).0 ≡ ok permit
      → Permitted s id p actor now permit (create_permit s id p actor now commit meanwhile rows).1
  unfolding create_permit
  create_permit-Permitted permit h = elim (Bool-cases (truthy actor)) [
    | inr anonymous ↦ absurd (cc (rw anonymous at h))
    | inl named ↦ elim (Bool-cases (status_eq p.status PublicationStatus.scheduled)) [
      | inr other ↦ absurd (cc (rw (named, other) at h))
      | inl waits ↦
          rw (named, waits)
            (with_schedule-Permitted p.scheduled_for permit refl waits (rw (named, waits) at h))
    ]
  ]
