-- ===== src/Authorization/Checks.antt =====
-- What the chain of structural checks says when it ends in a ready result.
use sm_poster.Prelude.{
  ℕ, ◌≤◌, ◌≡◌, sym, ◌∙◌, String, Bool, true, false, not, Option, none, some, arith, is_some,
}
use sm_poster.Prelude.Table.{get, get_opt}
use sm_poster.Domain.{Db, Publication, scheduled, status_eq}
use sm_poster.Domain.Time.{Datetime, aware, utc, normalize_persisted_utc}
use sm_poster.Publisher.Media.{media_publishable}
use sm_poster.Publisher.Readiness.{later_than, approval_valid}
use sm_poster.Authorization.Readiness.{
  Manual, invalid_dispatch_provider, invalid_publication_state, not_due, incomplete_snapshot,
  destination_invalid, approval_invalid, creative_invalid, media_not_publishable, ready_result,
  ◌otherwise◌, Urls, structural_checks, manual_structural_readiness, is_provider,
  base_snapshot_complete, destination_valid, creative_row_valid,
}

-- The four checks that come before the structural ones.
pub record Timely (p : Publication) (now : Datetime) (provider : String) : Type 0 where
  pub known : is_provider provider ≡ true
  pub waiting : status_eq p.status scheduled ≡ true
  pub timed : is_some (normalize_persisted_utc p.scheduled_for) ≡ true
  pub due : later_than now (normalize_persisted_utc p.scheduled_for) ≡ false

-- The five structural ones.
pub record Structural (urls : Urls) (db : Db) (p : Publication) (provider : String) : Type 0 where
  pub complete : base_snapshot_complete p provider ≡ true
  pub destination : destination_valid db p provider ≡ true
  pub approval : approval_valid p (get_opt p.approval_id db.approvals) ≡ true
  pub creative : creative_row_valid urls p (get p.creative_id db.creatives) ≡ true
  pub media : media_publishable urls.library p.media_url_snapshot ≡ true

-- A chain of four checks before a result.
chain-inv :
    (a b c d : Bool) (m : Manual)
    → ((not a, invalid_dispatch_provider)
        otherwise (not b, invalid_publication_state)
        otherwise (not c, not_due)
        otherwise (d, not_due)
        otherwise m).ready
      ≡ true
    → (a ≡ true) × (b ≡ true) × (c ≡ true) × (d ≡ false) × (m.ready ≡ true)
chain-inv a b c d m h = (ground arith, ground arith, ground arith, ground arith, ground arith)

-- A chain of five.
five-inv :
    (a b c d e : Bool) (m : Manual)
    → ((not a, incomplete_snapshot)
        otherwise (not b, destination_invalid)
        otherwise (not c, approval_invalid)
        otherwise (not d, creative_invalid)
        otherwise (not e, media_not_publishable)
        otherwise m).ready
      ≡ true
    → (a ≡ true) × (b ≡ true) × (c ≡ true) × (d ≡ true) × (e ≡ true)
five-inv a b c d e m h = (ground arith, ground arith, ground arith, ground arith, ground arith)

module _ (urls : Urls) (db : Db) (p : Publication) (provider : String) where
  pub manual-Timely :
      (now : Datetime)
      → (manual_structural_readiness urls db p now scheduled true provider).ready ≡ true
      → Timely p now provider × ((structural_checks urls db p provider).ready ≡ true)
  unfolding manual_structural_readiness
  manual-Timely now h =
      let (known, waiting, timed, due, ready) =
        chain-inv (is_provider provider) (status_eq p.status scheduled)
          (is_some (normalize_persisted_utc p.scheduled_for))
          (later_than now (normalize_persisted_utc p.scheduled_for))
          (structural_checks urls db p provider) h in
      (record { known = known; waiting = waiting; timed = timed; due = due }, ready)

  pub Timely-manual :
      (now : Datetime)
      → Timely p now provider
      → manual_structural_readiness urls db p now scheduled true provider
        ≡ structural_checks urls db p provider
  unfolding manual_structural_readiness
  Timely-manual now h = rw (h.known, h.waiting, h.timed, h.due)

  pub structural_checks-Structural :
      (structural_checks urls db p provider).ready ≡ true → Structural urls db p provider
  unfolding structural_checks
  structural_checks-Structural h =
      let (complete, destination, approval, creative, media) =
        five-inv (base_snapshot_complete p provider) (destination_valid db p provider)
          (approval_valid p (get_opt p.approval_id db.approvals))
          (creative_row_valid urls p (get p.creative_id db.creatives))
          (media_publishable urls.library p.media_url_snapshot) (ready_result provider) h in
      record {
        complete = complete;
        destination = destination;
        approval = approval;
        creative = creative;
        media = media;
      }

later_than_mono :
    (when : Option Datetime) (now later : ℕ)
    → later_than (aware now utc) when ≡ false
    → now ≤ later
    → later_than (aware later utc) when ≡ false
later_than_mono none now later h order = h
later_than_mono (some when) now later h order = ground arith

-- A publication that is ready at a time is ready, with the same result, at every later one.
pub manual_later :
    (urls : Urls) (db : Db) (p : Publication) (provider : String) (now later : ℕ)
    → (manual_structural_readiness urls db p (aware now utc) scheduled true provider).ready ≡ true
    → now ≤ later
    → manual_structural_readiness urls db p (aware later utc) scheduled true provider
      ≡ manual_structural_readiness urls db p (aware now utc) scheduled true provider
manual_later urls db p provider now later h order =
    let (timely, ready) = manual-Timely urls db p provider (aware now utc) h in
    let still : Timely p (aware later utc) provider = record {
      known = timely.known;
      waiting = timely.waiting;
      timed = timely.timed;
      due = later_than_mono (normalize_persisted_utc p.scheduled_for) now later timely.due order;
    } in
    Timely-manual urls db p provider (aware later utc) still
    ∙ sym (Timely-manual urls db p provider (aware now utc) timely)
