-- ===== src/CanaryMedia.antt =====
-- backend/app/services/local_canary_admission.py: whether a publication's picture is a local canary
-- that has not been promoted to verified durable media.
use sm_poster.Prelude.{
  ℕ, Bool, true, false, not, Option, none, some, List, map, keep, str_eq, if◌then◌else◌,
}
use sm_poster.Prelude.Table.{get, rows}
use sm_poster.Domain.{Db, Creative, Publication}

-- What pinterest_local_canary_media.py finds in the storage of media: the marker in a creative's
-- render specification, whether durable media are required, and whether the promoted bytes can be
-- read and verified (given whether the fingerprint and the size are bound in).
pub record MediaStore : Type 0 where
  pub has_local_canary_media_marker : Creative → Bool
  pub durable_media_required : Bool
  pub read_verified_promoted : Bool → Creative → Bool

-- The subquery `pending_local_canary_creative_ids`.
unfoldable pub pending_local_canary_creative_ids : Db → List ℕ
pending_local_canary_creative_ids db =
    map (λ c. c.id) (keep (λ c. str_eq c.render_status "STAGED") (rows db.creatives))

abbrev creative_pending : MediaStore → Option Creative → Bool
creative_pending media none = false
creative_pending media (some creative) =
    if not (media.has_local_canary_media_marker creative)
    then false
    else if not (str_eq creative.render_status "RENDERED")
    then true
    else not (media.read_verified_promoted media.durable_media_required creative)

unfoldable pub publication_has_pending_local_canary_media : MediaStore → Db → Publication → Bool
publication_has_pending_local_canary_media media db publication =
    creative_pending media (get publication.creative_id db.creatives)
