-- ===== src/Authorization/Validity.antt =====
-- `validate_authorization` and `validate_authorization_snapshot_binding`: an authorization holds only
-- while the dispatch is what was authorized.
use sm_poster.Prelude.{
  ℕ, String, Bool, true, false, not, ◌&&◌, Option, none, some, List, [], ◌∷◌, ◌==◌, leb, str_eq,
  if◌then◌else◌, text_eq,
}
use sm_poster.Domain.{Publication, status_eq}
use sm_poster.Duplicates.{Evaluation, Match, DuplicateStatus}
use sm_poster.Authorization.Readiness.{Manual, ManualStatus}
use sm_poster.Authorization.Store.{
  Authorization, AuthorizationStatus, is_active, Quality, QualityStatus, Services, quality_v1,
  manual_of, duplicate_of,
}

pub data Validity : Type 0 where
  valid authorization_required authorization_mismatch authorization_expired : Validity
  not_active : AuthorizationStatus → Validity

abbrev pub quality_rank : QualityStatus → ℕ
quality_rank QualityStatus.pass = 0
quality_rank QualityStatus.warning = 1
quality_rank QualityStatus.fail = 2

abbrev pub manual_rank : ManualStatus → ℕ
manual_rank ManualStatus.invalid_dispatch_provider = 0
manual_rank ManualStatus.invalid_publication_state = 1
manual_rank ManualStatus.not_due = 2
manual_rank ManualStatus.incomplete_snapshot = 3
manual_rank ManualStatus.destination_invalid = 4
manual_rank ManualStatus.approval_invalid = 5
manual_rank ManualStatus.creative_invalid = 6
manual_rank ManualStatus.media_not_publishable = 7
manual_rank ManualStatus.ready_for_manual_dispatch = 8

abbrev pub duplicate_rank : DuplicateStatus → ℕ
duplicate_rank DuplicateStatus.safe_to_continue = 0
duplicate_rank DuplicateStatus.already_published = 1
duplicate_rank DuplicateStatus.unknown_outcome_blocks_retry = 2
duplicate_rank DuplicateStatus.duplicate_publication = 3
duplicate_rank DuplicateStatus.possible_duplicate_pin = 4

-- `==` of the dictionaries.
unfoldable pub same_quality : Quality → Quality → Bool
same_quality a b = (quality_rank a.status == quality_rank b.status) && str_eq a.checks b.checks

abbrev bool_eq : Bool → Bool → Bool
bool_eq a b = if a then b else not b

unfoldable pub same_manual : Manual → Manual → Bool
same_manual a b =
    (manual_rank a.status == manual_rank b.status)
    && bool_eq a.ready b.ready
    && text_eq a.dispatch_provider b.dispatch_provider

abbrev same_match : Match → Match → Bool
same_match a b =
    (a.publication_id == b.publication_id)
    && status_eq a.status b.status
    && (duplicate_rank a.reason_code == duplicate_rank b.reason_code)

unfoldable pub same_matches : List Match → List Match → Bool
same_matches [] [] = true
same_matches (a ∷ left) (b ∷ right) = same_match a b && same_matches left right
same_matches _ _ = false

unfoldable pub same_evaluation : Evaluation → Evaluation → Bool
unfolding same_matches
same_evaluation a b =
    (duplicate_rank a.status == duplicate_rank b.status)
    && bool_eq a.blocking b.blocking
    && same_matches a.matches b.matches

unfoldable pub validate_authorization_snapshot_binding :
    Services → Publication → Authorization → ℕ → String → Validity
validate_authorization_snapshot_binding s p a now provider =
    if not (str_eq a.publication_fingerprint p.publication_fingerprint)
    then authorization_mismatch
    else if not (str_eq a.quality_policy_version quality_v1)
    then authorization_mismatch
    else if not (same_quality (s.quality p provider) a.quality_snapshot)
    then authorization_mismatch
    else if not (same_evaluation (duplicate_of s p) a.duplicate_snapshot)
    then authorization_mismatch
    else if not (same_manual (manual_of s p now provider) a.readiness_snapshot)
    then authorization_mismatch
    else valid

unfoldable pub validate_authorization :
    Services → Publication → Option Authorization → ℕ → String → Validity
validate_authorization s p none now provider = authorization_required
validate_authorization s p (some a) now provider =
    if not (a.publication_id == p.id)
    then authorization_mismatch
    else if not (is_active a.status)
    then not_active a.status
    else if leb a.expires_at now
    then authorization_expired
    else validate_authorization_snapshot_binding s p a now provider
