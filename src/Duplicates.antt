-- ===== src/Duplicates.antt =====
-- backend/app/services/publication_duplicates.py: whether dispatching a publication would publish
-- something twice.
pub mod Safety
use sm_poster.Prelude.{
  ℕ, String, Bool, true, false, not, ◌&&◌, ◌||◌, Option, none, some, List, [], ◌∷◌, ◌==◌, str_eq,
  if◌then◌else◌, keep, first, truthy, truthy?, text_eq,
}
use sm_poster.Prelude.Table.{rows}
use sm_poster.Domain.{Db, Publication, PublicationStatus, published, publish_unknown, status_eq}

pub data DuplicateStatus : Type 0 where
  safe_to_continue already_published unknown_outcome_blocks_retry duplicate_publication
        possible_duplicate_pin :
      DuplicateStatus

pub record Match : Type 0 where
  pub publication_id : ℕ
  pub status : PublicationStatus
  pub reason_code : DuplicateStatus

pub record Evaluation : Type 0 where
  pub status : DuplicateStatus
  pub blocking : Bool
  pub matches : List Match

abbrev pub blocked : DuplicateStatus → Publication → Evaluation
blocked reason p = record {
  status = reason;
  blocking = true;
  matches = record { publication_id = p.id; status = p.status; reason_code = reason } ∷ [];
}

abbrev pub safe : Evaluation
safe = record { status = safe_to_continue; blocking = false; matches = [] }

unfoldable pub same_operational_identity : Publication → Publication → Bool
same_operational_identity left right =
    text_eq left.pinterest_board_id_snapshot right.pinterest_board_id_snapshot
    && text_eq left.utm_url right.utm_url
    && text_eq left.creative_fingerprint right.creative_fingerprint
    && text_eq left.text_fingerprint right.text_fingerprint

-- Published, by its status or by a Pin id.
abbrev pub is_out : Publication → Bool
is_out p = status_eq p.status published || truthy? p.pinterest_pin_id

unfoldable pub same_fingerprint : Publication → Publication → Bool
same_fingerprint p other =
    truthy other.publication_fingerprint
    && str_eq other.publication_fingerprint p.publication_fingerprint

unfoldable pub unknown_twin : Publication → Publication → Bool
unknown_twin p other = status_eq other.status publish_unknown && same_operational_identity p other

unfoldable pub same_board_link_creative : Publication → Publication → Bool
same_board_link_creative p other =
    text_eq other.pinterest_board_id_snapshot p.pinterest_board_id_snapshot
    && text_eq other.utm_url p.utm_url
    && text_eq other.creative_fingerprint p.creative_fingerprint

abbrev pub published_twin : Publication → Publication → Bool
published_twin p other = is_out other && same_board_link_creative p other

-- `SELECT … WHERE id != publication.id`, without the condition for one that is not persisted.
unfoldable pub other_publications : Bool → Publication → Db → List Publication
other_publications persisted p db =
    if persisted
    then keep (λ other. not (other.id == p.id)) (rows db.publications)
    else rows db.publications

abbrev third_check : Publication → Option Publication → Evaluation
third_check p none = safe
third_check p (some other) =
    if text_eq other.text_fingerprint p.text_fingerprint
    then blocked duplicate_publication other
    else blocked possible_duplicate_pin other

abbrev second_check : Publication → List Publication → Option Publication → Evaluation
second_check p others (some other) = blocked unknown_outcome_blocks_retry other
second_check p others none = third_check p (first (published_twin p) others)

abbrev first_check : Publication → List Publication → Option Publication → Evaluation
first_check p others (some other) = blocked duplicate_publication other
first_check p others none = second_check p others (first (unknown_twin p) others)

unfoldable pub evaluate_publication_duplicates : Bool → Db → Publication → Evaluation
evaluate_publication_duplicates persisted db p =
    let others = other_publications persisted p db in
    if is_out p
    then blocked already_published p
    else if status_eq p.status publish_unknown
    then blocked unknown_outcome_blocks_retry p
    else first_check p others (first (same_fingerprint p) others)
