-- ===== src/Domain.antt =====
-- The database rows that the publishing services read and write
-- (backend/app/models/domain.py), as far as those services use their columns.
--
-- Row ids are only compared, so they are numbers, and a nullable id is an `Option`. Text columns
-- keep their text, and the empty text is falsy as in Python.
pub mod Time
use Time.{Datetime}
use sm_poster.Prelude.{ℕ, String, Bool, true, false, Option, List, ◌==◌}
use sm_poster.Prelude.Table.{Table}

pub data PublicationStatus : Type 0 where
  approved scheduled publishing published publish_failed publish_unknown cancelled :
      PublicationStatus

abbrev pub rank : PublicationStatus → ℕ
rank PublicationStatus.approved = 0
rank PublicationStatus.scheduled = 1
rank PublicationStatus.publishing = 2
rank PublicationStatus.published = 3
rank PublicationStatus.publish_failed = 4
rank PublicationStatus.publish_unknown = 5
rank PublicationStatus.cancelled = 6

-- `==` of two statuses.
abbrev pub status_eq : PublicationStatus → PublicationStatus → Bool
status_eq a b = rank a == rank b

pub record Publication : Type 0 where
  pub id : ℕ
  pub draft_id : ℕ
  pub revision_id : Option ℕ
  pub creative_id : ℕ
  pub approval_id : Option ℕ
  pub source_image_id : Option ℕ
  pub board_id : Option ℕ
  pub template_id : Option ℕ
  pub template_key : Option String
  pub template_version : Option ℕ
  pub text_fingerprint : Option String
  pub creative_fingerprint : Option String
  pub pinterest_board_id : Option String
  pub pinterest_connection_id : Option ℕ
  pub pinterest_board_record_id : Option ℕ
  pub pinterest_board_id_snapshot : Option String
  pub title_snapshot : Option String
  pub description_snapshot : Option String
  pub alt_text_snapshot : Option String
  pub media_url_snapshot : Option String
  pub destination_url : Option String
  pub utm_url : Option String
  pub publication_fingerprint : String
  pub status : PublicationStatus
  pub scheduled_for : Option Datetime
  pub attempt_started_at : Option Datetime
  pub pinterest_pin_id : Option String
  pub error_code : Option String
  pub published_at : Option Datetime

-- The values of `publication_attempts.status` that the code writes.
pub data AttemptStatus : Type 0 where
  started succeeded failed unknown : AttemptStatus

abbrev pub is_started : AttemptStatus → Bool
is_started AttemptStatus.started = true
is_started _ = false

abbrev pub is_unknown : AttemptStatus → Bool
is_unknown AttemptStatus.unknown = true
is_unknown _ = false

-- The allowlisted keys of `safe_response_metadata`; a key that is absent is `none`.
pub record SafeMetadata : Type 0 where
  pub validated_pin_id : Option String
  pub http_status : Option ℕ
  pub provider_error_code : Option String

pub record Attempt : Type 0 where
  pub id : ℕ
  pub publication_id : ℕ
  pub attempt_number : ℕ
  pub status : AttemptStatus
  pub request_fingerprint : Option ℕ
  pub completed_at : Option Datetime
  pub provider_pin_id : Option String
  pub dispatch_provider : String
  pub provider_operation_id : Option String
  pub error_code : Option String
  pub safe_response_metadata : Option SafeMetadata

pub record Connection : Type 0 where
  pub id : ℕ
  pub granted_scopes : List String
  pub status : String
  pub boards_last_synced_at : Option ℕ

pub record Board : Type 0 where
  pub id : ℕ
  pub connection_id : ℕ
  pub external_board_id : String
  pub is_active : Bool
  pub is_eligible : Bool
  pub last_synced_at : Option ℕ

-- `Board`, the shop's own; `PinDraft`; `PinConcept`.
pub record ShopBoard : Type 0 where
  pub id : ℕ
  pub store_id : ℕ
  pub active : Bool
  pub pinterest_board_id : Option String

pub record Draft : Type 0 where
  pub id : ℕ
  pub concept_id : ℕ

pub record Concept : Type 0 where
  pub id : ℕ
  pub board_id : Option ℕ
  pub store_id : ℕ

pub record Approval : Type 0 where
  pub id : ℕ
  pub draft_id : ℕ
  pub revision_id : Option ℕ
  pub creative_id : Option ℕ
  pub decision : String

pub record Creative : Type 0 where
  pub id : ℕ
  pub draft_id : ℕ
  pub source_image_id : ℕ
  pub sha256 : Option String
  pub creative_fingerprint : String
  pub render_status : String
  pub rendered_url : Option String

-- `PublicationReconciliationEvent`
pub record ReconciliationEvent : Type 0 where
  pub publication_id : ℕ
  pub attempt_id : Option ℕ
  pub actor : String
  pub action : String
  pub previous_status : PublicationStatus
  pub new_status : PublicationStatus
  pub provider_pin_id : Option String
  pub reason : Option String

-- `PinterestPinPayload`: what is posted to the provider.
pub record PinPayload : Type 0 where
  pub board_id : String
  pub title : String
  pub description : String
  pub link : String
  pub image_url : Option String
  pub alt_text : Option String

pub record Db : Type 0 where
  pub publications : Table Publication
  pub attempts : Table Attempt
  pub connections : Table Connection
  pub boards : Table Board
  pub approvals : Table Approval
  pub creatives : Table Creative
  pub shop_boards : Table ShopBoard
  pub drafts : Table Draft
  pub concepts : Table Concept
  pub events : List ReconciliationEvent
