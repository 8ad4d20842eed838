-- ===== src/Examples/Data.antt =====
-- Concrete rows for the examples.
use sm_poster.Prelude.{ℕ, true, false, Option, none, some, List, [], ◌∷◌}
use sm_poster.Domain.{
  Db, Publication, PublicationStatus, scheduled, publishing, publish_unknown, Attempt,
  AttemptStatus, PinPayload,
}
use sm_poster.Domain.Time.{Datetime, aware, utc}
use sm_poster.CanaryMedia.{MediaStore}
use sm_poster.Session.{World}
use sm_poster.Scheduler.{Env}
use sm_poster.Publisher.Metadata.{text}
use sm_poster.Publisher.Media.{UrlLibrary}
use sm_poster.Publisher.Readiness.{Gate}
use sm_poster.Publisher.Dispatch.Record.{Answer, returned, definitive_rejection}

abbrev pub at : ℕ → Datetime
at t = aware t utc

abbrev pub publication : ℕ → PublicationStatus → Option Datetime → Publication
publication id status when = record {
  id = id;
  draft_id = 10;
  revision_id = some 11;
  creative_id = 12;
  approval_id = some 13;
  source_image_id = some 14;
  board_id = none;
  template_id = some 20;
  template_key = some "template";
  template_version = some 1;
  text_fingerprint = some "text";
  creative_fingerprint = some "creative";
  pinterest_board_id = none;
  pinterest_connection_id = some 15;
  pinterest_board_record_id = some 16;
  pinterest_board_id_snapshot = some "board";
  title_snapshot = some "title";
  description_snapshot = some "description";
  alt_text_snapshot = some "alt";
  media_url_snapshot = some "https://cdn.example/p.jpg";
  destination_url = some "https://shop.example/p";
  utm_url = some "https://shop.example/p?utm_source=pinterest";
  publication_fingerprint = "fingerprint";
  status = status;
  scheduled_for = when;
  attempt_started_at = none;
  pinterest_pin_id = none;
  error_code = none;
  published_at = none;
}

abbrev pub attempt : ℕ → ℕ → AttemptStatus → Attempt
attempt id number status = record {
  id = id;
  publication_id = 1;
  attempt_number = number;
  status = status;
  request_fingerprint = some 99;
  completed_at = none;
  provider_pin_id = none;
  dispatch_provider = "pinterest_direct";
  provider_operation_id = none;
  error_code = none;
  safe_response_metadata = none;
}

abbrev pub database : PublicationStatus → List (ℕ × Attempt) → Db
database status attempts = record {
  publications = (1, publication 1 status (some (at 5))) ∷ [];
  attempts = attempts;
  connections =
      (
        15,
        record {
          id = 15;
          granted_scopes = "boards:read" ∷ "pins:write" ∷ [];
          status = "CONNECTED";
          boards_last_synced_at = none;
        },
      )
      ∷ [];
  boards =
      (
        16,
        record {
          id = 16;
          connection_id = 15;
          external_board_id = "board";
          is_active = true;
          is_eligible = true;
          last_synced_at = none;
        },
      )
      ∷ [];
  approvals =
      (
        13,
        record {
          id = 13;
          draft_id = 10;
          revision_id = some 11;
          creative_id = some 12;
          decision = "APPROVED";
        },
      )
      ∷ [];
  creatives =
      (
        12,
        record {
          id = 12;
          draft_id = 10;
          source_image_id = 14;
          sha256 = none;
          creative_fingerprint = "creative";
          render_status = "RENDERED";
          rendered_url = some "https://cdn.example/p.jpg";
        },
      )
      ∷ [];
  shop_boards = [];
  drafts = [];
  concepts = [];
  events = [];
}

abbrev pub world : Db → World
world db = record { durable = db; working = db; faults = []; sent = [] }

abbrev pub media : MediaStore
media = record {
  has_local_canary_media_marker = λ c. false;
  durable_media_required = false;
  read_verified_promoted = λ required c. true;
}

abbrev pub env : Env
env = record { sha256 = λ request. 99; media = media }

abbrev pub urls : UrlLibrary
urls = record {
  urlsplit = λ s. some (record {
    scheme = "https";
    hostname = some "cdn.example";
    username = none;
    password = none;
  });
  ip_address = λ host. none;
  lower = λ s. s;
}

abbrev pub gate : Gate
gate = record { publishing_enabled = true; urls = urls; env = env }

abbrev pub accepts : PinPayload → Answer
accepts payload = returned (text "4711")

abbrev pub rejects : PinPayload → Answer
rejects payload = definitive_rejection "PINTEREST_FORBIDDEN" (some 403)

-- A publication that is being published, with its open attempt.
abbrev pub claimed : Db
claimed = database publishing ((7, attempt 7 1 AttemptStatus.started) ∷ [])

-- One that is due, and one whose outcome is unknown.
abbrev pub due : Db
due = database scheduled []

abbrev pub unknown : Db
unknown = database publish_unknown ((7, attempt 7 1 AttemptStatus.unknown) ∷ [])
