-- ===== src/Publisher/Readiness/Gates.antt =====
-- The gates against what they are for: exactly what must hold of a publication and the rows that it
-- names for it to be ready.
use sm_poster.Prelude.{
  ◌≡◌, ◌↔◌, ◌⊎◌, inl, inr, refl, true, Option, none, some, arith, eq_iff, opt_eq_iff, eq_refl,
  subst, text_in, Option-cases,
}
use sm_poster.Prelude.Table.{get, get_opt}
use sm_poster.Domain.{
  Db, Publication, scheduled, publishing, Attempt, started, Connection, Board, Approval, Creative,
}
use sm_poster.Publisher.Media.{media_publishable}
use sm_poster.Publisher.Readiness.{
  Gate, ready, connection_writable, board_usable, board_matches, approval_valid, creative_valid,
  is_active_state, attempt_matches, snapshot_complete, publishing_ready,
  execution_publish_readiness,
}
use sm_poster.Scheduler.{request_fingerprint}

-- What must hold for the provider to be asked.
pub record IsPublishable (gate : Gate) (db : Db) (p : Publication) : Type 0 where
  pub enabled : gate.publishing_enabled ≡ true
  pub active : (p.status ≡ scheduled) ⊎ (p.status ≡ publishing)
  pub complete : snapshot_complete p ≡ true
  pub connection : Connection
  pub connection_found : get_opt p.pinterest_connection_id db.connections ≡ some connection
  pub connected : connection.status ≡ "CONNECTED"
  pub may_write : text_in "pins:write" connection.granted_scopes ≡ true
  pub board : Board
  pub board_found : get_opt p.pinterest_board_record_id db.boards ≡ some board
  pub board_owner : board.connection_id ≡ connection.id
  pub board_active : board.is_active ≡ true
  pub board_eligible : board.is_eligible ≡ true
  pub board_unchanged : p.pinterest_board_id_snapshot ≡ some board.external_board_id
  pub approval : Approval
  pub approval_found : get_opt p.approval_id db.approvals ≡ some approval
  pub approved : approval.decision ≡ "APPROVED"
  pub approved_draft : approval.draft_id ≡ p.draft_id
  pub approved_revision : approval.revision_id ≡ p.revision_id
  pub approved_creative : approval.creative_id ≡ some p.creative_id
  pub creative : Creative
  pub creative_found : get p.creative_id db.creatives ≡ some creative
  pub creative_draft : creative.draft_id ≡ p.draft_id
  pub creative_image : p.source_image_id ≡ some creative.source_image_id
  pub media : media_publishable gate.urls p.media_url_snapshot ≡ true

connection_writable-inv :
    (o : Option Connection)
    → connection_writable o ≡ true
    → (c : Connection) × (o ≡ some c)
      × (c.status ≡ "CONNECTED")
      × (text_in "pins:write" c.granted_scopes ≡ true)
connection_writable-inv none h = absurd (cc)
connection_writable-inv (some c) h =
    (c, refl, ground (arith, eq_iff c.status "CONNECTED"), ground arith)

board_usable-inv :
    (c : Connection) (o : Option Board)
    → board_usable (some c) o ≡ true
    → (b : Board) × (o ≡ some b)
      × (b.connection_id ≡ c.id)
      × (b.is_active ≡ true)
      × (b.is_eligible ≡ true)
board_usable-inv c none h = absurd (cc)
board_usable-inv c (some b) h = (b, refl, ground arith, ground arith, ground arith)

board_matches-inv :
    (p : Publication) (b : Board)
    → board_matches p (some b) ≡ true
    → p.pinterest_board_id_snapshot ≡ some b.external_board_id
board_matches-inv p b h = elim (Option-cases p.pinterest_board_id_snapshot) [
  | inl e ↦ absurd (ground arith)
  | inr (s, e) ↦ ground (arith, eq_iff b.external_board_id s)
]

approval_valid-inv :
    (p : Publication) (o : Option Approval)
    → approval_valid p o ≡ true
    → (a : Approval) × (o ≡ some a)
      × (a.decision ≡ "APPROVED")
      × (a.draft_id ≡ p.draft_id)
      × (a.revision_id ≡ p.revision_id)
      × (a.creative_id ≡ some p.creative_id)
approval_valid-inv p none h = absurd (cc)
approval_valid-inv p (some a) h = (
  a,
  refl,
  ground (arith, eq_iff a.decision "APPROVED"),
  ground arith,
  ground (arith, opt_eq_iff a.revision_id p.revision_id),
  ground (arith, opt_eq_iff a.creative_id (some p.creative_id)),
)

creative_valid-inv :
    (p : Publication) (o : Option Creative)
    → creative_valid p o ≡ true
    → (c : Creative) × (o ≡ some c)
      × (c.draft_id ≡ p.draft_id)
      × (p.source_image_id ≡ some c.source_image_id)
creative_valid-inv p none h = absurd (cc)
creative_valid-inv p (some c) h =
    (c, refl, ground arith, ground (arith, opt_eq_iff (some c.source_image_id) p.source_image_id))

module _ (gate : Gate) (db : Db) (p : Publication) where
  abbrev connection_row : Option Connection
  connection_row = get_opt p.pinterest_connection_id db.connections

  abbrev board_row : Option Board
  board_row = get_opt p.pinterest_board_record_id db.boards

  -- The nine checks, as they stand in the code.
  pub record Passed : Type 0 where
    pub state : is_active_state p.status ≡ true
    pub snapshot : snapshot_complete p ≡ true
    pub enabled : gate.publishing_enabled ≡ true
    pub connection : connection_writable connection_row ≡ true
    pub board : board_usable connection_row board_row ≡ true
    pub destination : board_matches p board_row ≡ true
    pub approval : approval_valid p (get_opt p.approval_id db.approvals) ≡ true
    pub creative : creative_valid p (get p.creative_id db.creatives) ≡ true
    pub media : media_publishable gate.urls p.media_url_snapshot ≡ true

  ready-Passed : publishing_ready gate db p ≡ ready → Passed
  unfolding publishing_ready
  ready-Passed h = ground arith

  pub Passed-ready : Passed → publishing_ready gate db p ≡ ready
  unfolding publishing_ready
  Passed-ready h = ground arith

  Passed-IsPublishable : Passed → IsPublishable gate db p
  Passed-IsPublishable h =
      let (c, c_found, connected, may_write) =
        connection_writable-inv connection_row h.connection in
      let (b, b_found, owner, active, eligible) =
        board_usable-inv c board_row
          (subst (λ o. board_usable o board_row ≡ true) c_found h.board) in
      let (a, a_found, decision, a_draft, a_revision, a_creative) =
        approval_valid-inv p (get_opt p.approval_id db.approvals) h.approval in
      let (k, k_found, k_draft, k_image) =
        creative_valid-inv p (get p.creative_id db.creatives) h.creative in
      record {
        enabled = h.enabled;
        active = ground (arith, h.state);
        complete = h.snapshot;
        connection = c;
        connection_found = c_found;
        connected = connected;
        may_write = may_write;
        board = b;
        board_found = b_found;
        board_owner = owner;
        board_active = active;
        board_eligible = eligible;
        board_unchanged =
            board_matches-inv p b (subst (λ o. board_matches p o ≡ true) b_found h.destination);
        approval = a;
        approval_found = a_found;
        approved = decision;
        approved_draft = a_draft;
        approved_revision = a_revision;
        approved_creative = a_creative;
        creative = k;
        creative_found = k_found;
        creative_draft = k_draft;
        creative_image = k_image;
        media = h.media;
      }

  IsPublishable-Passed : IsPublishable gate db p → Passed
  IsPublishable-Passed h = record {
    state = ground (arith, h.active);
    snapshot = h.complete;
    enabled = h.enabled;
    connection =
        rw h.connection_found
          (ground (arith, eq_iff h.connection.status "CONNECTED", h.connected, h.may_write));
    board =
        rw (h.connection_found, h.board_found)
          (ground (arith, h.board_owner, h.board_active, h.board_eligible));
    destination = rw (h.board_found, h.board_unchanged) (eq_refl h.board.external_board_id);
    approval = rw h.approval_found (
        ground (
          arith,
          eq_iff h.approval.decision "APPROVED",
          h.approved,
          h.approved_draft,
          opt_eq_iff h.approval.revision_id p.revision_id,
          h.approved_revision,
          h.approved_creative,
        ));
    creative = rw h.creative_found (ground (arith, h.creative_draft, h.creative_image));
    media = h.media;
  }

-- The gate opens exactly on what it is for: `publishing_ready` says ready if and only if publishing
-- is enabled, the publication is scheduled or being published with a complete snapshot, its
-- connection is connected and may write Pins, its board belongs to that connection, is active,
-- eligible and the one of the snapshot, its approval approves this very draft, revision and
-- creative, its creative has the draft and the source picture, and its picture is publishable.
pub publishing_ready_iff :
    (gate : Gate) (db : Db) (p : Publication)
    → (publishing_ready gate db p ≡ ready) ↔ IsPublishable gate db p
publishing_ready_iff gate db p = (
  λ h. Passed-IsPublishable gate db p (ready-Passed gate db p h),
  λ h. Passed-ready gate db p (IsPublishable-Passed gate db p h),
)

-- The last check before the provider is asked passes only with an open attempt of this very
-- publication that was made for the request as it now is, and with all of the gate's conditions.
pub execution_publish_readiness_sound :
    (gate : Gate) (db : Db) (p : Publication) (a : Attempt)
    → execution_publish_readiness gate db p a ≡ ready
    → (a.status ≡ started)
      × (a.publication_id ≡ p.id)
      × (a.request_fingerprint ≡ some (request_fingerprint gate.env p))
      × IsPublishable gate db p
unfolding execution_publish_readiness attempt_matches
execution_publish_readiness_sound gate db p a h = (
  ground arith,
  ground arith,
  ground (arith, opt_eq_iff a.request_fingerprint (some (request_fingerprint gate.env p))),
  (publishing_ready_iff gate db p).0 (ground arith),
)
