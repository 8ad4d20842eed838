-- ===== src/Bounded/Manifest.antt =====
-- The identity of an entry against the rows that it names, and what a batch has come to.
use sm_poster.Prelude.{
  ℕ, Bool, true, false, not, ◌&&◌, ◌||◌, Option, none, some, List, ◌==◌, opt_eq, any, all, count_if,
  first, length, map, str_eq, text_eq, if◌then◌else◌,
}
use sm_poster.Domain.{Publication, PublicationStatus, Board, Connection, Creative}
use sm_poster.Permits.{Permit, PermitStatus, permit_status_eq}
use sm_poster.Scheduler.{Env, request_fingerprint}
use sm_poster.Bounded.{
  ApprovalRow, BatchState, ConceptRow, Entry, EntryOutcome, Identity, PlanItemRow, Rows, State,
  autonomous_actor, close_as, is_reserved,
}

-- The rows that an entry names; each is missing if one before it is.
pub record Parts : Type 0 where
  pub item : PlanItemRow
  pub publication : Publication
  pub permit : Permit
  pub board : Board
  pub connection : Connection
  pub approval : ApprovalRow
  pub concept : ConceptRow
  pub creative : Creative

infixl 5 ◌>>=◌
abbrev pub ◌>>=◌ : {A B : Type 0} → Option A → (A → Option B) → Option B
none >>= f = none
some a >>= f = f a

abbrev pub find_permit : ℕ → List Permit → Option Permit
find_permit id = first (λ (p : Permit). p.id == id)

-- `all((item, publication, ...))`
abbrev pub parts_of : State → Identity → Option Parts
parts_of s row = do
  item ← s.rows.item row.item_id
  publication ← row.publication_id >>= s.rows.publication
  permit ← row.permit_id >>= λ id. find_permit id s.permits
  board ← s.rows.board row.board_id
  connection ← s.rows.connection board.connection_id
  approval ← publication.approval_id >>= s.rows.approval
  draft ← s.rows.draft publication.draft_id
  concept ← s.rows.concept draft.concept_id
  creative ← s.rows.creative publication.creative_id
  some (record {
    item = item;
    publication = publication;
    permit = permit;
    board = board;
    connection = connection;
    approval = approval;
    concept = concept;
    creative = creative;
  })

-- The conditions of `validate_identity`, negated.
unfoldable pub lineage_holds : Env → Identity → Parts → Bool
lineage_holds env row x =
    (x.item.product_id == row.product_id)
    && (x.concept.product_id == row.product_id)
    && opt_eq x.concept.board_id (some x.item.local_board_id)
    && (x.concept.content_angle_id == x.item.content_angle_id)
    && (x.creative.draft_id == x.publication.draft_id)
    && str_eq x.item.item_fingerprint row.item_fingerprint
    && opt_eq x.item.publication_id (some x.publication.id)
    && opt_eq x.publication.pinterest_board_record_id (some x.board.id)
    && text_eq x.publication.pinterest_board_id_snapshot (some row.external_board_id)
    && str_eq x.board.external_board_id row.external_board_id
    && opt_eq x.publication.pinterest_connection_id (some x.connection.id)
    && x.board.is_active
    && x.board.is_eligible
    && str_eq x.connection.status "CONNECTED"
    && text_eq row.publication_fingerprint (some x.publication.publication_fingerprint)
    && opt_eq row.request_fingerprint (some (request_fingerprint env x.publication))

unfoldable pub permit_holds : Identity → PermitStatus → Parts → Bool
permit_holds row expected x =
    (x.permit.publication_id == x.publication.id)
    && opt_eq x.permit.pinterest_board_record_id (some x.board.id)
    && opt_eq x.permit.approval_id x.publication.approval_id
    && text_eq row.publication_fingerprint (some x.permit.publication_fingerprint)
    && opt_eq row.request_fingerprint (some x.permit.request_fingerprint)
    && str_eq x.permit.dispatch_provider "buffer"
    && str_eq x.permit.authorized_by autonomous_actor
    && str_eq x.approval.decided_by autonomous_actor
    && str_eq x.approval.decision "APPROVED"
    && (x.approval.draft_id == x.publication.draft_id)
    && opt_eq x.approval.creative_id (some x.publication.creative_id)
    && permit_status_eq x.permit.status expected

-- `validate_identity`: the rows, or nothing where it raises.
unfoldable pub validate_identity : Env → State → PermitStatus → Entry → Option Parts
unfolding lineage_holds permit_holds
validate_identity env s expected e = parts_of s e.identity >>= λ x.
    if lineage_holds env e.identity x && permit_holds e.identity expected x then some x else none

abbrev pub identities : List Entry → List Identity
identities = map (λ (e : Entry). e.identity)

-- What a publication's status says of an attempt.
abbrev pub outcome_of : PublicationStatus → Option EntryOutcome
outcome_of PublicationStatus.published = some EntryOutcome.was_published
outcome_of PublicationStatus.publish_failed = some EntryOutcome.was_failed
outcome_of PublicationStatus.publish_unknown = some EntryOutcome.was_unknown
outcome_of _ = none

abbrev status_outcome : Option Publication → Option EntryOutcome
status_outcome none = none
status_outcome (some p) = outcome_of p.status

unfoldable pub observed_outcome : Rows → Entry → Option EntryOutcome
observed_outcome rows e = e.identity.publication_id >>= λ id. status_outcome (rows.publication id)

abbrev or_kept : Option EntryOutcome → Option EntryOutcome → Option EntryOutcome
or_kept none old = old
or_kept (some new) old = some new

unfoldable pub observe_entry : Rows → Entry → Entry
unfolding observed_outcome
observe_entry rows e =
    if is_reserved e then record e { outcome = or_kept (observed_outcome rows e) e.outcome } else e

abbrev pub outcome_is : EntryOutcome → Option EntryOutcome → Bool
outcome_is EntryOutcome.was_published (some EntryOutcome.was_published) = true
outcome_is EntryOutcome.was_failed (some EntryOutcome.was_failed) = true
outcome_is EntryOutcome.was_unknown (some EntryOutcome.was_unknown) = true
outcome_is _ _ = false

-- `o in outcomes`
abbrev pub some_outcome : EntryOutcome → State → Bool
some_outcome o s = any (λ e. is_reserved e && outcome_is o (observed_outcome s.rows e)) s.entries

abbrev pub all_published : State → Bool
all_published s =
    (count_if is_reserved s.entries == 5)
    && all
        (λ e.
          not (is_reserved e) || outcome_is EntryOutcome.was_published (observed_outcome s.rows e))
        s.entries

abbrev pub unsettled : Entry → Bool
unsettled e = is_reserved e && not (outcome_is EntryOutcome.was_published e.outcome)

pub data Look : Type 0 where
  drifted unknown_seen failure_seen five_published still_open : Look

abbrev pub seen : State → State
seen s = record s { entries = map (observe_entry s.rows) s.entries }

abbrev pub act_on : ℕ → State → Look → State
act_on now s drifted = close_as now BatchState.failed "BOUNDED_BATCH_LEDGER_DRIFT" s
act_on now s unknown_seen =
    close_as now BatchState.paused "PUBLISH_UNKNOWN_CIRCUIT_BREAKER" (seen s)
act_on now s failure_seen = close_as now BatchState.failed "BOUNDED_BATCH_ATTEMPT_FAILED" (seen s)
act_on now s five_published =
    close_as now BatchState.completed "BOUNDED_BATCH_FIVE_RECONCILED" (seen s)
act_on now s still_open = seen s

-- `hash` is `_hash`, of the identities.
module _ (hash : List Identity → ℕ) where
  abbrev pub has_drifted : State → Bool
  has_drifted s = elim s.batch.manifest [
    | none ↦ false
    | some m ↦
        not (length s.entries == 5)
        || not (hash (identities s.entries) == m)
        || not (count_if is_reserved s.entries == s.batch.attempts_reserved)
  ]

  -- What `_observe_locked` finds, in its order.
  abbrev pub look_at : State → Look
  look_at s =
      if has_drifted s
      then drifted
      else if some_outcome EntryOutcome.was_unknown s
      then unknown_seen
      else if some_outcome EntryOutcome.was_failed s
      then failure_seen
      else if all_published s
      then five_published
      else still_open

  -- `_observe_locked`: the state that it returns is that of the batch.
  unfoldable pub observe_locked : ℕ → State → State
  unfolding observe_entry
  observe_locked now s = act_on now s (look_at s)
