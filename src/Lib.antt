-- ===== src/Lib.antt =====
-- The publishing core of SM_Poster, a service that prepares Pinterest Pins for a shop, has an
-- operator approve them and publishes them.
--
-- The program's parts. A publication is a row of `pin_publications` (backend/app/models/domain.py)
-- whose status follows the table of publication_state.py. The scheduler
-- (backend/app/services/publication_scheduler.py) gives an approved publication a time, lists the
-- due ones and claims one for a dispatcher, which opens an attempt. The publisher
-- (backend/app/services/pinterest_publisher.py) checks the claimed publication once more, asks the
-- provider once and records what came of it: published, failed, or unknown when the provider may
-- have published. Nothing retries an unknown outcome by itself: an operator settles it
-- (backend/app/services/publication_reconciliation.py). Before a publication is prepared, the
-- duplicate check (publication_duplicates.py) and the quota ledger (routine_scheduled_quotas.py)
-- say whether it may go ahead. A scheduled one is admitted, that is reserved and claimed in one
-- transaction (routine_scheduled_admission.py), against the ledger and the commitments of its month
-- (routine_scheduled_commitments.py). A manual dispatch needs an authorization that is bound to what the
-- operator saw (publication_dispatch_authorization.py); the routine worker runs under a control row
-- and a record of runs (routine_publishing_control.py), dispatches by permits
-- (routine_dispatch_authorization.py), and is called by a scheduler (routine_pinterest_scheduler.py)
-- that leads by a lease (routine_scheduler_lease.py). A batch of five publications that
-- was sealed beforehand can be run under a budget and an owner of its own
-- (routine_bounded_batch.py). What is to be published in a month is chosen by the portfolio planner
-- (pinterest_portfolio_planner.py), which reckons with the month's publications, and whose stored
-- plans later stages hold to their cap contract (pinterest_portfolio_cap_contract.py).
--
-- Files. All services below stand in backend/app/services.
--   Prelude, Prelude/*      shared names: tests, lists, texts as Python reads them, tables of rows
--   Domain, Domain/Time     the rows of models/domain.py and Python's `datetime`
--   Session, Session/*      the database session: what is committed, what is pending, and faults
--   Lifecycle, Lifecycle/*  publication_state.py, and the histories that its table allows
--   CanaryMedia             local_canary_admission.py
--   Scheduler, Scheduler/*  publication_scheduler.py: `schedule`, `cancel` and `claim`;
--                           Scheduler/Due is `due_publications` and its paging loop
--   Publisher, Publisher/*  pinterest_publisher.py: Metadata is `sanitize_metadata`, Media is
--                           `media_publishable`, Readiness the readiness functions, Dispatch
--                           `publish_once`, Dispatch/Record `_reconcile` and
--                           `finalize_post_claim_unknown`
--   Duplicates, …/Safety    publication_duplicates.py
--   Reconciliation, …/*     publication_reconciliation.py
--   Quotas, Quotas/*        routine_scheduled_quotas.py: Envelope is the limits, Ledger the usage of
--                           a month, Reserve the assessment and the reservation; Lineage and
--                           Commitments are routine_scheduled_commitments.py, the rows with their
--                           identity and the publications that have no reservation yet, and Admission
--                           is routine_scheduled_admission.py
--   Authorization, …/*      publication_dispatch_authorization.py: Readiness is
--                           `manual_structural_readiness`, Store creation, expiry and revocation,
--                           Validity the two validations
--   Permits, Permits/*      routine_dispatch_authorization.py: permits, and for what they hold
--   Routine, Routine/*      routine_publishing_control.py: Control is the control row, Runs the
--                           record of runs; Ticks is routine_pinterest_scheduler.py, Worker
--                           `run_once` of routine_pinterest_worker.py
--   Lease, Lease/Safety     routine_scheduler_lease.py, `PostgresSchedulerLeaderLease`
--   Bounded, Bounded/*      routine_bounded_batch.py: Manifest is `validate_identity` and
--                           `_observe_locked`, Checks the tests and writes, Service the operations,
--                           Trigger `bounded_batch_guard` of db/bounded_batch_schema_0034.py,
--                           Histories their sequences
--   Planner, Planner/*      pinterest_portfolio_planner.py: Candidates is the rank, Select the two
--                           selections, Pacing the days, Pool and History what a plan starts from,
--                           Plan its values, Preview `portfolio_preview`, Draft `create_draft_portfolio_plan`
--   CapContract, …/*        pinterest_portfolio_cap_contract.py; Promise is the planner's plans under it
--   Examples, Examples/*    concrete inputs
--
-- State and effects. An operation of a service is an action on a `World`: the committed database, the
-- session's copy with its uncommitted changes, a list that says which of the coming commits the
-- database refuses, and the requests sent to the provider. `commit` copies the session to the
-- database or raises, `rollback` drops what is uncommitted. An error that a service raises is a
-- value, `raised e`; a database error that nothing catches, or a row that is gone, is a `fault`.
-- Reads go to the session's copy. During one call no other session deletes the rows that it holds;
-- what other sessions have done before the call is the world that it starts in. Each call sees one
-- `now`, as the code reads the clock once or at nearly one moment.
--
-- Connections. The lease's process has detached connections and connections of the engine's pool. As
-- the comment at `connection.detach()` says, only the close of a detached connection ends its session
-- and with it the advisory lock; any other goes back to the pool with what its session holds.
--
-- Authorizations, permits and the routine's rows have stores of their own, whose commit fails only on the
-- unique index of the table; rows that other sessions have committed between a check and the insert
-- are the argument `meanwhile`. A commit that the database refuses for another reason is not
-- represented there.
--
-- A bounded batch is the state of one batch under its locks; an operation that raises without a commit
-- leaves it as it was, and in its histories any other service may replace the control, the permits and
-- the other tables between two calls. All clock readings of a call are one `now`.
--
-- Representation. Row ids are numbers, since the code only compares them. Texts are texts, with the
-- empty one falsy; lists of rows are in the order in which the database gives them. A time is naive
-- or an instant with an offset. A `Decimal` share is a numerator over a scale. The planner compares
-- keys and ids of rows by their texts, so there a number stands for a text in the order of the texts;
-- dates are ordinals and scores are in hundredths. A JSON document is a record of the keys that are
-- read, with `null` for one that is missing.
--
-- Bounds and fuel. `due_publications` pages on fuel, one page more than the query has rows; each
-- page but the last takes a row, so that this is enough for every limit from 1 to 25. The
-- selections of the planner fill on fuel, one round for each pin that is needed, since each round that
-- goes on takes a candidate. All other loops are recursion on the rows.
--
-- Parameters. The hashes of a request and of a manifest, the stored media and their marker
-- (pinterest_local_canary_media.py), the quality rules of a publication
-- (pinterest_publication_quality.py), the public URL of a creative, `urlsplit`, `ip_address` and
-- `lower`, `strip().casefold()`, the answers of the provider's gateway and of PostgreSQL about
-- the lease are arguments of the definitions that use them. So are, for the planner, the content that
-- is proposed for a product (content_engine.py), the hash of its payloads and `math.ceil` of a
-- product with a float.
--
-- Not modelled: the choice of boards, the optimizer, the autonomous and Buffer workflows, what the
-- routine worker does with a canary, a target or a bounded batch, the preparation of a batch, the
-- trigger that guards its tables but for the writes of `observe_batch`, content generation, rendering and storage of media, the catalogue, the HTTP API, migrations and the
-- frontend. Limits below 0 are not represented; the code refuses them as it refuses 0.
pub mod Prelude
pub mod Domain
pub mod Lifecycle
pub mod Session
pub mod CanaryMedia
pub mod Scheduler
pub mod Publisher
pub mod Duplicates
pub mod Reconciliation
pub mod Quotas
pub mod Routine
pub mod Permits
pub mod Authorization
pub mod Lease
pub mod Planner
pub mod CapContract
pub mod Bounded
mod Examples
