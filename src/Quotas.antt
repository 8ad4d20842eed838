-- ===== src/Quotas.antt =====
-- backend/app/services/routine_scheduled_quotas.py: reservations of publishing quota, by day and by
-- month, in a ledger whose writers are serialised by the lock on the control row.
pub mod Calendar
pub mod Envelope
pub mod Ledger
pub mod Reserve
pub mod Caps
pub mod Agreement
pub mod Lineage
pub mod Commitments
pub mod Admission
