-- ===== src/Publisher.antt =====
-- backend/app/services/pinterest_publisher.py: the gates before a dispatch to the provider, and the
-- recording of its outcome.
pub mod Metadata
pub mod Media
pub mod Readiness
pub mod Dispatch
