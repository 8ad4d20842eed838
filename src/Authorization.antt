-- ===== src/Authorization.antt =====
-- backend/app/services/publication_dispatch_authorization.py: an operator's authorization of one
-- dispatch, bound to what the operator saw.
pub mod Readiness
pub mod Checks
pub mod Store
pub mod Validity
pub mod Agreement
pub mod Binding
