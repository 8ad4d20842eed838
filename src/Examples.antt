-- ===== src/Examples.antt =====
-- Concrete inputs for the theorems.
mod Data
mod Publishing
mod Scheduling
mod Reconciling
mod Reserving
mod Checking
mod Running
mod Working
mod Authorizing
mod Leading
mod Planning
mod Permitting
mod Admitting
mod Batching
