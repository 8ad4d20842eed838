-- ===== src/Routine.antt =====
-- backend/app/services/routine_publishing_control.py: the control row of the routine worker, and the
-- record of its runs.
pub mod Control
pub mod Runs
pub mod Ticks
pub mod Worker
pub mod Safety
