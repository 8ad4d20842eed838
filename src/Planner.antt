-- ===== src/Planner.antt =====
-- backend/app/services/pinterest_portfolio_planner.py: the month's plan of Pins, chosen among
-- candidates under caps on products, vendors and boards.
--
-- Ids, slugs, keys and fingerprints are only compared, for equality and in the order of their texts,
-- so they are numbers in that order.
pub mod Candidates
pub mod Select
pub mod Pacing
pub mod Sorting
pub mod Pool
pub mod History
pub mod Plan
pub mod Preview
pub mod Draft
