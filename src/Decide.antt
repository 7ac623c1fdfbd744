-- ===== src/Decide.antt =====
-- The decision on a match, and who may make it: routers/matches.py.
pub mod Rows
pub mod Access
pub mod Capacity
pub mod Parts
pub mod Handler
pub mod Steps
pub mod Admission
pub mod Keeps
pub mod Invariants
pub mod Ledger
pub mod Scope
pub mod Lookups
pub mod Targets
pub mod Answers
