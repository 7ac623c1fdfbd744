-- ===== src/Intake.antt =====
-- The intake of the forms: routers/intake.py.
pub mod Rows
pub mod Email
pub mod Contacts
pub mod Process
pub mod Access
pub mod Request
mod Keeps
mod Claims
mod Callers
pub mod Served
pub mod Replay
pub mod Returns
pub mod Outcome
pub mod Found
pub mod Refused
