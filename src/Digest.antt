-- ===== src/Digest.antt =====
-- The daily digest of matches: domain/digest.py, and the worker's tasks/send_daily_digest.py.
pub mod Rows
pub mod Plans
pub mod Window
pub mod Run
pub mod Again
pub mod Addresses
pub mod Loaded
pub mod Reached
pub mod Entitled
