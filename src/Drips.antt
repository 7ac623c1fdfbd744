-- ===== src/Drips.antt =====
-- The drip engine: domain/drips.py of apps/api/src/jp_adopt_api, and the send task of
-- apps/worker/src/jp_adopt_worker/tasks/send_drip_step.py.
pub mod Rows
pub mod Engine
pub mod Tick
pub mod TickLaws
pub mod Laws
pub mod Enrolls
pub mod Exits
pub mod Drain
pub mod OptOut
pub mod Advance
