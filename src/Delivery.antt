-- ===== src/Delivery.antt =====
-- The delivery of the outbox to the webhook: apps/worker/src/jp_adopt_worker/outbox_delivery.py and
-- `drain_outbox` of apps/worker/src/jp_adopt_worker/worker_settings.py.
pub mod Batch
pub mod Drain
pub mod Workers
pub mod Rows
pub mod Taken
pub mod Settled
