-- ===== src/Tests.antt =====
-- Concrete runs of the modelled code, at which the results are applied.
mod Decide
mod Delivery
mod Digest
mod Drips
mod Etl
mod Magic
mod Matching
mod Intake
mod Outbox
mod Upkeep
mod Workflow
