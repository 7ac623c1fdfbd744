-- ===== src/Workflow.antt =====
-- The adoption and facilitator workflow: domain/state_machine.py and domain/state_machine_errors.py
-- of apps/api/src/jp_adopt_api.
pub mod States
pub mod Tables
pub mod Lookup
pub mod Transition
pub mod Available
pub mod Policy
pub mod Acceptance
pub mod Effects
