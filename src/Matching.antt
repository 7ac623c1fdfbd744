-- ===== src/Matching.antt =====
-- Matching and triage: domain/matching.py and domain/matching_config.py of
-- apps/api/src/jp_adopt_api.
pub mod Rows
pub mod Floats
pub mod Filter
pub mod Score
pub mod Bounds
pub mod Ranking
pub mod Process
pub mod Run
pub mod Order
pub mod Justified
pub mod OpenMatches
pub mod Audit
