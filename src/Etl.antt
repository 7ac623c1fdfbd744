-- ===== src/Etl.antt =====
-- The import from Disciple.Tools: the pure rules of apps/etl/src/jp_adopt_etl.
pub mod Merge
pub mod Status
