-- ===== src/Functions.antt =====
-- The functions (functions/) that are no aggregates.
pub mod If
