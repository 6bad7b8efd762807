-- ===== src/Plugins.antt =====
-- The plugins.
pub mod Range
pub mod Foreach
pub mod Flatten
