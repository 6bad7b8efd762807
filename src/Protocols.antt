-- ===== src/Protocols.antt =====
-- The package protocols: how the operators of a query act on dynamic values. Counting a search in the
-- scope's statistics and tracing are left out.
pub mod Dispatch
pub mod Compare
pub mod Arith
pub mod Truth
pub mod Slices
