-- ===== src/Tests.antt =====
-- The theorems at concrete inputs, on the fixtures of the first child.
mod Fixtures
mod Values
mod Texts
mod Queries
mod Symbols
mod Scopes
mod Statements
mod Printing
mod Workers
