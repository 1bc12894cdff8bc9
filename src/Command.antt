-- ===== src/Command.antt =====
-- The command line of `aibris clean`: which route it takes and what its selectors name.
pub mod Examples
pub mod Route
pub mod Selectors
