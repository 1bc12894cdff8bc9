-- ===== src/Cleaner.antt =====
-- internal/cleaner: which items may be cleaned, at which physical paths, and what forbids it.
pub mod Examples
pub mod Items
pub mod SafePath
pub mod Targets
pub mod Owner
pub mod Eligibility
pub mod Overlap
