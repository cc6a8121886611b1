-- ===== src/ActiveDirectory.antt =====
-- activedirectory.go: the Active Directory join points, their export, pre-flight and import.
pub mod Groups
pub mod Preflight
pub mod Apply
