-- ===== src/IdentitySources.antt =====
-- identitysources.go: REST ID stores and certificate authentication profiles.
pub mod Secrets
pub mod Drift
pub mod Export
pub mod Preflight
pub mod Apply
