-- ===== src/TrustSec.antt =====
-- trustsec.go: security groups, SGACLs and egress cells.
pub mod Objects
pub mod Cell
pub mod Refs
pub mod Preflight
pub mod Apply
pub mod Export
