-- ===== src/PolicySets.antt =====
-- policy_sets.go: the references of policy sets and their rules, and their import.
pub mod Conditions
pub mod Clean
pub mod Names
pub mod References
pub mod Rules
pub mod Apply
pub mod Export
