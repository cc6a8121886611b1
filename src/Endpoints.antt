-- ===== src/Endpoints.antt =====
-- endpoints.go: endpoint identity groups and endpoints: their references and their pre-flight.
pub mod Refs
pub mod Preflight
pub mod Usage
pub mod Listing
