-- ===== src/Tests.antt =====
-- Runs on concrete data, and the theorems at inputs that meet their hypotheses.
mod Shared
mod Json
mod Ise
mod Csrf
mod PolicySets
mod Endpoints
mod TrustSec
mod Translate
mod IdentitySources
mod Bundle
mod ActiveDirectory
