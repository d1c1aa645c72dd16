-- ===== src/Tests.antt =====
-- Applications of the theorems at the concrete store of Oidc.Samples.
pub mod Accounts
pub mod Service
pub mod Sessions
pub mod Protocol
