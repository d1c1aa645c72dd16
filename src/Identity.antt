-- ===== src/Identity.antt =====
-- The package internal/identity: its records, the state of its store, and the operations on it.
pub mod Records
pub mod Grants
pub mod Metadata
pub mod State
pub mod Revocation
pub mod Endings
pub mod Fold
pub mod Mutations
pub mod Pruning
pub mod Active
pub mod WellFormed
pub mod Principal
pub mod Service
pub mod Machine
