-- ===== src/Oidc.antt =====
-- The package internal/oidc: the protocol endpoints over the store of internal/identity.
pub mod Texts
pub mod Setup
pub mod Samples
pub mod Pkce
pub mod Exchange
pub mod Refresh
pub mod Resource
pub mod Inspect
pub mod ClientAuth
pub mod Params
pub mod Redirect
pub mod Interaction
pub mod Authorize
pub mod Delivery
