-- ===== src/Identity/WellFormed/Defs.antt =====
-- The invariant, and that an empty store has it.
use opened_connect_server.Table.{IsKeyed-empty, IsKeyed}
use opened_connect_server.Identity.State.{fresh_file_state, FileState}

pub record IsWellFormed (s : FileState) : Type 0 where
  pub operations : IsKeyed (λ v. v.id) s.logout_operations
  pub apps : IsKeyed (λ v. v.id) s.app_sessions
  pub deliveries : IsKeyed (λ v. v.id) s.logout_deliveries
  pub interactions : IsKeyed (λ v. v.id) s.logout_interactions
  pub families : IsKeyed (λ v. v.id) s.refresh_families
  pub refreshes : IsKeyed (λ v. v.hash) s.refresh_tokens
  pub initials : IsKeyed (λ v. v.hash) s.initial_token_map
  pub registrations : IsKeyed (λ v. v.client_id) s.registration_token_map
  pub clients : IsKeyed (λ v. v.id) s.clients_map
  pub users : IsKeyed (λ v. v.id) s.users_map
  pub session_keys : IsKeyed (λ v. v.hash) s.sessions
  pub transactions : IsKeyed (λ v. v.id) s.authz_transactions
  pub codes : IsKeyed (λ v. v.hash) s.authorization_codes
  pub tokens : IsKeyed (λ v. v.hash) s.access_tokens
  pub consent_keys : IsKeyed (λ v. v.id) s.consents

pub IsWellFormed-fresh : IsWellFormed fresh_file_state
unfolding fresh_file_state
IsWellFormed-fresh = record {
  operations = IsKeyed-empty _;
  apps = IsKeyed-empty _;
  deliveries = IsKeyed-empty _;
  interactions = IsKeyed-empty _;
  families = IsKeyed-empty _;
  refreshes = IsKeyed-empty _;
  initials = IsKeyed-empty _;
  registrations = IsKeyed-empty _;
  clients = IsKeyed-empty _;
  users = IsKeyed-empty _;
  session_keys = IsKeyed-empty _;
  transactions = IsKeyed-empty _;
  codes = IsKeyed-empty _;
  tokens = IsKeyed-empty _;
  consent_keys = IsKeyed-empty _;
}
