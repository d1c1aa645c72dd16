-- ===== src/Identity/Grants.antt =====
-- The records of internal/identity that hold what was granted: authorization transactions and codes,
-- access tokens, consents, refresh families, policies.
use opened_connect_server.Prelude.{◌<>◌, ℕ, String, Bool, Option, List}
use opened_connect_server.Clock.{Time}
use opened_connect_server.Table.{Table}

-- identity/oidc_records.go
pub record AuthzTransaction : Type 0 where
  pub op_session_id : String
  pub app_session_id : String
  pub revoked : Bool
  pub reauthenticate_after : Time
  pub id : String
  pub client_id : String
  pub redirect_uri : String
  pub scopes : List String
  pub state : String
  pub response_mode : String
  pub nonce : String
  pub code_challenge : String
  pub code_challenge_method : String
  pub prompt : List String
  pub max_age : Option ℕ
  pub login_hint : String
  pub browser_binding_hash : String
  pub user_id : String
  pub auth_time : ℕ
  pub client_updated_at : Time
  pub consent_granted : Bool
  pub consumed : Bool
  pub expires_at : Time
  pub created_at : Time

pub record AuthorizationCode : Type 0 where
  pub op_session_id : String
  pub app_session_id : String
  pub revoked : Bool
  pub created_at : Time
  pub retain_until : Time
  pub hash : String
  pub transaction_id : String
  pub client_id : String
  pub user_id : String
  pub redirect_uri : String
  pub scopes : List String
  pub nonce : String
  pub auth_time : ℕ
  pub code_challenge : String
  pub code_challenge_method : String
  pub client_updated_at : Time
  pub consumed : Bool
  pub expires_at : Time

pub record AccessToken : Type 0 where
  pub op_session_id : String
  pub app_session_id : String
  pub grant_type : String
  pub subject_kind : String
  pub family_id : String
  pub original_grant : String
  pub id_token_expires_at : Time
  pub hash : String
  pub client_id : String
  pub user_id : String
  pub audience : String
  pub scopes : List String
  pub code_hash : String
  pub issued_at : Time
  pub expires_at : Time
  pub revoked : Bool

pub record Consent : Type 0 where
  pub id : String
  pub user_id : String
  pub client_id : String
  pub scopes : List String
  pub policy_revision : ℕ
  pub granted_at : Time
  pub revoked : Bool

-- func consentID
unfoldable pub consent_id : String → String → String
consent_id user_id client_id = user_id <> "|" <> client_id

-- identity/oauth.go
pub record Resource : Type 0 where
  pub audience : String
  pub scopes : List String
  pub enabled : Bool

pub record ResourceScopes : Type 0 where
  pub allowed : List String
  pub default_scopes : List String

pub record OauthPolicy : Type 0 where
  pub grants : List String
  pub resources : Table ResourceScopes
  pub default_resource : String
  pub introspection_enabled : Bool
  pub introspection_audiences : List String
  pub refresh_inspection : Bool
  pub refresh_enabled : Bool
  pub password_enabled : Bool

abbrev pub OauthAccess : Type 0
OauthAccess = Table (List String)

pub record RefreshFamily : Type 0 where
  pub app_session_id : String
  pub op_session_id : String
  pub id : String
  pub client_id : String
  pub user_id : String
  pub code_hash : String
  pub audience : String
  pub scopes : List String
  pub auth_time : ℕ
  pub client_revision : ℕ
  pub created_at : Time
  pub absolute_expiry : Time
  pub idle_expiry : Time
  pub retain_until : Time
  pub revoked : Bool

pub record RefreshToken : Type 0 where
  pub hash : String
  pub family_id : String
  pub scopes : List String
  pub issued_at : Time
  pub consumed : Bool

-- identity/registration.go
pub record InitialAccessToken : Type 0 where
  pub id : String
  pub hash : String
  pub label : String
  pub issued_by : String
  pub issued_at : Time
  pub expires_at : Time
  pub max_uses : ℕ
  pub uses : ℕ
  pub revoked : Bool

pub record RegistrationAccessToken : Type 0 where
  pub hash : String
  pub client_id : String
  pub issued_at : Time
