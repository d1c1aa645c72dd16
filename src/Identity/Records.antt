-- ===== src/Identity/Records.antt =====
-- The records of internal/identity: users, sessions, and what the sign-in protocol stores.
use opened_connect_server.Prelude.{ℕ, String, Bool, List}
use opened_connect_server.Clock.{Time}
use opened_connect_server.Table.{Table}

-- identity/attributes.go
pub record Address : Type 0 where
  pub formatted : String
  pub street_address : String
  pub locality : String
  pub region : String
  pub postal_code : String
  pub country : String

pub record Claims : Type 0 where
  pub given_name : String
  pub family_name : String
  pub middle_name : String
  pub nickname : String
  pub preferred_username : String
  pub profile_url : String
  pub picture : String
  pub website : String
  pub gender : String
  pub birthdate : String
  pub zoneinfo : String
  pub locale : String
  pub phone_number : String
  pub address : Address
  pub custom_attributes : Table String

-- identity/store.go
abbrev pub Role : Type 0
Role = String

abbrev pub role_user : Role
role_user = "user"

abbrev pub role_admin : Role
role_admin = "admin"

pub record Profile : Type 0 where
  pub claims : Claims
  pub sub : String
  pub claim_updated_at : ℕ
  pub email_verified : Bool
  pub phone_number_verified : Bool
  pub id : String
  pub email : String
  pub name : String
  pub role : Role
  pub active : Bool
  pub created_at : Time
  pub updated_at : Time

pub record User : Type 0 where
  pub profile : Profile
  pub open profile use *
  pub password_hash : String

pub record Session : Type 0 where
  pub id : String
  pub created_at : Time
  pub last_seen_at : Time
  pub device : String
  pub ended_at : Time
  pub end_reason : String
  pub hash : String
  pub user_id : String
  pub csrf : String
  pub expires_at : Time
  pub auth_time : Time

-- identity/sessions.go
pub record AppSession : Type 0 where
  pub id : String
  pub op_session_id : String
  pub client_id : String
  pub user_id : String
  pub subject : String
  pub created_at : Time
  pub last_seen_at : Time
  pub ended_at : Time
  pub end_reason : String

pub record LogoutAttempt : Type 0 where
  pub at : Time
  pub http_status : ℕ
  pub error_code : String

pub record LogoutDelivery : Type 0 where
  pub history : List LogoutAttempt
  pub id : String
  pub op_session_id : String
  pub app_session_id : String
  pub client_id : String
  pub user_id : String
  pub subject : String
  pub actor : String
  pub reason : String
  pub channel : String
  pub status : String
  pub endpoint : String
  pub created_at : Time
  pub updated_at : Time
  pub next_attempt : Time
  pub lease_until : Time
  pub lease_id : String
  pub attempts : ℕ
  pub http_status : ℕ
  pub error_code : String

pub record LogoutInteraction : Type 0 where
  pub client_id : String
  pub app_session_id : String
  pub id : String
  pub binding_hash : String
  pub csrf : String
  pub op_session_id : String
  pub user_id : String
  pub redirect_uri : String
  pub state : String
  pub expires_at : Time
  pub completed : Bool

-- identity/logout_operations.go
pub record LogoutOperation : Type 0 where
  pub id : String
  pub actor : String
  pub kind : String
  pub created_at : Time
  pub targets : List String
