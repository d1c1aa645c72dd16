-- ===== src/Oidc/Samples.antt =====
-- A small store and its parameters, at which the tests and witnesses run.
use opened_connect_server.Prelude.{◌<>◌, String, true, false, some, [], ◌∷◌}
use opened_connect_server.Table.{IsKeyed-empty, IsKeyed-one}
use opened_connect_server.Identity.Records.{role_admin, Claims, User, Session}
use opened_connect_server.Identity.Grants.{AuthorizationCode, Consent, Resource, OauthPolicy}
use opened_connect_server.Identity.Metadata.{
  ClientMetadata, runtime_client, ClientRecord, text_value, list_value,
}
use opened_connect_server.Identity.State.{FileState}
use opened_connect_server.Identity.WellFormed.{IsWellFormed}
use opened_connect_server.Oidc.Setup.{Config, Crypto}
use opened_connect_server.Oidc.Exchange.{CodeRequest}

-- An injective stand-in for the hash, and a challenge that is the verifier.
abbrev pub sample_crypto : Crypto
sample_crypto = record {
  hash_token = λ t. "h-" <> t;
  s256 = λ v. v;
  sign_at = λ now claims. some "signed";
}

abbrev pub sample_resource : Resource
sample_resource = record { audience = "orders"; scopes = "read" ∷ "write" ∷ []; enabled = true }

abbrev pub sample_config : Config
sample_config = record {
  logout_allowed_cidrs = [];
  password_grant_enabled = true;
  refresh_tokens_enabled = true;
  resources = sample_resource ∷ [];
  refresh_max_ttl = 1000;
  refresh_inactivity_ttl = 200;
  registration_enabled = true;
  registration_allow_http = false;
  allowed_origins = [];
  issuer = "https://op.example";
  transaction_ttl = 100;
  code_ttl = 60;
  access_token_ttl = 300;
  id_token_ttl = 300;
  cookie_secure = true;
}

abbrev pub sample_metadata : ClientMetadata
sample_metadata =
    ("grant_types", list_value ("authorization_code" ∷ "refresh_token" ∷ "client_credentials" ∷ []))
    ∷ ("response_types", list_value ("code" ∷ []))
    ∷ ("redirect_uris", list_value ("https://rp.example/cb" ∷ []))
    ∷ ("token_endpoint_auth_method", text_value "client_secret_basic")
    ∷ ("backchannel_logout_uri", text_value "https://rp.example/logout")
    ∷ []

abbrev pub sample_client : ClientRecord
sample_client = record {
  origin = "";
  initial_token_id = "";
  id = "rp";
  metadata = sample_metadata;
  secret = "s3cret";
  issued_at = 5;
  updated_at = 50;
}

abbrev pub no_claims : Claims
no_claims = record {
  given_name = "";
  family_name = "";
  middle_name = "";
  nickname = "";
  preferred_username = "";
  profile_url = "";
  picture = "";
  website = "";
  gender = "";
  birthdate = "";
  zoneinfo = "";
  locale = "";
  phone_number = "";
  address = record {
    formatted = "";
    street_address = "";
    locality = "";
    region = "";
    postal_code = "";
    country = "";
  };
  custom_attributes = [];
}

abbrev pub sample_user : User
sample_user = record {
  profile = record {
    claims = no_claims;
    sub = "u1";
    claim_updated_at = 0;
    email_verified = true;
    phone_number_verified = false;
    id = "u1";
    email = "ann@example.com";
    name = "Ann";
    role = role_admin;
    active = true;
    created_at = 10;
    updated_at = 10;
  };
  password_hash = "argon-1";
}

abbrev pub sample_session : Session
sample_session = record {
  id = "op1";
  created_at = 60;
  last_seen_at = 60;
  device = "";
  ended_at = 0;
  end_reason = "";
  hash = "h-cookie";
  user_id = "u1";
  csrf = "c";
  expires_at = 5000;
  auth_time = 60;
}

abbrev pub sample_verifier : String
sample_verifier = "abcdefghijklmnopqrstuvwxyz0123456789-._~ABCDEFG"

abbrev pub sample_code : AuthorizationCode
sample_code = record {
  op_session_id = "op1";
  app_session_id = "";
  revoked = false;
  created_at = 100;
  retain_until = 0;
  hash = "h-code";
  transaction_id = "tx1";
  client_id = "rp";
  user_id = "u1";
  redirect_uri = "https://rp.example/cb";
  scopes = "openid" ∷ "offline_access" ∷ [];
  nonce = "n";
  auth_time = 0;
  code_challenge = sample_verifier;
  code_challenge_method = "S256";
  client_updated_at = 50;
  consumed = false;
  expires_at = 160;
}

abbrev pub sample_policy : OauthPolicy
sample_policy = record {
  grants = "refresh_token" ∷ "client_credentials" ∷ [];
  resources =
      ("orders", record { allowed = "read" ∷ "write" ∷ []; default_scopes = "read" ∷ [] }) ∷ [];
  default_resource = "orders";
  introspection_enabled = true;
  introspection_audiences = "userinfo" ∷ "orders" ∷ [];
  refresh_inspection = true;
  refresh_enabled = true;
  password_enabled = false;
}

abbrev pub sample_consent : Consent
sample_consent = record {
  id = "u1|rp";
  user_id = "u1";
  client_id = "rp";
  scopes = "openid" ∷ "offline_access" ∷ [];
  policy_revision = 50;
  granted_at = 90;
  revoked = false;
}

-- One client, one user with a session, and a code for them.
abbrev pub sample_state : FileState
sample_state = record {
  logout_operations = [];
  app_sessions = [];
  logout_deliveries = [];
  logout_interactions = [];
  oauth_policies = ("rp", sample_policy) ∷ [];
  user_oauth_access = [];
  refresh_families = [];
  refresh_tokens = [];
  initial_token_map = [];
  registration_token_map = [];
  clients_map = ("rp", sample_client) ∷ [];
  version = 5;
  users_map = ("u1", sample_user) ∷ [];
  sessions = ("h-cookie", sample_session) ∷ [];
  authz_transactions = [];
  authorization_codes = ("h-code", sample_code) ∷ [];
  access_tokens = [];
  consents = ("u1|rp", sample_consent) ∷ [];
}

pub sample_state-IsWellFormed : IsWellFormed sample_state
sample_state-IsWellFormed = record {
  operations = IsKeyed-empty _;
  apps = IsKeyed-empty _;
  deliveries = IsKeyed-empty _;
  interactions = IsKeyed-empty _;
  families = IsKeyed-empty _;
  refreshes = IsKeyed-empty _;
  initials = IsKeyed-empty _;
  registrations = IsKeyed-empty _;
  clients = IsKeyed-one (λ v. v.id) sample_client;
  users = IsKeyed-one (λ v. v.id) sample_user;
  session_keys = IsKeyed-one (λ v. v.hash) sample_session;
  transactions = IsKeyed-empty _;
  codes = IsKeyed-one (λ v. v.hash) sample_code;
  tokens = IsKeyed-empty _;
  consent_keys = IsKeyed-one (λ v. v.id) sample_consent;
}

abbrev pub sample_request : CodeRequest
sample_request = record {
  client = runtime_client sample_client;
  code = "code";
  redirect_uri = "https://rp.example/cb";
  verifier = sample_verifier;
}
