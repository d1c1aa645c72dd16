-- ===== src/Oidc/Setup.antt =====
-- oidc/service.go: the configuration, and what the handlers take from outside: hashes and signatures
-- (`Crypto`), the outcomes of `randomToken` (`none` is its error), requests and responses.
use opened_connect_server.Prelude.{
  if◌then◌else◌, ◌==◌, ℕ, ◌+◌, String, Bool, true, false, Option, none, some, List, [], ◌∷◌,
}
use opened_connect_server.Clock.{Time, Duration, before, unix}
use opened_connect_server.Errors.{found_or, Error, random_failed, oauth_failure, Result}
use opened_connect_server.Table.{Table, get, get_or}
use opened_connect_server.Identity.Grants.{Resource}
use opened_connect_server.Identity.Metadata.{ProtocolClient}

pub record Config : Type 0 where
  pub logout_allowed_cidrs : List String
  pub password_grant_enabled : Bool
  pub refresh_tokens_enabled : Bool
  pub resources : List Resource
  pub refresh_max_ttl : Duration
  pub refresh_inactivity_ttl : Duration
  pub registration_enabled : Bool
  pub registration_allow_http : Bool
  pub allowed_origins : List String
  pub issuer : String
  pub transaction_ttl : Duration
  pub code_ttl : Duration
  pub access_token_ttl : Duration
  pub id_token_ttl : Duration
  pub cookie_secure : Bool

-- The claims of an ID token, as signIDToken of oidc/claims.go builds them.
pub record IdTokenClaims : Type 0 where
  pub issuer : String
  pub subject : String
  pub audience : List String
  pub expiry : ℕ
  pub issued_at : ℕ
  pub auth_time : ℕ
  pub sid : Option String
  pub nonce : Option String

-- SHA-256 in hexadecimal, its base64url form for PKCE, and the signature of the key store.
pub record Crypto : Type 0 where
  pub hash_token : String → String
  pub s256 : String → String
  pub sign_at : Time → IdTokenClaims → Option String

text_if_set : String → Option String
text_if_set s = if s == "" then none else some s

-- func signIDToken
unfoldable pub sign_id_token :
    Crypto → Config → ProtocolClient → String → String → ℕ → Time → String → Option String
unfolding text_if_set
sign_id_token k cfg client sub nonce auth_time issued_at sid = k.sign_at issued_at (record {
  issuer = cfg.issuer;
  subject = sub;
  audience = client.id ∷ [];
  expiry = unix (issued_at + cfg.id_token_ttl);
  issued_at = unix issued_at;
  auth_time = auth_time;
  sid = text_if_set sid;
  nonce = text_if_set nonce;
})

-- url.Values after parseProtocolForm, which refuses a repeated parameter.
abbrev pub Form : Type 0
Form = Table String

abbrev pub form_get : Form → String → String
form_get form key = get_or form key ""

abbrev pub form_has : Form → String → Bool
form_has form key = elim (get form key) [ none ↦ false | some v ↦ true ]

pub record TokenResponse : Type 0 where
  pub access_token : String
  pub token_type : String
  pub expires_in : ℕ
  pub id_token : String
  pub refresh_token : String
  pub scope : String

-- The body of a response: writeOAuthError with its status, code and description, or the tokens.
pub data Response : Type 0 where
  oauth_error : ℕ → String → String → Response
  tokens : TokenResponse → Response

-- func tokenFailure
unfoldable pub token_failure : Error → Response
token_failure (oauth_failure code description) = oauth_error 400 code description
token_failure e = oauth_error 503 "server_error" "Unable to complete token operation."

-- the first element that passes a test
unfoldable pub find_first {ℓ} : {A : Type ℓ} → (A → Bool) → List A → Option A
find_first p [] = none
find_first p (x ∷ xs) = if p x then some x else find_first p xs

-- `x, err := randomToken(); if err != nil { return err }`
abbrev pub drawn : Option String → Result String
drawn r = found_or r random_failed

-- func minTime
unfoldable pub min_time : Time → Time → Time
min_time a b = if before a b then a else b
