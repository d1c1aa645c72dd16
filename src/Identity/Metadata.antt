-- ===== src/Identity/Metadata.antt =====
-- identity/clients.go, runtime_client.go, protocol_audit.go and oidc/capability: a client's
-- registered metadata and its projection for the protocol. A `json.RawMessage` is kept as the value
-- that it holds; `other` stands for every value that decodes neither as a text, a list of texts, a
-- whole number nor a Boolean, and leaves Go's zero value in each.
use opened_connect_server.Prelude.{
  if◌then◌else◌, ◌==◌, ◌!=◌, ◌<>◌, is_empty, any, contains, ℕ, String, Bool, true, false, not, ◌&&◌,
  ◌||◌, Option, none, some, List, [], ◌∷◌, ◌++◌,
}
use opened_connect_server.Clock.{Time, unix_nano}
use opened_connect_server.Table.{Table, get}

pub data Json : Type 0 where
  text_value : String → Json
  list_value : List String → Json
  number_value : ℕ → Json
  bool_value : Bool → Json
  other : Json

abbrev pub ClientMetadata : Type 0
ClientMetadata = Table Json

pub record ClientRecord : Type 0 where
  pub origin : String
  pub initial_token_id : String
  pub id : String
  pub metadata : ClientMetadata
  pub secret : String
  pub issued_at : ℕ
  pub updated_at : Time

as_text : Option Json → String
as_text (some (text_value s)) = s
as_text _ = ""

as_list : Option Json → List String
as_list (some (list_value l)) = l
as_list _ = []

as_number : Option Json → Option ℕ
as_number (some (number_value n)) = some n
as_number _ = none

as_bool : Option Json → Bool
as_bool (some (bool_value b)) = b
as_bool _ = false

-- func (m ClientMetadata) text
unfoldable pub text : ClientMetadata → String → String
unfolding as_text
text m key = as_text (get m key)

-- func (m ClientMetadata) list
unfoldable pub list : ClientMetadata → String → List String
unfolding as_list
list m key = as_list (get m key)

-- var SupportedGrantTypes and its neighbours
abbrev pub supported_scopes : List String
supported_scopes = "openid" ∷ "profile" ∷ "email" ∷ "address" ∷ "phone" ∷ []

abbrev pub supported_response_types : List String
supported_response_types = "code" ∷ []

abbrev pub supported_grant_types : List String
supported_grant_types =
    "authorization_code" ∷ "client_credentials" ∷ "refresh_token" ∷ "password" ∷ []

abbrev pub supported_auth_methods : List String
supported_auth_methods = "client_secret_basic" ∷ "client_secret_post" ∷ "none" ∷ []

abbrev pub supported_signing_algs : List String
supported_signing_algs = "RS256" ∷ []

pub record ClientProfile : Type 0 where
  pub response_types : List String
  pub grant_types : List String
  pub token_endpoint_auth_method : String
  pub subject_type : String
  pub requests_encryption : Bool
  pub id_token_signed_response_alg : String

-- one reason for each value that is not supported
unsupported : List String → (String → String) → List String → List String
unsupported supported reason [] = []
unsupported supported reason (x ∷ xs) =
    let rest = unsupported supported reason xs in
    if contains supported x then rest else reason x ∷ rest

auth_method_reason : String → String
auth_method_reason method =
    if method == "private_key_jwt" || method == "client_secret_jwt"
    then "token endpoint authentication method \"" <> method <> "\" is not yet implemented"
    else "token endpoint authentication method \"" <> method <> "\" is not supported"

reason_if : Bool → String → List String
reason_if true reason = reason ∷ []
reason_if false reason = []

-- func Audit
unfoldable pub audit_reasons : ClientProfile → List String
unfolding unsupported auth_method_reason reason_if
audit_reasons p =
    unsupported supported_response_types
      (λ rt. "response type \"" <> rt <> "\" is not supported; only \"code\" is implemented")
      p.response_types
    ++ (unsupported supported_grant_types (λ gt. "grant type \"" <> gt <> "\" is not supported")
          p.grant_types
        ++ (reason_if
              (p.token_endpoint_auth_method != ""
                && not (contains supported_auth_methods p.token_endpoint_auth_method))
              (auth_method_reason p.token_endpoint_auth_method)
            ++ (reason_if (p.subject_type != "" && p.subject_type != "public")
                  "pairwise subject identifiers are not yet implemented; this client requires public subjects"
                ++ (reason_if p.requests_encryption
                      "ID token and UserInfo encryption are not yet implemented"
                    ++ reason_if
                        (p.id_token_signed_response_alg != ""
                          && not (contains supported_signing_algs p.id_token_signed_response_alg))
                        ("ID token signing algorithm \"" <> p.id_token_signed_response_alg
                          <> "\" is not supported; only RS256 is implemented")))))

encryption_keys : List String
encryption_keys =
    "id_token_encrypted_response_alg" ∷ "userinfo_encrypted_response_alg"
    ∷ "request_object_encryption_alg" ∷ []

signing_keys : List String
signing_keys = "userinfo_signed_response_alg" ∷ "request_object_signing_alg" ∷ []

-- the reasons for the metadata fields that are not supported at all
unsupported_fields : ClientMetadata → List String → List String
unsupported_fields m [] = []
unsupported_fields m (key ∷ keys) =
    let rest = unsupported_fields m keys in
    if text m key != "" then (key <> " is not supported") ∷ rest else rest

client_profile : ClientMetadata → ClientProfile
unfolding encryption_keys
client_profile m = record {
  response_types = list m "response_types";
  grant_types = list m "grant_types";
  token_endpoint_auth_method = text m "token_endpoint_auth_method";
  subject_type = text m "subject_type";
  requests_encryption = any (λ key. text m key != "") encryption_keys;
  id_token_signed_response_alg = text m "id_token_signed_response_alg";
}

-- func auditMetadata
unfoldable pub audit_metadata : ClientMetadata → Bool × List String
unfolding audit_reasons client_profile unsupported_fields signing_keys
audit_metadata m =
    let audited = audit_reasons (client_profile m) in
    let fields = unsupported_fields m signing_keys in
    (is_empty audited && is_empty fields, audited ++ fields)

pub record ProtocolClient : Type 0 where
  pub id : String
  pub secret : String
  pub redirect_uris : List String
  pub response_types : List String
  pub grant_types : List String
  pub token_endpoint_auth_method : String
  pub subject_type : String
  pub id_token_signed_response_alg : String
  pub require_auth_time : Bool
  pub default_max_age : Option ℕ
  pub updated_at : ℕ
  pub compatible : Bool
  pub incompatibility_reasons : List String

-- func projectRuntimeClient, RuntimeClient
unfoldable pub runtime_client : ClientRecord → ProtocolClient
unfolding as_number as_bool
runtime_client c =
    let m = c.metadata in
    record {
      id = c.id;
      secret = c.secret;
      redirect_uris = list m "redirect_uris";
      response_types = list m "response_types";
      grant_types = list m "grant_types";
      token_endpoint_auth_method = text m "token_endpoint_auth_method";
      subject_type = text m "subject_type";
      id_token_signed_response_alg = text m "id_token_signed_response_alg";
      require_auth_time = as_bool (get m "require_auth_time");
      default_max_age = as_number (get m "default_max_age");
      updated_at = unix_nano c.updated_at;
      compatible = (audit_metadata m).0;
      incompatibility_reasons = (audit_metadata m).1;
    }
