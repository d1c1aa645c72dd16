-- ===== src/Oidc/Authorize.antt =====
-- oidc/authorize.go: the authorization endpoint. A handler reads the store in several transactions;
-- `Reads` gives the state of each, so that other requests may come between them. parseProtocolForm
-- refuses repeated parameters, so the handler's own test for them never fires; the file store's reads
-- do not fail.
pub mod Handler
pub mod Known
pub mod Targets
pub mod Accepted
pub mod Silent
pub mod Started
pub mod Begun
pub mod Tests
use Prim.Native.String.{len}
use opened_connect_server.Prelude.{
  ltb, eqb, if◌then◌else◌, ◌==◌, ◌!=◌, ◌<>◌, length, contains, ℕ, String, Bool, true, false, not,
  ◌&&◌, ◌||◌, Option, none, some, List, [], ◌∷◌, ◌++◌,
}
use opened_connect_server.Clock.{Time}
use opened_connect_server.Errors.{unauthorized, Result, err}
use opened_connect_server.Identity.Metadata.{supported_scopes, ProtocolClient}
use opened_connect_server.Identity.State.{oauth_policy, FileState}
use opened_connect_server.Identity.Principal.{authenticate, Principal}
use opened_connect_server.Oidc.Texts.{fields, parse_natural}
use opened_connect_server.Oidc.Setup.{Form, form_get, form_has, find_first, Config, Crypto}
use opened_connect_server.Oidc.Pkce.{validate_code_challenge, PkceResult, pkce_ok}
use opened_connect_server.Oidc.Redirect.{valid_code_response_mode, Redirect}

-- the state of each transaction, and the clock
pub record Reads : Type 0 where
  pub client_read : FileState
  pub policy_read : FileState
  pub session_read : FileState
  pub consent_read : FileState
  pub now : Time

-- the browser's cookies, and the draws of randomToken
pub record Browser : Type 0 where
  pub session_cookie : Option String
  pub binding_cookie : Option String
  pub draw_transaction : Option String
  pub draw_binding : Option String
  pub draw_code : Option String

pub data AuthorizeAnswer : Type 0 where
  error_page : String → AuthorizeAnswer
  error_sent : Redirect → AuthorizeAnswer
  code_sent : Bool → Redirect → AuthorizeAnswer
  to_login to_continue : String → String → AuthorizeAnswer

abbrev pub supported_prompts : List String
supported_prompts = "none" ∷ "login" ∷ "consent" ∷ "select_account" ∷ []

-- func supportedScopes
unfoldable pub scopes_supported : Config → List String
scopes_supported cfg =
    supported_scopes ++ (if cfg.refresh_tokens_enabled then "offline_access" ∷ [] else [])

-- func currentPrincipal
unfoldable pub current_principal : Crypto → Browser → Time → FileState → Result Principal
current_principal k b now s = elim b.session_cookie [
  | none ↦ err unauthorized
  | some value ↦
      if eqb (len value) 43 then authenticate (k.hash_token value) now s else err unauthorized
]

-- A guard of the handler: where `fails`, the OAuth error that is sent.
pub record Guard : Type 0 where
  pub fails : Bool
  pub code : String
  pub description : String

unfoldable pub first_fault : List Guard → Option Guard
first_fault [] = none
first_fault (g ∷ gs) = let rest = first_fault gs in if g.fails then some g else rest

-- the client may have offline access
unfoldable pub offline_allowed : Config → FileState → ProtocolClient → Bool
offline_allowed cfg s client =
    let p = oauth_policy s client.id in
    cfg.refresh_tokens_enabled
    && (p.refresh_enabled
        && (contains p.grants "refresh_token" && contains client.grant_types "refresh_token"))

abbrev pub requested_scopes : Form → List String
requested_scopes form = fields (form_get form "scope")

abbrev pub requested_prompts : Form → List String
requested_prompts form = fields (form_get form "prompt")

-- the first prompt that is not supported
unfoldable pub unsupported_prompt : List String → Option String
unsupported_prompt prompts = find_first (λ p. not (contains supported_prompts p)) prompts

abbrev pub is_pkce_ok : PkceResult → Bool
is_pkce_ok pkce_ok = true
is_pkce_ok _ = false

unfoldable pub prompt_guard : List String → Guard
unfolding unsupported_prompt
prompt_guard prompts = elim (unsupported_prompt prompts) [
  | none ↦ record { fails = false; code = ""; description = "" }
  | some p ↦ record {
    fails = true;
    code = "invalid_request";
    description = "Unsupported prompt value: " <> p;
  }
]

abbrev guard : Bool → String → String → Guard
guard fails code description = record { fails = fails; code = code; description = description }

-- the guards of the parameters that do not concern scopes, in their order
unfoldable pub request_guards : Form → ProtocolClient → List Guard
request_guards form client =
    guard (form_has form "resource") "invalid_target"
      "Authorization code grants target UserInfo only."
    ∷ guard (form_has form "request") "request_not_supported" "Request objects are not supported."
    ∷ guard (form_has form "request_uri") "request_uri_not_supported"
        "Request URIs are not supported."
    ∷ guard (not (valid_code_response_mode (form_get form "response_mode"))) "invalid_request"
        "Only query and form_post response modes are supported."
    ∷ guard
        (form_has form "claims" || (form_has form "acr_values" || form_has form "id_token_hint"))
        "invalid_request" "The requested optional authentication parameter is not supported."
    ∷ guard (form_get form "response_type" != "code") "unsupported_response_type"
        "Only the code response type is supported."
    ∷ guard (not (contains client.grant_types "authorization_code")) "unauthorized_client"
        "This client is not authorized for the authorization code grant."
    ∷ []

-- the guards of scopes, challenge and prompts, in their order
unfoldable pub grant_guards : Config → FileState → Form → ProtocolClient → List Guard
unfolding offline_allowed prompt_guard
grant_guards cfg s form client =
    let scopes = requested_scopes form in
    let prompts = requested_prompts form in
    guard
      (contains scopes "offline_access"
        && (not (offline_allowed cfg s client) || not (contains prompts "consent")))
      "invalid_scope" "Offline access requires client permission and explicit prompt=consent."
    ∷ guard (not (contains scopes "openid")) "invalid_scope" "The openid scope is required."
    ∷ guard
        (not (
          is_pkce_ok (
            validate_code_challenge (form_get form "code_challenge")
              (form_get form "code_challenge_method"))))
        "invalid_request" "A valid S256 code_challenge is required."
    ∷ prompt_guard prompts
    ∷ guard (contains prompts "none" && ltb 1 (length prompts)) "invalid_request"
        "prompt=none cannot be combined with other prompt values."
    ∷ guard (contains prompts "select_account") "account_selection_required"
        "Account selection is not supported by this provider."
    ∷ []

-- the scopes asked for that the provider supports
unfoldable pub kept_scopes : List String → List String → List String
kept_scopes supported [] = []
kept_scopes supported (sc ∷ scs) =
    let rest = kept_scopes supported scs in if contains supported sc then sc ∷ rest else rest

-- max_age, or the client's default; the outer `none` where it is not a natural number
unfoldable pub requested_max_age : Form → ProtocolClient → Option (Option ℕ)
requested_max_age form client =
    let raw = form_get form "max_age" in
    if raw == ""
    then some client.default_max_age
    else elim (parse_natural raw) [ none ↦ none | some v ↦ some (some v) ]

-- A request that has passed every guard.
pub record AuthorizeRequest : Type 0 where
  pub form : Form
  pub client : ProtocolClient
  pub redirect_uri : String
  pub scopes : List String
  pub max_age : Option ℕ
