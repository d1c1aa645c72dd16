-- ===== src/Oidc/Resource.antt =====
-- The client_credentials and password grants: resourceGrant and issueResourceToken of oidc/oauth.go,
-- and the scope lists of identity/oauth.go.
pub mod Sound
use Prim.Native.String.{len}
use opened_connect_server.Prelude.{
  ltb, leb, eqb, if◌then◌else◌, ◌==◌, ◌!=◌, length, is_empty, all, contains, ℕ, ◌+◌, String, Bool,
  true, false, not, ◌&&◌, ◌||◌, Option, none, some, List, [], ◌∷◌,
}
use opened_connect_server.Clock.{Time, unix_nano}
use opened_connect_server.Errors.{
  ◌>>=◌, ◌>>◌, require, found_or, Error, not_found, oauth_failure, Result, ok,
}
use opened_connect_server.Table.{get, get_or}
use opened_connect_server.Identity.Records.{User}
use opened_connect_server.Identity.Grants.{ResourceScopes, OauthPolicy}
use opened_connect_server.Identity.Metadata.{runtime_client, ClientRecord, ProtocolClient}
use opened_connect_server.Identity.State.{
  find_user, find_client, oauth_policy, oauth_access, save_access_token, FileState,
}
use opened_connect_server.Identity.Pruning.{prune_oidc_state}
use opened_connect_server.Identity.Active.{resource_by_audience, scope_subset}
use opened_connect_server.Oidc.Texts.{codes, fields}
use opened_connect_server.Oidc.Setup.{Form, form_get, form_has, Config, Crypto}

-- a character that a scope may have
scope_char : ℕ → Bool
scope_char c = not (ltb c 0x21 || (ltb 0x7e c || (eqb c b'"' || eqb c b'\\')))

no_repeats : List String → Bool
no_repeats [] = true
no_repeats (x ∷ xs) = not (contains xs x) && no_repeats xs

-- func validScopeList
unfoldable pub valid_scope_list : List String → Bool
unfolding scope_char no_repeats
valid_scope_list scopes =
    leb (length scopes) 100
    && (all (λ sc. sc != "" && (leb (len sc) 200 && all scope_char (codes sc))) scopes
        && no_repeats scopes)

abbrev identity_scopes : List String
identity_scopes = "openid" ∷ "offline_access" ∷ "profile" ∷ "email" ∷ "address" ∷ "phone" ∷ []

-- func ValidResourceScopes
unfoldable pub valid_resource_scopes : List String → Bool
valid_resource_scopes scopes =
    valid_scope_list scopes && all (λ sc. not (contains identity_scopes sc)) scopes

abbrev unauthorized_client : String → Error
unauthorized_client = oauth_failure "unauthorized_client"

-- the resource asked for, or the client's default
abbrev pub asked_resource : OauthPolicy → Form → String
asked_resource p form =
    let aud = form_get form "resource" in if aud == "" then p.default_resource else aud

abbrev pub asked_scopes : ResourceScopes → Form → List String
asked_scopes allowed form =
    if form_has form "scope" then fields (form_get form "scope") else allowed.default_scopes

abbrev pub invalid_target : Error
invalid_target = oauth_failure "invalid_target" "Select a permitted resource."

-- func resourceGrant
unfoldable pub resource_grant :
    Config → FileState → ClientRecord → String → Form → String → Result (String × List String)
resource_grant cfg s c grant form user_id = do
  let p = oauth_policy s c.id
  require (contains (runtime_client c).grant_types grant && contains p.grants grant)
      (unauthorized_client "Grant is not permitted for this client.")
  require (not ((runtime_client c).token_endpoint_auth_method == "none"))
      (unauthorized_client "A confidential client is required.")
  require (not (grant == "password" && not p.password_enabled))
      (unauthorized_client "Password grant is not approved.")
  require (not (form_has form "resource" && form_get form "resource" == ""))
      (oauth_failure "invalid_target" "Resource must not be empty.")
  let aud = asked_resource p form
  res ← found_or (resource_by_audience cfg.resources aud) invalid_target
  allowed ← found_or (get p.resources aud) invalid_target
  require res.enabled invalid_target
  let scopes = asked_scopes allowed form
  require
      (not (is_empty scopes)
        && (valid_resource_scopes scopes
            && (scope_subset scopes allowed.allowed && scope_subset scopes res.scopes)))
      (oauth_failure "invalid_scope" "Scopes are not permitted.")
  require
      (not (grant == "password") || scope_subset scopes (get_or (oauth_access s user_id) aud []))
      (oauth_failure "invalid_grant" "The account is not permitted to access this resource.")
  ok (aud, scopes)

-- the recheck of the account whose password was verified
account_unchanged : FileState → User → Bool
account_unchanged s user = elim (find_user s user.id) [
  | none ↦ false
  | some u ↦ u.active && (u.password_hash == user.password_hash && u.email == user.email)
]

-- the second transaction of issueResourceToken; `user` is `none` for client_credentials
unfoldable pub resource_transaction :
    Crypto
    → Config
    → String
    → String
    → Option User
    → Form
    → ProtocolClient
    → Time
    → FileState
    → Result (List String × FileState)
unfolding account_unchanged
resource_transaction k cfg raw grant user form c now s = do
  current ← found_or (find_client s c.id) not_found
  require (eqb (unix_nano current.updated_at) c.updated_at)
      (oauth_failure "invalid_grant" "Client changed during issuance.")
  require (elim user [ none ↦ true | some u ↦ account_unchanged s u ])
      (oauth_failure "invalid_grant" "Account changed during issuance.")
  let user_id : String = elim user [ none ↦ "" | some u ↦ u.id ]
  granted ← resource_grant cfg s current grant form user_id
  ok (
    granted.1,
    prune_oidc_state now (
        save_access_token s (record {
          op_session_id = "";
          app_session_id = "";
          grant_type = grant;
          subject_kind = if grant == "password" then "user" else "client";
          family_id = "";
          original_grant = "";
          id_token_expires_at = 0;
          hash = k.hash_token raw;
          client_id = c.id;
          user_id = user_id;
          audience = granted.0;
          scopes = granted.1;
          code_hash = "";
          issued_at = now;
          expires_at = now + cfg.access_token_ttl;
          revoked = false;
        })),
  )
