-- ===== src/Oidc/Inspect.antt =====
-- Revocation, introspection and UserInfo: RevokeHandler and IntrospectHandler of oidc/oauth.go, and
-- UserInfoHandler of oidc/userinfo.go.
pub mod Sound
pub mod Revoked
pub mod Introspected
use opened_connect_server.Prelude.{
  eqb, if◌then◌else◌, ◌==◌, ◌!=◌, ◌<>◌, contains, ℕ, String, not, ◌&&◌, ◌||◌, Option, none, some,
}
use opened_connect_server.Clock.{Time, unix, unix_nano}
use opened_connect_server.Errors.{
  require, ◌>>=◌, ◌>>◌, found_or, not_found, oauth_failure, Result, ok,
}
use opened_connect_server.Identity.Records.{Profile}
use opened_connect_server.Identity.Grants.{AccessToken, OauthPolicy, RefreshFamily, RefreshToken}
use opened_connect_server.Identity.Metadata.{ProtocolClient}
use opened_connect_server.Identity.State.{
  find_user, find_client, find_access_token, find_refresh_family, find_refresh_token, oauth_policy,
  FileState,
}
use opened_connect_server.Identity.Revocation.{revoke_access_token, revoke_refresh_family}
use opened_connect_server.Identity.Active.{access_token_active, refresh_family_active}
use opened_connect_server.Oidc.Texts.{join_texts}
use opened_connect_server.Oidc.Setup.{Form, form_get, min_time, Config, Crypto}

-- a refresh token is revoked with its family, by the client that holds it
unfoldable pub revoke_refresh : ProtocolClient → String → FileState → FileState
revoke_refresh c hash s = elim (find_refresh_token s hash) [
  | none ↦ s
  | some rt ↦ elim (find_refresh_family s rt.family_id) [
    | none ↦ s
    | some f ↦ if f.client_id == c.id then revoke_refresh_family f.id s else s
  ]
]

-- what RevokeHandler does with the presented token
unfoldable pub revoke_presented : ProtocolClient → String → FileState → FileState
unfolding revoke_refresh
revoke_presented c hash s = elim (find_access_token s hash) [
  | none ↦ revoke_refresh c hash s
  | some t ↦ if t.client_id == c.id then revoke_access_token hash s else s
]

-- the callback of RevokeHandler
unfoldable pub revoke_transaction :
    ProtocolClient → String → FileState → Result (Unit {0} × FileState)
revoke_transaction c hash s = do
  current ← found_or (find_client s c.id) not_found
  require (eqb (unix_nano current.updated_at) c.updated_at)
      (oauth_failure "invalid_client" "Client policy changed.")
  ok (tt, revoke_presented c hash s)

-- The fields of an introspection response; `inactive` has none but `active: false`.
pub record TokenInfo : Type 0 where
  pub client_id : String
  pub sub : String
  pub token_type : Option String
  pub scope : String
  pub aud : String
  pub iss : String
  pub iat : ℕ
  pub exp : ℕ

pub data Introspection : Type 0 where
  denied inactive : Introspection
  active_token : TokenInfo → Introspection

unfoldable pub access_info : Config → AccessToken → TokenInfo
access_info cfg t = record {
  client_id = t.client_id;
  sub = if t.subject_kind == "client" then "client:" <> t.client_id else t.user_id;
  token_type = some "Bearer";
  scope = join_texts t.scopes " ";
  aud = t.audience;
  iss = cfg.issuer;
  iat = unix t.issued_at;
  exp = unix t.expires_at;
}

unfoldable pub refresh_info : Config → RefreshToken → RefreshFamily → TokenInfo
refresh_info cfg rt f = record {
  client_id = f.client_id;
  sub = f.user_id;
  token_type = none;
  scope = join_texts rt.scopes " ";
  aud = f.audience;
  iss = cfg.issuer;
  iat = unix rt.issued_at;
  exp = unix (min_time f.absolute_expiry f.idle_expiry);
}

unfoldable pub inspect_refresh :
    Config → OauthPolicy → ProtocolClient → String → Time → FileState → Introspection
unfolding refresh_info
inspect_refresh cfg p c hash now s = elim (find_refresh_token s hash) [
  | none ↦ inactive
  | some rt ↦ elim (find_refresh_family s rt.family_id) [
    | none ↦ inactive
    | some f ↦
        if cfg.refresh_tokens_enabled
          && (p.refresh_inspection
              && (contains p.introspection_audiences f.audience
                  && (f.client_id == c.id && (not rt.consumed && refresh_family_active s f now))))
        then active_token (refresh_info cfg rt f)
        else inactive
  ]
]

unfoldable pub inspect_access :
    Config → OauthPolicy → AccessToken → Time → FileState → Introspection
unfolding access_info
inspect_access cfg p t now s =
    if access_token_active s t now cfg.resources && contains p.introspection_audiences t.audience
    then active_token (access_info cfg t)
    else inactive

-- the callback of IntrospectHandler
unfoldable pub introspect :
    Crypto → Config → Form → ProtocolClient → Time → FileState → Result Introspection
unfolding inspect_refresh inspect_access
introspect k cfg form c now s = do
  current ← found_or (find_client s c.id) not_found
  let p = oauth_policy s c.id
  let hash = k.hash_token (form_get form "token")
  ok (
      if not (eqb (unix_nano current.updated_at) c.updated_at)
        || (c.token_endpoint_auth_method == "none" || not p.introspection_enabled)
      then denied
      else elim (find_access_token s hash) [
        | none ↦ inspect_refresh cfg p c hash now s
        | some t ↦ inspect_access cfg p t now s
      ])

-- the callback of UserInfoHandler: the token and the profile that it discloses, if it is accepted
unfoldable pub user_info :
    Crypto → Config → String → Time → FileState → Option (AccessToken × Profile)
user_info k cfg token now s = elim (find_access_token s (k.hash_token token)) [
  | none ↦ none
  | some rec ↦
      if access_token_active s rec now cfg.resources
        && (rec.audience == "userinfo" && (rec.user_id != "" && contains rec.scopes "openid"))
      then elim (find_user s rec.user_id) [
        | none ↦ none
        | some user ↦ if user.active then some (rec, user.profile) else none
      ]
      else none
]
