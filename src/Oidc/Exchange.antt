-- ===== src/Oidc/Exchange.antt =====
-- The authorization_code grant: TokenHandler of oidc/token.go, and initialRefresh of refresh.go.
pub mod Cases
pub mod Writes
pub mod Sound
pub mod Given
pub mod Issues
pub mod Once
pub mod Tests
use opened_connect_server.Prelude.{
  eqb, if◌then◌else◌, ◌==◌, contains, ◌+◌, String, Bool, true, false, not, ◌&&◌, Option, none, some,
  List,
}
use opened_connect_server.Clock.{Time, is_zero, before, same_time, unix_nano}
use opened_connect_server.Errors.{
  ◌>>=◌, ◌>>◌, require, found_or, not_found, invalid_grant, signing_failed, Result, ok,
}
use opened_connect_server.Table.{values}
use opened_connect_server.Identity.Records.{User, AppSession}
use opened_connect_server.Identity.Grants.{AuthorizationCode, AccessToken, RefreshFamily}
use opened_connect_server.Identity.Metadata.{runtime_client, ClientRecord, ProtocolClient}
use opened_connect_server.Identity.State.{
  find_user, find_client, find_authorization_code, oauth_policy, save_app_session, save_session,
  save_authorization_code, save_access_token, save_refresh_family, save_refresh_token,
  session_by_id, session_active, check_session_capacity, FileState,
}
use opened_connect_server.Identity.Revocation.{revoke_access_tokens_for_code}
use opened_connect_server.Identity.Pruning.{prune_oidc_state}
use opened_connect_server.Identity.Active.{refresh_family_active}
use opened_connect_server.Oidc.Setup.{sign_id_token, find_first, drawn, Config, Crypto}
use opened_connect_server.Oidc.Pkce.{verify_pkce}

-- The calls of randomToken that an exchange may make.
pub record ExchangeDraws : Type 0 where
  pub app_session : Option String
  pub access : Option String
  pub refresh : Option String
  pub family : Option String

pub record Issued : Type 0 where
  pub access_token : String
  pub id_token : String
  pub refresh_token : String
  pub scopes : List String

pub data Outcome : Type 0 where
  replayed : Outcome
  issued : Issued → Outcome

pub record CodeRequest : Type 0 where
  pub client : ProtocolClient
  pub code : String
  pub redirect_uri : String
  pub verifier : String

-- the record is bound to the request
unfoldable pub code_bound : Crypto → CodeRequest → AuthorizationCode → Bool
code_bound k r record_ =
    not record_.revoked
    && (record_.client_id == r.client.id
        && (record_.redirect_uri == r.redirect_uri
            && verify_pkce k r.verifier record_.code_challenge))

-- the client stands as it did when it was authenticated and when the code was given
unfoldable pub client_unchanged : ProtocolClient → AuthorizationCode → ClientRecord → Bool
client_unchanged client record_ current =
    (runtime_client current).compatible
    && (eqb (unix_nano current.updated_at) client.updated_at
        && same_time current.updated_at record_.client_updated_at)

abbrev pub live_app : String → String → AppSession → Bool
live_app op_id client_id a =
    a.op_session_id == op_id && (a.client_id == client_id && is_zero a.ended_at)

-- the loop over tx.ListAppSessions: the participation found, and its last use recorded
unfoldable pub touch_app : String → String → Time → FileState → String × FileState
touch_app op_id client_id now s =
    elim (find_first (live_app op_id client_id) (values s.app_sessions)) [
      | none ↦ ("", s)
      | some a ↦ (a.id, save_app_session s (record a { last_seen_at = now }))
    ]

-- the participation of the client in the provider session: the one that stands, or a new one
unfoldable pub join_app_session :
    Option String → ProtocolClient → User → String → Time → FileState → Result (String × FileState)
unfolding touch_app
join_app_session draw client user op_id now s =
    let (sid, t) = touch_app op_id client.id now s in
    if sid == ""
    then (do
      check_session_capacity t "app"
      fresh ← drawn draw
      ok (
        fresh,
        save_app_session t (record {
          id = fresh;
          op_session_id = op_id;
          client_id = client.id;
          user_id = user.id;
          subject = user.sub;
          created_at = now;
          last_seen_at = now;
          ended_at = 0;
          end_reason = "";
        }),
      ))
    else ok (sid, t)

-- the provider session's last use
unfoldable pub touch_session : String → Time → FileState → FileState
touch_session op_id now s = elim (session_by_id s op_id) [
  | none ↦ s
  | some op ↦ save_session s (record op { last_seen_at = now })
]

-- the part of the handler under `if record.OPSessionID != ""`
unfoldable pub attach_session :
    Option String
    → ProtocolClient
    → User
    → AuthorizationCode
    → Time
    → FileState
    → Result (String × AuthorizationCode × FileState)
unfolding touch_session
attach_session draw client user record_ now s =
    if record_.op_session_id == "" then ok ("", record_, s) else (do
      require (session_active s record_.op_session_id now) invalid_grant
      joined ← join_app_session draw client user record_.op_session_id now s
      ok (
        joined.0,
        record record_ { app_session_id = joined.0 },
        touch_session record_.op_session_id now joined.1,
      ))

-- func initialRefresh: the raw token, the family, and the state with both stored
unfoldable pub initial_refresh :
    Crypto
    → Config
    → ExchangeDraws
    → String
    → AuthorizationCode
    → Time
    → FileState
    → Result (String × RefreshFamily × FileState)
initial_refresh k cfg draws client_id code now s = do
  let p = oauth_policy s client_id
  c ← found_or (find_client s client_id) not_found
  require
      (cfg.refresh_tokens_enabled
        && (p.refresh_enabled
            && (contains p.grants "refresh_token"
                && contains (runtime_client c).grant_types "refresh_token")))
      invalid_grant
  raw ← drawn draws.refresh
  id ← drawn draws.family
  let f : RefreshFamily = record {
    app_session_id = code.app_session_id;
    op_session_id = code.op_session_id;
    id = id;
    client_id = client_id;
    user_id = code.user_id;
    code_hash = code.hash;
    audience = "userinfo";
    scopes = code.scopes;
    auth_time = code.auth_time;
    client_revision = unix_nano c.updated_at;
    created_at = now;
    absolute_expiry = now + cfg.refresh_max_ttl;
    idle_expiry = now + cfg.refresh_inactivity_ttl;
    retain_until = now + (cfg.refresh_max_ttl + cfg.access_token_ttl);
    revoked = false;
  }
  require (refresh_family_active s f now) invalid_grant
  ok (
    raw,
    f,
    save_refresh_token (save_refresh_family s f) (record {
      hash = k.hash_token raw;
      family_id = id;
      scopes = code.scopes;
      issued_at = now;
      consumed = false;
    }),
  )

-- the refresh token, where `offline_access` was granted; "" for the token and the family where not
unfoldable pub offline_part :
    Crypto
    → Config
    → ExchangeDraws
    → String
    → AuthorizationCode
    → Time
    → FileState
    → Result (String × String × AuthorizationCode × FileState)
offline_part k cfg draws client_id record_ now s =
    if contains record_.scopes "offline_access"
    then (do
      given ← initial_refresh k cfg draws client_id record_ now s
      ok (given.0, given.1.id, record record_ { retain_until = given.1.retain_until }, given.2))
    else ok ("", "", record_, s)

-- the access token of an exchange
unfoldable pub code_access_token :
    Crypto
    → Config
    → CodeRequest
    → AuthorizationCode
    → User
    → String
    → String
    → String
    → Time
    → AccessToken
code_access_token k cfg r record_ user access sid family_id now = record {
  op_session_id = record_.op_session_id;
  app_session_id = sid;
  grant_type = "authorization_code";
  subject_kind = "user";
  family_id = family_id;
  original_grant = "";
  id_token_expires_at = now + cfg.id_token_ttl;
  hash = k.hash_token access;
  client_id = r.client.id;
  user_id = user.id;
  audience = "userinfo";
  scopes = record_.scopes;
  code_hash = k.hash_token r.code;
  issued_at = now;
  expires_at = now + cfg.access_token_ttl;
  revoked = false;
}

-- `record.Consumed = true; record.RetainUntil = now.Add(s.Config.AccessTokenTTL)`
abbrev pub consumed_code : Config → Time → AuthorizationCode → AuthorizationCode
consumed_code cfg now c = record c { consumed = true; retain_until = now + cfg.access_token_ttl }

-- the writes of a first exchange
unfoldable pub issue_code_tokens :
    Crypto
    → Config
    → ExchangeDraws
    → CodeRequest
    → AuthorizationCode
    → User
    → Time
    → FileState
    → Result (Outcome × FileState)
issue_code_tokens k cfg draws r record_ user now s = do
  attached ← attach_session draws.app_session r.client user record_ now s
  access ← drawn draws.access
  id_token ←
      found_or
        (sign_id_token k cfg r.client user.sub record_.nonce record_.auth_time now attached.0)
        signing_failed
  part ← offline_part k cfg draws r.client.id (consumed_code cfg now attached.1) now attached.2
  ok (
    issued (record {
      access_token = access;
      id_token = id_token;
      refresh_token = part.0;
      scopes = record_.scopes;
    }),
    prune_oidc_state now (
        save_access_token (save_authorization_code part.3 part.2)
          (code_access_token k cfg r record_ user access attached.0 part.1 now)),
  )

-- the callback of TokenHandler after the test for reuse
unfoldable pub redeem :
    Crypto
    → Config
    → ExchangeDraws
    → CodeRequest
    → AuthorizationCode
    → Time
    → FileState
    → Result (Outcome × FileState)
redeem k cfg draws r record_ now s = do
  require (before now record_.expires_at) invalid_grant
  user ← found_or (find_user s record_.user_id) invalid_grant
  require user.active invalid_grant
  issue_code_tokens k cfg draws r record_ user now s

-- ... and from that test on
unfoldable pub redeem_or_revoke :
    Crypto
    → Config
    → ExchangeDraws
    → CodeRequest
    → AuthorizationCode
    → Time
    → FileState
    → Result (Outcome × FileState)
redeem_or_revoke k cfg draws r record_ now s =
    if record_.consumed
    then ok (replayed, revoke_access_tokens_for_code (k.hash_token r.code) s)
    else redeem k cfg draws r record_ now s

-- the callback of TokenHandler
unfoldable pub exchange_code :
    Crypto → Config → ExchangeDraws → CodeRequest → Time → FileState → Result (Outcome × FileState)
exchange_code k cfg draws r now s = do
  record_ ← found_or (find_authorization_code s (k.hash_token r.code)) invalid_grant
  require (code_bound k r record_) invalid_grant
  current ← found_or (find_client s r.client.id) invalid_grant
  require (client_unchanged r.client record_ current) invalid_grant
  redeem_or_revoke k cfg draws r record_ now s
