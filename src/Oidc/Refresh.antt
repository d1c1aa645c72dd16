-- ===== src/Oidc/Refresh.antt =====
-- The refresh_token grant: refreshToken of oidc/refresh.go.
pub mod Sound
pub mod Once
pub mod Answers
pub mod Tests
use opened_connect_server.Prelude.{
  eqb, if◌then◌else◌, ◌==◌, ◌!=◌, is_empty, ◌+◌, ◌/◌, String, Bool, true, false, not, ◌&&◌, Option,
  List,
}
use opened_connect_server.Clock.{Time, second, unix_nano}
use opened_connect_server.Errors.{
  ◌>>=◌, ◌>>◌, require, found_or, Error, not_found, oauth_failure, Result, ok, err,
}
use opened_connect_server.Identity.Grants.{RefreshFamily, RefreshToken}
use opened_connect_server.Identity.Metadata.{ProtocolClient}
use opened_connect_server.Identity.State.{
  find_client, find_refresh_family, find_refresh_token, save_access_token, save_refresh_family,
  save_refresh_token, write, FileState,
}
use opened_connect_server.Identity.Revocation.{revoke_refresh_family}
use opened_connect_server.Identity.Pruning.{prune_oidc_state}
use opened_connect_server.Identity.Active.{scope_subset, refresh_family_active}
use opened_connect_server.Oidc.Texts.{fields, join_texts}
use opened_connect_server.Oidc.Setup.{
  Form, form_get, form_has, token_failure, drawn, min_time, Config, Crypto, TokenResponse, Response,
  oauth_error, tokens,
}

-- The calls of randomToken of a rotation.
pub record RotationDraws : Type 0 where
  pub access : Option String
  pub next : Option String

abbrev pub invalid_refresh : Error
invalid_refresh =
    oauth_failure "invalid_grant" "The refresh token is invalid, expired, or already used."

pub data Rotation : Type 0 where
  reuse_detected : Rotation
  rotated : TokenResponse → Rotation

-- the scopes asked for, a nonempty part of those of the old token
unfoldable pub narrowed_scopes : Form → List String → Result (List String)
narrowed_scopes form old =
    if form_has form "scope"
    then (do
      let asked = fields (form_get form "scope")
      require (not (is_empty asked) && scope_subset asked old) (
          oauth_failure "invalid_scope"
            "Refresh scopes must be a nonempty subset of the current grant.")
      ok asked)
    else ok old

-- the tokens of the response
abbrev pub rotation_response : Config → List String → String → String → TokenResponse
rotation_response cfg scopes access next = record {
  access_token = access;
  token_type = "Bearer";
  expires_in = cfg.access_token_ttl / second;
  id_token = "";
  refresh_token = next;
  scope = join_texts scopes " ";
}

-- the writes of a rotation: the old token used up, the family's deadline moved, the new tokens
unfoldable pub rotation_writes :
    Crypto
    → Config
    → ProtocolClient
    → RefreshToken
    → RefreshFamily
    → List String
    → String
    → String
    → Time
    → FileState
    → FileState
rotation_writes k cfg c old f scopes access next now s =
    let used = save_refresh_token s (record old { consumed = true }) in
    let kept =
      save_refresh_family used (record f {
        idle_expiry = min_time (now + cfg.refresh_inactivity_ttl) f.absolute_expiry;
      }) in
    let renewed = save_refresh_token kept (record {
      hash = k.hash_token next;
      family_id = f.id;
      scopes = scopes;
      issued_at = now;
      consumed = false;
    }) in
    save_access_token renewed (record {
      op_session_id = f.op_session_id;
      app_session_id = f.app_session_id;
      grant_type = "refresh_token";
      subject_kind = "user";
      family_id = f.id;
      original_grant = "authorization_code";
      id_token_expires_at = 0;
      hash = k.hash_token access;
      client_id = c.id;
      user_id = f.user_id;
      audience = f.audience;
      scopes = scopes;
      code_hash = f.code_hash;
      issued_at = now;
      expires_at = now + cfg.access_token_ttl;
      revoked = false;
    })

-- the handler from the scopes on
unfoldable pub rotate :
    Crypto
    → Config
    → RotationDraws
    → Form
    → ProtocolClient
    → RefreshToken
    → RefreshFamily
    → Time
    → FileState
    → Result (Rotation × FileState)
rotate k cfg draws form c old f now s = do
  scopes ← narrowed_scopes form old.scopes
  access ← drawn draws.access
  next ← drawn draws.next
  ok (
    rotated (rotation_response cfg scopes access next),
    prune_oidc_state now (rotation_writes k cfg c old f scopes access next now s),
  )

abbrev pub asks_other_resource : Form → RefreshFamily → Bool
asks_other_resource form f = form_has form "resource" && form_get form "resource" != f.audience

-- the callback of refreshToken
unfoldable pub refresh_transaction :
    Crypto
    → Config
    → RotationDraws
    → Form
    → ProtocolClient
    → Time
    → FileState
    → Result (Rotation × FileState)
refresh_transaction k cfg draws form c now s = do
  old ←
      found_or (find_refresh_token s (k.hash_token (form_get form "refresh_token"))) invalid_refresh
  f ← found_or (find_refresh_family s old.family_id) invalid_refresh
  require (f.client_id == c.id) invalid_refresh
  current ← found_or (find_client s c.id) not_found
  require (eqb (unix_nano current.updated_at) c.updated_at) invalid_refresh
  if old.consumed then ok (reuse_detected, revoke_refresh_family f.id s) else (do
    require (refresh_family_active s f now) invalid_refresh
    require (not (asks_other_resource form f))
        (oauth_failure "invalid_target" "Refresh cannot change the resource.")
    rotate k cfg draws form c old f now s)

unfoldable pub respond_rotation : Result Rotation → Response
respond_rotation (ok reuse_detected) =
    oauth_error 400 "invalid_grant" "Refresh token reuse detected; the grant has been revoked."
respond_rotation (ok (rotated response)) = tokens response
respond_rotation (err e) = token_failure e

-- func refreshToken
unfoldable pub refresh_token_grant :
    Crypto
    → Config
    → RotationDraws
    → Form
    → ProtocolClient
    → Time
    → FileState
    → Response × FileState
unfolding respond_rotation
refresh_token_grant k cfg draws form c now s =
    if form_get form "refresh_token" == ""
    then (oauth_error 400 "invalid_request" "refresh_token is required.", s)
    else let (r, t) = write s (refresh_transaction k cfg draws form c now) in
      (respond_rotation r, t)
