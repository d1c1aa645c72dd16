-- ===== src/Identity/Endings.antt =====
-- How sessions end: identity/sessions.go, and the security mutations of identity/file_store.go that
-- end them. A call reads the clock once here: `now` stands for each `time.Now()` that it makes.
pub mod Steady
pub mod Withdrawn
pub mod Apps
pub mod Ended
pub mod Closed
use opened_connect_server.Prelude.{
  if◌then◌else◌, ◌==◌, ◌!=◌, ◌<>◌, for_each, String, Bool, true, ◌&&◌, none, some, [],
}
use opened_connect_server.Clock.{Time, is_zero}
use opened_connect_server.Table.{get, put, map_values, keep, values}
use opened_connect_server.Identity.Records.{Session, AppSession, LogoutDelivery}
use opened_connect_server.Identity.Grants.{AuthzTransaction, AuthorizationCode}
use opened_connect_server.Identity.Metadata.{ClientMetadata, text}
use opened_connect_server.Identity.State.{save_logout_delivery, FileState}
use opened_connect_server.Identity.Revocation.{
  revoke_tokens_where, revoke_access_tokens_for_user, revoke_access_tokens_for_client,
}

-- `c.Revoked = true` for the codes that pass a test
unfoldable pub revoke_codes_where : (AuthorizationCode → Bool) → FileState → FileState
revoke_codes_where hit s = record s {
  authorization_codes =
      map_values (λ c. if hit c then record c { revoked = true } else c) s.authorization_codes;
}

-- `t.Revoked = true` for the transactions that pass a test
unfoldable pub revoke_transactions_where : (AuthzTransaction → Bool) → FileState → FileState
revoke_transactions_where hit s = record s {
  authz_transactions =
      map_values (λ t. if hit t then record t { revoked = true } else t) s.authz_transactions;
}

-- s.ClientsMap[id].Metadata, nil for a client that is gone
abbrev pub metadata_of : FileState → String → ClientMetadata
metadata_of s id = elim (get s.clients_map id) [ none ↦ [] | some c ↦ c.metadata ]

abbrev pub delivery_of : AppSession → String → String → Time → LogoutDelivery
delivery_of a actor reason now = record {
  history = [];
  id = "";
  op_session_id = a.op_session_id;
  app_session_id = a.id;
  client_id = a.client_id;
  user_id = a.user_id;
  subject = "";
  actor = actor;
  reason = reason;
  channel = "none";
  status = "unsupported";
  endpoint = "";
  created_at = now;
  updated_at = now;
  next_attempt = 0;
  lease_until = 0;
  lease_id = "";
  attempts = 0;
  http_status = 0;
  error_code = "";
}

-- the round of the loop over the two channels
unfoldable pub notify_channel :
    String → AppSession → String → String → Time → String → FileState → FileState
notify_channel id a actor reason now channel s =
    let endpoint = text (metadata_of s a.client_id) (channel <> "_logout_uri") in
    if endpoint == ""
    then s
    else save_logout_delivery s (record (delivery_of a actor reason now) {
      id = id <> "-" <> channel;
      app_session_id = id;
      subject = a.subject;
      channel = channel;
      status = if channel == "frontchannel" then "browser_unavailable" else "pending";
      endpoint = endpoint;
      next_attempt = now;
    })

-- the deliveries that the end of an app session asks for
unfoldable pub notify_app : String → AppSession → String → String → Time → FileState → FileState
unfolding notify_channel
notify_app id a actor reason now s =
    let m = metadata_of s a.client_id in
    if text m "backchannel_logout_uri" == "" && text m "frontchannel_logout_uri" == ""
    then save_logout_delivery s
        (record (delivery_of a actor reason now) { id = id <> "-unsupported"; app_session_id = id })
    else notify_channel id a actor reason now "frontchannel"
        (notify_channel id a actor reason now "backchannel" s)

-- `a.EndedAt = now; a.EndReason = reason`
abbrev pub close_app : String → Time → AppSession → AppSession
close_app reason now a = record a { ended_at = now; end_reason = reason }

-- the writes of EndAppSession but the deliveries
unfoldable pub end_app_grants : String → AppSession → String → Time → FileState → FileState
end_app_grants id a reason now s =
    revoke_transactions_where
      (λ t. t.op_session_id == a.op_session_id && t.client_id == a.client_id)
      (revoke_codes_where (λ c. c.op_session_id == a.op_session_id && c.client_id == a.client_id)
        (revoke_tokens_where (λ t. t.app_session_id == id && t.family_id == "")
          (record s { app_sessions = put s.app_sessions id (close_app reason now a) })))

-- func EndAppSession
unfoldable pub end_app_session : String → String → String → Time → FileState → FileState
end_app_session id actor reason now s = elim (get s.app_sessions id) [
  | none ↦ s
  | some a ↦
      if is_zero a.ended_at
      then notify_app id a actor reason now (end_app_grants id a reason now s)
      else s
]

-- `for _, a := range s.AppSessions { if hit(a) { s.EndAppSession(a.ID, actor, reason, now) } }`
unfoldable pub end_apps_where : (AppSession → Bool) → String → String → Time → FileState → FileState
end_apps_where hit actor reason now s =
    for_each (values s.app_sessions)
      (λ a t. if hit a then end_app_session a.id actor reason now t else t) s

abbrev pub close_session : String → Time → Session → Session
close_session reason now v = record v { ended_at = now; end_reason = reason; csrf = "" }

abbrev pub is_live : String → Session → Bool
is_live id v = v.id == id && is_zero v.ended_at

unfoldable pub local_delivery : String → Session → String → String → Time → LogoutDelivery
local_delivery id v actor reason now = record {
  history = [];
  id = "op-" <> id;
  op_session_id = id;
  app_session_id = "";
  client_id = "";
  user_id = v.user_id;
  subject = "";
  actor = actor;
  reason = reason;
  channel = "local";
  status = "ended";
  endpoint = "";
  created_at = now;
  updated_at = now;
  next_attempt = 0;
  lease_until = 0;
  lease_id = "";
  attempts = 0;
  http_status = 0;
  error_code = "";
}

-- one live session ends, with all that hangs on it
unfoldable pub end_one_session :
    String → String → String → Time → String × Session → FileState → FileState
unfolding local_delivery
end_one_session id actor reason now (hash, v) s =
    if is_live id v
    then revoke_codes_where (λ c. c.op_session_id == id)
        (revoke_transactions_where (λ t. t.op_session_id == id)
          (end_apps_where (λ a. a.op_session_id == id) actor reason now
            (save_logout_delivery
              (record s { sessions = put s.sessions hash (close_session reason now v) })
              (local_delivery id v actor reason now))))
    else s

-- func EndSession
unfoldable pub end_session : String → String → String → Time → FileState → FileState
end_session id actor reason now s = for_each s.sessions (end_one_session id actor reason now) s

-- `for _, v := range s.Sessions { if hit(v) { s.EndSession(v.ID, actor, reason, now) } }`
unfoldable pub end_sessions_where :
    (Session → Bool) → String → String → Time → FileState → FileState
end_sessions_where hit actor reason now s =
    for_each (values s.sessions) (λ v t. if hit v then end_session v.id actor reason now t else t) s

-- func DeleteSession
unfoldable pub delete_session : String → Time → FileState → FileState
delete_session hash now s = elim (get s.sessions hash) [
  | none ↦ s
  | some v ↦ end_session v.id v.user_id "sign_out" now s
]

-- func DeleteUserSessions
unfoldable pub delete_user_sessions : String → Time → FileState → FileState
delete_user_sessions id now s =
    let t = revoke_access_tokens_for_user id s in
    end_sessions_where (λ v. v.user_id == id) "security" "account_security_change" now
      (record t {
        authorization_codes = keep (λ c. c.user_id != id) t.authorization_codes;
        authz_transactions = keep (λ x. x.user_id != id) t.authz_transactions;
        consents = keep (λ c. c.user_id != id) t.consents;
      })

-- func invalidateClientGrants
unfoldable pub invalidate_client_grants : String → Time → FileState → FileState
invalidate_client_grants id now s =
    let t =
      revoke_access_tokens_for_client id
        (end_apps_where (λ a. a.client_id == id) "security" "client_changed" now s) in
    record t {
      authorization_codes = keep (λ c. c.client_id != id) t.authorization_codes;
      authz_transactions = keep (λ x. x.client_id != id) t.authz_transactions;
      consents = keep (λ c. c.client_id != id) t.consents;
    }
