-- ===== src/Identity/Service/Sessions.antt =====
-- EndSessionsResult and endSessions of identity/sessions.go: users and administrators end sessions.
-- The clock is read once here.
pub mod Allowed
pub mod Effect
use opened_connect_server.Oidc.Setup.{find_first}
use opened_connect_server.Table.{values}
use opened_connect_server.Identity.Endings.{end_app_session, end_session}
use opened_connect_server.Identity.Revocation.{
  revoke_access_token, revoke_refresh_family, revoke_access_tokens_for_user,
}
use opened_connect_server.Identity.Mutations.{save_consent, save_logout_operation}
use opened_connect_server.Identity.State.{
  find_user, find_app_session, find_consent, save_logout_delivery, save_authz_transaction,
  save_authorization_code, session_by_id, write, FileState,
}
use opened_connect_server.Identity.Grants.{RefreshFamily}
use opened_connect_server.Clock.{Time, hour}
use opened_connect_server.Prelude.{
  leb, if◌then◌else◌, ◌==◌, ◌!=◌, for_each, ◌-◌, ◌*◌, String, Bool, true, ◌&&◌, ◌||◌, Option, none,
  some, List, [], ◌∷◌,
}
use opened_connect_server.Identity.Records.{User, Session, LogoutDelivery}
use opened_connect_server.Errors.{
  require, ◌>>=◌, ◌>>◌, found_or, not_found, unauthorized, forbidden, credentials, random_failed,
  validation, Result, ok, err,
}
use opened_connect_server.Identity.Service.{Outside}
use opened_connect_server.Identity.Principal.{principal, Principal}

pub record SessionLogoutRequest : Type 0 where
  pub scope : String
  pub revoke_offline : Bool
  pub password : String

-- who asks for what: the call's kind, the identifier, and whether it comes by the administrators' way
pub record EndCall : Type 0 where
  pub kind : String
  pub id : String
  pub admin : Bool
  pub request : SessionLogoutRequest

-- what a case of the switch leaves: the state and the targets
abbrev pub Ended : Type 0
Ended = Result (List String × FileState)

-- `for _, x := range xs { if hit(x) { body(x) } }`
unfoldable pub each_where {ℓ} :
    {A : Type ℓ} → (A → Bool) → (A → FileState → FileState) → List A → FileState → FileState
each_where hit body xs s = for_each xs (λ x t. if hit x then body x t else t) s

-- the values of those that pass a test
unfoldable pub names_where {ℓ} : {A : Type ℓ} → (A → Bool) → (A → String) → List A → List String
names_where hit name [] = []
names_where hit name (x ∷ xs) =
    let rest = names_where hit name xs in if hit x then name x ∷ rest else rest

unfoldable pub revoke_offline_where : Bool → (RefreshFamily → Bool) → FileState → FileState
revoke_offline_where asked hit s =
    if asked
    then each_where hit (λ f t. revoke_refresh_family f.id t) (values s.refresh_families) s
    else s

unfoldable pub revoke_user_tokens : Bool → String → FileState → FileState
revoke_user_tokens asked user_id s = if asked then revoke_access_tokens_for_user user_id s else s

-- the sessions that pass a test, and what is given offline for their user
unfoldable pub end_listed :
    (Session → Bool) → String → String → String → Bool → Time → FileState → List String × FileState
end_listed hit user_id actor reason offline now s = (
  names_where hit (λ v. v.id) (values s.sessions),
  revoke_user_tokens offline user_id
      (each_where hit (λ v t. end_session v.id actor reason now t) (values s.sessions) s),
)

abbrev pub end_reason_of : Bool → String
end_reason_of admin = if admin then "admin_logout" else "user_logout"

-- case "op-sessions", with an identifier and without
unfoldable pub end_op_session : Principal → EndCall → Time → FileState → Ended
end_op_session p c now s = do
  v ← found_or (session_by_id s c.id) not_found
  require (c.admin || v.user_id == p.user.id) not_found
  ok (
    c.id ∷ [],
    revoke_offline_where c.request.revoke_offline (λ f. f.op_session_id == c.id)
        (end_session c.id p.user.id (end_reason_of c.admin) now s),
  )

unfoldable pub end_own_sessions : Principal → EndCall → Time → FileState → Ended
end_own_sessions p c now s = do
  require (c.request.scope == "all" || c.request.scope == "other")
      (validation "Scope must be all or other.")
  ok (
      end_listed
        (λ v. v.user_id == p.user.id && (c.request.scope != "other" || v.id != p.session.id))
        p.user.id p.user.id (end_reason_of c.admin) c.request.revoke_offline now s)

-- case "app-sessions"
unfoldable pub end_named_app : Principal → EndCall → Time → FileState → Ended
end_named_app p c now s = do
  a ← found_or (find_app_session s c.id) not_found
  require (c.admin || a.user_id == p.user.id) not_found
  ok (
    c.id ∷ [],
    revoke_offline_where c.request.revoke_offline (λ f. f.app_session_id == c.id)
        (end_app_session c.id p.user.id (end_reason_of c.admin) now s),
  )

-- case "user-sessions"
unfoldable pub end_user_sessions : Principal → EndCall → Time → FileState → Ended
end_user_sessions p c now s = do
  require c.admin forbidden
  u ← found_or (find_user s c.id) not_found
  ok (
      end_listed (λ v. v.user_id == c.id) c.id p.user.id (end_reason_of c.admin)
        c.request.revoke_offline now s)

-- the loops of case "client-access", each over the values that it finds
unfoldable pub revoke_client_access : String → String → Time → FileState → FileState
revoke_client_access user_id client_id now s0 =
    let s1 =
      each_where (λ v. v.user_id == user_id && v.client_id == client_id)
        (λ v t. save_authz_transaction t (record v { revoked = true }))
        (values s0.authz_transactions) s0 in
    let s2 =
      each_where (λ v. v.user_id == user_id && v.client_id == client_id)
        (λ v t. save_authorization_code t (record v { revoked = true }))
        (values s1.authorization_codes) s1 in
    let s3 =
      each_where (λ v. v.user_id == user_id && v.client_id == client_id)
        (λ v t. end_app_session v.id user_id "access_revoked" now t) (values s2.app_sessions) s2 in
    each_where (λ v. v.user_id == user_id && v.client_id == client_id)
      (λ v t. revoke_access_token v.hash t) (values s3.access_tokens) s3

-- case "client-access"; no loop before that over the app sessions changes which there are
unfoldable pub end_client_access : Principal → EndCall → Time → FileState → Ended
end_client_access p c now s = do
  consent ← found_or (find_consent s p.user.id c.id) not_found
  let t = save_consent (record consent { revoked = true }) now s
  ok (
    names_where (λ a. a.user_id == p.user.id && a.client_id == c.id) (λ a. a.id)
        (values t.app_sessions),
    revoke_client_access p.user.id c.id now t,
  )

abbrev pub is_retryable : String → LogoutDelivery → Bool
is_retryable id d = d.id == id && (d.channel == "backchannel" && d.status == "failed")

-- case "logout-events"
unfoldable pub retry_delivery : EndCall → Time → FileState → Ended
retry_delivery c now s = do
  require c.admin forbidden
  d ← found_or (find_first (is_retryable c.id) (values s.logout_deliveries)) not_found
  require (leb (now - d.created_at) (24 * hour)) (validation "The retry window has ended.")
  ok (
    d.app_session_id ∷ [],
    save_logout_delivery s (record d { status = "pending"; next_attempt = now }),
  )

-- the switch
unfoldable pub end_targets : Principal → EndCall → Time → FileState → Ended
end_targets p c now s =
    if c.kind == "op-sessions"
    then if c.id != "" then end_op_session p c now s else end_own_sessions p c now s
    else if c.kind == "app-sessions"
    then end_named_app p c now s
    else if c.kind == "user-sessions"
    then end_user_sessions p c now s
    else if c.kind == "client-access"
    then end_client_access p c now s
    else if c.kind == "logout-events"
    then retry_delivery c now s
    else err not_found

-- the calls that ask for the password again
unfoldable pub needs_password : EndCall → Bool
needs_password c =
    c.kind == "client-access"
    || (c.kind == "user-sessions"
        || (c.request.scope == "all" || (c.request.scope == "other" || c.request.revoke_offline)))

-- the Read that finds the user's hash, and the comparison
unfoldable pub compare_password : Outside → String → EndCall → Time → FileState → Result String
compare_password o hash c now s = do
  p ← principal hash c.admin now s
  u ← found_or (find_user s p.user.id) not_found
  require (o.verify u.password_hash c.request.password) credentials
  ok u.password_hash

-- the hash of the password that was given, empty where none is asked for
unfoldable pub checked_password : Outside → String → EndCall → Time → FileState → Result String
checked_password o hash c now s =
    if needs_password c then compare_password o hash c now s else ok ""

-- the password that was compared is still the user's
unfoldable pub still_checked : String → Option User → Bool
still_checked checked none = checked == ""
still_checked checked (some u) = checked == "" || u.password_hash == checked

-- the callback of endSessions
unfoldable pub end_sessions_transaction :
    String → EndCall → String → String → Time → FileState → Result (Unit {0} × FileState)
end_sessions_transaction hash c checked operation now s = do
  p ← principal hash c.admin now s
  require (still_checked checked (find_user s p.user.id)) unauthorized
  (targets, t) ← end_targets p c now s
  ok (
    tt,
    save_logout_operation
        (record {
          id = operation;
          actor = p.user.id;
          kind = c.kind;
          created_at = now;
          targets = targets;
        })
        t,
  )

-- func endSessions; the password is compared in an earlier state
unfoldable pub end_sessions :
    Outside
    → String
    → EndCall
    → String
    → Time
    → FileState
    → FileState
    → Result (Unit {0}) × FileState
end_sessions o hash c operation now earlier s = elim (checked_password o hash c now earlier) [
  | err e ↦ (err e, s)
  | ok checked ↦ write s (end_sessions_transaction hash c checked operation now)
]

-- func EndSessionsResult; `operation` is the outcome of randomToken
unfoldable pub end_sessions_result :
    Outside
    → String
    → EndCall
    → Option String
    → Time
    → FileState
    → FileState
    → Result String × FileState
end_sessions_result o hash c none now earlier s = (err random_failed, s)
end_sessions_result o hash c (some operation) now earlier s =
    let y = end_sessions o hash c operation now earlier s in
    (elim y.0 [ ok u ↦ ok operation | err e ↦ err e ], y.1)
