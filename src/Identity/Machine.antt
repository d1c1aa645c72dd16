-- ===== src/Identity/Machine.antt =====
-- The store as a machine: each write of the interface Tx of identity/store.go is a step.
use opened_connect_server.Prelude.{◌==◌, Option-cases, String, inl, inr}
use opened_connect_server.Table.{get}
use opened_connect_server.Clock.{Time}
use opened_connect_server.Identity.Records.{
  User, Session, AppSession, LogoutDelivery, LogoutInteraction, LogoutOperation,
}
use opened_connect_server.Identity.Grants.{
  OauthAccess, AuthzTransaction, AuthorizationCode, AccessToken, Consent, OauthPolicy,
  RefreshFamily, RefreshToken, InitialAccessToken, RegistrationAccessToken,
}
use opened_connect_server.Identity.Metadata.{ClientRecord}
use opened_connect_server.Identity.State.{
  fresh_file_state, save_app_session, save_logout_delivery, save_logout_interaction, save_session,
  remove_session_credential, save_authz_transaction, delete_authz_transaction,
  save_authorization_code, save_access_token, save_refresh_family, save_refresh_token,
  save_initial_token, save_registration_token, delete_registration_token, FileState,
}
use opened_connect_server.Identity.Revocation.{
  revoke_access_token, revoke_refresh_family, revoke_access_tokens_for_user,
  revoke_access_tokens_for_client, revoke_access_tokens_for_code,
}
use opened_connect_server.Identity.Endings.{
  end_app_session, end_session, delete_session, delete_user_sessions,
}
use opened_connect_server.Identity.Mutations.{
  store_user, delete_user, save_client, delete_client, save_oauth_policy, save_oauth_access,
  save_consent, save_logout_operation,
}
use opened_connect_server.Identity.Pruning.{prune_sessions, prune_logout_state, prune_oidc_state}
use opened_connect_server.Identity.WellFormed.{
  IsWellFormed-fresh, IsWellFormed, save_app_session-IsWellFormed, save_session-IsWellFormed,
  save_logout_delivery-IsWellFormed, save_logout_interaction-IsWellFormed,
  save_authz_transaction-IsWellFormed, save_authorization_code-IsWellFormed,
  save_access_token-IsWellFormed, save_refresh_family-IsWellFormed, save_refresh_token-IsWellFormed,
  save_initial_token-IsWellFormed, save_registration_token-IsWellFormed,
  remove_session_credential-IsWellFormed, delete_authz_transaction-IsWellFormed,
  delete_registration_token-IsWellFormed, revoke_access_token-IsWellFormed,
  revoke_refresh_family-IsWellFormed, end_app_session-IsWellFormed, end_session-IsWellFormed,
  revoke_for_holders-IsWellFormed, delete_user_sessions-IsWellFormed, store_user-IsWellFormed,
  delete_user-IsWellFormed, save_client-IsWellFormed, delete_client-IsWellFormed,
  save_consent-IsWellFormed, save_logout_operation-IsWellFormed, save_oauth_policy-IsWellFormed,
  save_oauth_access-IsWellFormed, prune_sessions-IsWellFormed, prune_logout_state-IsWellFormed,
  prune_oidc_state-IsWellFormed,
}

pub data Step (s : FileState) : FileState → Type 0 where
  app_session : (v : AppSession) → Step s (save_app_session s v)
  operation : (v : LogoutOperation) → Step s (save_logout_operation v s)
  delivery : (v : LogoutDelivery) → Step s (save_logout_delivery s v)
  interaction : (v : LogoutInteraction) → Step s (save_logout_interaction s v)
  session_end : (id actor reason : String) (now : Time) → Step s (end_session id actor reason now s)
  app_session_end :
      (id actor reason : String) (now : Time) → Step s (end_app_session id actor reason now s)
  logout_sweep : (now : Time) → Step s (prune_logout_state now s)
  credential_removal : (hash : String) → Step s (remove_session_credential s hash)
  policy : (id : String) (p : OauthPolicy) (now : Time) → Step s (save_oauth_policy id p now s)
  access : (id : String) (a : OauthAccess) (now : Time) → Step s (save_oauth_access id a now s)
  family : (f : RefreshFamily) → Step s (save_refresh_family s f)
  refresh : (t : RefreshToken) → Step s (save_refresh_token s t)
  family_end : (id : String) → Step s (revoke_refresh_family id s)
  initial : (t : InitialAccessToken) → Step s (save_initial_token s t)
  registration : (t : RegistrationAccessToken) → Step s (save_registration_token s t)
  registration_end : (id : String) → Step s (delete_registration_token s id)
  client : (c : ClientRecord) (now : Time) → Step s (save_client c now s)
  client_end : (id : String) (now : Time) → Step s (delete_client id now s)
  user : (u : User) (now : Time) → Step s (store_user u now s)
  user_end : (id : String) (now : Time) → Step s (delete_user id now s)
  session : (v : Session) → Step s (save_session s v)
  session_deletion : (hash : String) (now : Time) → Step s (delete_session hash now s)
  user_sessions_end : (id : String) (now : Time) → Step s (delete_user_sessions id now s)
  session_sweep : (now : Time) → Step s (prune_sessions now s)
  transaction : (t : AuthzTransaction) → Step s (save_authz_transaction s t)
  transaction_end : (id : String) → Step s (delete_authz_transaction s id)
  code : (c : AuthorizationCode) → Step s (save_authorization_code s c)
  token : (t : AccessToken) → Step s (save_access_token s t)
  token_end : (hash : String) → Step s (revoke_access_token hash s)
  user_revocation : (id : String) → Step s (revoke_access_tokens_for_user id s)
  client_revocation : (id : String) → Step s (revoke_access_tokens_for_client id s)
  code_revocation : (hash : String) → Step s (revoke_access_tokens_for_code hash s)
  consent : (c : Consent) (now : Time) → Step s (save_consent c now s)
  sweep : (now : Time) → Step s (prune_oidc_state now s)

-- The states that the writes of transactions lead to, from the empty store.
pub data Reachable : FileState → Type 0 where
  fresh : Reachable fresh_file_state
  after_step : {s t : FileState} → Reachable s → Step s t → Reachable t

delete_session-IsWellFormed :
    (hash : String) (now : Time) (s : FileState)
    → IsWellFormed s
    → IsWellFormed (delete_session hash now s)
unfolding delete_session
delete_session-IsWellFormed hash now s w = elim (Option-cases (get s.sessions hash)) [
  | inl gone ↦ rw (gone, delete_session) w
  | inr (v, there) ↦
      rw (there, delete_session) (end_session-IsWellFormed v.id v.user_id "sign_out" now s w)
]

pub code_revocation-IsWellFormed :
    (hash : String) (s : FileState)
    → IsWellFormed s
    → IsWellFormed (revoke_access_tokens_for_code hash s)
unfolding revoke_access_tokens_for_code
code_revocation-IsWellFormed hash s w =
    revoke_for_holders-IsWellFormed (λ a. a.code_hash == hash) (λ f. f.code_hash == hash) s w

user_revocation-IsWellFormed :
    (id : String) (s : FileState)
    → IsWellFormed s
    → IsWellFormed (revoke_access_tokens_for_user id s)
unfolding revoke_access_tokens_for_user
user_revocation-IsWellFormed id s w =
    revoke_for_holders-IsWellFormed (λ a. a.user_id == id) (λ f. f.user_id == id) s w

client_revocation-IsWellFormed :
    (id : String) (s : FileState)
    → IsWellFormed s
    → IsWellFormed (revoke_access_tokens_for_client id s)
unfolding revoke_access_tokens_for_client
client_revocation-IsWellFormed id s w =
    revoke_for_holders-IsWellFormed (λ a. a.client_id == id) (λ f. f.client_id == id) s w

-- Every write of the transaction interface keeps the store well-formed: each map has a key at most
-- once, and each record stands under the key that it carries.
pub Step-IsWellFormed : {s t : FileState} → IsWellFormed s → Step s t → IsWellFormed t
Step-IsWellFormed {s} w (app_session v) = save_app_session-IsWellFormed w v
Step-IsWellFormed {s} w (operation v) = save_logout_operation-IsWellFormed v s w
Step-IsWellFormed {s} w (delivery v) = save_logout_delivery-IsWellFormed w v
Step-IsWellFormed {s} w (interaction v) = save_logout_interaction-IsWellFormed w v
Step-IsWellFormed {s} w (session_end id actor reason now) =
    end_session-IsWellFormed id actor reason now s w
Step-IsWellFormed {s} w (app_session_end id actor reason now) =
    end_app_session-IsWellFormed id actor reason now s w
Step-IsWellFormed {s} w (logout_sweep now) = prune_logout_state-IsWellFormed now s w
Step-IsWellFormed {s} w (credential_removal hash) = remove_session_credential-IsWellFormed w hash
Step-IsWellFormed {s} w (policy id p now) = save_oauth_policy-IsWellFormed id p now s w
Step-IsWellFormed {s} w (access id a now) = save_oauth_access-IsWellFormed id a now s w
Step-IsWellFormed {s} w (family f) = save_refresh_family-IsWellFormed w f
Step-IsWellFormed {s} w (refresh t) = save_refresh_token-IsWellFormed w t
Step-IsWellFormed {s} w (family_end id) = revoke_refresh_family-IsWellFormed id s w
Step-IsWellFormed {s} w (initial t) = save_initial_token-IsWellFormed w t
Step-IsWellFormed {s} w (registration t) = save_registration_token-IsWellFormed w t
Step-IsWellFormed {s} w (registration_end id) = delete_registration_token-IsWellFormed w id
Step-IsWellFormed {s} w (client c now) = save_client-IsWellFormed c now s w
Step-IsWellFormed {s} w (client_end id now) = delete_client-IsWellFormed id now s w
Step-IsWellFormed {s} w (user u now) = store_user-IsWellFormed u now s w
Step-IsWellFormed {s} w (user_end id now) = delete_user-IsWellFormed id now s w
Step-IsWellFormed {s} w (session v) = save_session-IsWellFormed w v
Step-IsWellFormed {s} w (session_deletion hash now) = delete_session-IsWellFormed hash now s w
Step-IsWellFormed {s} w (user_sessions_end id now) = delete_user_sessions-IsWellFormed id now s w
Step-IsWellFormed {s} w (session_sweep now) = prune_sessions-IsWellFormed now s w
Step-IsWellFormed {s} w (transaction t) = save_authz_transaction-IsWellFormed w t
Step-IsWellFormed {s} w (transaction_end id) = delete_authz_transaction-IsWellFormed w id
Step-IsWellFormed {s} w (code c) = save_authorization_code-IsWellFormed w c
Step-IsWellFormed {s} w (token t) = save_access_token-IsWellFormed w t
Step-IsWellFormed {s} w (token_end hash) = revoke_access_token-IsWellFormed hash s w
Step-IsWellFormed {s} w (user_revocation id) = user_revocation-IsWellFormed id s w
Step-IsWellFormed {s} w (client_revocation id) = client_revocation-IsWellFormed id s w
Step-IsWellFormed {s} w (code_revocation hash) = code_revocation-IsWellFormed hash s w
Step-IsWellFormed {s} w (consent c now) = save_consent-IsWellFormed c now s w
Step-IsWellFormed {s} w (sweep now) = prune_oidc_state-IsWellFormed now s w

-- Every state that writes of the transaction interface reach from the empty store is well-formed:
-- each map has a key at most once, and each record stands under the key that it carries.
pub Reachable-IsWellFormed : {s : FileState} → Reachable s → IsWellFormed s
Reachable-IsWellFormed fresh = IsWellFormed-fresh
Reachable-IsWellFormed (after_step r e) = Step-IsWellFormed (Reachable-IsWellFormed r) e
