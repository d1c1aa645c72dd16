-- ===== src/Identity/WellFormed/Saves.antt =====
-- The writes that touch one map keep the invariant.
use opened_connect_server.Prelude.{if◌then◌else◌, String, refl, Bool, true, arith}
use opened_connect_server.Table.{put-IsKeyed, map_values-IsKeyed, remove-IsKeyed}
use opened_connect_server.Identity.Records.{Session, AppSession, LogoutDelivery, LogoutInteraction}
use opened_connect_server.Identity.State.{
  save_app_session, save_logout_delivery, save_logout_interaction, save_session,
  remove_session_credential, save_authz_transaction, delete_authz_transaction,
  save_authorization_code, save_access_token, save_refresh_family, save_refresh_token,
  save_initial_token, save_registration_token, delete_registration_token, FileState,
}
use opened_connect_server.Identity.Revocation.{revoked_token, mark_tokens, revoke_tokens_where}
use opened_connect_server.Identity.Endings.{revoke_codes_where, revoke_transactions_where}
use opened_connect_server.Identity.WellFormed.Defs.{IsWellFormed}
use opened_connect_server.Identity.Grants.{
  AuthzTransaction, AuthorizationCode, AccessToken, RefreshFamily, RefreshToken, InitialAccessToken,
  RegistrationAccessToken,
}

module _ {s : FileState} (w : IsWellFormed s) where
  pub save_app_session-IsWellFormed : (v : AppSession) → IsWellFormed (save_app_session s v)
  unfolding save_app_session
  save_app_session-IsWellFormed v = assumption (put-IsKeyed s.app_sessions w.apps v.id v refl)

  pub save_session-IsWellFormed : (v : Session) → IsWellFormed (save_session s v)
  unfolding save_session
  save_session-IsWellFormed v = assumption (put-IsKeyed s.sessions w.session_keys v.hash v refl)

  pub save_logout_delivery-IsWellFormed :
      (v : LogoutDelivery) → IsWellFormed (save_logout_delivery s v)
  unfolding save_logout_delivery
  save_logout_delivery-IsWellFormed v =
      assumption (put-IsKeyed s.logout_deliveries w.deliveries v.id v refl)

  pub save_logout_interaction-IsWellFormed :
      (v : LogoutInteraction) → IsWellFormed (save_logout_interaction s v)
  unfolding save_logout_interaction
  save_logout_interaction-IsWellFormed v =
      assumption (put-IsKeyed s.logout_interactions w.interactions v.id v refl)

  pub save_authz_transaction-IsWellFormed :
      (v : AuthzTransaction) → IsWellFormed (save_authz_transaction s v)
  unfolding save_authz_transaction
  save_authz_transaction-IsWellFormed v =
      assumption (put-IsKeyed s.authz_transactions w.transactions v.id v refl)

  pub save_authorization_code-IsWellFormed :
      (v : AuthorizationCode) → IsWellFormed (save_authorization_code s v)
  unfolding save_authorization_code
  save_authorization_code-IsWellFormed v =
      assumption (put-IsKeyed s.authorization_codes w.codes v.hash v refl)

  pub save_access_token-IsWellFormed : (v : AccessToken) → IsWellFormed (save_access_token s v)
  unfolding save_access_token
  save_access_token-IsWellFormed v = assumption (put-IsKeyed s.access_tokens w.tokens v.hash v refl)

  pub save_refresh_family-IsWellFormed :
      (v : RefreshFamily) → IsWellFormed (save_refresh_family s v)
  unfolding save_refresh_family
  save_refresh_family-IsWellFormed v =
      assumption (put-IsKeyed s.refresh_families w.families v.id v refl)

  pub save_refresh_token-IsWellFormed : (v : RefreshToken) → IsWellFormed (save_refresh_token s v)
  unfolding save_refresh_token
  save_refresh_token-IsWellFormed v =
      assumption (put-IsKeyed s.refresh_tokens w.refreshes v.hash v refl)

  pub save_initial_token-IsWellFormed :
      (v : InitialAccessToken) → IsWellFormed (save_initial_token s v)
  unfolding save_initial_token
  save_initial_token-IsWellFormed v =
      assumption (put-IsKeyed s.initial_token_map w.initials v.hash v refl)

  pub save_registration_token-IsWellFormed :
      (v : RegistrationAccessToken) → IsWellFormed (save_registration_token s v)
  unfolding save_registration_token
  save_registration_token-IsWellFormed v =
      assumption (put-IsKeyed s.registration_token_map w.registrations v.client_id v refl)

  pub remove_session_credential-IsWellFormed :
      (hash : String) → IsWellFormed (remove_session_credential s hash)
  unfolding remove_session_credential
  remove_session_credential-IsWellFormed hash =
      assumption (remove-IsKeyed s.sessions w.session_keys hash)

  pub delete_authz_transaction-IsWellFormed :
      (id : String) → IsWellFormed (delete_authz_transaction s id)
  unfolding delete_authz_transaction
  delete_authz_transaction-IsWellFormed id =
      assumption (remove-IsKeyed s.authz_transactions w.transactions id)

  pub delete_registration_token-IsWellFormed :
      (id : String) → IsWellFormed (delete_registration_token s id)
  unfolding delete_registration_token
  delete_registration_token-IsWellFormed id =
      assumption (remove-IsKeyed s.registration_token_map w.registrations id)

  -- marking tokens, codes and transactions
  pub revoke_tokens_where-IsWellFormed :
      (hit : AccessToken → Bool) → IsWellFormed (revoke_tokens_where hit s)
  unfolding mark_tokens
  revoke_tokens_where-IsWellFormed hit = assumption (
      map_values-IsKeyed s.access_tokens w.tokens (λ t. if hit t then revoked_token t else t)
        (λ t. ground arith))

  pub revoke_codes_where-IsWellFormed :
      (hit : AuthorizationCode → Bool) → IsWellFormed (revoke_codes_where hit s)
  unfolding revoke_codes_where
  revoke_codes_where-IsWellFormed hit = assumption (
      map_values-IsKeyed s.authorization_codes w.codes
        (λ c. if hit c then record c { revoked = true } else c) (λ t. ground arith))

  pub revoke_transactions_where-IsWellFormed :
      (hit : AuthzTransaction → Bool) → IsWellFormed (revoke_transactions_where hit s)
  unfolding revoke_transactions_where
  revoke_transactions_where-IsWellFormed hit = assumption (
      map_values-IsKeyed s.authz_transactions w.transactions
        (λ c. if hit c then record c { revoked = true } else c) (λ t. ground arith))
