-- ===== src/Identity/WellFormed/Security.antt =====
-- The security mutations keep the invariant.
use opened_connect_server.Prelude.{leb, Bool-cases, Option-cases, String, refl, inl, inr, Bool}
use opened_connect_server.Clock.{Time}
use opened_connect_server.Table.{
  Table, get, put, remove, keep, size, put-IsKeyed, keep-IsKeyed, remove-IsKeyed, IsKeyed,
}
use opened_connect_server.Identity.Records.{User, LogoutOperation}
use opened_connect_server.Identity.Grants.{
  OauthAccess, AuthzTransaction, AuthorizationCode, AccessToken, Consent, OauthPolicy,
  RefreshFamily,
}
use opened_connect_server.Identity.State.{clone_user, FileState}
use opened_connect_server.Identity.Revocation.{
  revoke_tokens_where, revoke_families_where, revoke_access_tokens_for_user,
  revoke_access_tokens_for_client,
}
use opened_connect_server.Identity.Endings.{delete_user_sessions, invalidate_client_grants}
use opened_connect_server.Identity.Mutations.{
  security_change, store_user, delete_user, save_client, delete_client, save_oauth_policy,
  save_oauth_access, with_consent_id, save_consent, max_operations, save_logout_operation,
}
use opened_connect_server.Identity.WellFormed.Defs.{IsWellFormed}
use opened_connect_server.Identity.WellFormed.Saves.{
  delete_registration_token-IsWellFormed, revoke_tokens_where-IsWellFormed,
}
use opened_connect_server.Identity.WellFormed.Sweeps.{
  if-IsWellFormed, revoke_families_where-IsWellFormed, end_apps_where-IsWellFormed,
  end_sessions_where-IsWellFormed,
}
use opened_connect_server.Identity.Metadata.{ClientRecord}

pub revoke_for_holders-IsWellFormed :
    (token : AccessToken → Bool) (family : RefreshFamily → Bool) (s : FileState)
    → IsWellFormed s
    → IsWellFormed (revoke_tokens_where token (revoke_families_where family s))
revoke_for_holders-IsWellFormed token family s w =
    revoke_tokens_where-IsWellFormed (revoke_families_where-IsWellFormed family s w) token

-- deleting codes, transactions and consents
forget-IsWellFormed :
    {s : FileState}
    → IsWellFormed s
    → (p : AuthorizationCode → Bool) (q : AuthzTransaction → Bool) (r : Consent → Bool)
    → IsWellFormed (record s {
      authorization_codes = keep p s.authorization_codes;
      authz_transactions = keep q s.authz_transactions;
      consents = keep r s.consents;
    })
forget-IsWellFormed {s} w p q r = assumption (
  keep-IsKeyed s.authorization_codes w.codes p,
  keep-IsKeyed s.authz_transactions w.transactions q,
  keep-IsKeyed s.consents w.consent_keys r,
)

pub delete_user_sessions-IsWellFormed :
    (id : String) (now : Time) (s : FileState)
    → IsWellFormed s
    → IsWellFormed (delete_user_sessions id now s)
unfolding delete_user_sessions revoke_access_tokens_for_user
delete_user_sessions-IsWellFormed id now s w =
    end_sessions_where-IsWellFormed _ _ _ now _
      (forget-IsWellFormed (revoke_for_holders-IsWellFormed _ _ s w) _ _ _)

pub invalidate_client_grants-IsWellFormed :
    (id : String) (now : Time) (s : FileState)
    → IsWellFormed s
    → IsWellFormed (invalidate_client_grants id now s)
unfolding invalidate_client_grants revoke_access_tokens_for_client
invalidate_client_grants-IsWellFormed id now s w =
    forget-IsWellFormed
      (revoke_for_holders-IsWellFormed _ _ _ (end_apps_where-IsWellFormed _ _ _ now s w)) _ _ _

pub store_user-IsWellFormed :
    (user : User) (now : Time) (s : FileState)
    → IsWellFormed s
    → IsWellFormed (store_user user now s)
unfolding store_user clone_user
store_user-IsWellFormed user now s w = elim (Option-cases (get s.users_map user.id)) [
  | inl new ↦ rw (new, store_user) (stored s w)
  | inr (old, there) ↦
      rw (there, store_user)
        (stored _ (
          if-IsWellFormed (security_change old user) w
            (delete_user_sessions-IsWellFormed user.id now s w)))
]
  where
    stored :
        (u : FileState)
        → IsWellFormed u
        → IsWellFormed (record u { users_map = put u.users_map user.id (clone_user user) })
    stored u h = assumption (put-IsKeyed u.users_map h.users user.id (clone_user user) refl)

pub delete_user-IsWellFormed :
    (id : String) (now : Time) (s : FileState)
    → IsWellFormed s
    → IsWellFormed (delete_user id now s)
unfolding delete_user
delete_user-IsWellFormed id now s w =
    delete_user_sessions-IsWellFormed id now _ (assumption (remove-IsKeyed s.users_map w.users id))

pub save_client-IsWellFormed :
    (c : ClientRecord) (now : Time) (s : FileState)
    → IsWellFormed s
    → IsWellFormed (save_client c now s)
unfolding save_client
save_client-IsWellFormed c now s w = elim (Option-cases (get s.clients_map c.id)) [
  | inl new ↦ rw (new, save_client) (stored _ s w)
  | inr (old, there) ↦
      rw (there, save_client) (stored _ _ (invalidate_client_grants-IsWellFormed c.id now s w))
]
  where
    stored :
        (at : Time) (u : FileState)
        → IsWellFormed u
        → IsWellFormed
            (record u { clients_map = put u.clients_map c.id (record c { updated_at = at }) })
    stored at u h =
        assumption (put-IsKeyed u.clients_map h.clients c.id (record c { updated_at = at }) refl)

pub delete_client-IsWellFormed :
    (id : String) (now : Time) (s : FileState)
    → IsWellFormed s
    → IsWellFormed (delete_client id now s)
unfolding delete_client
delete_client-IsWellFormed id now s w = gone (
    invalidate_client_grants-IsWellFormed id now _
      (delete_registration_token-IsWellFormed (assumption) id))
  where
    gone :
        {u : FileState}
        → IsWellFormed u
        → IsWellFormed (record u { clients_map = remove u.clients_map id })
    gone {u} h = assumption (remove-IsKeyed u.clients_map h.clients id)

pub save_consent-IsWellFormed :
    (c : Consent) (now : Time) (s : FileState)
    → IsWellFormed s
    → IsWellFormed (save_consent c now s)
unfolding save_consent
save_consent-IsWellFormed c now s w = stored (
    if-IsWellFormed c.revoked w
      (revoke_families_where-IsWellFormed _ _ (end_apps_where-IsWellFormed _ _ _ now s w)))
  where
    stored :
        {u : FileState}
        → IsWellFormed u
        → IsWellFormed
            (record u { consents = put u.consents (with_consent_id c).id (with_consent_id c) })
    stored {u} h = assumption (put-IsKeyed u.consents h.consent_keys _ (with_consent_id c) refl)

pub save_logout_operation-IsWellFormed :
    (v : LogoutOperation) (s : FileState)
    → IsWellFormed s
    → IsWellFormed (save_logout_operation v s)
unfolding save_logout_operation
save_logout_operation-IsWellFormed v s w =
    stored (elim (Bool-cases (leb max_operations (size s.logout_operations))) [
      | inl full ↦ rw full (remove-IsKeyed s.logout_operations w.operations _)
      | inr room ↦ rw room w.operations
    ])
  where
    stored :
        {m : Table LogoutOperation}
        → IsKeyed (λ o. o.id) m
        → IsWellFormed (record s { logout_operations = put m v.id v })
    stored {m} h = assumption (put-IsKeyed m h v.id v refl)

pub save_oauth_policy-IsWellFormed :
    (id : String) (p : OauthPolicy) (now : Time) (s : FileState)
    → IsWellFormed s
    → IsWellFormed (save_oauth_policy id p now s)
unfolding save_oauth_policy
save_oauth_policy-IsWellFormed id p now s w =
    invalidate_client_grants-IsWellFormed id now _ (assumption)

pub save_oauth_access-IsWellFormed :
    (id : String) (a : OauthAccess) (now : Time) (s : FileState)
    → IsWellFormed s
    → IsWellFormed (save_oauth_access id a now s)
unfolding save_oauth_access revoke_access_tokens_for_user
save_oauth_access-IsWellFormed id a now s w =
    revoke_for_holders-IsWellFormed _ _ _ (end_apps_where-IsWellFormed _ _ _ now _ (assumption))
