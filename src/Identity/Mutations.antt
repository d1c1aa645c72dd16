-- ===== src/Identity/Mutations.antt =====
-- The security mutations of identity/file_store.go, oauth_store.go and logout_operations.go: writes
-- that also withdraw what the old value had granted.
pub mod Clients
pub mod Operations
pub mod Users
use opened_connect_server.Prelude.{
  leb, if◌then◌else◌, ◌==◌, ◌!=◌, any, ℕ, ◌+◌, String, Bool, true, false, not, ◌&&◌, ◌||◌, Option,
  none, some, List, [], ◌∷◌,
}
use opened_connect_server.Clock.{Time, before, after}
use opened_connect_server.Errors.{conflict, Result, ok, err}
use opened_connect_server.Table.{Table, get, put, remove, values, size}
use opened_connect_server.Identity.Records.{User, LogoutOperation}
use opened_connect_server.Identity.Grants.{consent_id, OauthAccess, Consent, OauthPolicy}
use opened_connect_server.Identity.Metadata.{ClientRecord}
use opened_connect_server.Identity.Fold.{equal_fold}
use opened_connect_server.Identity.State.{clone_user, delete_registration_token, FileState}
use opened_connect_server.Identity.Revocation.{revoke_families_where, revoke_access_tokens_for_user}
use opened_connect_server.Identity.Endings.{
  end_apps_where, delete_user_sessions, invalidate_client_grants,
}

-- some other account has the address
unfoldable pub email_taken : List User → User → Bool
email_taken us user = any (λ u. u.id != user.id && equal_fold u.email user.email) us

unfoldable pub same_bool : Bool → Bool → Bool
same_bool true b = b
same_bool false b = not b

-- the old record differs in a field on which grants depend
unfoldable pub security_change : User → User → Bool
unfolding same_bool
security_change old user =
    old.password_hash != user.password_hash
    || (old.email != user.email
        || (old.role != user.role || not (same_bool old.active user.active)))

-- the writes of SaveUser
unfoldable pub store_user : User → Time → FileState → FileState
store_user user now s =
    let t : FileState = elim (get s.users_map user.id) [
      | none ↦ s
      | some old ↦ if security_change old user then delete_user_sessions user.id now s else s
    ] in
    record t { users_map = put t.users_map user.id (clone_user user) }

-- func SaveUser
unfoldable pub save_user : User → Time → FileState → Result FileState
save_user user now s =
    if email_taken (values s.users_map) user then err conflict else ok (store_user user now s)

-- func DeleteUser
unfoldable pub delete_user : String → Time → FileState → FileState
delete_user id now s = delete_user_sessions id now (record s {
  users_map = remove s.users_map id;
  user_oauth_access = remove s.user_oauth_access id;
})

-- the revision under which a client is stored
unfoldable pub next_revision : Option ClientRecord → Time → Time
next_revision none at = at
next_revision (some old) at = if after at old.updated_at then at else old.updated_at + 1

-- func SaveClient
unfoldable pub save_client : ClientRecord → Time → FileState → FileState
save_client c now s =
    let revised = record c { updated_at = next_revision (get s.clients_map c.id) c.updated_at } in
    let t : FileState = elim (get s.clients_map c.id) [
      | none ↦ s
      | some old ↦ invalidate_client_grants c.id now s
    ] in
    record t { clients_map = put t.clients_map c.id revised }

-- func DeleteClient
unfoldable pub delete_client : String → Time → FileState → FileState
delete_client id now s =
    let t =
      invalidate_client_grants id now
        (delete_registration_token (record s { oauth_policies = remove s.oauth_policies id }) id) in
    record t { clients_map = remove t.clients_map id }

-- func SaveOAuthPolicy
unfoldable pub save_oauth_policy : String → OauthPolicy → Time → FileState → FileState
save_oauth_policy id p now s =
    invalidate_client_grants id now (record s { oauth_policies = put s.oauth_policies id p })

-- func SaveOAuthAccess
unfoldable pub save_oauth_access : String → OauthAccess → Time → FileState → FileState
save_oauth_access id a now s = revoke_access_tokens_for_user id (
    end_apps_where (λ v. v.user_id == id) "security" "access_policy_changed" now
      (record s { user_oauth_access = put s.user_oauth_access id a }))

-- the id of a consent that is saved without one
abbrev pub with_consent_id : Consent → Consent
with_consent_id c = if c.id == "" then record c { id = consent_id c.user_id c.client_id } else c

-- func SaveConsent
unfoldable pub save_consent : Consent → Time → FileState → FileState
save_consent c now s =
    let t =
      if c.revoked
      then revoke_families_where (λ f. f.user_id == c.user_id && f.client_id == c.client_id)
          (end_apps_where (λ a. a.user_id == c.user_id && a.client_id == c.client_id) c.user_id
            "access_revoked" now s)
      else s in
    record t { consents = put t.consents (with_consent_id c).id (with_consent_id c) }

-- the loop that finds the oldest operation: its key, "" before the first, and its time
unfoldable pub oldest_from : String → Time → Table LogoutOperation → String
oldest_from oldest stamp [] = oldest
oldest_from oldest stamp ((id, op) ∷ m) =
    let newer = oldest != "" && not (before op.created_at stamp) in
    oldest_from (if newer then oldest else id) (if newer then stamp else op.created_at) m

abbrev pub max_operations : ℕ
max_operations = 10000

-- func SaveLogoutOperation
unfoldable pub save_logout_operation : LogoutOperation → FileState → FileState
unfolding oldest_from
save_logout_operation v s =
    let kept =
      if leb max_operations (size s.logout_operations)
      then remove s.logout_operations (oldest_from "" 0 s.logout_operations)
      else s.logout_operations in
    record s { logout_operations = put kept v.id v }
