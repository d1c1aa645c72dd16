-- ===== src/Identity/Revocation.antt =====
-- Revocation of tokens and refresh families: identity/oauth_store.go and identity/file_store.go.
pub mod Tokens
pub mod Families
pub mod Holders
use opened_connect_server.Prelude.{if◌then◌else◌, ◌==◌, for_each, String, Bool, true, none, some}
use opened_connect_server.Table.{Table, get, put, map_values}
use opened_connect_server.Identity.Grants.{AccessToken, RefreshFamily}
use opened_connect_server.Identity.State.{FileState}

abbrev pub revoked_token : AccessToken → AccessToken
revoked_token t = record t { revoked = true }

-- `t.Revoked = true` for the tokens that pass a test
unfoldable pub mark_tokens : (AccessToken → Bool) → Table AccessToken → Table AccessToken
mark_tokens hit = map_values λ t. if hit t then revoked_token t else t

abbrev pub revoke_tokens_where : (AccessToken → Bool) → FileState → FileState
revoke_tokens_where hit s = record s { access_tokens = mark_tokens hit s.access_tokens }

-- func RevokeAccessToken
unfoldable pub revoke_access_token : String → FileState → FileState
revoke_access_token hash s = elim (get s.access_tokens hash) [
  | none ↦ s
  | some a ↦ record s { access_tokens = put s.access_tokens hash (revoked_token a) }
]

-- func RevokeRefreshFamily
unfoldable pub revoke_refresh_family : String → FileState → FileState
revoke_refresh_family id s = elim (get s.refresh_families id) [
  | none ↦ s
  | some f ↦
      revoke_tokens_where (λ t. t.family_id == id)
        (record s { refresh_families = put s.refresh_families id (record f { revoked = true }) })
]

-- `for id, f := range s.RefreshFamilies { if hit(f) { s.RevokeRefreshFamily(id) } }`
unfoldable pub revoke_families_where : (RefreshFamily → Bool) → FileState → FileState
revoke_families_where hit s =
    for_each s.refresh_families (λ e t. if hit e.1 then revoke_refresh_family e.0 t else t) s

-- func RevokeAccessTokensForUser
unfoldable pub revoke_access_tokens_for_user : String → FileState → FileState
revoke_access_tokens_for_user user_id s =
    revoke_tokens_where (λ a. a.user_id == user_id)
      (revoke_families_where (λ f. f.user_id == user_id) s)

-- func RevokeAccessTokensForClient
unfoldable pub revoke_access_tokens_for_client : String → FileState → FileState
revoke_access_tokens_for_client client_id s =
    revoke_tokens_where (λ a. a.client_id == client_id)
      (revoke_families_where (λ f. f.client_id == client_id) s)

-- func RevokeAccessTokensForCode
unfoldable pub revoke_access_tokens_for_code : String → FileState → FileState
revoke_access_tokens_for_code code_hash s =
    revoke_tokens_where (λ a. a.code_hash == code_hash)
      (revoke_families_where (λ f. f.code_hash == code_hash) s)
