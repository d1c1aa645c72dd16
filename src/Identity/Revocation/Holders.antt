-- ===== src/Identity/Revocation/Holders.antt =====
-- The revocations for a user, a client and a code: nothing of theirs stays good.
use opened_connect_server.Prelude.{◌==◌, String, ◌≡◌, refl, Bool, true, false, List}
use opened_connect_server.Clock.{Time}
use opened_connect_server.Identity.Grants.{AccessToken, Resource, RefreshFamily}
use opened_connect_server.Identity.State.{FileState}
use opened_connect_server.Identity.Revocation.{
  revoke_access_tokens_for_user, revoke_access_tokens_for_client, revoke_access_tokens_for_code,
}
use opened_connect_server.Identity.Revocation.Tokens.{TokensRevoked, mark_tokens-TokensRevoked}
use opened_connect_server.Identity.Revocation.Families.{
  FamiliesRevoked, revoke_families_where-FamiliesRevoked,
}
use opened_connect_server.Identity.Active.{access_token_active, refresh_family_active}

-- Both the access tokens and the refresh families that pass a test are revoked.
pub record Revoked (token : AccessToken → Bool) (family : RefreshFamily → Bool) (s : FileState)
    : Type 0 where
  pub tokens : TokensRevoked token s.access_tokens
  pub families : FamiliesRevoked family s

abbrev pub user_token : String → AccessToken → Bool
user_token id t = t.user_id == id

abbrev pub user_family : String → RefreshFamily → Bool
user_family id f = f.user_id == id

abbrev pub client_token : String → AccessToken → Bool
client_token id t = t.client_id == id

abbrev pub client_family : String → RefreshFamily → Bool
client_family id f = f.client_id == id

abbrev pub code_token : String → AccessToken → Bool
code_token hash t = t.code_hash == hash

abbrev pub code_family : String → RefreshFamily → Bool
code_family hash f = f.code_hash == hash

pub revoke_access_tokens_for_user-Revoked :
    (id : String) (s : FileState)
    → Revoked (user_token id) (user_family id) (revoke_access_tokens_for_user id s)
unfolding revoke_access_tokens_for_user
revoke_access_tokens_for_user-Revoked id s = record {
  tokens = mark_tokens-TokensRevoked (user_token id) _ (λ t. refl);
  families = revoke_families_where-FamiliesRevoked (user_family id) (λ f. refl) s;
}

pub revoke_access_tokens_for_client-Revoked :
    (id : String) (s : FileState)
    → Revoked (client_token id) (client_family id) (revoke_access_tokens_for_client id s)
unfolding revoke_access_tokens_for_client
revoke_access_tokens_for_client-Revoked id s = record {
  tokens = mark_tokens-TokensRevoked (client_token id) _ (λ t. refl);
  families = revoke_families_where-FamiliesRevoked (client_family id) (λ f. refl) s;
}

pub revoke_access_tokens_for_code-Revoked :
    (hash : String) (s : FileState)
    → Revoked (code_token hash) (code_family hash) (revoke_access_tokens_for_code hash s)
unfolding revoke_access_tokens_for_code
revoke_access_tokens_for_code-Revoked hash s = record {
  tokens = mark_tokens-TokensRevoked (code_token hash) _ (λ t. refl);
  families = revoke_families_where-FamiliesRevoked (code_family hash) (λ f. refl) s;
}

-- a revoked token is refused whatever else holds
pub access_token_active-revoked :
    (s : FileState) (t : AccessToken) (now : Time) (resources : List Resource)
    → t.revoked ≡ true
    → access_token_active s t now resources ≡ false
unfolding access_token_active
access_token_active-revoked s t now resources h = rw (h, access_token_active)

pub refresh_family_active-revoked :
    (s : FileState) (f : RefreshFamily) (now : Time)
    → f.revoked ≡ true
    → refresh_family_active s f now ≡ false
unfolding refresh_family_active
refresh_family_active-revoked s f now h = rw (h, refresh_family_active)
