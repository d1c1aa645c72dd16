-- ===== src/Tests/Protocol.antt =====
-- The resource grant, revocation and UserInfo at a concrete store.
use opened_connect_server.Oidc.Inspect.Introspected.{
  introspect_sound, MayInspect, IsAccessTold, IsRefreshTold,
}
use opened_connect_server.Prelude.{◌==◌, all, any, contains, ◌≡◌, refl, ◌⊎◌, false, some, [], ◌∷◌}
use opened_connect_server.Errors.{ok}
use opened_connect_server.Table.{get}
use opened_connect_server.Identity.Records.{User}
use opened_connect_server.Identity.Grants.{AccessToken, RefreshFamily, RefreshToken}
use opened_connect_server.Identity.Metadata.{
  text, list, audit_reasons, audit_metadata, runtime_client,
}
use opened_connect_server.Identity.State.{
  clone_user, find_user, find_client, find_access_token, find_refresh_family, find_refresh_token,
  oauth_policy, FileState,
}
use opened_connect_server.Identity.Revocation.{revoke_access_token, revoke_refresh_family}
use opened_connect_server.Identity.Active.{
  resource_by_audience, scope_subset, effective_grant, access_token_active,
}
use opened_connect_server.Oidc.Texts.{fields}
use opened_connect_server.Oidc.Setup.{Form, form_get}
use opened_connect_server.Oidc.Resource.{valid_scope_list, valid_resource_scopes, resource_grant}
use opened_connect_server.Oidc.Resource.Sound.{resource_grant_sound, IsGrantable}
use opened_connect_server.Oidc.Inspect.{
  revoke_presented, access_info, inspect_access, introspect, user_info, active_token,
}
use opened_connect_server.Oidc.Inspect.Sound.{user_info_sound, IsDisclosable}
use opened_connect_server.Oidc.Inspect.Revoked.{revoke_presented-holder}
use opened_connect_server.Oidc.Samples.{
  sample_crypto, sample_config, sample_client, sample_user, sample_state,
}
use opened_connect_server.Clock.{unix_nano}

abbrev machine_request : Form
machine_request = ("resource", "orders") ∷ ("scope", "read write") ∷ []

machine_grant :
    resource_grant sample_config sample_state sample_client "client_credentials" machine_request ""
    ≡ ok ("orders", "read" ∷ "write" ∷ [])
unfolding resource_grant get ◌==◌ oauth_policy contains runtime_client list text fields
    resource_by_audience valid_resource_scopes valid_scope_list scope_subset all
machine_grant = refl

resource_grant_sound_example :
    IsGrantable sample_config sample_state sample_client "client_credentials" "" "orders"
      ("read" ∷ "write" ∷ [])
resource_grant_sound_example =
    resource_grant_sound sample_config sample_state sample_client "client_credentials"
      machine_request "" machine_grant

abbrev issued_token : AccessToken
issued_token = record {
  op_session_id = "";
  app_session_id = "";
  grant_type = "authorization_code";
  subject_kind = "user";
  family_id = "";
  original_grant = "";
  id_token_expires_at = 0;
  hash = "h-at1";
  client_id = "rp";
  user_id = "u1";
  audience = "userinfo";
  scopes = "openid" ∷ [];
  code_hash = "h-code";
  issued_at = 120;
  expires_at = 420;
  revoked = false;
}

abbrev token_state : FileState
token_state = record sample_state { access_tokens = ("h-at1", issued_token) ∷ [] }

disclosed :
    user_info sample_crypto sample_config "at1" 130 token_state
    ≡ some (issued_token, sample_user.profile)
unfolding user_info find_access_token get ◌==◌ access_token_active find_client effective_grant
    contains find_user clone_user runtime_client audit_metadata list text audit_reasons any
disclosed = refl

user_info_sound_example :
    (u : User) × IsDisclosable sample_crypto sample_config "at1" 130 token_state issued_token u
    × (sample_user.profile ≡ u.profile)
user_info_sound_example =
    user_info_sound sample_crypto sample_config "at1" 130 token_state disclosed

revoke_presented-holder_example :
    (revoke_presented (runtime_client sample_client) "h-at1" token_state ≡ token_state)
    ⊎ (((t : AccessToken) × (find_access_token token_state "h-at1" ≡ some t)
          × (t.client_id ≡ (runtime_client sample_client).id)
          × (revoke_presented (runtime_client sample_client) "h-at1" token_state
              ≡ revoke_access_token "h-at1" token_state))
        ⊎ ((rt : RefreshToken) × (f : RefreshFamily) × (find_refresh_token token_state "h-at1"
              ≡ some rt)
            × (find_refresh_family token_state rt.family_id ≡ some f)
            × (f.client_id ≡ (runtime_client sample_client).id)
            × (revoke_presented (runtime_client sample_client) "h-at1" token_state
                ≡ revoke_refresh_family f.id token_state)))
revoke_presented-holder_example =
    revoke_presented-holder (runtime_client sample_client) "h-at1" token_state

abbrev inspection : Form
inspection = ("token", "at1") ∷ []

inspected :
    introspect sample_crypto sample_config inspection (runtime_client sample_client) 130 token_state
    ≡ ok (active_token (access_info sample_config issued_token))
unfolding introspect find_access_token get ◌==◌ access_token_active find_client effective_grant
    contains find_user clone_user runtime_client audit_metadata list text audit_reasons any
    inspect_access oauth_policy unix_nano access_info
inspected = refl

introspect_sound_example :
    MayInspect (runtime_client sample_client) token_state
    × (IsAccessTold sample_config
          (runtime_client sample_client)
          (sample_crypto.hash_token (form_get inspection "token"))
          130
          token_state
          (access_info sample_config issued_token)
        ⊎ IsRefreshTold sample_config
            (runtime_client sample_client)
            (sample_crypto.hash_token (form_get inspection "token"))
            130
            token_state
            (access_info sample_config issued_token))
introspect_sound_example =
    introspect_sound sample_crypto sample_config inspection (runtime_client sample_client) 130
      token_state inspected
