-- ===== src/Oidc/Refresh/Tests.antt =====
-- Rotations at a concrete store.
use opened_connect_server.Prelude.{
  ◌==◌, all, contains, for_each, String, ◌≡◌, refl, subst, true, false, some, List, [], ◌∷◌, arith,
}
use opened_connect_server.Clock.{unix_nano}
use opened_connect_server.Errors.{Result, ok, err}
use opened_connect_server.Table.{get, put}
use opened_connect_server.Identity.Grants.{consent_id, RefreshFamily, RefreshToken}
use opened_connect_server.Identity.Metadata.{list, runtime_client}
use opened_connect_server.Identity.State.{
  clone_user, find_user, find_client, find_consent, find_refresh_family, find_refresh_token,
  oauth_policy, save_access_token, save_refresh_family, save_refresh_token, FileState,
}
use opened_connect_server.Identity.Active.{scope_subset, refresh_family_active}
use opened_connect_server.Identity.WellFormed.{
  IsWellFormed, save_refresh_family-IsWellFormed, save_refresh_token-IsWellFormed,
}
use opened_connect_server.Oidc.Texts.{fields, join_texts}
use opened_connect_server.Oidc.Setup.{Form, form_get, min_time, TokenResponse}
use opened_connect_server.Oidc.Refresh.{
  narrowed_scopes, rotation_response, rotation_writes, rotate, refresh_transaction, RotationDraws,
  Rotation, reuse_detected, rotated,
}
use opened_connect_server.Oidc.Samples.{
  sample_crypto, sample_config, sample_client, sample_state, sample_state-IsWellFormed,
}
use opened_connect_server.Identity.Revocation.{revoke_refresh_family}
use opened_connect_server.Identity.Pruning.{prune_families, prune_oidc_state}
use opened_connect_server.Oidc.Refresh.Sound.{rotation_sound, IsOwned, IsGiven, IsRefreshable}
use opened_connect_server.Oidc.Refresh.Once.{rotation_once, FamilyEnded}

abbrev family_one : RefreshFamily
family_one = record {
  app_session_id = "";
  op_session_id = "";
  id = "fam1";
  client_id = "rp";
  user_id = "u1";
  code_hash = "h-old";
  audience = "userinfo";
  scopes = "openid" ∷ "offline_access" ∷ [];
  auth_time = 0;
  client_revision = 50;
  created_at = 100;
  absolute_expiry = 1100;
  idle_expiry = 300;
  retain_until = 1400;
  revoked = false;
}

abbrev token_one : RefreshToken
token_one = record {
  hash = "h-rt1";
  family_id = "fam1";
  scopes = "openid" ∷ "offline_access" ∷ [];
  issued_at = 100;
  consumed = false;
}

abbrev granted_state : FileState
granted_state = save_refresh_token (save_refresh_family sample_state family_one) token_one

granted_state-IsWellFormed : IsWellFormed granted_state
granted_state-IsWellFormed =
    save_refresh_token-IsWellFormed
      (save_refresh_family-IsWellFormed sample_state-IsWellFormed family_one) token_one

abbrev draws : RotationDraws
draws = record { access = some "at2"; next = some "rt2" }

abbrev request : Form
request = ("refresh_token", "rt1") ∷ ("scope", "openid") ∷ []

abbrev response : TokenResponse
response = rotation_response sample_config ("openid" ∷ []) "at2" "rt2"

abbrev result_state : Result (Rotation × FileState) → FileState
result_state (ok y) = y.1
result_state (err e) = sample_state

unfoldable state_after : FileState
unfolding refresh_transaction rotate rotation_writes narrowed_scopes find_refresh_token
    find_refresh_family find_client get save_refresh_token save_refresh_family put ◌==◌ unix_nano
    contains all refresh_family_active scope_subset fields find_user find_consent consent_id
    oauth_policy list min_time
state_after = result_state (
    refresh_transaction sample_crypto sample_config draws request (runtime_client sample_client) 150
      granted_state)

rotation :
    refresh_transaction sample_crypto sample_config draws request
      (runtime_client sample_client)
      150
      granted_state
    ≡ ok (rotated response, state_after)
unfolding state_after runtime_client clone_user
rotation = refl

rotation_sound_example :
    (old : RefreshToken) × (f : RefreshFamily) × (scopes : List String) × IsOwned sample_crypto
      request
      (runtime_client sample_client)
      granted_state
      old
      f
    × IsRefreshable request old f 150 granted_state
    × (scope_subset scopes old.scopes ≡ true)
    × ("openid" ≡ join_texts scopes " ")
    × IsGiven sample_crypto (runtime_client sample_client) f scopes 150 response state_after
unfolding join_texts
rotation_sound_example =
    rotation_sound sample_crypto sample_config draws request (runtime_client sample_client) 150
      granted_state rotation

reuse :
    refresh_transaction sample_crypto sample_config draws request
      (runtime_client sample_client)
      160
      state_after
    ≡ ok (reuse_detected, revoke_refresh_family "fam1" state_after)
unfolding state_after runtime_client clone_user prune_oidc_state prune_families for_each
    save_access_token
reuse = refl

fresh_draw :
    (next : String)
    → draws.next ≡ some next
    → (sample_crypto.hash_token next == sample_crypto.hash_token (form_get request "refresh_token"))
      ≡ false
unfolding ◌==◌ get
fresh_draw next h =
    let same : "rt2" ≡ next = ground (arith, h) in
    subst (λ x. (sample_crypto.hash_token x == sample_crypto.hash_token "rt1") ≡ false) same refl

rotation_once_example :
    (reuse_detected ≡ reuse_detected)
    × ((d : RefreshToken) × (find_refresh_token state_after "h-rt1" ≡ some d)
        × FamilyEnded d.family_id (revoke_refresh_family "fam1" state_after))
unfolding get ◌==◌
rotation_once_example =
    rotation_once sample_crypto sample_config draws request (runtime_client sample_client) 150
      granted_state granted_state-IsWellFormed rotation fresh_draw draws request
      (runtime_client sample_client) 160 refl reuse
