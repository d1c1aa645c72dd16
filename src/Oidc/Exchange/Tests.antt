-- ===== src/Oidc/Exchange/Tests.antt =====
-- The exchange at a concrete store.
use opened_connect_server.Oidc.Exchange.Given.{TokenWithdrawn, RefreshWithdrawn}
use opened_connect_server.Oidc.Exchange.Sound.{exchange_sound}
use opened_connect_server.Oidc.Exchange.Once.{exchange_once}
use opened_connect_server.Oidc.Exchange.Cases.{IsRedeemable}
use opened_connect_server.Identity.Revocation.{revoke_access_tokens_for_code}
use opened_connect_server.Identity.Revocation.Holders.{code_token, code_family, Revoked}
use opened_connect_server.Identity.Pruning.{prune_oidc_state}
use opened_connect_server.Oidc.Texts.{is_alphanumeric}
use opened_connect_server.Identity.Grants.{consent_id, AuthorizationCode}
use opened_connect_server.Identity.Active.{scope_subset, refresh_family_active}
use opened_connect_server.Oidc.Setup.{sign_id_token, find_first}
use opened_connect_server.Prelude.{
  ◌==◌, all, any, contains, for_each, ◌≡◌, refl, ◌⊎◌, true, some, [], ◌∷◌,
}
use opened_connect_server.Errors.{Result, ok, err}
use opened_connect_server.Identity.State.{
  clone_user, find_user, find_client, find_authorization_code, find_consent, oauth_policy,
  save_app_session, save_session, save_authorization_code, save_access_token, save_refresh_family,
  save_refresh_token, session_by_id, session_active, check_session_capacity, FileState,
}
use opened_connect_server.Oidc.Exchange.{
  code_bound, client_unchanged, touch_app, join_app_session, touch_session, attach_session,
  initial_refresh, offline_part, code_access_token, issue_code_tokens, redeem, redeem_or_revoke,
  exchange_code, ExchangeDraws, Issued, Outcome, replayed, issued,
}
use opened_connect_server.Oidc.Samples.{
  sample_crypto, sample_config, sample_state, sample_state-IsWellFormed, sample_request,
}
use opened_connect_server.Clock.{unix_nano}
use opened_connect_server.Table.{get, put, keep, values}
use opened_connect_server.Identity.Records.{User}
use opened_connect_server.Identity.Metadata.{
  text, list, audit_metadata, runtime_client, ClientRecord,
}
use opened_connect_server.Oidc.Pkce.{verifier_pattern, verify_pkce}

abbrev draws : ExchangeDraws
draws = record {
  app_session = some "app1";
  access = some "at1";
  refresh = some "rt1";
  family = some "fam1";
}

abbrev given : Issued
given = record {
  access_token = "at1";
  id_token = "signed";
  refresh_token = "rt1";
  scopes = "openid" ∷ "offline_access" ∷ [];
}

abbrev result_state : Result (Outcome × FileState) → FileState
result_state (ok y) = y.1
result_state (err e) = sample_state

unfoldable state_after : FileState
unfolding exchange_code code_bound client_unchanged redeem_or_revoke redeem issue_code_tokens
    offline_part initial_refresh attach_session join_app_session touch_app touch_session
    code_access_token find_authorization_code find_client find_user verify_pkce verifier_pattern
    is_alphanumeric runtime_client audit_metadata unix_nano text list get put ◌==◌ all any contains
    clone_user session_active session_by_id values find_first check_session_capacity sign_id_token
    save_app_session save_session oauth_policy refresh_family_active find_consent consent_id
    scope_subset
state_after =
    result_state (exchange_code sample_crypto sample_config draws sample_request 120 sample_state)

first_exchange :
    exchange_code sample_crypto sample_config draws sample_request 120 sample_state
    ≡ ok (issued given, state_after)
unfolding state_after
first_exchange = refl

exchange_sound_example :
    (c : AuthorizationCode) × (current : ClientRecord) × (u : User) × IsRedeemable sample_crypto
      sample_request 120 sample_state c current u
    × ((c.op_session_id ≡ "") ⊎ (session_active sample_state c.op_session_id 120 ≡ true))
exchange_sound_example =
    exchange_sound sample_crypto sample_config draws sample_request 120 sample_state first_exchange

unfoldable replay_state : FileState
unfolding revoke_access_tokens_for_code
replay_state = revoke_access_tokens_for_code "h-code" state_after

second_exchange :
    exchange_code sample_crypto sample_config draws sample_request 130 state_after
    ≡ ok (replayed, replay_state)
unfolding state_after replay_state prune_oidc_state save_authorization_code save_access_token keep
    for_each save_refresh_token save_refresh_family
second_exchange = refl

exchange_once_example :
    (replayed ≡ replayed)
    × Revoked (code_token "h-code") (code_family "h-code") replay_state
    × TokenWithdrawn "h-at1" replay_state
    × ((given.refresh_token ≡ "") ⊎ RefreshWithdrawn "h-rt1" replay_state)
exchange_once_example =
    exchange_once sample_crypto sample_config draws sample_request 120 sample_state
      sample_state-IsWellFormed first_exchange draws sample_request 130 refl second_exchange
