-- ===== src/Oidc/Interaction/Tests.antt =====
-- A sign-in request at a concrete store.
use opened_connect_server.Oidc.Texts.{is_alphanumeric}
use opened_connect_server.Oidc.Pkce.{verifier_pattern, verify_pkce}
use opened_connect_server.Oidc.Params.{session_fresh}
use opened_connect_server.Identity.Endings.{
  revoke_codes_where, revoke_transactions_where, notify_channel, notify_app, end_app_grants,
  end_app_session, end_apps_where,
}
use opened_connect_server.Identity.Mutations.{save_consent}
use opened_connect_server.Identity.Pruning.{prune_family, prune_families, prune_oidc_state}
use opened_connect_server.Identity.Revocation.{
  mark_tokens, revoke_refresh_family, revoke_families_where,
}
use opened_connect_server.Table.{get, put, remove, map_values, keep, values}
use opened_connect_server.Prelude.{
  ◌==◌, all, any, contains, for_each, String, ◌≡◌, refl, Bool, true, false, none, some, [], ◌∷◌,
}
use opened_connect_server.Identity.Grants.{consent_id, AuthzTransaction}
use opened_connect_server.Identity.State.{
  clone_user, find_user, find_client, find_session, find_authz_transaction, find_consent,
  save_logout_delivery, save_authz_transaction, save_authorization_code, session_with_id,
  session_by_id, session_active, FileState,
}
use opened_connect_server.Oidc.Redirect.{set_if, error_redirect, code_redirect, Redirect}
use opened_connect_server.Oidc.Interaction.{
  scope_description, binding_matches, consent_covers, has_valid_consent, minting_session,
  minted_code, mint_code_tx, txn_open, session_suits, approved_part, granted_scopes, record_consent,
  answer_redirect, needs_screen, finish_interaction, claimed_by, interaction_transaction,
  complete_interaction, FinishParams, Decision, TransactionView, error_view, complete_view,
}
use opened_connect_server.Oidc.Samples.{
  sample_crypto, sample_config, sample_client, sample_verifier, sample_state,
  sample_state-IsWellFormed,
}
use opened_connect_server.Clock.{unix_nano}
use opened_connect_server.Identity.Metadata.{
  text, list, audit_reasons, audit_metadata, runtime_client, ClientRecord,
}
use opened_connect_server.Errors.{Result, ok, err}
use opened_connect_server.Identity.Records.{User, Session}
use opened_connect_server.Identity.WellFormed.{IsWellFormed, save_authz_transaction-IsWellFormed}
use opened_connect_server.Oidc.Exchange.{ExchangeDraws}
use opened_connect_server.Oidc.Interaction.Minting.{mint_code_tx-IsMinted, IsMinted}
use opened_connect_server.Oidc.Interaction.Completing.{
  IsAnswered, interaction_transaction-IsAnswered, IsContinued,
}
use opened_connect_server.Oidc.Interaction.Once.{complete_interaction_once}

abbrev open_request : AuthzTransaction
open_request = record {
  op_session_id = "";
  app_session_id = "";
  revoked = false;
  reauthenticate_after = 0;
  id = "tx1";
  client_id = "rp";
  redirect_uri = "https://rp.example/cb";
  scopes = "openid" ∷ "profile" ∷ [];
  state = "st";
  response_mode = "";
  nonce = "n";
  code_challenge = sample_verifier;
  code_challenge_method = "S256";
  prompt = [];
  max_age = none;
  login_hint = "";
  browser_binding_hash = "h-bind";
  user_id = "";
  auth_time = 0;
  client_updated_at = 50;
  consent_granted = false;
  consumed = false;
  expires_at = 200;
  created_at = 100;
}

unfoldable request_state : FileState
unfolding save_authz_transaction
request_state = save_authz_transaction sample_state open_request

abbrev approval : Decision
approval = record { approve = true; scopes = "profile" ∷ [] }

abbrev any_uri : String → Bool
any_uri uri = true

abbrev code_answer : Redirect
code_answer = record {
  to = "https://rp.example/cb";
  parameters = ("code", "code") ∷ ("state", "st") ∷ [];
}

abbrev result_of : TransactionView × FileState → FileState
result_of y = y.1

unfoldable answered_state : FileState
answered_state = result_of (
    complete_interaction sample_crypto sample_config any_uri (some "code") (some "bind") "h-cookie"
      "u1" "tx1" (some approval) 120 request_state)

completed :
    complete_interaction sample_crypto sample_config any_uri
      (some "code")
      (some "bind")
      "h-cookie"
      "u1"
      "tx1"
      (some approval)
      120
      request_state
    ≡ (complete_view code_answer "" "https://rp.example/cb", answered_state)
unfolding answered_state error_redirect code_redirect scope_description record_consent needs_screen
    minting_session minted_code mint_code_tx has_valid_consent granted_scopes finish_interaction
    consent_covers claimed_by approved_part answer_redirect session_with_id session_by_id
    session_active save_logout_delivery save_authz_transaction save_authorization_code find_consent
    revoke_refresh_family revoke_families_where mark_tokens prune_oidc_state prune_family
    prune_families save_consent text list audit_reasons consent_id revoke_transactions_where
    revoke_codes_where notify_channel notify_app end_apps_where end_app_session end_app_grants
    unix_nano audit_metadata runtime_client find_client clone_user find_user session_fresh
    session_suits find_session binding_matches txn_open put request_state get find_authz_transaction
    interaction_transaction ◌==◌ complete_interaction contains any values
completed = refl

request_state-IsWellFormed : IsWellFormed request_state
unfolding request_state
request_state-IsWellFormed =
    save_authz_transaction-IsWellFormed sample_state-IsWellFormed open_request

-- asked for again, with whatever decision
complete_interaction_once_example :
    complete_interaction sample_crypto sample_config any_uri
      (some "code2")
      (some "bind")
      "h-cookie"
      "u1"
      "tx1"
      none
      130
      answered_state
    ≡ (error_view, answered_state)
complete_interaction_once_example =
    complete_interaction_once sample_crypto sample_config any_uri (some "code") (some "bind")
      "h-cookie" "u1" "tx1" (some approval) 120 request_state request_state-IsWellFormed completed
      sample_config any_uri (some "code2") (some "bind") "h-cookie" "u1" none 130

answered :
    interaction_transaction sample_crypto sample_config any_uri
      (some "code")
      "h-bind"
      "h-cookie"
      "u1"
      "tx1"
      (some approval)
      120
      request_state
    ≡ ok (complete_view code_answer "" "https://rp.example/cb", answered_state)
unfolding find_client get ◌==◌ interaction_transaction find_authz_transaction request_state put
    txn_open binding_matches find_session session_suits session_fresh find_user clone_user
    runtime_client audit_metadata mint_code_tx unix_nano list contains text any minting_session
    session_active verify_pkce verifier_pattern all is_alphanumeric end_app_grants end_app_session
    end_apps_where notify_app notify_channel revoke_codes_where revoke_transactions_where consent_id
    audit_reasons save_consent prune_families prune_family prune_oidc_state mark_tokens
    revoke_families_where revoke_refresh_family find_consent save_authorization_code
    save_authz_transaction save_logout_delivery session_by_id session_with_id answer_redirect
    approved_part claimed_by consent_covers finish_interaction granted_scopes has_valid_consent
    minted_code needs_screen record_consent scope_description code_redirect error_redirect set_if
    for_each keep map_values remove values answered_state complete_interaction
answered = refl

interaction_transaction-IsAnswered_example :
    (txn : AuthzTransaction) × (session : Session) × (user : User) × (client : ClientRecord)
    × IsContinued "h-bind" "h-cookie" "u1" "tx1" 120 request_state txn session user client
    × IsAnswered sample_crypto sample_config any_uri
        (some "code")
        120
        request_state
        txn
        user
        session
        client
        code_answer
        ""
        "https://rp.example/cb"
        answered_state
        (some approval)
interaction_transaction-IsAnswered_example =
    interaction_transaction-IsAnswered sample_crypto sample_config any_uri (some "code") "h-bind"
      "h-cookie" "u1" "tx1" (some approval) 120 request_state answered

-- what an approval of the request mints
abbrev minting : FinishParams
minting = record {
  transaction_id = "tx1";
  session_hash = "h-cookie";
  max_age = none;
  require_consent = false;
  client = runtime_client sample_client;
  redirect_uri = "https://rp.example/cb";
  scopes = "openid" ∷ "profile" ∷ [];
  state = "st";
  nonce = "n";
  code_challenge = sample_verifier;
  code_challenge_method = "S256";
  user_id = "u1";
  auth_time = 60;
}

abbrev state_of : Result (Redirect × FileState) → FileState
state_of (ok y) = y.1
state_of (err e) = sample_state

unfoldable minted_state : FileState
minted_state =
    state_of (mint_code_tx sample_crypto sample_config (some "code") minting 120 sample_state)

minted :
    mint_code_tx sample_crypto sample_config (some "code") minting 120 sample_state
    ≡ ok (code_answer, minted_state)
unfolding mint_code_tx find_user get ◌==◌ clone_user find_client runtime_client unix_nano
    audit_metadata list contains text any minting_session find_session session_active verify_pkce
    verifier_pattern all is_alphanumeric session_by_id audit_reasons prune_families prune_family
    prune_oidc_state save_authorization_code session_with_id minted_code code_redirect set_if
    for_each keep put remove values minted_state
minted = refl

mint_code_tx-IsMinted_example :
    IsMinted sample_crypto sample_config
      (some "code")
      minting
      120
      sample_state
      code_answer
      minted_state
mint_code_tx-IsMinted_example =
    mint_code_tx-IsMinted sample_crypto sample_config minting 120 sample_state (some "code") minted

abbrev later_draws : ExchangeDraws
later_draws = record {
  app_session = some "app1";
  access = some "at1";
  refresh = some "rt1";
  family = some "fam1";
}
