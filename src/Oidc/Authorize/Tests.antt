-- ===== src/Oidc/Authorize/Tests.antt =====
-- The authorization endpoint at a concrete store.
use opened_connect_server.Oidc.Authorize.Begun.{authorize-IsBegun, IsBegun}
use opened_connect_server.Oidc.Authorize.Targets.{GoesTo, authorize-GoesTo}
use opened_connect_server.Oidc.Authorize.Silent.{IsSilentAnswer, authorize-IsSilent}
use opened_connect_server.Oidc.Authorize.Known.{IsKnown}
use opened_connect_server.Oidc.Authorize.Accepted.{ContinuesWith, IsAccepted}
use opened_connect_server.Oidc.Pkce.{challenge_pattern, validate_code_challenge}
use opened_connect_server.Oidc.Interaction.{
  consent_covers, has_valid_consent, minting_session, minted_code, mint_code_tx, recheck_consent,
  mint_code_transaction, mint_code,
}
use opened_connect_server.Identity.Pruning.{prune_family, prune_families, prune_oidc_state}
use opened_connect_server.Identity.Principal.{principal, authenticate, Principal}
use opened_connect_server.Identity.Grants.{consent_id, AuthzTransaction}
use opened_connect_server.Clock.{unix_nano, from_unix_nano}
use opened_connect_server.Identity.Metadata.{
  text, list, audit_reasons, audit_metadata, runtime_client, ClientRecord,
}
use opened_connect_server.Table.{get, put, remove, keep, values}
use opened_connect_server.Oidc.Texts.{
  fields, trim_space, parse_natural, join_texts, is_alphanumeric,
}
use opened_connect_server.Oidc.Params.{session_fresh, parsed}
use opened_connect_server.Oidc.Authorize.Handler.{
  signed_in, silent_params, fail, authorize_silent, browser_binding, new_transaction,
  bound_transaction, authorize_start, accepted, authorize_guarded, authorize_client, authorize_form,
  authorize,
}
use opened_connect_server.Oidc.Redirect.{
  set_if, error_redirect, code_redirect, valid_code_response_mode, Redirect,
}
use opened_connect_server.Identity.State.{
  clone_user, find_user, find_client, find_session, find_consent, oauth_policy,
  save_authz_transaction, save_authorization_code, session_with_id, session_by_id, session_active,
  FileState,
}
use opened_connect_server.Oidc.Authorize.{
  scopes_supported, current_principal, first_fault, offline_allowed, requested_prompts,
  unsupported_prompt, prompt_guard, request_guards, grant_guards, kept_scopes, requested_max_age,
  Reads, Browser, AuthorizeAnswer, error_page, code_sent, to_continue,
}
use opened_connect_server.Prelude.{
  ◌==◌, all, any, contains, for_each, ℕ, String, ◌≡◌, refl, ◌⊎◌, Bool, true, false, Option, none,
  some, [], ◌∷◌,
}
use opened_connect_server.Oidc.Samples.{sample_crypto, sample_config, sample_session, sample_state}
use opened_connect_server.Oidc.Setup.{Form, form_get, find_first}

-- a cookie and a challenge of 43 characters
abbrev long_text : String
long_text = "abcdefghijklmnopqrstuvwxyz0123456789-_ABCDE"

abbrev request_form : Form
request_form =
    ("client_id", " rp ")
    ∷ ("redirect_uri", "https://rp.example/cb")
    ∷ ("response_type", "code")
    ∷ ("scope", "openid custom")
    ∷ ("code_challenge", long_text)
    ∷ ("code_challenge_method", "S256")
    ∷ ("state", "st")
    ∷ []

abbrev browser : Browser
browser = record {
  session_cookie = some long_text;
  binding_cookie = none;
  draw_transaction = some "tx1";
  draw_binding = some "bind";
  draw_code = some "code";
}

abbrev signed_in_state : FileState
signed_in_state = record sample_state {
  sessions =
      (
        "h-abcdefghijklmnopqrstuvwxyz0123456789-_ABCDE",
        record sample_session { hash = "h-abcdefghijklmnopqrstuvwxyz0123456789-_ABCDE" },
      )
      ∷ [];
}

abbrev one_state : Reads
one_state = record {
  client_read = signed_in_state;
  policy_read = signed_in_state;
  session_read = signed_in_state;
  consent_read = signed_in_state;
  now = 120;
}

abbrev any_uri : String → Bool
any_uri uri = true

abbrev second_part : AuthorizeAnswer × FileState → FileState
second_part y = y.1

unfoldable begun_state : FileState
begun_state = second_part (
    authorize sample_crypto sample_config any_uri one_state browser (parsed request_form)
      signed_in_state)

begun :
    authorize sample_crypto sample_config any_uri one_state browser
      (parsed request_form)
      signed_in_state
    ≡ (to_continue "tx1" "bind", begun_state)
unfolding authorize authorize_form ◌==◌ trim_space get find_client runtime_client audit_metadata
    list contains text any authorize_client first_fault request_guards valid_code_response_mode
    grant_guards from_unix_nano unix_nano consent_id audit_reasons authenticate principal
    prune_families prune_family prune_oidc_state clone_user find_consent find_session find_user
    oauth_policy save_authorization_code save_authz_transaction session_active session_by_id
    session_with_id authorize_guarded authorize_silent authorize_start bound_transaction
    browser_binding fail new_transaction signed_in silent_params current_principal kept_scopes
    offline_allowed prompt_guard requested_max_age scopes_supported unsupported_prompt
    consent_covers has_valid_consent mint_code mint_code_transaction mint_code_tx minted_code
    minting_session recheck_consent session_fresh challenge_pattern validate_code_challenge
    code_redirect error_redirect set_if find_first fields is_alphanumeric join_texts parse_natural
    all for_each keep put remove values begun_state
begun = refl

abbrev silent_form : Form
silent_form = ("prompt", "none") ∷ request_form

unfoldable silent_state : FileState
silent_state = second_part (
    authorize sample_crypto sample_config any_uri one_state browser (parsed silent_form)
      signed_in_state)

abbrev silent_redirect : Redirect
silent_redirect = record {
  to = "https://rp.example/cb";
  parameters = ("code", "code") ∷ ("state", "st") ∷ [];
}

silent :
    authorize sample_crypto sample_config any_uri one_state browser
      (parsed silent_form)
      signed_in_state
    ≡ (code_sent false silent_redirect, silent_state)
unfolding authorize authorize_form ◌==◌ trim_space get find_client runtime_client audit_metadata
    list contains text any authorize_client first_fault request_guards valid_code_response_mode
    grant_guards from_unix_nano unix_nano consent_id audit_reasons authenticate principal
    prune_families prune_family prune_oidc_state clone_user find_consent find_session find_user
    oauth_policy save_authorization_code save_authz_transaction session_active session_by_id
    session_with_id authorize_guarded authorize_silent authorize_start bound_transaction
    browser_binding fail new_transaction signed_in silent_params current_principal kept_scopes
    offline_allowed prompt_guard requested_max_age scopes_supported unsupported_prompt
    consent_covers has_valid_consent mint_code mint_code_transaction mint_code_tx minted_code
    minting_session recheck_consent session_fresh challenge_pattern validate_code_challenge
    code_redirect error_redirect set_if find_first fields is_alphanumeric join_texts parse_natural
    all for_each keep put remove values silent_state
silent = refl

authorize-GoesTo_example :
    ((text : String) × (authorize sample_crypto sample_config any_uri one_state browser
          (parsed silent_form)
          signed_in_state
        ≡ (error_page text, signed_in_state)))
    ⊎ ((form : Form) × (c : ClientRecord) × (parsed silent_form ≡ parsed form)
        × IsKnown one_state form c
        × GoesTo
            (form_get form "redirect_uri")
            (authorize sample_crypto sample_config any_uri one_state browser
              (parsed silent_form)
              signed_in_state).0)
authorize-GoesTo_example =
    authorize-GoesTo sample_crypto sample_config any_uri one_state browser signed_in_state
      (parsed silent_form)

authorize-IsSilent_example :
    (form : Form) × (c : ClientRecord) × (age : Option ℕ) × (p : Principal) × (parsed silent_form
      ≡ parsed form)
    × IsAccepted sample_config one_state form c age
    × (contains (requested_prompts form) "none" ≡ true)
    × (signed_in sample_crypto one_state browser
          (accepted sample_config form (runtime_client c) (form_get form "redirect_uri") age)
        ≡ some p)
    × IsSilentAnswer sample_crypto sample_config any_uri one_state browser signed_in_state
        (silent_params
          (accepted sample_config form (runtime_client c) (form_get form "redirect_uri") age)
          p)
        silent_redirect
        silent_state
authorize-IsSilent_example =
    authorize-IsSilent sample_crypto sample_config any_uri one_state browser signed_in_state
      (parsed silent_form) silent

continues : ContinuesWith "tx1" "bind" (to_continue "tx1" "bind")
unfolding ContinuesWith
continues = (refl, refl)

authorize-IsBegun_example :
    (form : Form) × (c : ClientRecord) × (age : Option ℕ) × (txn : AuthzTransaction) × (parsed
        request_form
      ≡ parsed form)
    × IsAccepted sample_config one_state form c age
    × (contains (requested_prompts form) "none" ≡ false)
    × IsBegun sample_crypto sample_config one_state browser form
        (accepted sample_config form (runtime_client c) (form_get form "redirect_uri") age)
        "tx1"
        "bind"
        begun_state
        txn
authorize-IsBegun_example =
    authorize-IsBegun sample_crypto sample_config any_uri one_state browser signed_in_state
      (parsed request_form) "tx1" "bind" continues begun
