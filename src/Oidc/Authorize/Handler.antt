-- ===== src/Oidc/Authorize/Handler.antt =====
-- AuthorizeHandler of oidc/authorize.go.
use Prim.Native.String.{len}
use opened_connect_server.Prelude.{
  eqb, if◌then◌else◌, ◌==◌, ◌<>◌, contains, ℕ, ◌+◌, String, Bool, true, false, not, ◌||◌, Option,
  none, some, ◌++◌,
}
use opened_connect_server.Clock.{Time, unix, from_unix_nano}
use opened_connect_server.Errors.{ok, err}
use opened_connect_server.Identity.Grants.{AuthzTransaction}
use opened_connect_server.Identity.Metadata.{runtime_client, ProtocolClient}
use opened_connect_server.Identity.State.{find_client, save_authz_transaction, FileState}
use opened_connect_server.Identity.Principal.{Principal}
use opened_connect_server.Identity.Pruning.{prune_oidc_state}
use opened_connect_server.Oidc.Texts.{trim_space, join_texts}
use opened_connect_server.Oidc.Setup.{Form, form_get, drawn, Config, Crypto}
use opened_connect_server.Oidc.Params.{session_fresh, ParsedForm, parsed}
use opened_connect_server.Oidc.Redirect.{error_redirect}
use opened_connect_server.Oidc.Interaction.{has_valid_consent, mint_code, FinishParams}
use opened_connect_server.Oidc.Authorize.{
  scopes_supported, current_principal, first_fault, requested_scopes, requested_prompts,
  request_guards, grant_guards, kept_scopes, requested_max_age, Reads, Browser, AuthorizeRequest,
  AuthorizeAnswer, error_page, error_sent, code_sent, to_login, to_continue,
}

-- the principal, where no new sign-in is needed
unfoldable pub signed_in : Crypto → Reads → Browser → AuthorizeRequest → Option Principal
signed_in k reads b q = elim (current_principal k b reads.now reads.session_read) [
  | err e ↦ none
  | ok p ↦
      if contains (requested_prompts q.form) "login"
        || not (session_fresh p.session reads.now q.max_age)
      then none
      else some p
]

-- what a silent request mints
unfoldable pub silent_params : AuthorizeRequest → Principal → FinishParams
silent_params q p = record {
  transaction_id = "";
  session_hash = p.session.hash;
  max_age = q.max_age;
  require_consent = true;
  client = q.client;
  redirect_uri = q.redirect_uri;
  scopes = q.scopes;
  state = form_get q.form "state";
  nonce = form_get q.form "nonce";
  code_challenge = form_get q.form "code_challenge";
  code_challenge_method = form_get q.form "code_challenge_method";
  user_id = p.user.id;
  auth_time = p.session.auth_time;
}

-- `fail(code, description)`
unfoldable pub fail : (String → Bool) → Form → String → String → String → AuthorizeAnswer
fail parses form uri code description =
    error_sent (error_redirect parses uri code description (form_get form "state"))

-- the request with prompt=none
unfoldable pub authorize_silent :
    Crypto
    → Config
    → (String → Bool)
    → Reads
    → Browser
    → AuthorizeRequest
    → FileState
    → AuthorizeAnswer × FileState
unfolding silent_params
authorize_silent k cfg parses reads b q s = elim (signed_in k reads b q) [
  | none ↦
      (fail parses q.form q.redirect_uri "login_required" "The user must sign in to continue.", s)
  | some p ↦
      if has_valid_consent reads.consent_read p.user.id q.client q.scopes
      then (let (redirect, t) =
            mint_code k cfg parses b.draw_code (silent_params q p) reads.now s in
          (code_sent (form_get q.form "response_mode" == "form_post") redirect, t))
      else (
        fail parses q.form q.redirect_uri "consent_required" "The user must approve this request.",
        s,
      )
]

-- the binding that the browser already holds, or the one drawn
unfoldable pub browser_binding : Browser → String → String
browser_binding b drawn = elim b.binding_cookie [
  | none ↦ drawn
  | some value ↦ if eqb (len value) 43 then value else drawn
]

-- the transaction before a session is bound to it
unfoldable pub new_transaction :
    Crypto → Config → Time → AuthorizeRequest → String → String → AuthzTransaction
new_transaction k cfg now q id binding = record {
  op_session_id = "";
  app_session_id = "";
  revoked = false;
  reauthenticate_after = 0;
  id = id;
  client_id = q.client.id;
  redirect_uri = q.redirect_uri;
  scopes = q.scopes;
  state = form_get q.form "state";
  response_mode = form_get q.form "response_mode";
  nonce = form_get q.form "nonce";
  code_challenge = form_get q.form "code_challenge";
  code_challenge_method = form_get q.form "code_challenge_method";
  prompt = requested_prompts q.form;
  max_age = q.max_age;
  login_hint = form_get q.form "login_hint";
  browser_binding_hash = k.hash_token binding;
  user_id = "";
  auth_time = 0;
  client_updated_at = from_unix_nano q.client.updated_at;
  consent_granted = false;
  consumed = false;
  expires_at = now + cfg.transaction_ttl;
  created_at = now;
}

-- ... and with the session, or the time after which the user must sign in
unfoldable pub bound_transaction : Option Principal → Time → AuthzTransaction → AuthzTransaction
bound_transaction p now txn = record txn {
  reauthenticate_after = elim p [ none ↦ now | some v ↦ txn.reauthenticate_after ];
  op_session_id = elim p [ none ↦ txn.op_session_id | some v ↦ v.session.id ];
  user_id = elim p [ none ↦ txn.user_id | some v ↦ v.user.id ];
  auth_time = elim p [ none ↦ txn.auth_time | some v ↦ unix v.session.auth_time ];
}

-- where the browser goes next, with the transaction and the binding cookie
abbrev pub continuation : Option Principal → String → String → AuthorizeAnswer
continuation none id binding = to_login id binding
continuation (some p) id binding = to_continue id binding

-- the request that starts a sign-in transaction
unfoldable pub authorize_start :
    Crypto
    → Config
    → (String → Bool)
    → Reads
    → Browser
    → AuthorizeRequest
    → FileState
    → AuthorizeAnswer × FileState
unfolding new_transaction bound_transaction browser_binding
authorize_start k cfg parses reads b q s = elim b.draw_transaction [
  | none ↦ (no_start, s)
  | some id ↦ elim b.draw_binding [
    | none ↦ (no_start, s)
    | some drawn ↦
        let p = signed_in k reads b q in
        let binding = browser_binding b drawn in
        (
          continuation p id binding,
          save_authz_transaction (prune_oidc_state reads.now s)
              (bound_transaction p reads.now (new_transaction k cfg reads.now q id binding)),
        )
  ]
]
  where
    no_start : AuthorizeAnswer
    no_start =
        fail parses q.form q.redirect_uri "server_error" "Unable to start this sign-in request."

abbrev pub accepted : Config → Form → ProtocolClient → String → Option ℕ → AuthorizeRequest
accepted cfg form client uri age = record {
  form = form;
  client = client;
  redirect_uri = uri;
  scopes = kept_scopes (scopes_supported cfg) (requested_scopes form);
  max_age = age;
}

-- the handler once the guards are passed
unfoldable pub authorize_guarded :
    Crypto
    → Config
    → (String → Bool)
    → Reads
    → Browser
    → Form
    → ProtocolClient
    → String
    → FileState
    → AuthorizeAnswer × FileState
authorize_guarded k cfg parses reads b form client uri s = elim (requested_max_age form client) [
  | none ↦ (fail parses form uri "invalid_request" "max_age must be a non-negative integer.", s)
  | some age ↦
      if contains (requested_prompts form) "none"
      then authorize_silent k cfg parses reads b (accepted cfg form client uri age) s
      else authorize_start k cfg parses reads b (accepted cfg form client uri age) s
]

-- the handler once the client and the redirect URI are known
unfoldable pub authorize_client :
    Crypto
    → Config
    → (String → Bool)
    → Reads
    → Browser
    → Form
    → ProtocolClient
    → String
    → FileState
    → AuthorizeAnswer × FileState
authorize_client k cfg parses reads b form client uri s =
    elim (first_fault
      (request_guards form client ++ grant_guards cfg reads.policy_read form client)) [
        | some g ↦ (fail parses form uri g.code g.description, s)
        | none ↦ authorize_guarded k cfg parses reads b form client uri s
      ]

-- the handler from the parsed form on
unfoldable pub authorize_form :
    Crypto
    → Config
    → (String → Bool)
    → Reads
    → Browser
    → Form
    → FileState
    → AuthorizeAnswer × FileState
authorize_form k cfg parses reads b form s =
    let client_id = trim_space (form_get form "client_id") in
    let uri = form_get form "redirect_uri" in
    if client_id == ""
    then (error_page "A client_id is required.", s)
    else elim (find_client reads.client_read client_id) [
      | none ↦ (error_page "This client is not registered.", s)
      | some c ↦
          let client = runtime_client c in
          if not client.compatible
          then (
            error_page (
                "This client is registered with settings this provider does not support yet: "
                <> join_texts client.incompatibility_reasons "; "),
            s,
          )
          else if not (contains client.redirect_uris uri)
          then (
            error_page "The redirect_uri does not exactly match a URI registered for this client.",
            s,
          )
          else authorize_client k cfg parses reads b form client uri s
    ]

-- func AuthorizeHandler, after the traffic limit
unfoldable pub authorize :
    Crypto
    → Config
    → (String → Bool)
    → Reads
    → Browser
    → ParsedForm
    → FileState
    → AuthorizeAnswer × FileState
authorize k cfg parses reads b (parsed form) s = authorize_form k cfg parses reads b form s
authorize k cfg parses reads b _ s = (
  error_page
      "Use GET query parameters or a form-encoded POST without duplicate, malformed, or oversized parameters.",
  s,
)
