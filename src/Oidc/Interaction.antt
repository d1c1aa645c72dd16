-- ===== src/Oidc/Interaction.antt =====
-- oidc/interaction.go: how a sign-in request is completed, with a code or a denial. A callback reads
-- the clock once here: `now` stands for each s.Now() that it makes. The URI of a registered client
-- parses, which mintCodeTx takes for granted.
pub mod Minting
pub mod Redeemed
pub mod Completing
pub mod Once
pub mod Tests
use opened_connect_server.Prelude.{
  eqb, if◌then◌else◌, ◌==◌, ◌!=◌, all, contains, ℕ, ◌+◌, String, Bool, true, false, not, ◌&&◌, ◌||◌,
  Option, none, some, List, [], ◌∷◌, map,
}
use opened_connect_server.Clock.{Time, is_zero, before, after, same_time, unix, unix_nano}
use opened_connect_server.Errors.{
  require, ◌>>=◌, ◌>>◌, found_or, not_found, unauthorized, client_policy_changed, Result, ok, err,
}
use opened_connect_server.Table.{get_or}
use opened_connect_server.Identity.Records.{User, Session}
use opened_connect_server.Identity.Grants.{AuthzTransaction, AuthorizationCode, Consent}
use opened_connect_server.Identity.Metadata.{runtime_client, ProtocolClient}
use opened_connect_server.Identity.State.{
  find_user, find_client, find_session, find_authz_transaction, find_consent,
  save_authz_transaction, save_authorization_code, session_active, FileState,
}
use opened_connect_server.Identity.Mutations.{save_consent}
use opened_connect_server.Identity.Pruning.{prune_oidc_state}
use opened_connect_server.Oidc.Setup.{drawn, Config, Crypto}
use opened_connect_server.Oidc.Params.{session_fresh}
use opened_connect_server.Oidc.Redirect.{error_redirect, code_redirect, Redirect}

pub record ScopeInfo : Type 0 where
  pub scope : String
  pub description : String

-- scopeDescriptions[sc]
unfoldable pub scope_description : String → String
scope_description sc =
    get_or
      (("offline_access", "Maintain access when you are not signed in")
        ∷ ("openid", "Confirm your identity")
        ∷ ("profile", "Your name and basic profile information")
        ∷ ("email", "Your email address")
        ∷ ("address", "Your postal address")
        ∷ ("phone", "Your phone number")
        ∷ [])
      sc ""

-- TransactionView, by its status
pub data TransactionView : Type 0 where
  error_view : TransactionView
  consent_view : String → List ScopeInfo → TransactionView
  complete_view : Redirect → String → String → TransactionView

-- func bindingMatches
unfoldable pub binding_matches : AuthzTransaction → String → Bool
binding_matches txn hash = hash != "" && txn.browser_binding_hash == hash

-- func consentCovers
unfoldable pub consent_covers : Consent → ProtocolClient → List String → Bool
consent_covers consent client scopes =
    not consent.revoked
    && (eqb consent.policy_revision client.updated_at && all (contains consent.scopes) scopes)

-- func hasValidConsent
unfoldable pub has_valid_consent : FileState → String → ProtocolClient → List String → Bool
has_valid_consent s user_id client scopes = elim (find_consent s user_id client.id) [
  | none ↦ false
  | some consent ↦ consent_covers consent client scopes
]

pub record FinishParams : Type 0 where
  pub transaction_id : String
  pub session_hash : String
  pub max_age : Option ℕ
  pub require_consent : Bool
  pub client : ProtocolClient
  pub redirect_uri : String
  pub scopes : List String
  pub state : String
  pub nonce : String
  pub code_challenge : String
  pub code_challenge_method : String
  pub user_id : String
  pub auth_time : Time

-- the provider session that the code is bound to, "" without a credential
unfoldable pub minting_session : FinishParams → Time → FileState → Result String
minting_session p now s = if p.session_hash == "" then ok "" else (do
  session ← found_or (find_session s p.session_hash) unauthorized
  require (session_active s session.id now) unauthorized
  ok session.id)

-- the record of a new code
unfoldable pub minted_code :
    Crypto → Config → FinishParams → Time → String → String → Time → AuthorizationCode
minted_code k cfg p now code op_id revised = record {
  op_session_id = op_id;
  app_session_id = "";
  revoked = false;
  created_at = now;
  retain_until = 0;
  hash = k.hash_token code;
  transaction_id = p.transaction_id;
  client_id = p.client.id;
  user_id = p.user_id;
  redirect_uri = p.redirect_uri;
  scopes = p.scopes;
  nonce = p.nonce;
  auth_time = unix p.auth_time;
  code_challenge = p.code_challenge;
  code_challenge_method = p.code_challenge_method;
  client_updated_at = revised;
  consumed = false;
  expires_at = now + cfg.code_ttl;
}

-- func mintCodeTx
unfoldable pub mint_code_tx :
    Crypto
    → Config
    → Option String
    → FinishParams
    → Time
    → FileState
    → Result (Redirect × FileState)
mint_code_tx k cfg draw p now s = do
  user ← found_or (find_user s p.user_id) unauthorized
  require user.active unauthorized
  client ← found_or (find_client s p.client.id) not_found
  require
      (eqb (unix_nano client.updated_at) p.client.updated_at && (runtime_client client).compatible)
      client_policy_changed
  code ← drawn draw
  op_id ← minting_session p now s
  ok (
    code_redirect p.redirect_uri code p.state,
    save_authorization_code (prune_oidc_state now s)
        (minted_code k cfg p now code op_id client.updated_at),
  )

-- the recheck of mintCode where no screen has been shown
unfoldable pub recheck_consent : FinishParams → Time → FileState → Result (Unit {0})
recheck_consent p now s =
    if p.require_consent
    then (do
      session ← found_or (find_session s p.session_hash) unauthorized
      require (session.user_id == p.user_id && session_fresh session now p.max_age) unauthorized
      consent ← found_or (find_consent s p.user_id p.client.id) unauthorized
      require (consent_covers consent p.client p.scopes) unauthorized)
    else ok tt

-- the transaction of mintCode
unfoldable pub mint_code_transaction :
    Crypto
    → Config
    → Option String
    → FinishParams
    → Time
    → FileState
    → Result (Redirect × FileState)
mint_code_transaction k cfg draw p now s = do
  recheck_consent p now s
  mint_code_tx k cfg draw p now s

-- func mintCode
unfoldable pub mint_code :
    Crypto
    → Config
    → (String → Bool)
    → Option String
    → FinishParams
    → Time
    → FileState
    → Redirect × FileState
mint_code k cfg parses draw p now s = elim (mint_code_transaction k cfg draw p now s) [
  | ok (redirect, t) ↦ (redirect, t)
  | err e ↦ (
    error_redirect parses p.redirect_uri "access_denied" "The sign-in request is no longer valid."
        p.state,
    s,
  )
]

-- The user's answer on the consent screen: absent when the browser only asks for the status.
pub record Decision : Type 0 where
  pub approve : Bool
  pub scopes : List String

-- the transaction may be continued by this browser
unfoldable pub txn_open : AuthzTransaction → String → Time → Bool
txn_open txn binding now =
    not txn.revoked
    && (not txn.consumed && (before now txn.expires_at && binding_matches txn binding))

-- the session is the principal's, and was signed in as recently as the transaction asks
unfoldable pub session_suits : AuthzTransaction → Session → String → Time → Bool
session_suits txn session user_id now =
    session.user_id == user_id
    && (not (is_zero session.auth_time)
        && (before now session.expires_at
            && (not (after session.auth_time now)
                && ((if is_zero txn.reauthenticate_after
                      then session_fresh session now txn.max_age
                      else not (before session.auth_time txn.reauthenticate_after))
                    && (txn.user_id == "" || txn.user_id == session.user_id)))))

-- the scopes that the user lets through
unfoldable pub approved_part : List String → List String → List String
approved_part approved [] = []
approved_part approved (sc ∷ scs) =
    let rest = approved_part approved scs in
    if sc != "openid" && contains approved sc then sc ∷ rest else rest

unfoldable pub granted_scopes : AuthzTransaction → Option Decision → List String
unfolding approved_part
granted_scopes txn none = txn.scopes
granted_scopes txn (some d) = "openid" ∷ approved_part d.scopes txn.scopes

-- SaveConsent where the user has just approved
unfoldable pub record_consent :
    AuthzTransaction → Option Decision → User → ProtocolClient → Time → FileState → FileState
record_consent txn none user client now s = s
record_consent txn (some d) user client now s =
    save_consent
      (record {
        id = "";
        user_id = user.id;
        client_id = client.id;
        scopes = granted_scopes txn (some d);
        policy_revision = client.updated_at;
        granted_at = now;
        revoked = false;
      })
      now s

-- the code that an approval mints, or the denial
unfoldable pub answer_redirect :
    Crypto
    → Config
    → (String → Bool)
    → Option String
    → AuthzTransaction
    → Option Decision
    → User
    → Session
    → ProtocolClient
    → Time
    → FileState
    → Result (Redirect × FileState)
unfolding granted_scopes record_consent
answer_redirect k cfg parses draw txn decision user session client now s =
    if elim decision [ none ↦ true | some d ↦ d.approve ]
    then mint_code_tx k cfg draw
        (record {
          transaction_id = txn.id;
          session_hash = session.hash;
          max_age = none;
          require_consent = false;
          client = client;
          redirect_uri = txn.redirect_uri;
          scopes = granted_scopes txn decision;
          state = txn.state;
          nonce = txn.nonce;
          code_challenge = txn.code_challenge;
          code_challenge_method = txn.code_challenge_method;
          user_id = user.id;
          auth_time = session.auth_time;
        })
        now (record_consent txn decision user client now s)
    else ok (
      error_redirect parses txn.redirect_uri "access_denied" "The user denied the request."
          txn.state,
      s,
    )

-- the status is asked for, and the stored consent does not settle it
unfoldable pub needs_screen :
    AuthzTransaction → Option Decision → User → ProtocolClient → FileState → Bool
needs_screen txn none user client s =
    not (has_valid_consent s user.id client txn.scopes) || contains txn.prompt "consent"
needs_screen txn (some d) user client s = false

-- the callback of completeInteraction once the client is known: the screen, or the answer
unfoldable pub finish_interaction :
    Crypto
    → Config
    → (String → Bool)
    → Option String
    → AuthzTransaction
    → Option Decision
    → User
    → Session
    → ProtocolClient
    → Time
    → FileState
    → Result (TransactionView × FileState)
finish_interaction k cfg parses draw txn decision user session client now s =
    if needs_screen txn decision user client s
    then ok (
      consent_view client.id
          (map (λ sc. record { scope = sc; description = scope_description sc }) txn.scopes),
      save_authz_transaction s txn,
    )
    else (do
      answered ← answer_redirect k cfg parses draw txn decision user session client now s
      ok (
        complete_view answered.0 txn.response_mode txn.redirect_uri,
        save_authz_transaction answered.1 (record txn { consumed = true }),
      ))

-- `txn.UserID, txn.AuthTime = ...; txn.OPSessionID = session.ID`
unfoldable pub claimed_by : AuthzTransaction → User → Session → AuthzTransaction
claimed_by txn user session = record txn {
  user_id = user.id;
  auth_time = unix session.auth_time;
  op_session_id = session.id;
}

-- the callback of completeInteraction
unfoldable pub interaction_transaction :
    Crypto
    → Config
    → (String → Bool)
    → Option String
    → String
    → String
    → String
    → String
    → Option Decision
    → Time
    → FileState
    → Result (TransactionView × FileState)
interaction_transaction k cfg parses draw binding session_hash user_id id decision now s = do
  txn ← found_or (find_authz_transaction s id) unauthorized
  require (txn_open txn binding now) unauthorized
  session ← found_or (find_session s session_hash) unauthorized
  require (session_suits txn session user_id now) unauthorized
  user ← found_or (find_user s session.user_id) unauthorized
  require user.active unauthorized
  client ← found_or (find_client s txn.client_id) not_found
  require ((runtime_client client).compatible && same_time client.updated_at txn.client_updated_at)
      client_policy_changed
  finish_interaction k cfg parses draw (claimed_by txn user session) decision user session
      (runtime_client client) now s

-- func completeInteraction: `cookie` is the binding cookie, the principal is a session and its user
unfoldable pub complete_interaction :
    Crypto
    → Config
    → (String → Bool)
    → Option String
    → Option String
    → String
    → String
    → String
    → Option Decision
    → Time
    → FileState
    → TransactionView × FileState
complete_interaction k cfg parses draw cookie session_hash user_id id decision now s = elim cookie [
  | none ↦ (error_view, s)
  | some value ↦
      if value == ""
      then (error_view, s)
      else elim (interaction_transaction k cfg parses draw (k.hash_token value) session_hash user_id
          id decision now s) [ ok (view, t) ↦ (view, t) | err e ↦ (error_view, s) ]
]
