-- ===== src/Oidc/Interaction/Completing.antt =====
-- What completing a sign-in request has found, and what it answers.
use opened_connect_server.Prelude.{
  Bool-cases, if_true, if_false, ◌<◌, String, ◌≡◌, refl, sym, ap, ◌∙◌, subst, ◌⊎◌, inl, inr, Bool,
  true, false, Option, none, some, List, arith,
}
use opened_connect_server.Clock.{Time, same_time}
use opened_connect_server.Errors.{require-ok, found_or-ok, >>=-ok, ok-injective, Result, ok}
use opened_connect_server.Identity.Records.{User, Session}
use opened_connect_server.Identity.Grants.{AuthzTransaction}
use opened_connect_server.Identity.Metadata.{runtime_client, ClientRecord}
use opened_connect_server.Identity.State.{
  find_user, find_client, find_session, find_authz_transaction, save_authz_transaction, FileState,
}
use opened_connect_server.Oidc.Setup.{Config, Crypto}
use opened_connect_server.Oidc.Redirect.{error_redirect, Redirect}
use opened_connect_server.Oidc.Interaction.{
  has_valid_consent, mint_code_tx, txn_open, session_suits, granted_scopes, record_consent,
  answer_redirect, needs_screen, finish_interaction, claimed_by, interaction_transaction, ScopeInfo,
  FinishParams, Decision, TransactionView, consent_view, complete_view,
}
use opened_connect_server.Oidc.Interaction.Minting.{mint_code_tx-IsMinted, IsMinted}

-- The request is this browser's, open, and continued by a principal who is signed in as it asks.
pub record IsContinued (binding session_hash user_id id : String) (now : Time) (s : FileState)
    (txn : AuthzTransaction) (session : Session) (user : User) (client : ClientRecord)
    : Type 0 where
  pub found : find_authz_transaction s id ≡ some txn
  pub not_revoked : txn.revoked ≡ false
  pub not_consumed : txn.consumed ≡ false
  pub in_time : now < txn.expires_at
  pub binding_same : txn_open txn binding now ≡ true
  pub session_found : find_session s session_hash ≡ some session
  pub signed_in : session_suits txn session user_id now ≡ true
  pub user_found : find_user s session.user_id ≡ some user
  pub user_active : user.active ≡ true
  pub client_found : find_client s txn.client_id ≡ some client
  pub client_compatible : (runtime_client client).compatible ≡ true
  pub client_same : same_time client.updated_at txn.client_updated_at ≡ true

-- what mintCodeTx is called with
abbrev pub finish_params :
    AuthzTransaction → Option Decision → User → Session → ClientRecord → FinishParams
finish_params txn decision user session client = record {
  transaction_id = txn.id;
  session_hash = session.hash;
  max_age = none;
  require_consent = false;
  client = runtime_client client;
  redirect_uri = txn.redirect_uri;
  scopes = granted_scopes txn decision;
  state = txn.state;
  nonce = txn.nonce;
  code_challenge = txn.code_challenge;
  code_challenge_method = txn.code_challenge_method;
  user_id = user.id;
  auth_time = session.auth_time;
}

abbrev pub spent : AuthzTransaction → User → Session → AuthzTransaction
spent txn user session = record (claimed_by txn user session) { consumed = true }

module _ (k : Crypto) (cfg : Config) (parses : String → Bool) (draw : Option String) (now : Time)
    (s : FileState) where
  -- a denial: the request is spent and nothing else is written
  pub record IsDenied (txn : AuthzTransaction) (decision : Option Decision) (user : User)
      (session : Session) (redirect : Redirect) (t : FileState) : Type 0 where
    pub refusal : (d : Decision) × (decision ≡ some d) × (d.approve ≡ false)
    pub sent_to :
        redirect
        ≡ error_redirect parses txn.redirect_uri "access_denied" "The user denied the request."
            txn.state
    pub state_after : t ≡ save_authz_transaction s (spent txn user session)

  -- an approval, given now or before: a code is minted and the request is spent
  pub record IsApproved (txn : AuthzTransaction) (decision : Option Decision) (user : User)
      (session : Session) (client : ClientRecord) (redirect : Redirect) (t : FileState)
      : Type 0 where
    pub base : FileState
    pub consent_given :
        ((decision ≡ none)
          × (has_valid_consent s user.id (runtime_client client) txn.scopes ≡ true))
        ⊎ ((d : Decision) × (decision ≡ some d) × (d.approve ≡ true))
    pub minted :
        IsMinted k cfg draw
          (finish_params txn decision user session client)
          now
          (record_consent txn decision user (runtime_client client) now s)
          redirect
          base
    pub state_after : t ≡ save_authz_transaction base (spent txn user session)

  -- the callback's checks
  pub interaction_transaction-IsContinued :
      (binding session_hash user_id id : String) (decision : Option Decision)
      {y : TransactionView × FileState}
      → interaction_transaction k cfg parses draw binding session_hash user_id id decision now s
        ≡ ok y
      → (txn : AuthzTransaction) × (session : Session) × (user : User) × (client : ClientRecord)
        × IsContinued binding session_hash user_id id now s txn session user client
        × (finish_interaction k cfg parses draw
              (claimed_by txn user session)
              decision
              user
              session
              (runtime_client client)
              now
              s
            ≡ ok y)
  unfolding interaction_transaction txn_open
  interaction_transaction-IsContinued binding session_hash user_id id decision h =
      let (txn, e0, h0) = found_or-ok _ _ _ h in
      let (e1, h1) = require-ok (txn_open txn binding now) _ _ h0 in
      let (session, e2, h2) = found_or-ok _ _ _ h1 in
      let (e3, h3) = require-ok (session_suits txn session user_id now) _ _ h2 in
      let (user, e4, h4) = found_or-ok _ _ _ h3 in
      let (e5, h5) = require-ok user.active _ _ h4 in
      let (client, e6, h6) = found_or-ok _ _ _ h5 in
      let (e7, h7) = require-ok _ _ _ h6 in
      (
        txn,
        session,
        user,
        client,
        record {
          found = e0;
          not_revoked = ground (arith, e1);
          not_consumed = ground (arith, e1);
          in_time = ground (arith, e1);
          binding_same = e1;
          session_found = e2;
          signed_in = e3;
          user_found = e4;
          user_active = e5;
          client_found = e6;
          client_compatible = ground (arith, e7);
          client_same = ground (arith, e7);
        },
        h7,
      )

no_view :
    {name : String} {scopes : List ScopeInfo} {redirect : Redirect} {mode action : String}
    {s t : FileState}
    → ¬ (
        ◌≡◌ {A = Result (TransactionView × FileState)}
          (ok (consent_view name scopes, s))
          (ok (complete_view redirect mode action, t)))
no_view h = cc

complete-injective :
    {redirect redirect' : Redirect} {mode mode' action action' : String} {s t : FileState}
    → ◌≡◌ {A = Result (TransactionView × FileState)}
        (ok (complete_view redirect mode action, s))
        (ok (complete_view redirect' mode' action', t))
    → (redirect ≡ redirect') × (action ≡ action') × (s ≡ t)
complete-injective h = (cc, cc, cc)

module _ (k : Crypto) (cfg : Config) (parses : String → Bool) (draw : Option String) (now : Time)
    (s : FileState) (txn : AuthzTransaction) (user : User) (session : Session)
    (client : ClientRecord) (redirect : Redirect) (mode action : String) (t : FileState) where
  -- the answer of a request that is completed: a denial, or an approval
  abbrev pub IsAnswered : Option Decision → Type 0
  IsAnswered decision =
      (action ≡ txn.redirect_uri)
      × (IsDenied k cfg parses draw now s txn decision user session redirect t
          ⊎ IsApproved k cfg parses draw now s txn decision user session client redirect t)

  -- a request that asks for a screen is not completed
  completed-quiet :
      (decision : Option Decision)
      → finish_interaction k cfg parses draw
          (claimed_by txn user session)
          decision
          user
          session
          (runtime_client client)
          now
          s
        ≡ ok (complete_view redirect mode action, t)
      → needs_screen (claimed_by txn user session) decision user (runtime_client client) s ≡ false
  unfolding finish_interaction
  completed-quiet decision h =
      let screen =
        needs_screen (claimed_by txn user session) decision user (runtime_client client) s in
      elim (Bool-cases screen) [
        | inl asks ↦ absurd (no_view (sym (if_true _ _ _ asks) ∙ h))
        | inr quiet ↦ quiet
      ]

  answered_part :
      (decision : Option Decision)
      → needs_screen (claimed_by txn user session) decision user (runtime_client client) s ≡ false
      → finish_interaction k cfg parses draw
          (claimed_by txn user session)
          decision
          user
          session
          (runtime_client client)
          now
          s
        ≡ ok (complete_view redirect mode action, t)
      → (y : Redirect × FileState) × (answer_redirect k cfg parses draw
            (claimed_by txn user session)
            decision
            user
            session
            (runtime_client client)
            now
            s
          ≡ ok y)
        × (y.0 ≡ redirect)
        × (txn.redirect_uri ≡ action)
        × (save_authz_transaction y.1 (spent txn user session) ≡ t)
  unfolding finish_interaction claimed_by
  answered_part decision quiet h =
      let (y, e, h1) =
        >>=-ok
          (answer_redirect k cfg parses draw (claimed_by txn user session) decision user session
            (runtime_client client) now s)
          _ (sym (if_false _ _ _ quiet) ∙ h) in
      let (a, b, c) = complete-injective h1 in (y, e, a, b, c)

  mint-IsApproved :
      (decision : Option Decision) (y : Redirect × FileState)
      → ((decision ≡ none)
          × (has_valid_consent s user.id (runtime_client client) txn.scopes ≡ true))
        ⊎ ((d : Decision) × (decision ≡ some d) × (d.approve ≡ true))
      → mint_code_tx k cfg draw
          (finish_params txn decision user session client)
          now
          (record_consent txn decision user (runtime_client client) now s)
        ≡ ok y
      → y.0 ≡ redirect
      → save_authz_transaction y.1 (spent txn user session) ≡ t
      → IsApproved k cfg parses draw now s txn decision user session client redirect t
  mint-IsApproved decision y given h e e' = record {
    base = y.1;
    consent_given = given;
    minted =
        subst
          (λ x.
            IsMinted k cfg draw (finish_params txn decision user session client) now
              (record_consent txn decision user (runtime_client client) now s) x y.1)
          e
          (mint_code_tx-IsMinted k cfg (finish_params txn decision user session client) now
            (record_consent txn decision user (runtime_client client) now s) draw h);
    state_after = sym e';
  }

  finish_interaction-IsAnswered :
      (decision : Option Decision)
      → finish_interaction k cfg parses draw
          (claimed_by txn user session)
          decision
          user
          session
          (runtime_client client)
          now
          s
        ≡ ok (complete_view redirect mode action, t)
      → IsAnswered decision
  unfolding answer_redirect needs_screen claimed_by granted_scopes record_consent
  finish_interaction-IsAnswered none h =
      let quiet = completed-quiet none h in
      let covered : has_valid_consent s user.id (runtime_client client) txn.scopes ≡ true =
        ground (arith, quiet) in
      let (y, e, a, b, c) = answered_part none quiet h in
      (sym b, inr (mint-IsApproved none y (inl (refl, covered)) e a c))
  finish_interaction-IsAnswered (some d) h =
      let (y, e, a, b, c) = answered_part (some d) refl h in
      elim (Bool-cases d.approve) [
        | inl agreed ↦ (
          sym b,
          inr (
              mint-IsApproved (some d) y (inr (d, refl, agreed)) (sym (if_true _ _ _ agreed) ∙ e) a
                c),
        )
        | inr declined ↦
            let done = ok-injective (sym (if_false _ _ _ declined) ∙ e) in
            (
              sym b,
              inl (record {
                refusal = (d, refl, declined);
                sent_to = sym a ∙ ap (λ x. x.0) (sym done);
                state_after =
                    sym c
                    ∙ ap (λ x. save_authz_transaction x.1 (spent txn user session)) (sym done);
              }),
            )
      ]

-- A sign-in request is completed only for the browser that began it, while it is open, by an active
-- user who is signed in as freshly as it asks, for a compatible client that has not changed since. The
-- answer goes to the request's redirect URI: a denial that the user chose, which writes no code and no
-- consent; or a code that mintCodeTx has made for the request's own client, user and challenge, where
-- the user has just approved or a stored consent covers every scope asked for. Either way the request
-- is then stored as consumed.
pub interaction_transaction-IsAnswered :
    (k : Crypto) (cfg : Config) (parses : String → Bool) (draw : Option String)
    (binding session_hash user_id id : String) (decision : Option Decision) (now : Time)
    (s : FileState) {redirect : Redirect} {mode action : String} {t : FileState}
    → interaction_transaction k cfg parses draw binding session_hash user_id id decision now s
      ≡ ok (complete_view redirect mode action, t)
    → (txn : AuthzTransaction) × (session : Session) × (user : User) × (client : ClientRecord)
      × IsContinued binding session_hash user_id id now s txn session user client
      × IsAnswered k cfg parses draw now s txn user session client redirect mode action t decision
interaction_transaction-IsAnswered k cfg parses draw binding session_hash user_id id decision now s
      {redirect} {mode} {action} {t} h =
    let (txn, session, user, client, continued, h1) =
      interaction_transaction-IsContinued k cfg parses draw now s binding session_hash user_id id
        decision h in
    (
      txn,
      session,
      user,
      client,
      continued,
      finish_interaction-IsAnswered k cfg parses draw now s txn user session client redirect mode
          action t decision h1,
    )
