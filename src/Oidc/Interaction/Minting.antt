-- ===== src/Oidc/Interaction/Minting.antt =====
-- A code is minted only while its user, client and session stand, and its client can redeem it.
use opened_connect_server.Identity.Grants.{AuthorizationCode}
use opened_connect_server.Prelude.{
  ◌==◌, ==_iff, ==_refl, Bool-cases, if_true, if_false, ◌+◌, String, ◌≡◌, refl, sym, ap, ◌∙◌, ◌⊎◌,
  inl, inr, true, false, Option, some, arith,
}
use opened_connect_server.Clock.{Time, unix, unix_nano}
use opened_connect_server.Errors.{
  require-ok, found_or-ok, >>=-ok, ok-injective, unauthorized, client_policy_changed, ok,
}
use opened_connect_server.Identity.Records.{User, Session}
use opened_connect_server.Identity.Metadata.{runtime_client, ClientRecord}
use opened_connect_server.Identity.State.{
  find_user, find_client, find_session, find_authorization_code, save_authorization_code,
  session_active, FileState,
}
use opened_connect_server.Identity.Pruning.{prune_oidc_state}
use opened_connect_server.Oidc.Setup.{Config, Crypto}
use opened_connect_server.Oidc.Redirect.{code_redirect, Redirect}
use opened_connect_server.Oidc.Interaction.{
  minting_session, minted_code, mint_code_tx, FinishParams,
}
use opened_connect_server.Table.{get-put}

-- The stored code is the request's own: each field that the exchange compares.
pub record IsBoundTo (k : Crypto) (cfg : Config) (p : FinishParams) (now : Time) (code : String)
    (op_id : String) (client : ClientRecord) (c : AuthorizationCode) : Type 0 where
  pub same_hash : c.hash ≡ k.hash_token code
  pub same_transaction : c.transaction_id ≡ p.transaction_id
  pub same_client : c.client_id ≡ p.client.id
  pub same_user : c.user_id ≡ p.user_id
  pub same_uri : c.redirect_uri ≡ p.redirect_uri
  pub same_scopes : c.scopes ≡ p.scopes
  pub same_nonce : c.nonce ≡ p.nonce
  pub same_auth_time : c.auth_time ≡ unix p.auth_time
  pub same_challenge : c.code_challenge ≡ p.code_challenge
  pub same_method : c.code_challenge_method ≡ p.code_challenge_method
  pub same_session : c.op_session_id ≡ op_id
  pub same_revision : c.client_updated_at ≡ client.updated_at
  pub is_unused : (c.consumed ≡ false) × (c.revoked ≡ false)
  pub lasts : c.expires_at ≡ now + cfg.code_ttl

-- What a successful mintCodeTx has found and written.
pub record IsMinted (k : Crypto) (cfg : Config) (draw : Option String) (p : FinishParams)
    (now : Time) (s : FileState) (redirect : Redirect) (t : FileState) : Type 0 where
  pub user : User
  pub client : ClientRecord
  pub code : String
  pub op_id : String
  pub code_drawn : draw ≡ some code
  pub user_found : find_user s p.user_id ≡ some user
  pub user_active : user.active ≡ true
  pub client_found : find_client s p.client.id ≡ some client
  pub revision_same : unix_nano client.updated_at ≡ p.client.updated_at
  pub compatible : (runtime_client client).compatible ≡ true
  pub session_stands :
      ((p.session_hash ≡ "") × (op_id ≡ ""))
      ⊎ ((session : Session) × (find_session s p.session_hash ≡ some session)
          × (session_active s session.id now ≡ true)
          × (op_id ≡ session.id))
  pub sent_to : redirect ≡ code_redirect p.redirect_uri code p.state
  pub stored : AuthorizationCode
  pub code_stored : find_authorization_code t (k.hash_token code) ≡ some stored
  pub bound : IsBoundTo k cfg p now code op_id client stored
  pub state_after :
      t
      ≡ save_authorization_code
          (prune_oidc_state now s)
          (minted_code k cfg p now code op_id client.updated_at)

module _ (k : Crypto) (cfg : Config) (p : FinishParams) (now : Time) (s : FileState) where
  minting_session-stands :
      {op_id : String}
      → minting_session p now s ≡ ok op_id
      → ((p.session_hash ≡ "") × (op_id ≡ ""))
        ⊎ ((session : Session) × (find_session s p.session_hash ≡ some session)
            × (session_active s session.id now ≡ true)
            × (op_id ≡ session.id))
  unfolding minting_session
  minting_session-stands h = elim (Bool-cases (p.session_hash == "")) [
    | inl blank ↦
        inl ((==_iff p.session_hash "").0 blank, sym (ok-injective (sym (if_true _ _ _ blank) ∙ h)))
    | inr given ↦
        let (session, there, h1) =
          found_or-ok (find_session s p.session_hash) unauthorized _
            (sym (if_false _ _ _ given) ∙ h) in
        let (alive, h2) = require-ok (session_active s session.id now) unauthorized _ h1 in
        inr (session, there, alive, sym (ok-injective h2))
  ]

  minted_stored :
      (code op_id : String) (client : ClientRecord)
      → find_authorization_code
          (save_authorization_code
            (prune_oidc_state now s)
            (minted_code k cfg p now code op_id client.updated_at))
          (k.hash_token code)
        ≡ some (minted_code k cfg p now code op_id client.updated_at)
  unfolding find_authorization_code save_authorization_code minted_code
  minted_stored code op_id client =
      get-put (prune_oidc_state now s).authorization_codes (k.hash_token code) (k.hash_token code)
        (minted_code k cfg p now code op_id client.updated_at)
      ∙ if_true _ _ _ (==_refl (k.hash_token code))

  minted_code-IsBoundTo :
      (code op_id : String) (client : ClientRecord)
      → IsBoundTo k cfg p now code op_id client
          (minted_code k cfg p now code op_id client.updated_at)
  unfolding minted_code
  minted_code-IsBoundTo code op_id client = record {
    same_hash = refl;
    same_transaction = refl;
    same_client = refl;
    same_user = refl;
    same_uri = refl;
    same_scopes = refl;
    same_nonce = refl;
    same_auth_time = refl;
    same_challenge = refl;
    same_method = refl;
    same_session = refl;
    same_revision = refl;
    is_unused = (refl, refl);
    lasts = refl;
  }

  -- Minting a code succeeds only for an active user and a compatible client of the revision that was
  -- agreed to, and, where a session is named, while that session is active; it sends the code to the
  -- redirect URI of the request, and what is stored under the code's hash is unused, runs out after the
  -- configured time, and has the client and its revision, the user, the redirect URI, the scopes, the
  -- nonce, the challenge and the session of the request.
  pub mint_code_tx-IsMinted :
      (draw : Option String) {redirect : Redirect} {t : FileState}
      → mint_code_tx k cfg draw p now s ≡ ok (redirect, t)
      → IsMinted k cfg draw p now s redirect t
  unfolding mint_code_tx
  mint_code_tx-IsMinted draw h =
      let (user, there, h1) = found_or-ok _ _ _ h in
      let (alive, h2) = require-ok user.active unauthorized _ h1 in
      let (client, stored, h3) = found_or-ok _ _ _ h2 in
      let (same, h4) = require-ok _ client_policy_changed _ h3 in
      let (code, fresh_code, h5) = found_or-ok draw _ _ h4 in
      let (op_id, session, h6) = >>=-ok (minting_session p now s) _ h5 in
      record {
        user = user;
        client = client;
        code = code;
        op_id = op_id;
        code_drawn = fresh_code;
        user_found = there;
        user_active = alive;
        client_found = stored;
        revision_same = ground (arith, same);
        compatible = ground (arith, same);
        session_stands = minting_session-stands session;
        sent_to = ap (λ x. x.0) (sym (ok-injective h6));
        stored = minted_code k cfg p now code op_id client.updated_at;
        code_stored =
            ap (λ (x : Redirect × FileState). find_authorization_code x.1 (k.hash_token code))
              (sym (ok-injective h6))
            ∙ minted_stored code op_id client;
        bound = minted_code-IsBoundTo code op_id client;
        state_after = ap (λ x. x.1) (sym (ok-injective h6));
      }
