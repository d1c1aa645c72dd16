-- ===== src/Oidc/Exchange/Sound.antt =====
-- Tokens are given for a code that may be redeemed, and are stored with its grant.
use opened_connect_server.Prelude.{String, ◌≡◌, sym, ap, ◌∙◌, subst, ◌⊎◌, true}
use opened_connect_server.Clock.{Time}
use opened_connect_server.Errors.{found_or-ok, >>=-ok, random_failed, signing_failed, Result, ok}
use opened_connect_server.Identity.Records.{User}
use opened_connect_server.Identity.Grants.{AuthorizationCode}
use opened_connect_server.Identity.Metadata.{ClientRecord}
use opened_connect_server.Identity.State.{
  save_authorization_code, save_access_token, session_active, FileState,
}
use opened_connect_server.Identity.Pruning.{prune_oidc_state}
use opened_connect_server.Oidc.Setup.{sign_id_token, Config, Crypto}
use opened_connect_server.Oidc.Exchange.{
  attach_session, offline_part, code_access_token, consumed_code, issue_code_tokens, exchange_code,
  ExchangeDraws, Issued, CodeRequest, Outcome, issued,
}
use opened_connect_server.Oidc.Exchange.Cases.{
  exchange_code-IsPresented, redeem_or_revoke-issued, IsRedeemable,
}
use opened_connect_server.Oidc.Exchange.Writes.{
  IsQuiet, IsQuiet-trans, attach_session-IsAttached, offline_part-IsOffline, offline_part-gives,
  IsGivenOffline,
}

-- The final writes of a first exchange.
pub record IsFirstUse (k : Crypto) (cfg : Config) (r : CodeRequest) (c : AuthorizationCode)
    (u : User) (now : Time) (s : FileState) (i : Issued) (t : FileState) : Type 0 where
  pub base : FileState
  pub stored : AuthorizationCode
  pub sid : String
  pub family_id : String
  pub quiet : IsQuiet s base
  pub same_hash : stored.hash ≡ c.hash
  pub used : stored.consumed ≡ true
  pub offline : (i.refresh_token ≡ "") ⊎ IsGivenOffline k c.hash i.refresh_token family_id base
  pub session_stands : (c.op_session_id ≡ "") ⊎ (session_active s c.op_session_id now ≡ true)
  pub state_after :
      t
      ≡ prune_oidc_state now (
          save_access_token
            (save_authorization_code base stored)
            (code_access_token k cfg r c u i.access_token sid family_id now))

issued-injective :
    {i j : Issued} {s t : FileState}
    → ◌≡◌ {A = Result (Outcome × FileState)} (ok (issued i, s)) (ok (issued j, t))
    → (i ≡ j) × (s ≡ t)
issued-injective h = (cc, cc)

module _ (k : Crypto) (cfg : Config) (draws : ExchangeDraws) (r : CodeRequest) (now : Time)
    (s : FileState) where
  pub issue_code_tokens-IsFirstUse :
      (c : AuthorizationCode) (u : User) {i : Issued} {t : FileState}
      → issue_code_tokens k cfg draws r c u now s ≡ ok (issued i, t)
      → IsFirstUse k cfg r c u now s i t
  unfolding issue_code_tokens
  issue_code_tokens-IsFirstUse c u {i} {t} h =
      let (attached, e0, h1) = >>=-ok (attach_session draws.app_session r.client u c now s) _ h in
      let a = attach_session-IsAttached draws.app_session r.client u c now s e0 in
      let (access, _, h2) = found_or-ok draws.access random_failed _ h1 in
      let (id_token, _, h3) =
        found_or-ok (sign_id_token k cfg r.client u.sub c.nonce c.auth_time now attached.0)
          signing_failed _ h2 in
      let (part, e1, h4) =
        >>=-ok
          (offline_part k cfg draws r.client.id (consumed_code cfg now attached.1) now attached.2) _
          h3 in
      let o =
        offline_part-IsOffline k cfg draws r.client.id (consumed_code cfg now attached.1) now
          attached.2 e1 in
      let done = issued-injective h4 in
      record {
        base = part.3;
        stored = part.2;
        sid = attached.0;
        family_id = part.1;
        quiet = IsQuiet-trans s attached.2 part.3 a.quiet o.quiet;
        same_hash = o.same_hash ∙ a.same_hash;
        used = o.same_use;
        offline =
            subst
              (λ (x : Issued).
                (x.refresh_token ≡ "") ⊎ IsGivenOffline k c.hash x.refresh_token part.1 part.3)
              done.0
              (subst (λ x. (part.0 ≡ "") ⊎ IsGivenOffline k x part.0 part.1 part.3) a.same_hash
                (offline_part-gives k cfg draws r.client.id (consumed_code cfg now attached.1) now
                  attached.2 e1));
        session_stands = a.session_stands;
        state_after =
            sym done.1
            ∙ ap
                (λ (x : Issued). prune_oidc_state now (
                  save_access_token (save_authorization_code part.3 part.2)
                    (code_access_token k cfg r c u x.access_token attached.0 part.1 now)))
                done.0;
      }

  -- Tokens are issued only for a stored code that is unrevoked, unused and in time, presented by the
  -- client and with the redirect URI that it was given for, with a verifier that matches its
  -- challenge, while the client is as it was then, its user is active, and its session, if it
  -- names one, stands.
  pub exchange_sound :
      {i : Issued} {t : FileState}
      → exchange_code k cfg draws r now s ≡ ok (issued i, t)
      → (c : AuthorizationCode) × (current : ClientRecord) × (u : User) × IsRedeemable k r now s c
          current u
        × ((c.op_session_id ≡ "") ⊎ (session_active s c.op_session_id now ≡ true))
  exchange_sound h =
      let (c, current, p, h1) = exchange_code-IsPresented k cfg draws r now s h in
      let (u, redeemable, h2) = redeem_or_revoke-issued k cfg draws r now s c current p h1 in
      (c, current, u, redeemable, (issue_code_tokens-IsFirstUse c u h2).session_stands)
