-- ===== src/Oidc/Exchange/Cases.antt =====
-- What a code exchange that does not fail has found, step by step.
use opened_connect_server.Prelude.{
  ==_iff, Bool-cases, if_false, ◌<◌, ◌≡◌, sym, ◌∙◌, inl, inr, true, false, some, arith,
}
use opened_connect_server.Clock.{Time, before}
use opened_connect_server.Errors.{require-ok, found_or-ok, invalid_grant, ok}
use opened_connect_server.Identity.Records.{User}
use opened_connect_server.Identity.Grants.{AuthorizationCode}
use opened_connect_server.Identity.Metadata.{ClientRecord}
use opened_connect_server.Identity.State.{
  find_user, find_client, find_authorization_code, FileState,
}
use opened_connect_server.Identity.Revocation.{revoke_access_tokens_for_code}
use opened_connect_server.Oidc.Setup.{Config, Crypto}
use opened_connect_server.Oidc.Pkce.{verify_pkce}
use opened_connect_server.Oidc.Exchange.{
  code_bound, client_unchanged, issue_code_tokens, redeem, redeem_or_revoke, exchange_code,
  ExchangeDraws, Issued, CodeRequest, Outcome, replayed, issued,
}

-- A code that is stored, and is bound to the request, whose client has not changed.
pub record IsPresented (k : Crypto) (r : CodeRequest) (s : FileState) (c : AuthorizationCode)
    (current : ClientRecord) : Type 0 where
  pub found : find_authorization_code s (k.hash_token r.code) ≡ some c
  pub not_revoked : c.revoked ≡ false
  pub same_client : c.client_id ≡ r.client.id
  pub same_redirect : c.redirect_uri ≡ r.redirect_uri
  pub proof_of_possession : verify_pkce k r.verifier c.code_challenge ≡ true
  pub client_stored : find_client s r.client.id ≡ some current
  pub client_same : client_unchanged r.client c current ≡ true

-- ... and that is good for tokens.
pub record IsRedeemable (k : Crypto) (r : CodeRequest) (now : Time) (s : FileState)
    (c : AuthorizationCode) (current : ClientRecord) (u : User) : Type 0 where
  pub presented : IsPresented k r s c current
  pub open presented use *
  pub unused : c.consumed ≡ false
  pub in_time : now < c.expires_at
  pub owner : find_user s c.user_id ≡ some u
  pub owner_active : u.active ≡ true

module _ (k : Crypto) (cfg : Config) (draws : ExchangeDraws) (r : CodeRequest) (now : Time)
    (s : FileState) where
  bound_parts :
      (c : AuthorizationCode) (current : ClientRecord)
      → find_authorization_code s (k.hash_token r.code) ≡ some c
      → code_bound k r c ≡ true
      → find_client s r.client.id ≡ some current
      → client_unchanged r.client c current ≡ true
      → IsPresented k r s c current
  unfolding code_bound
  bound_parts c current there bound stored same = record {
    found = there;
    not_revoked = ground (arith, bound);
    same_client = ground (arith, bound, ==_iff c.client_id r.client.id);
    same_redirect = ground (arith, bound, ==_iff c.redirect_uri r.redirect_uri);
    proof_of_possession = ground (arith, bound);
    client_stored = stored;
    client_same = same;
  }

  pub exchange_code-IsPresented :
      {y : Outcome × FileState}
      → exchange_code k cfg draws r now s ≡ ok y
      → (c : AuthorizationCode) × (current : ClientRecord) × IsPresented k r s c current
        × (redeem_or_revoke k cfg draws r c now s ≡ ok y)
  unfolding exchange_code
  exchange_code-IsPresented h =
      let (c, there, h1) = found_or-ok _ _ _ h in
      let (bound, h2) = require-ok _ _ _ h1 in
      let (current, stored, h3) = found_or-ok _ _ _ h2 in
      let (same, h4) = require-ok _ _ _ h3 in
      (c, current, bound_parts c current there bound stored same, h4)

  redeem-parts :
      (c : AuthorizationCode) (current : ClientRecord) {y : Outcome × FileState}
      → IsPresented k r s c current
      → c.consumed ≡ false
      → redeem k cfg draws r c now s ≡ ok y
      → (u : User) × IsRedeemable k r now s c current u
        × (issue_code_tokens k cfg draws r c u now s ≡ ok y)
  unfolding redeem
  redeem-parts c current p fresh h =
      let (timely, h1) = require-ok (before now c.expires_at) invalid_grant _ h in
      let (u, there, h2) = found_or-ok _ _ _ h1 in
      let (alive, h3) = require-ok _ _ _ h2 in
      (
        u,
        record {
          presented = p;
          unused = fresh;
          in_time = ground (arith, timely);
          owner = there;
          owner_active = alive;
        },
        h3,
      )

  pub redeem_or_revoke-issued :
      (c : AuthorizationCode) (current : ClientRecord) {i : Issued} {t : FileState}
      → IsPresented k r s c current
      → redeem_or_revoke k cfg draws r c now s ≡ ok (issued i, t)
      → (u : User) × IsRedeemable k r now s c current u
        × (issue_code_tokens k cfg draws r c u now s ≡ ok (issued i, t))
  redeem_or_revoke-issued c current p h = elim (Bool-cases c.consumed) [
    | inl used ↦ absurd (unfold redeem_or_revoke in ground (arith, used))
    | inr fresh ↦
        redeem-parts c current p fresh
          (unfold redeem_or_revoke in sym (if_false c.consumed _ _ fresh) ∙ h)
  ]

  pub redeem_or_revoke-replayed :
      (c : AuthorizationCode) {t : FileState}
      → redeem_or_revoke k cfg draws r c now s ≡ ok (replayed, t)
      → c.consumed ≡ true
      → t ≡ revoke_access_tokens_for_code (k.hash_token r.code) s
  unfolding redeem_or_revoke
  redeem_or_revoke-replayed c h used = ground (arith, used)
