-- ===== src/Oidc/Exchange/Once.antt =====
-- A code gives tokens once: presented again it withdraws what it gave.
use opened_connect_server.Oidc.Exchange.Given.{
  GivenForCode, revoke_access_tokens_for_code-GivenForCode, prune_oidc_state-GivenForCode,
  TokenWithdrawn, RefreshWithdrawn, token-TokenWithdrawn, family-withdrawn,
  refresh_tokens-revoke_access_tokens_for_code,
}
use opened_connect_server.Prelude.{
  ==_iff, ==_refl, Option-cases, if_true, ◌≡◌, sym, ap, ◌∙◌, subst, ◌⊎◌, inl, inr, true, none, some,
  arith,
}
use opened_connect_server.Clock.{Time}
use opened_connect_server.Errors.{ok-injective, ok}
use opened_connect_server.Table.{get, get-put}
use opened_connect_server.Identity.Records.{User}
use opened_connect_server.Identity.Grants.{
  AuthorizationCode, AccessToken, RefreshFamily, RefreshToken,
}
use opened_connect_server.Identity.State.{
  find_authorization_code, find_refresh_family, find_refresh_token, save_authorization_code,
  save_access_token, FileState,
}
use opened_connect_server.Identity.Revocation.{revoke_access_tokens_for_code}
use opened_connect_server.Identity.Revocation.Holders.{
  code_token, code_family, revoke_access_tokens_for_code-Revoked, Revoked,
}
use opened_connect_server.Identity.WellFormed.{
  IsWellFormed, save_authorization_code-IsWellFormed, save_access_token-IsWellFormed,
}
use opened_connect_server.Oidc.Setup.{Config, Crypto}
use opened_connect_server.Oidc.Exchange.{
  code_access_token, redeem_or_revoke, exchange_code, ExchangeDraws, Issued, CodeRequest, Outcome,
  replayed, issued,
}
use opened_connect_server.Identity.Pruning.Kept.{code_was_stored, refresh_token_was_stored}
use opened_connect_server.Oidc.Exchange.Cases.{exchange_code-IsPresented, redeem_or_revoke-issued}
use opened_connect_server.Oidc.Exchange.Sound.{issue_code_tokens-IsFirstUse, IsFirstUse}
use opened_connect_server.Oidc.Exchange.Writes.{IsGivenOffline}

some_same : {A : Type 0} {a b : A} → some a ≡ some b → a ≡ b
some_same h = cc

module _ (k : Crypto) (cfg : Config) (draws : ExchangeDraws) (r : CodeRequest) (now : Time)
    (s : FileState) (w : IsWellFormed s) {i : Issued} {t : FileState}
    (first : exchange_code k cfg draws r now s ≡ ok (issued i, t)) where
  -- the state of the final writes
  written : {c : AuthorizationCode} {u : User} → IsFirstUse k cfg r c u now s i t → FileState
  written {c} {u} f =
      save_access_token (save_authorization_code f.base f.stored)
        (code_access_token k cfg r c u i.access_token f.sid f.family_id now)

  written-IsWellFormed :
      {c : AuthorizationCode} {u : User} (f : IsFirstUse k cfg r c u now s i t)
      → IsWellFormed (written f)
  unfolding written
  written-IsWellFormed f =
      save_access_token-IsWellFormed (save_authorization_code-IsWellFormed (f.quiet.1 w) f.stored) _

  after_first :
      (c : AuthorizationCode) × (u : User) × (find_authorization_code s (k.hash_token r.code)
        ≡ some c)
      × IsFirstUse k cfg r c u now s i t
  after_first =
      let (c, current, p, h1) = exchange_code-IsPresented k cfg draws r now s first in
      let (u, redeemable, h2) = redeem_or_revoke-issued k cfg draws r now s c current p h1 in
      (c, u, p.found, issue_code_tokens-IsFirstUse k cfg draws r now s c u h2)

  -- the code is stored as used, if it is stored at all
  pub code_used :
      (d : AuthorizationCode)
      → find_authorization_code t (k.hash_token r.code) ≡ some d
      → d.consumed ≡ true
  unfolding find_authorization_code written save_authorization_code save_access_token
  code_used d there =
      let (c, u, found, f) = after_first in
      let at_t =
        subst (λ x. get x.authorization_codes (k.hash_token r.code) ≡ some d) f.state_after there in
      let kept =
        code_was_stored now (written f) (k.hash_token r.code) (written-IsWellFormed f).codes at_t in
      let same : f.stored.hash ≡ k.hash_token r.code =
        f.same_hash ∙ w.codes.keyed (k.hash_token r.code) c found in
      ground (
        arith,
        kept,
        get-put f.base.authorization_codes f.stored.hash (k.hash_token r.code) f.stored,
        ==_iff f.stored.hash (k.hash_token r.code),
        same,
        f.used,
      )

  -- what is given for a refresh token with the exchange
  abbrev Offline : {c : AuthorizationCode} {u : User} → IsFirstUse k cfg r c u now s i t → Type 0
  Offline {c} f = IsGivenOffline k c.hash i.refresh_token f.family_id f.base

  written-GivenForCode :
      {c : AuthorizationCode} {u : User} (f : IsFirstUse k cfg r c u now s i t)
      → c.hash ≡ k.hash_token r.code
      → GivenForCode
          (Offline f)
          (k.hash_token r.code)
          (k.hash_token i.access_token)
          f.family_id
          (written f)
  unfolding written save_access_token save_authorization_code code_access_token
  written-GivenForCode {c} {u} f same =
      let key = k.hash_token i.access_token in
      let token : AccessToken =
        code_access_token k cfg r c u i.access_token f.sid f.family_id now in
      (
        λ a there.
            ap (λ (x : AccessToken). x.code_hash)
              (some_same (
                sym there
                ∙ (get-put f.base.access_tokens key key token ∙ if_true _ _ _ (==_refl key)))),
        λ o x there.
            ap (λ (y : RefreshFamily). y.code_hash) (some_same (sym there ∙ o.family_stored))
            ∙ (o.family_code ∙ same),
      )

  after-GivenForCode :
      {c : AuthorizationCode} {u : User} (f : IsFirstUse k cfg r c u now s i t)
      → c.hash ≡ k.hash_token r.code
      → GivenForCode (Offline f) (k.hash_token r.code) (k.hash_token i.access_token) f.family_id t
  unfolding written
  after-GivenForCode f same =
      subst
        (GivenForCode (Offline f) (k.hash_token r.code) (k.hash_token i.access_token) f.family_id)
        (sym f.state_after)
        (prune_oidc_state-GivenForCode (Offline f) (k.hash_token r.code)
          (k.hash_token i.access_token) f.family_id now (written f) (written-IsWellFormed f).tokens
          (written-GivenForCode f same))

  -- the refresh token that is found later is of the family that was stored for it
  refresh_family_same :
      {c : AuthorizationCode} {u : User} (f : IsFirstUse k cfg r c u now s i t)
      → Offline f
      → (d : RefreshToken) → get t.refresh_tokens (k.hash_token i.refresh_token) ≡ some d
      → d.family_id ≡ f.family_id
  unfolding written save_access_token save_authorization_code
  refresh_family_same f o d there =
      let key = k.hash_token i.refresh_token in
      let at_writes =
        refresh_token_was_stored now (written f) key (written-IsWellFormed f).refreshes
          (subst (λ x. get x.refresh_tokens key ≡ some d) f.state_after there) in
      ap (λ (x : RefreshToken). x.family_id) (some_same (sym at_writes ∙ o.token_stored))
      ∙ o.token_family

  -- after a revocation for the code, what was given for it is withdrawn
  given_withdrawn :
      (v : FileState)
      → revoke_access_tokens_for_code (k.hash_token r.code) t ≡ v
      → TokenWithdrawn (k.hash_token i.access_token) v
        × ((i.refresh_token ≡ "") ⊎ RefreshWithdrawn (k.hash_token i.refresh_token) v)
  unfolding find_refresh_token find_authorization_code
  given_withdrawn v reached =
      let hash = k.hash_token r.code in
      let key = k.hash_token i.access_token in
      let (c, u, found, f) = after_first in
      let same = w.codes.keyed hash c found in
      let revoked =
        subst (Revoked (code_token hash) (code_family hash)) reached
          (revoke_access_tokens_for_code-Revoked hash t) in
      let given = subst (GivenForCode (Offline f) hash key f.family_id) reached (
        revoke_access_tokens_for_code-GivenForCode (Offline f) hash key f.family_id hash t
          (after-GivenForCode f same)) in
      (
        token-TokenWithdrawn (Offline f) hash key f.family_id v revoked given,
        elim f.offline [
          | inl plain ↦ inl plain
          | inr o ↦ inr (elim (Option-cases (get v.refresh_tokens (k.hash_token i.refresh_token))) [
            | inl gone ↦ inl gone
            | inr (d, there) ↦
                let at_t =
                  ap (λ m. get m (k.hash_token i.refresh_token))
                    (sym (refresh_tokens-revoke_access_tokens_for_code hash t)
                      ∙ ap (λ (x : FileState). x.refresh_tokens) reached)
                  ∙ there in
                inr (
                  d,
                  there,
                  subst
                      (λ x.
                        (find_refresh_family v x ≡ none)
                        ⊎ ((g : RefreshFamily) × (find_refresh_family v x ≡ some g)
                            × (g.revoked ≡ true)))
                      (sym (refresh_family_same f o d at_t))
                      (family-withdrawn (Offline f) hash key f.family_id v revoked given o),
                )
          ])
        ],
      )

  -- After an exchange in a well-formed store, whoever presents the same code later, in the state
  -- that it left, gets no tokens: the request fails, or it is met as a replay, after which every
  -- access token and refresh family that is stored with the code's hash is revoked; the access token that the
  -- exchange gave is not stored or is revoked; and the refresh token that it gave, if any, is not
  -- stored or its family is gone or revoked.
  pub exchange_once :
      (draws' : ExchangeDraws) (r' : CodeRequest) (later : Time) {o : Outcome} {v : FileState}
      → r'.code ≡ r.code
      → exchange_code k cfg draws' r' later t ≡ ok (o, v)
      → (o ≡ replayed)
        × Revoked (code_token (k.hash_token r.code)) (code_family (k.hash_token r.code)) v
        × TokenWithdrawn (k.hash_token i.access_token) v
        × ((i.refresh_token ≡ "") ⊎ RefreshWithdrawn (k.hash_token i.refresh_token) v)
  unfolding redeem_or_revoke
  exchange_once draws' r' later same h =
      let hash_same : k.hash_token r'.code ≡ k.hash_token r.code = ap k.hash_token same in
      let (d, current, p, h1) = exchange_code-IsPresented k cfg draws' r' later t h in
      let used : d.consumed ≡ true =
        code_used d (subst (λ x. find_authorization_code t x ≡ some d) hash_same p.found) in
      let done = ok-injective (sym (if_true d.consumed _ _ used) ∙ h1) in
      let reached =
        ap (λ x. revoke_access_tokens_for_code x t) (sym hash_same) ∙ ap (λ x. x.1) done in
      let (token, refresh) = given_withdrawn _ reached in
      (
        sym (ap (λ x. x.0) done),
        subst (Revoked _ _) reached (revoke_access_tokens_for_code-Revoked (k.hash_token r.code) t),
        token,
        refresh,
      )
