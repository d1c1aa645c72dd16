-- ===== src/Oidc/Inspect/Introspected.antt =====
-- What introspection tells of a token, and to whom.
use opened_connect_server.Prelude.{
  eqb, ◌==◌, ==_iff, Bool-cases, Option-cases, if_true, if_false, contains, String, ◌≡◌, sym, ◌∙◌,
  ◌⊎◌, inl, inr, true, false, not, ◌||◌, none, some, arith,
}
use opened_connect_server.Clock.{Time, unix_nano}
use opened_connect_server.Errors.{found_or-ok, ok-injective, not_found, ok}
use opened_connect_server.Identity.Grants.{AccessToken, RefreshFamily, RefreshToken}
use opened_connect_server.Identity.Metadata.{ClientRecord, ProtocolClient}
use opened_connect_server.Identity.State.{
  find_client, find_access_token, find_refresh_family, find_refresh_token, oauth_policy, FileState,
}
use opened_connect_server.Identity.Active.{access_token_active, refresh_family_active}
use opened_connect_server.Oidc.Setup.{Form, form_get, Config, Crypto}
use opened_connect_server.Oidc.Inspect.{
  access_info, refresh_info, inspect_refresh, inspect_access, introspect, TokenInfo, denied,
  active_token,
}

-- A client that may introspect: stored as it was authenticated, confidential, and allowed by policy.
pub record MayInspect (c : ProtocolClient) (s : FileState) : Type 0 where
  pub current : ClientRecord
  pub stored : find_client s c.id ≡ some current
  pub unchanged : eqb (unix_nano current.updated_at) c.updated_at ≡ true
  pub confidential : (c.token_endpoint_auth_method == "none") ≡ false
  pub allowed : (oauth_policy s c.id).introspection_enabled ≡ true

-- An access token that is told of: stored, active, and of an audience that the client may inspect.
pub record IsAccessTold (cfg : Config) (c : ProtocolClient) (hash : String) (now : Time)
    (s : FileState) (info : TokenInfo) : Type 0 where
  pub token : AccessToken
  pub found : find_access_token s hash ≡ some token
  pub good : access_token_active s token now cfg.resources ≡ true
  pub audience : contains (oauth_policy s c.id).introspection_audiences token.audience ≡ true
  pub told : info ≡ access_info cfg token

-- A refresh token that is told of: unused, of an active family of the client's own.
pub record IsRefreshTold (cfg : Config) (c : ProtocolClient) (hash : String) (now : Time)
    (s : FileState) (info : TokenInfo) : Type 0 where
  pub token : RefreshToken
  pub family : RefreshFamily
  pub found : find_refresh_token s hash ≡ some token
  pub of_family : find_refresh_family s token.family_id ≡ some family
  pub own : family.client_id ≡ c.id
  pub unused : token.consumed ≡ false
  pub good : refresh_family_active s family now ≡ true
  pub audience : contains (oauth_policy s c.id).introspection_audiences family.audience ≡ true
  pub told : info ≡ refresh_info cfg token family

module _ (cfg : Config) (c : ProtocolClient) (hash : String) (now : Time) (s : FileState) where
  inspect_access-told :
      (t : AccessToken) {info : TokenInfo}
      → find_access_token s hash ≡ some t
      → inspect_access cfg (oauth_policy s c.id) t now s ≡ active_token info
      → IsAccessTold cfg c hash now s info
  unfolding inspect_access
  inspect_access-told t there h = record {
    token = t;
    found = there;
    good = ground (arith, h);
    audience = ground (arith, h);
    told = ground (arith, h);
  }

  inspect_refresh-told :
      {info : TokenInfo}
      → inspect_refresh cfg (oauth_policy s c.id) c hash now s ≡ active_token info
      → IsRefreshTold cfg c hash now s info
  unfolding inspect_refresh
  inspect_refresh-told h = elim (Option-cases (find_refresh_token s hash)) [
    | inl gone ↦ absurd (ground (arith, h, gone))
    | inr (rt, there) ↦ elim (Option-cases (find_refresh_family s rt.family_id)) [
      | inl gone ↦ absurd (ground (arith, h, there, gone))
      | inr (f, family) ↦ record {
        token = rt;
        family = f;
        found = there;
        of_family = family;
        own = ground (arith, h, there, family, ==_iff f.client_id c.id);
        unused = ground (arith, h, there, family);
        good = ground (arith, h, there, family);
        audience = ground (arith, h, there, family);
        told = ground (arith, h, there, family);
      }
    ]
  ]

  told_lem :
      {info : TokenInfo}
      → (elim (find_access_token s hash) [
        | none ↦ inspect_refresh cfg (oauth_policy s c.id) c hash now s
        | some t ↦ inspect_access cfg (oauth_policy s c.id) t now s
      ])
        ≡ active_token info
      → IsAccessTold cfg c hash now s info ⊎ IsRefreshTold cfg c hash now s info
  told_lem h = elim (Option-cases (find_access_token s hash)) [
    | inl gone ↦ inr (inspect_refresh-told (rw gone at h))
    | inr (t, there) ↦ inl (inspect_access-told t there (rw there at h))
  ]

-- Introspection tells only a confidential client whose policy allows it, and which is as it was
-- authenticated; only of an active access token of an audience that the policy names, or of an unused
-- token of an active refresh family of the client itself; and it tells of that token's own data.
pub introspect_sound :
    (k : Crypto) (cfg : Config) (form : Form) (c : ProtocolClient) (now : Time) (s : FileState)
    {info : TokenInfo}
    → introspect k cfg form c now s ≡ ok (active_token info)
    → MayInspect c s
      × (IsAccessTold cfg c (k.hash_token (form_get form "token")) now s info
          ⊎ IsRefreshTold cfg c (k.hash_token (form_get form "token")) now s info)
unfolding introspect
introspect_sound k cfg form c now s {info} h =
    let (current, stored, h1) = found_or-ok (find_client s c.id) not_found _ h in
    let told = ok-injective h1 in
    let refused =
      not (eqb (unix_nano current.updated_at) c.updated_at)
      || (c.token_endpoint_auth_method == "none"
          || not (oauth_policy s c.id).introspection_enabled) in
    elim (Bool-cases refused) [
      | inl denies ↦ absurd (let e = sym (if_true refused denied _ denies) ∙ told in cc)
      | inr admits ↦ (
        record {
          current = current;
          stored = stored;
          unchanged = ground (arith, admits);
          confidential = ground (arith, admits);
          allowed = ground (arith, admits);
        },
        told_lem cfg c (k.hash_token (form_get form "token")) now s
            (sym (if_false refused denied _ admits) ∙ told),
      )
    ]
