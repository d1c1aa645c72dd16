-- ===== src/Oidc/Inspect/Sound.antt =====
-- What introspection and UserInfo disclose, and what revocation may touch.
use opened_connect_server.Prelude.{
  ==_iff, Option-cases, contains, String, ◌≡◌, subst, inl, inr, true, some, arith,
}
use opened_connect_server.Clock.{Time}
use opened_connect_server.Identity.Records.{Profile, User}
use opened_connect_server.Identity.Grants.{AccessToken}
use opened_connect_server.Identity.State.{find_user, find_access_token, FileState}
use opened_connect_server.Identity.Active.{access_token_active}
use opened_connect_server.Oidc.Setup.{Config, Crypto}
use opened_connect_server.Oidc.Inspect.{user_info}

-- A token for which UserInfo answers, and whose profile it gives.
pub record IsDisclosable (k : Crypto) (cfg : Config) (token : String) (now : Time) (s : FileState)
    (t : AccessToken) (u : User) : Type 0 where
  pub found : find_access_token s (k.hash_token token) ≡ some t
  pub good : access_token_active s t now cfg.resources ≡ true
  pub for_user_info : t.audience ≡ "userinfo"
  pub open_id : contains t.scopes "openid" ≡ true
  pub owner : find_user s t.user_id ≡ some u
  pub owner_active : u.active ≡ true

-- UserInfo discloses a profile only for a stored access token that is active, is meant for UserInfo
-- and has the scope `openid`, and then it is the profile of the token's own user, who is active.
pub user_info_sound :
    (k : Crypto) (cfg : Config) (token : String) (now : Time) (s : FileState) {t : AccessToken}
    {p : Profile}
    → user_info k cfg token now s ≡ some (t, p)
    → (u : User) × IsDisclosable k cfg token now s t u × (p ≡ u.profile)
unfolding user_info
user_info_sound k cfg token now s {t} {p} h =
    elim (Option-cases (find_access_token s (k.hash_token token))) [
      | inl gone ↦ absurd (ground (arith, gone))
      | inr (rec, there) ↦ elim (Option-cases (find_user s rec.user_id)) [
        | inl gone ↦ absurd (ground (arith, there, gone))
        | inr (u, owner) ↦
            let same : rec ≡ t = ground (arith, there, owner) in
            (
              u,
              subst (λ x. IsDisclosable k cfg token now s x u) same
                  (record {
                    found = there;
                    good = ground (arith, there, owner);
                    for_user_info = ground (arith, there, owner, ==_iff rec.audience "userinfo");
                    open_id = ground (arith, there, owner);
                    owner = owner;
                    owner_active = ground (arith, there, owner);
                  }),
              ground (arith, there, owner),
            )
      ]
    ]
