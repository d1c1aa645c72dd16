-- ===== src/Oidc/Inspect/Revoked.antt =====
-- What the revocation endpoint may touch.
use opened_connect_server.Prelude.{
  ◌==◌, ==_iff, ==_refl, Bool-cases, Option-cases, String, ◌≡◌, refl, sym, subst, ◌⊎◌, inl, inr,
  true, none, some, arith,
}
use opened_connect_server.Table.{get-put}
use opened_connect_server.Identity.Grants.{AccessToken, RefreshFamily, RefreshToken}
use opened_connect_server.Identity.Metadata.{ProtocolClient}
use opened_connect_server.Identity.State.{
  find_access_token, find_refresh_family, find_refresh_token, FileState,
}
use opened_connect_server.Identity.Revocation.{
  revoked_token, revoke_access_token, revoke_refresh_family,
}
use opened_connect_server.Oidc.Inspect.{revoke_refresh, revoke_presented}
use opened_connect_server.Oidc.Refresh.Once.{revoke_refresh_family-FamilyEnded, FamilyEnded}

module _ (c : ProtocolClient) (hash : String) (s : FileState) where
  -- Revocation changes the store only for what the client itself holds: it leaves the store as it is, or
  -- the token presented is an access token of the client, and that one token is revoked, or it is a
  -- refresh token of a family of the client, and that family is revoked.
  pub revoke_presented-holder :
      (revoke_presented c hash s ≡ s)
      ⊎ (((t : AccessToken) × (find_access_token s hash ≡ some t)
            × (t.client_id ≡ c.id)
            × (revoke_presented c hash s ≡ revoke_access_token hash s))
          ⊎ ((rt : RefreshToken) × (f : RefreshFamily) × (find_refresh_token s hash ≡ some rt)
              × (find_refresh_family s rt.family_id ≡ some f)
              × (f.client_id ≡ c.id)
              × (revoke_presented c hash s ≡ revoke_refresh_family f.id s)))
  unfolding revoke_presented revoke_refresh
  revoke_presented-holder = elim (Option-cases (find_access_token s hash)) [
    | inr (t, there) ↦ elim (Bool-cases (t.client_id == c.id)) [
      | inl own ↦
          inr (
            inl (t, there, (==_iff t.client_id c.id).0 own, rw (there, own, revoke_presented) refl))
      | inr foreign ↦ inl (rw (there, foreign, revoke_presented) refl)
    ]
    | inl none_found ↦ elim (Option-cases (find_refresh_token s hash)) [
      | inl gone ↦ inl (rw (none_found, gone, revoke_presented, revoke_refresh) refl)
      | inr (rt, there) ↦ elim (Option-cases (find_refresh_family s rt.family_id)) [
        | inl gone ↦ inl (rw (none_found, there, gone, revoke_presented, revoke_refresh) refl)
        | inr (f, family) ↦ elim (Bool-cases (f.client_id == c.id)) [
          | inl own ↦ inr (
              inr (
                rt,
                f,
                there,
                family,
                (==_iff f.client_id c.id).0 own,
                rw (none_found, there, family, own, revoke_presented, revoke_refresh) refl,
              ))
          | inr foreign ↦
              inl (rw (none_found, there, family, foreign, revoke_presented, revoke_refresh) refl)
        ]
      ]
    ]
  ]

  -- Presenting an own access token leaves it revoked.
  pub revoke_presented-own :
      (t : AccessToken)
      → find_access_token s hash ≡ some t
      → t.client_id ≡ c.id
      → find_access_token (revoke_presented c hash s) hash ≡ some (revoked_token t)
  unfolding revoke_presented find_access_token revoke_access_token
  revoke_presented-own t there own = ground (
    arith,
    there,
    (==_iff t.client_id c.id).1 own,
    get-put s.access_tokens hash hash (revoked_token t),
    ==_refl hash,
  )

  -- Presenting an own refresh token ends its family.
  pub revoke_presented-own_refresh :
      (rt : RefreshToken) (f : RefreshFamily)
      → find_access_token s hash ≡ none
      → find_refresh_token s hash ≡ some rt
      → find_refresh_family s rt.family_id ≡ some f
      → f.id ≡ rt.family_id
      → f.client_id ≡ c.id
      → FamilyEnded rt.family_id (revoke_presented c hash s)
  unfolding revoke_presented revoke_refresh
  revoke_presented-own_refresh rt f gone there family keyed own =
      let mine : (f.client_id == c.id) ≡ true = (==_iff f.client_id c.id).1 own in
      rw (gone, there, family, mine, revoke_presented, revoke_refresh)
        (subst (λ x. FamilyEnded rt.family_id (revoke_refresh_family x s)) (sym keyed)
          (revoke_refresh_family-FamilyEnded rt.family_id s f family))
