-- ===== src/Identity/Pruning/Kept.antt =====
-- What PruneOIDCState leaves, and what it removes.
use opened_connect_server.Prelude.{
  ◌!=◌, Bool-cases, if_true, if_false, for_each_inv, for_each_same, String, ◌≡◌, refl, sym, ap, ◌∙◌,
  inl, inr, Bool, ◌||◌, Option, none, some, arith,
}
use opened_connect_server.Clock.{Time, before, after}
use opened_connect_server.Table.{
  Table, get, keep, retain, get-keep, keep-IsKeyed, get-keep_was, IsKeyed,
}
use opened_connect_server.Identity.Grants.{
  AuthorizationCode, AccessToken, RefreshFamily, RefreshToken,
}
use opened_connect_server.Identity.State.{FileState}
use opened_connect_server.Identity.Pruning.{prune_family, prune_families, prune_oidc_state}

module _ {ℓ} {B : Type ℓ} (view : FileState → B) (now : Time)
    (ignores : (s : FileState) (f : Table RefreshFamily) (r : Table RefreshToken)
      → view (record s { refresh_families = f; refresh_tokens = r }) ≡ view s) where
  round-same : (e : String × RefreshFamily) (s : FileState) → view (prune_family now e s) ≡ view s
  unfolding prune_family
  round-same (id, f) s = elim (Bool-cases (before now f.retain_until)) [
    | inl stays ↦ ap view (if_true _ _ _ stays)
    | inr goes ↦ ap view (if_false _ _ _ goes) ∙ ignores s _ _
  ]

  pub prune_families-same : (s : FileState) → view (prune_families now s) ≡ view s
  unfolding prune_families
  prune_families-same s = for_each_same view (prune_family now) round-same s.refresh_families s

pub retain-some {ℓ} :
    {V : Type ℓ} (p : V → Bool) (o : Option V) {v : V} → retain p o ≡ some v → o ≡ some v
retain-some p none h = h
retain-some p (some x) h = ground (arith, h)

module _ (now : Time) (s : FileState) where
  codes_before_families : (prune_families now s).authorization_codes ≡ s.authorization_codes
  codes_before_families = prune_families-same (λ t. t.authorization_codes) now (λ t f r. refl) s

  tokens_before_families : (prune_families now s).access_tokens ≡ s.access_tokens
  tokens_before_families = prune_families-same (λ t. t.access_tokens) now (λ t f r. refl) s

  -- A sweep leaves exactly the authorization codes whose time has not run out or which are
  -- retained longer, where each code stands once, under its own hash.
  pub authorization_codes-prune_oidc_state :
      (h : String)
      → IsKeyed (λ c. c.hash) s.authorization_codes
      → get (prune_oidc_state now s).authorization_codes h
        ≡ retain
            (λ c. after c.expires_at now || after c.retain_until now)
            (get s.authorization_codes h)
  unfolding prune_oidc_state
  authorization_codes-prune_oidc_state h w =
      ap
        (λ m.
          get
            (keep (λ (c : AuthorizationCode). after c.expires_at now || after c.retain_until now) m)
            h)
        codes_before_families
      ∙ get-keep _ s.authorization_codes h w.unique

  -- A sweep leaves exactly the access tokens whose time has not run out, where the tokens have unique
  -- keys.
  pub access_tokens-prune_oidc_state :
      (h : String)
      → IsKeyed (λ t. t.hash) s.access_tokens
      → get (prune_oidc_state now s).access_tokens h
        ≡ retain (λ t. after t.expires_at now) (get s.access_tokens h)
  unfolding prune_oidc_state
  access_tokens-prune_oidc_state h w =
      ap (λ m. get (keep (λ (t : AccessToken). after t.expires_at now) m) h) tokens_before_families
      ∙ get-keep _ s.access_tokens h w.unique

  -- what is found afterwards was there before
  pub code_was_stored :
      (h : String) {c : AuthorizationCode}
      → IsKeyed (λ x. x.hash) s.authorization_codes
      → get (prune_oidc_state now s).authorization_codes h ≡ some c
      → get s.authorization_codes h ≡ some c
  code_was_stored h w there =
      retain-some (λ (x : AuthorizationCode). after x.expires_at now || after x.retain_until now)
        (get s.authorization_codes h) (sym (authorization_codes-prune_oidc_state h w) ∙ there)

  -- a refresh token that a sweep of the families leaves was there
  refresh_round :
      (h : String) (t : RefreshToken) (e : String × RefreshFamily) (u : FileState)
      → IsKeyed (λ x. x.hash) u.refresh_tokens
        × (get u.refresh_tokens h ≡ some t → get s.refresh_tokens h ≡ some t)
      → IsKeyed (λ x. x.hash) (prune_family now e u).refresh_tokens
        × (get (prune_family now e u).refresh_tokens h ≡ some t → get s.refresh_tokens h ≡ some t)
  unfolding prune_family
  refresh_round h t (id, f) u (w, earlier) = elim (Bool-cases (before now f.retain_until)) [
    | inl stays ↦ rw (stays, prune_family) (w, earlier)
    | inr goes ↦
        rw (goes, prune_family)
          (
            keep-IsKeyed u.refresh_tokens w (λ x. x.family_id != id),
            λ there. earlier (get-keep_was u.refresh_tokens w (λ x. x.family_id != id) h t there),
          )
  ]

  pub refresh_token_was_stored :
      (h : String) {t : RefreshToken}
      → IsKeyed (λ x. x.hash) s.refresh_tokens
      → get (prune_oidc_state now s).refresh_tokens h ≡ some t
      → get s.refresh_tokens h ≡ some t
  unfolding prune_oidc_state prune_families
  refresh_token_was_stored h {t} w there =
      (for_each_inv
          (λ u.
            IsKeyed (λ x. x.hash) u.refresh_tokens
            × (get u.refresh_tokens h ≡ some t → get s.refresh_tokens h ≡ some t))
          (prune_family now) (refresh_round h t) s.refresh_families s (w, λ x. x)).1
        there
