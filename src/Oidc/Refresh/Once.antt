-- ===== src/Oidc/Refresh/Once.antt =====
-- A refresh token is good once: presented again it ends its family.
use opened_connect_server.Prelude.{
  ◌==◌, ==_refl, if_true, String, ◌≡◌, sym, ap, ◌∙◌, subst, true, false, some, List, arith,
}
use opened_connect_server.Clock.{Time}
use opened_connect_server.Table.{get, put, get-put}
use opened_connect_server.Identity.Grants.{RefreshFamily, RefreshToken}
use opened_connect_server.Identity.Metadata.{ProtocolClient}
use opened_connect_server.Identity.State.{
  find_refresh_family, find_refresh_token, save_access_token, save_refresh_family,
  save_refresh_token, FileState,
}
use opened_connect_server.Identity.Revocation.{revoke_refresh_family}
use opened_connect_server.Identity.Revocation.Tokens.{TokensRevoked}
use opened_connect_server.Identity.Revocation.Families.{
  refresh_families-revoke_refresh_family, of_family, revoke_refresh_family-TokensRevoked,
}
use opened_connect_server.Identity.WellFormed.{
  IsWellFormed, save_access_token-IsWellFormed, save_refresh_family-IsWellFormed,
  save_refresh_token-IsWellFormed, prune_oidc_state-IsWellFormed,
}
use opened_connect_server.Oidc.Setup.{Form, form_get, Config, Crypto, TokenResponse}
use opened_connect_server.Oidc.Refresh.{
  rotation_writes, refresh_transaction, RotationDraws, Rotation, reuse_detected, rotated,
}
use opened_connect_server.Errors.{ok-injective, ok}
use opened_connect_server.Identity.Pruning.Kept.{refresh_token_was_stored}
use opened_connect_server.Oidc.Refresh.Sound.{
  refresh_transaction-IsOwned, owned_part-rotated, IsRotated,
}

-- The family and every access token of it are revoked.
pub record FamilyEnded (id : String) (s : FileState) : Type 0 where
  pub family : (f : RefreshFamily) → find_refresh_family s id ≡ some f → f.revoked ≡ true
  pub tokens : TokensRevoked (of_family id) s.access_tokens

pub revoke_refresh_family-FamilyEnded :
    (id : String) (s : FileState) (f : RefreshFamily)
    → find_refresh_family s id ≡ some f
    → FamilyEnded id (revoke_refresh_family id s)
unfolding find_refresh_family
revoke_refresh_family-FamilyEnded id s f there = record {
  family = λ g found.
      ground (arith, there, found, refresh_families-revoke_refresh_family id s id, ==_refl id);
  tokens = revoke_refresh_family-TokensRevoked id s f there;
}

module _ (k : Crypto) (cfg : Config) (draws : RotationDraws) (form : Form) (c : ProtocolClient)
    (now : Time) (s : FileState) (w : IsWellFormed s) where
  rotation_writes-IsWellFormed :
      (old : RefreshToken) (f : RefreshFamily) (scopes : List String) (access next : String)
      → IsWellFormed (rotation_writes k cfg c old f scopes access next now s)
  unfolding rotation_writes
  rotation_writes-IsWellFormed old f scopes access next =
      save_access_token-IsWellFormed
        (save_refresh_token-IsWellFormed
          (save_refresh_family-IsWellFormed (save_refresh_token-IsWellFormed w _) _) _)
        _

  -- the old token, used up, is what the writes leave under its key
  written_old :
      (old : RefreshToken) (f : RefreshFamily) (scopes : List String) (access next h : String)
      → find_refresh_token s h ≡ some old
      → (k.hash_token next == h) ≡ false
      → get (rotation_writes k cfg c old f scopes access next now s).refresh_tokens h
        ≡ some (record old { consumed = true })
  unfolding rotation_writes save_refresh_token save_refresh_family save_access_token
      find_refresh_token
  written_old old f scopes access next h there distinct = ground (
    arith,
    w.refreshes.keyed h old there,
    ==_refl h,
    distinct,
    get-put (put s.refresh_tokens old.hash (record old { consumed = true })) (k.hash_token next) h
        (record {
          hash = k.hash_token next;
          family_id = f.id;
          scopes = scopes;
          issued_at = now;
          consumed = false;
        }),
    get-put s.refresh_tokens old.hash h (record old { consumed = true }),
  )

  rotated_parts :
      {given : TokenResponse} {t : FileState}
      → refresh_transaction k cfg draws form c now s ≡ ok (rotated given, t)
      → (old : RefreshToken) × (f : RefreshFamily) × (find_refresh_token s
            (k.hash_token (form_get form "refresh_token"))
          ≡ some old)
        × IsRotated k cfg draws form c old f now s given t
  rotated_parts h =
      let (old, f, owned, h1) = refresh_transaction-IsOwned k cfg draws form c now s h in
      (old, f, owned.found, (owned_part-rotated k cfg draws form c now s old f h1).1)

  pub refresh_transaction-IsWellFormed_rotated :
      {given : TokenResponse} {t : FileState}
      → refresh_transaction k cfg draws form c now s ≡ ok (rotated given, t)
      → IsWellFormed t
  refresh_transaction-IsWellFormed_rotated h =
      let (old, f, there, done) = rotated_parts h in
      subst IsWellFormed (sym done.state_after) (
        prune_oidc_state-IsWellFormed now _
          (rotation_writes-IsWellFormed old f done.scopes done.access done.next))

  -- what is found later under the key of the old token is that token, used up
  pub old_token_used :
      {given : TokenResponse} {t : FileState} (d : RefreshToken)
      → refresh_transaction k cfg draws form c now s ≡ ok (rotated given, t)
      → ((next : String)
          → draws.next ≡ some next
          → (k.hash_token next == k.hash_token (form_get form "refresh_token")) ≡ false)
      → find_refresh_token t (k.hash_token (form_get form "refresh_token")) ≡ some d
      → d.consumed ≡ true
  unfolding find_refresh_token
  old_token_used {given} {t} d h fresh there =
      let (old, f, found, done) = rotated_parts h in
      let hash = k.hash_token (form_get form "refresh_token") in
      let kept =
        refresh_token_was_stored now
          (rotation_writes k cfg c old f done.scopes done.access done.next now s) hash
          (rotation_writes-IsWellFormed old f done.scopes done.access done.next).refreshes
          (subst (λ x. get x.refresh_tokens hash ≡ some d) done.state_after there) in
      let written =
        written_old old f done.scopes done.access done.next hash found
          (fresh done.next done.drawn_next) in
      let same : some (record old { consumed = true }) ≡ some d = sym written ∙ kept in
      ground (arith, same)

module _ (k : Crypto) (cfg : Config) (draws : RotationDraws) (form : Form) (c : ProtocolClient)
    (now : Time) (s : FileState) (w : IsWellFormed s) where
  -- After a rotation in a well-formed store, whose new token does not have the hash of the old
  -- one, whoever presents the old token later, in the state that it left, gets no tokens: the
  -- request fails, or the reuse is detected, after which the family of the token presented and
  -- every access token of that family are revoked.
  pub rotation_once :
      {given : TokenResponse} {t : FileState}
      → refresh_transaction k cfg draws form c now s ≡ ok (rotated given, t)
      → ((next : String)
          → draws.next ≡ some next
          → (k.hash_token next == k.hash_token (form_get form "refresh_token")) ≡ false)
      → (draws' : RotationDraws) (form' : Form) (c' : ProtocolClient) (later : Time) {o : Rotation}
        {v : FileState}
      → form_get form' "refresh_token" ≡ form_get form "refresh_token"
      → refresh_transaction k cfg draws' form' c' later t ≡ ok (o, v)
      → (o ≡ reuse_detected)
        × ((d : RefreshToken) × (find_refresh_token t
                (k.hash_token (form_get form' "refresh_token"))
              ≡ some d)
            × FamilyEnded d.family_id v)
  unfolding find_refresh_family
  rotation_once {given} {t} first fresh draws' form' c' later {o} {v} same h =
      let (d, f, owned, h1) = refresh_transaction-IsOwned k cfg draws' form' c' later t h in
      let used : d.consumed ≡ true =
        old_token_used k cfg draws form c now s w d first fresh
          (subst (λ x. find_refresh_token t (k.hash_token x) ≡ some d) same owned.found) in
      let done = ok-injective (sym (if_true d.consumed _ _ used) ∙ h1) in
      let id_same : f.id ≡ d.family_id =
        (refresh_transaction-IsWellFormed_rotated k cfg draws form c now s w first).families.keyed
          d.family_id f owned.family in
      let ended : FamilyEnded d.family_id (revoke_refresh_family f.id t) =
        subst (λ x. FamilyEnded d.family_id (revoke_refresh_family x t)) (sym id_same)
          (revoke_refresh_family-FamilyEnded d.family_id t f owned.family) in
      (
        sym (ap (λ x. x.0) done),
        (d, owned.found, subst (FamilyEnded d.family_id) (ap (λ x. x.1) done) ended),
      )
