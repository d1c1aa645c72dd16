-- ===== src/Oidc/Refresh/Sound.antt =====
-- A refresh token is rotated only where it is good, and only once.
use opened_connect_server.Prelude.{
  eqb, if◌then◌else◌, ==_iff, ==_refl, Bool-cases, &&_true, if_true, if_false, all, contains,
  String, ◌≡◌, refl, sym, ap, ◌∙◌, subst, inl, inr, Bool, true, false, not, some, List, [], ◌∷◌,
  arith,
}
use opened_connect_server.Clock.{Time, unix_nano}
use opened_connect_server.Errors.{
  require, ◌>>◌, require-ok, found_or-ok, >>=-ok, ok-injective, random_failed, oauth_failure,
  Result, ok,
}
use opened_connect_server.Identity.Grants.{AccessToken, RefreshFamily, RefreshToken}
use opened_connect_server.Identity.Metadata.{ClientRecord, ProtocolClient}
use opened_connect_server.Identity.State.{
  find_client, find_access_token, find_refresh_family, find_refresh_token, save_access_token,
  save_refresh_family, save_refresh_token, FileState,
}
use opened_connect_server.Identity.Revocation.{revoke_refresh_family}
use opened_connect_server.Identity.Active.{scope_subset, refresh_family_active}
use opened_connect_server.Oidc.Setup.{Form, form_get, form_has, Config, Crypto, TokenResponse}
use opened_connect_server.Identity.Pruning.{prune_oidc_state}
use opened_connect_server.Oidc.Refresh.{
  invalid_refresh, narrowed_scopes, rotation_response, rotation_writes, rotate, asks_other_resource,
  refresh_transaction, RotationDraws, Rotation, reuse_detected, rotated,
}
use opened_connect_server.Oidc.Texts.{join_texts}
use opened_connect_server.Table.{put, get-put}

-- A stored token of the client's own family, presented while the client is as it was authenticated.
pub record IsOwned (k : Crypto) (form : Form) (c : ProtocolClient) (s : FileState)
    (old : RefreshToken) (f : RefreshFamily) : Type 0 where
  pub found : find_refresh_token s (k.hash_token (form_get form "refresh_token")) ≡ some old
  pub family : find_refresh_family s old.family_id ≡ some f
  pub owner : f.client_id ≡ c.id
  pub current :
      (now : ClientRecord) × (find_client s c.id ≡ some now)
      × (eqb (unix_nano now.updated_at) c.updated_at ≡ true)

-- what is left to do once the token is known to be the client's own
abbrev pub owned_part :
    Crypto
    → Config
    → RotationDraws
    → Form
    → ProtocolClient
    → RefreshToken
    → RefreshFamily
    → Time
    → FileState
    → Result (Rotation × FileState)
owned_part k cfg draws form c old f now s =
    if old.consumed then ok (reuse_detected, revoke_refresh_family f.id s) else (do
      require (refresh_family_active s f now) invalid_refresh
      require (not (asks_other_resource form f))
          (oauth_failure "invalid_target" "Refresh cannot change the resource.")
      rotate k cfg draws form c old f now s)

module _ (k : Crypto) (cfg : Config) (draws : RotationDraws) (form : Form) (c : ProtocolClient)
    (now : Time) (s : FileState) where
  pub refresh_transaction-IsOwned :
      {y : Rotation × FileState}
      → refresh_transaction k cfg draws form c now s ≡ ok y
      → (old : RefreshToken) × (f : RefreshFamily) × IsOwned k form c s old f
        × (owned_part k cfg draws form c old f now s ≡ ok y)
  unfolding refresh_transaction
  refresh_transaction-IsOwned h =
      let (old, there, h1) = found_or-ok _ _ _ h in
      let (f, family, h2) = found_or-ok _ _ _ h1 in
      let (owner, h3) = require-ok _ _ _ h2 in
      let (current, stored, h4) = found_or-ok _ _ _ h3 in
      let (same, h5) = require-ok (eqb (unix_nano current.updated_at) c.updated_at) _ _ h4 in
      (
        old,
        f,
        record {
          found = there;
          family = family;
          owner = (==_iff f.client_id c.id).0 owner;
          current = (current, stored, same);
        },
        h5,
      )

contains_tail :
    (x y : String) (ys : List String) → contains ys x ≡ true → contains (y ∷ ys) x ≡ true
unfolding contains
contains_tail x y ys h = ground arith

all_mono :
    (p q : String → Bool) (xs : List String)
    → ((x : String) → p x ≡ true → q x ≡ true)
    → all p xs ≡ true
    → all q xs ≡ true
unfolding all
all_mono p q [] f h = refl
all_mono p q (x ∷ xs) f h = ground (arith, h, f x, all_mono p q xs f)

-- a scope list is part of itself
pub scope_subset_refl : (xs : List String) → scope_subset xs xs ≡ true
unfolding scope_subset all contains
scope_subset_refl [] = refl
scope_subset_refl (x ∷ xs) = ground (
  arith,
  ==_refl x,
  all_mono (contains xs) (contains (x ∷ xs)) xs (λ y. contains_tail y x xs) (scope_subset_refl xs),
)

narrowed_scopes-subset :
    (form : Form) (old : List String) {scopes : List String}
    → narrowed_scopes form old ≡ ok scopes
    → scope_subset scopes old ≡ true
unfolding narrowed_scopes
narrowed_scopes-subset form old {scopes} h = elim (Bool-cases (form_has form "scope")) [
  | inl asks ↦
      let h1 = sym (if_true (form_has form "scope") _ _ asks) ∙ h in
      let (fits, h2) = require-ok _ _ _ h1 in
      subst (λ x. scope_subset x old ≡ true) (ok-injective h2) (&&_true _ _ fits).1
  | inr silent ↦
      subst (λ x. scope_subset x old ≡ true)
        (ok-injective (sym (if_false (form_has form "scope") _ _ silent) ∙ h))
        (scope_subset_refl old)
]

-- What a rotation draws, and the state that it leaves.
pub record IsRotated (k : Crypto) (cfg : Config) (draws : RotationDraws) (form : Form)
    (c : ProtocolClient) (old : RefreshToken) (f : RefreshFamily) (now : Time) (s : FileState)
    (given : TokenResponse) (t : FileState) : Type 0 where
  pub scopes : List String
  pub access : String
  pub next : String
  pub narrower : scope_subset scopes old.scopes ≡ true
  pub drawn_next : draws.next ≡ some next
  pub response : given ≡ rotation_response cfg scopes access next
  pub state_after :
      t ≡ prune_oidc_state now (rotation_writes k cfg c old f scopes access next now s)

-- The tokens of a response are stored for the client and the family with these scopes, and the sweep of
-- what has run out follows.
pub record IsGiven (k : Crypto) (c : ProtocolClient) (f : RefreshFamily) (scopes : List String)
    (now : Time) (given : TokenResponse) (t : FileState) : Type 0 where
  pub before_sweep : FileState
  pub access : AccessToken
  pub refresh : RefreshToken
  pub swept : t ≡ prune_oidc_state now before_sweep
  pub access_stored : find_access_token before_sweep (k.hash_token given.access_token) ≡ some access
  pub access_scopes : access.scopes ≡ scopes
  pub access_owner :
      (access.client_id ≡ c.id)
      × (access.user_id ≡ f.user_id)
      × (access.family_id ≡ f.id)
      × (access.audience ≡ f.audience)
  pub refresh_stored :
      find_refresh_token before_sweep (k.hash_token given.refresh_token) ≡ some refresh
  pub refresh_scopes : refresh.scopes ≡ scopes
  pub refresh_owner : (refresh.family_id ≡ f.id) × (refresh.consumed ≡ false)

rotated_is_no_reuse :
    {given : TokenResponse} {t u : FileState}
    → ¬ (◌≡◌ {A = Result (Rotation × FileState)} (ok (rotated given, t)) (ok (reuse_detected, u)))
rotated_is_no_reuse h = cc

-- The token and the family are good, and the request asks for no other resource.
pub record IsRefreshable (form : Form) (old : RefreshToken) (f : RefreshFamily) (now : Time)
    (s : FileState) : Type 0 where
  pub unused : old.consumed ≡ false
  pub active : refresh_family_active s f now ≡ true
  pub same_resource : asks_other_resource form f ≡ false

module _ (k : Crypto) (cfg : Config) (draws : RotationDraws) (form : Form) (c : ProtocolClient)
    (now : Time) (s : FileState) where
  rotate-IsRotated :
      (old : RefreshToken) (f : RefreshFamily) {given : TokenResponse} {t : FileState}
      → rotate k cfg draws form c old f now s ≡ ok (rotated given, t)
      → IsRotated k cfg draws form c old f now s given t
  unfolding rotate
  rotate-IsRotated old f {given} {t} h =
      let (scopes, narrow, h1) = >>=-ok (narrowed_scopes form old.scopes) _ h in
      let (access, _, h2) = found_or-ok draws.access random_failed _ h1 in
      let (next, there, h3) = found_or-ok draws.next random_failed _ h2 in
      record {
        scopes = scopes;
        access = access;
        next = next;
        narrower = narrowed_scopes-subset form old.scopes narrow;
        drawn_next = there;
        response = cc;
        state_after = cc;
      }

  pub owned_part-rotated :
      (old : RefreshToken) (f : RefreshFamily) {given : TokenResponse} {t : FileState}
      → owned_part k cfg draws form c old f now s ≡ ok (rotated given, t)
      → IsRefreshable form old f now s × IsRotated k cfg draws form c old f now s given t
  owned_part-rotated old f h = elim (Bool-cases old.consumed) [
    | inl used ↦ absurd (ground (arith, used))
    | inr fresh ↦
        let h1 = sym (if_false old.consumed _ _ fresh) ∙ h in
        let (active, h2) = require-ok (refresh_family_active s f now) invalid_refresh _ h1 in
        let (same, h3) = require-ok (not (asks_other_resource form f)) _ _ h2 in
        (
          record { unused = fresh; active = active; same_resource = ground (arith, same) },
          rotate-IsRotated old f h3,
        )
  ]

  rotated-IsGiven :
      (old : RefreshToken) (f : RefreshFamily) (scopes : List String) (access next : String)
      → IsGiven k c f scopes now
          (rotation_response cfg scopes access next)
          (prune_oidc_state now (rotation_writes k cfg c old f scopes access next now s))
  unfolding rotation_writes find_access_token find_refresh_token save_access_token
      save_refresh_token save_refresh_family
  rotated-IsGiven old f scopes access next =
      let written = rotation_writes k cfg c old f scopes access next now s in
      record {
        before_sweep = written;
        access = _;
        refresh = _;
        swept = refl;
        access_stored =
            get-put s.access_tokens (k.hash_token access) (k.hash_token access) _
            ∙ if_true _ _ _ (==_refl (k.hash_token access));
        access_scopes = refl;
        access_owner = (refl, refl, refl, refl);
        refresh_stored =
            get-put (put s.refresh_tokens old.hash (record old { consumed = true }))
              (k.hash_token next) (k.hash_token next) _
            ∙ if_true _ _ _ (==_refl (k.hash_token next));
        refresh_scopes = refl;
        refresh_owner = (refl, refl);
      }

  -- Tokens are given for a refresh token only where it is stored and unused, its family is active and
  -- belongs to the client, which is as it was when it was authenticated, and the request names no
  -- other resource; and then there is a part of the old token's scopes that the response names and with
  -- which the new access token and the new refresh token are stored, for the same client, user,
  -- family and audience, before the sweep of what has run out.
  pub rotation_sound :
      {given : TokenResponse} {t : FileState}
      → refresh_transaction k cfg draws form c now s ≡ ok (rotated given, t)
      → (old : RefreshToken) × (f : RefreshFamily) × (scopes : List String) × IsOwned k form c s old
          f
        × IsRefreshable form old f now s
        × (scope_subset scopes old.scopes ≡ true)
        × (given.scope ≡ join_texts scopes " ")
        × IsGiven k c f scopes now given t
  rotation_sound {given} {t} h =
      let (old, f, owned, h1) = refresh_transaction-IsOwned k cfg draws form c now s h in
      let (good, done) = owned_part-rotated old f h1 in
      (
        old,
        f,
        done.scopes,
        owned,
        good,
        done.narrower,
        ap (λ x. x.scope) done.response,
        subst (IsGiven k c f done.scopes now given) (sym done.state_after) (
            subst (λ x. IsGiven k c f done.scopes now x (state_of done)) (sym done.response)
              (rotated-IsGiven old f done.scopes done.access done.next)),
      )
    where
      state_of :
          {old : RefreshToken} {f : RefreshFamily}
          → IsRotated k cfg draws form c old f now s given t
          → FileState
      state_of {old} {f} done =
          prune_oidc_state now
            (rotation_writes k cfg c old f done.scopes done.access done.next now s)

  -- an unused token is not met as a reuse
  pub owned_part-no_reuse :
      (old : RefreshToken) (f : RefreshFamily) {t : FileState}
      → old.consumed ≡ false
      → ¬ (owned_part k cfg draws form c old f now s ≡ ok (reuse_detected, t))
  unfolding rotate
  owned_part-no_reuse old f fresh h =
      let h1 = sym (if_false old.consumed _ _ fresh) ∙ h in
      let (active, h2) = require-ok (refresh_family_active s f now) invalid_refresh _ h1 in
      let (same, h3) = require-ok (not (asks_other_resource form f)) _ _ h2 in
      let (scopes, narrow, h4) = >>=-ok (narrowed_scopes form old.scopes) _ h3 in
      let (access, _, h5) = found_or-ok draws.access random_failed _ h4 in
      let (next, there, h6) = found_or-ok draws.next random_failed _ h5 in rotated_is_no_reuse h6
