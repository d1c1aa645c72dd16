-- ===== src/Oidc/Exchange/Given.antt =====
-- What an exchange gives carries the code's hash, which is how a replay finds it.
use opened_connect_server.Identity.Revocation.Tokens.{get-mark_tokens}
use opened_connect_server.Identity.Pruning.Kept.{retain-some, access_tokens-prune_oidc_state}
use opened_connect_server.Clock.{Time, before, after}
use opened_connect_server.Identity.Revocation.Holders.{code_token, code_family, Revoked}
use opened_connect_server.Table.{get, put, get-put, get-remove, IsKeyed}
use opened_connect_server.Identity.State.{
  find_access_token, find_refresh_family, find_refresh_token, FileState,
}
use opened_connect_server.Identity.Grants.{AccessToken, RefreshFamily, RefreshToken}
use opened_connect_server.Identity.Pruning.{prune_family, prune_families, prune_oidc_state}
use opened_connect_server.Identity.Revocation.{
  revoke_tokens_where, revoke_refresh_family, revoke_families_where, revoke_access_tokens_for_code,
}
use opened_connect_server.Prelude.{
  if◌then◌else◌, ◌==◌, ==_iff, Bool-cases, Option-cases, for_each_inv, for_each_same, String, ◌≡◌,
  refl, sym, ◌∙◌, ◌⊎◌, inl, inr, Bool, true, false, none, some, arith,
}

-- whatever is stored under a key was given for the code
abbrev pub TokenOfCode : String → String → FileState → Type 0
TokenOfCode hash key s = (a : AccessToken) → get s.access_tokens key ≡ some a → a.code_hash ≡ hash

abbrev pub FamilyOfCode : String → String → FileState → Type 0
FamilyOfCode hash id s =
    (f : RefreshFamily) → get s.refresh_families id ≡ some f → f.code_hash ≡ hash

-- the refresh family is spoken of where one was given
module _ (X : Type 0) (hash key id : String) where
  abbrev pub GivenForCode : FileState → Type 0
  GivenForCode s = TokenOfCode hash key s × (X → FamilyOfCode hash id s)

  revoke_tokens_where-GivenForCode :
      (hit : AccessToken → Bool) (s : FileState)
      → GivenForCode s
      → GivenForCode (revoke_tokens_where hit s)
  revoke_tokens_where-GivenForCode hit s g = (
    λ a there. elim (Option-cases (get s.access_tokens key)) [
      | inl gone ↦ ground (arith, get-mark_tokens hit s.access_tokens key, gone, there)
      | inr (old, stored) ↦
          ground (arith, get-mark_tokens hit s.access_tokens key, stored, there, g.0 old stored)
    ],
    g.1,
  )

  revoked_family-GivenForCode :
      (other : String) (f : RefreshFamily) (s : FileState)
      → get s.refresh_families other ≡ some f
      → GivenForCode s
      → GivenForCode (record s {
        refresh_families = put s.refresh_families other (record f { revoked = true });
      })
  revoked_family-GivenForCode other f s stored g = (
    g.0,
    λ given x there. ground (
      arith,
      there,
      stored,
      get-put s.refresh_families other id (record f { revoked = true }),
      ==_iff other id,
      g.1 given f,
      g.1 given x,
    ),
  )

  revoke_refresh_family-GivenForCode :
      (other : String) (s : FileState)
      → GivenForCode s
      → GivenForCode (revoke_refresh_family other s)
  unfolding revoke_refresh_family
  revoke_refresh_family-GivenForCode other s g =
      elim (Option-cases (get s.refresh_families other)) [
        | inl gone ↦ rw (gone, revoke_refresh_family) g
        | inr (f, there) ↦
            rw (there, revoke_refresh_family)
              (revoke_tokens_where-GivenForCode (λ a. a.family_id == other)
                (record s {
                  refresh_families = put s.refresh_families other (record f { revoked = true });
                })
                (revoked_family-GivenForCode other f s there g))
      ]

  choose_given :
      (b : Bool) (s t : FileState)
      → GivenForCode s
      → GivenForCode t
      → GivenForCode (if b then t else s)
  choose_given true s t gs gt = gt
  choose_given false s t gs gt = gs

  pub revoke_access_tokens_for_code-GivenForCode :
      (other : String) (s : FileState)
      → GivenForCode s
      → GivenForCode (revoke_access_tokens_for_code other s)
  unfolding revoke_access_tokens_for_code revoke_families_where
  revoke_access_tokens_for_code-GivenForCode other s g =
      revoke_tokens_where-GivenForCode (λ a. a.code_hash == other)
        (revoke_families_where (λ f. f.code_hash == other) s)
        (for_each_inv GivenForCode _
          (λ e t h.
            choose_given (e.1.code_hash == other) t (revoke_refresh_family e.0 t) h
              (revoke_refresh_family-GivenForCode e.0 t h))
          s.refresh_families s g)

  family_round :
      (now : Time) (e : String × RefreshFamily) (s : FileState)
      → FamilyOfCode hash id s
      → FamilyOfCode hash id (prune_family now e s)
  unfolding prune_family
  family_round now (other, f) s g = elim (Bool-cases (before now f.retain_until)) [
    | inl stays ↦ rw (stays, prune_family) g
    | inr goes ↦
        rw (goes, prune_family)
          (λ x there. ground (arith, there, get-remove s.refresh_families other id, g x))
  ]

  pub prune_oidc_state-GivenForCode :
      (now : Time) (s : FileState)
      → IsKeyed (λ t. t.hash) s.access_tokens
      → GivenForCode s
      → GivenForCode (prune_oidc_state now s)
  unfolding prune_oidc_state prune_families
  prune_oidc_state-GivenForCode now s keyed g = (
    λ a there. g.0 a (
        retain-some (λ (t : AccessToken). after t.expires_at now) (get s.access_tokens key)
          (sym (access_tokens-prune_oidc_state now s key keyed) ∙ there)),
    λ given.
        for_each_inv (FamilyOfCode hash id) (prune_family now) (family_round now) s.refresh_families
          s (g.1 given),
  )

-- Under the key there is no access token, or a revoked one.
abbrev pub TokenWithdrawn : String → FileState → Type 0
TokenWithdrawn key s =
    (find_access_token s key ≡ none)
    ⊎ ((a : AccessToken) × (find_access_token s key ≡ some a) × (a.revoked ≡ true))

-- Under the key there is no refresh token, or one whose family is gone or revoked.
abbrev pub RefreshWithdrawn : String → FileState → Type 0
RefreshWithdrawn key s =
    (find_refresh_token s key ≡ none)
    ⊎ ((d : RefreshToken) × (find_refresh_token s key ≡ some d)
        × ((find_refresh_family s d.family_id ≡ none)
            ⊎ ((f : RefreshFamily) × (find_refresh_family s d.family_id ≡ some f)
                × (f.revoked ≡ true))))

module _ (X : Type 0) (hash key id : String) (s : FileState)
    (revoked : Revoked (code_token hash) (code_family hash) s)
    (given : GivenForCode X hash key id s) where
  pub token-TokenWithdrawn : TokenWithdrawn key s
  unfolding find_access_token
  token-TokenWithdrawn = elim (Option-cases (get s.access_tokens key)) [
    | inl gone ↦ inl gone
    | inr (a, there) ↦
        inr (a, there, revoked.tokens key a there ((==_iff a.code_hash hash).1 (given.0 a there)))
  ]

  pub family-withdrawn :
      X
      → (find_refresh_family s id ≡ none)
        ⊎ ((f : RefreshFamily) × (find_refresh_family s id ≡ some f) × (f.revoked ≡ true))
  unfolding find_refresh_family
  family-withdrawn offline = elim (Option-cases (get s.refresh_families id)) [
    | inl gone ↦ inl gone
    | inr (f, there) ↦ inr (
      f,
      there,
      revoked.families id f there ((==_iff f.code_hash hash).1 (given.1 offline f there)),
    )
  ]

-- the replay's revocation leaves the refresh tokens themselves
family_refresh_tokens :
    (id : String) (s : FileState) → (revoke_refresh_family id s).refresh_tokens ≡ s.refresh_tokens
unfolding revoke_refresh_family
family_refresh_tokens id s = elim (Option-cases (get s.refresh_families id)) [
  | inl gone ↦ rw (gone, revoke_refresh_family) refl
  | inr (f, there) ↦ rw (there, revoke_refresh_family) refl
]

choose_same :
    (b : Bool) (s t : FileState)
    → t.refresh_tokens ≡ s.refresh_tokens
    → (if b then t else s).refresh_tokens ≡ s.refresh_tokens
choose_same true s t h = h
choose_same false s t h = refl

pub refresh_tokens-revoke_access_tokens_for_code :
    (hash : String) (s : FileState)
    → (revoke_access_tokens_for_code hash s).refresh_tokens ≡ s.refresh_tokens
unfolding revoke_access_tokens_for_code revoke_families_where
refresh_tokens-revoke_access_tokens_for_code hash s =
    for_each_same (λ (t : FileState). t.refresh_tokens) _
      (λ e t.
        choose_same (e.1.code_hash == hash) t (revoke_refresh_family e.0 t)
          (family_refresh_tokens e.0 t))
      s.refresh_families s
