-- ===== src/Identity/Revocation/Families.antt =====
-- Which refresh families a revocation marks, and the tokens that go with them.
use mathlib.Core.Option
use opened_connect_server.Prelude.{
  if◌then◌else◌, ◌==◌, ==_iff, ==_refl, Bool-cases, Option-cases, &&_true, for_each_inv,
  for_each_same, String, ◌≡◌, refl, ◌∙◌, inl, inr, Bool, true, ◌&&◌, Option, some, arith,
}
use opened_connect_server.Table.{get, get-put, for_each_reaches, any-entry}
use opened_connect_server.Identity.Grants.{AccessToken, RefreshFamily}
use opened_connect_server.Identity.State.{FileState}
use opened_connect_server.Identity.Revocation.{revoke_refresh_family, revoke_families_where}
use opened_connect_server.Identity.Revocation.Tokens.{
  IgnoresMark, TokensRevoked, mark_tokens-TokensRevoked, mark_tokens-keeps,
}

abbrev pub revoked_family : RefreshFamily → RefreshFamily
revoked_family f = record f { revoked = true }

abbrev pub FamilyIgnoresMark : (RefreshFamily → Bool) → Type 0
FamilyIgnoresMark hit = (f : RefreshFamily) → hit (revoked_family f) ≡ hit f

abbrev pub FamiliesRevoked : (RefreshFamily → Bool) → FileState → Type 0
FamiliesRevoked hit s =
    (id : String) (f : RefreshFamily)
    → get s.refresh_families id ≡ some f
    → hit f ≡ true
    → f.revoked ≡ true

pub refresh_families-revoke_refresh_family :
    (id : String) (s : FileState) (j : String)
    → get (revoke_refresh_family id s).refresh_families j ≡ (
        if id == j
        then Option.map revoked_family (get s.refresh_families j)
        else get s.refresh_families j)
unfolding revoke_refresh_family
refresh_families-revoke_refresh_family id s j = elim (Option-cases (get s.refresh_families id)) [
  | inl gone ↦ ground (arith, gone, ==_iff id j)
  | inr (f, there) ↦
      ground (arith, there, ==_iff id j, get-put s.refresh_families id j (revoked_family f))
]

-- the tokens of a stored family
abbrev pub of_family : String → AccessToken → Bool
of_family id t = t.family_id == id

pub revoke_refresh_family-TokensRevoked :
    (id : String) (s : FileState) (f : RefreshFamily)
    → get s.refresh_families id ≡ some f
    → TokensRevoked (of_family id) (revoke_refresh_family id s).access_tokens
unfolding revoke_refresh_family
revoke_refresh_family-TokensRevoked id s f there =
    rw (there, revoke_refresh_family) (mark_tokens-TokensRevoked (of_family id) _ (λ t. refl))

pub revoke_refresh_family-keeps_tokens :
    (id : String) (kept : AccessToken → Bool) (s : FileState)
    → IgnoresMark kept
    → TokensRevoked kept s.access_tokens
    → TokensRevoked kept (revoke_refresh_family id s).access_tokens
unfolding revoke_refresh_family
revoke_refresh_family-keeps_tokens id kept s ignores h =
    elim (Option-cases (get s.refresh_families id)) [
      | inl gone ↦ rw (gone, revoke_refresh_family) h
      | inr (f, there) ↦
          rw (there, revoke_refresh_family) (mark_tokens-keeps (of_family id) _ kept ignores h)
    ]

-- the round of the loop over the families
abbrev family_round : (RefreshFamily → Bool) → String × RefreshFamily → FileState → FileState
family_round hit e t = if hit e.1 then revoke_refresh_family e.0 t else t

module _ (hit : RefreshFamily → Bool) (ignores : FamilyIgnoresMark hit) where
  -- the family under a key passes the test or not, whatever the rounds have marked
  pub hit_at : String → FileState → Option Bool
  hit_at j s = Option.map hit (get s.refresh_families j)

  round-hit_at :
      (j : String) (e : String × RefreshFamily) (s : FileState)
      → hit_at j (family_round hit e s) ≡ hit_at j s
  unfolding hit_at
  round-hit_at j e s = elim (Option-cases (get s.refresh_families j)) [
    | inl gone ↦ ground (arith, gone, refresh_families-revoke_refresh_family e.0 s j)
    | inr (f, there) ↦
        ground (arith, there, ignores f, refresh_families-revoke_refresh_family e.0 s j)
  ]

  pub hit_at-revoke_families_where :
      (s : FileState) (j : String) → hit_at j (revoke_families_where hit s) ≡ hit_at j s
  unfolding revoke_families_where
  hit_at-revoke_families_where s j =
      for_each_same (hit_at j) (family_round hit) (round-hit_at j) s.refresh_families s

  -- the family under one key is gone or revoked
  abbrev MarkedAt : String → FileState → Type 0
  MarkedAt j s = (f : RefreshFamily) → get s.refresh_families j ≡ some f → f.revoked ≡ true

  round-MarkedAt :
      (j : String) (e : String × RefreshFamily) (s : FileState)
      → MarkedAt j s
      → MarkedAt j (family_round hit e s)
  round-MarkedAt j e s marked f there = elim (Option-cases (get s.refresh_families j)) [
    | inl gone ↦ ground (arith, gone, refresh_families-revoke_refresh_family e.0 s j)
    | inr (g, found) ↦
        ground (arith, found, marked g found, refresh_families-revoke_refresh_family e.0 s j)
  ]

  round-marks :
      (j : String) (e : String × RefreshFamily) (s : FileState)
      → (hit e.1 && e.0 == j) ≡ true
      → MarkedAt j (family_round hit e s)
  round-marks j e s p f there = elim (Option-cases (get s.refresh_families j)) [
    | inl gone ↦ ground (arith, gone, refresh_families-revoke_refresh_family e.0 s j)
    | inr (g, found) ↦ ground (arith, found, refresh_families-revoke_refresh_family e.0 s j)
  ]

  marked_after :
      (s : FileState) (j : String) (g : RefreshFamily)
      → get s.refresh_families j ≡ some g
      → hit g ≡ true
      → MarkedAt j (revoke_families_where hit s)
  unfolding revoke_families_where
  marked_after s j g there p =
      for_each_reaches (family_round hit) (λ e. hit e.1 && e.0 == j) (λ t. Unit {0}) (MarkedAt j)
        (λ e t i. tt) (λ e t i m. round-MarkedAt j e t m) (λ e t i q. round-marks j e t q)
        s.refresh_families s tt
        (any-entry _ s.refresh_families j g there (ground (arith, p, ==_refl j)))

  -- A loop over the families revokes all that pass its test.
  pub revoke_families_where-FamiliesRevoked :
      (s : FileState) → FamiliesRevoked hit (revoke_families_where hit s)
  unfolding hit_at
  revoke_families_where-FamiliesRevoked s j f there p =
      elim (Option-cases (get s.refresh_families j)) [
        | inl gone ↦ ground (arith, there, gone, hit_at-revoke_families_where s j)
        | inr (g, found) ↦
            marked_after s j g found
              (ground (arith, there, found, hit_at-revoke_families_where s j)) f there
      ]

  round-keeps_tokens :
      (kept : AccessToken → Bool) (e : String × RefreshFamily) (s : FileState)
      → IgnoresMark kept
      → TokensRevoked kept s.access_tokens
      → TokensRevoked kept (family_round hit e s).access_tokens
  round-keeps_tokens kept e s ign h = elim (Bool-cases (hit e.1)) [
    | inl now_ ↦ rw now_ (revoke_refresh_family-keeps_tokens e.0 kept s ign h)
    | inr skip ↦ rw skip h
  ]

  round-revokes_tokens :
      (j : String) (e : String × RefreshFamily) (s : FileState)
      → hit_at j s ≡ some true
      → (hit e.1 && e.0 == j) ≡ true
      → TokensRevoked (of_family j) (family_round hit e s).access_tokens
  unfolding hit_at
  round-revokes_tokens j e s i q = elim (Option-cases (get s.refresh_families j)) [
    | inl gone ↦ absurd (ground (arith, gone))
    | inr (g, found) ↦
        let p = &&_true (hit e.1) (e.0 == j) q in
        let same : e.0 ≡ j = (==_iff e.0 j).0 p.1 in
        rw (p.0, same) (revoke_refresh_family-TokensRevoked j s g found)
  ]

  -- The access tokens of a family that passes the test are revoked with it.
  pub revoke_families_where-TokensRevoked :
      (s : FileState) (j : String) (g : RefreshFamily)
      → get s.refresh_families j ≡ some g
      → hit g ≡ true
      → TokensRevoked (of_family j) (revoke_families_where hit s).access_tokens
  unfolding revoke_families_where
  revoke_families_where-TokensRevoked s j g there p =
      for_each_reaches (family_round hit) (λ e. hit e.1 && e.0 == j) (λ t. hit_at j t ≡ some true)
        (λ t. TokensRevoked (of_family j) t.access_tokens) (λ e t i. round-hit_at j e t ∙ i)
        (λ e t i m. round-keeps_tokens (of_family j) e t (λ a. refl) m) (round-revokes_tokens j)
        s.refresh_families s (unfold hit_at in ground (arith, there, p))
        (any-entry _ s.refresh_families j g there (ground (arith, p, ==_refl j)))

  pub revoke_families_where-keeps_tokens :
      (kept : AccessToken → Bool) (s : FileState)
      → IgnoresMark kept
      → TokensRevoked kept s.access_tokens
      → TokensRevoked kept (revoke_families_where hit s).access_tokens
  unfolding revoke_families_where
  revoke_families_where-keeps_tokens kept s ign h =
      for_each_inv (λ t. TokensRevoked kept t.access_tokens) (family_round hit)
        (λ e t m. round-keeps_tokens kept e t ign m) s.refresh_families s h
