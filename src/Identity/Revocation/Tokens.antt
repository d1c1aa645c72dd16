-- ===== src/Identity/Revocation/Tokens.antt =====
-- Which access tokens a revocation marks.
use mathlib.Core.Option
use opened_connect_server.Prelude.{
  if◌then◌else◌, Option-cases, String, ◌≡◌, inl, inr, Bool, true, some, arith,
}
use opened_connect_server.Table.{Table, get, get-map_values}
use opened_connect_server.Identity.Grants.{AccessToken}
use opened_connect_server.Identity.Revocation.{revoked_token, mark_tokens}

-- a test that does not look at the mark
abbrev pub IgnoresMark : (AccessToken → Bool) → Type 0
IgnoresMark hit = (t : AccessToken) → hit (revoked_token t) ≡ hit t

-- every stored token that passes the test is revoked
abbrev pub TokensRevoked : (AccessToken → Bool) → Table AccessToken → Type 0
TokensRevoked hit m =
    (h : String) (t : AccessToken) → get m h ≡ some t → hit t ≡ true → t.revoked ≡ true

module _ (hit : AccessToken → Bool) (m : Table AccessToken) where
  pub get-mark_tokens :
      (h : String)
      → get (mark_tokens hit m) h ≡ Option.map (λ t. if hit t then revoked_token t else t) (get m h)
  unfolding mark_tokens
  get-mark_tokens h = get-map_values _ m h

  pub mark_tokens-TokensRevoked : IgnoresMark hit → TokensRevoked hit (mark_tokens hit m)
  mark_tokens-TokensRevoked ignores h t e p = elim (Option-cases (get m h)) [
    | inl gone ↦ ground (arith, get-mark_tokens h, gone)
    | inr (old, there) ↦ ground (arith, get-mark_tokens h, there, ignores old)
  ]

  -- no revocation takes another's mark away
  pub mark_tokens-keeps :
      (kept : AccessToken → Bool)
      → IgnoresMark kept
      → TokensRevoked kept m
      → TokensRevoked kept (mark_tokens hit m)
  mark_tokens-keeps kept ignores earlier h t e p = elim (Option-cases (get m h)) [
    | inl gone ↦ ground (arith, get-mark_tokens h, gone)
    | inr (old, there) ↦ ground (arith, get-mark_tokens h, there, ignores old, earlier h old there)
  ]
