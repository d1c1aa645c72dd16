-- ===== src/Oidc/Exchange/Issues.antt =====
-- A code that may be redeemed gives tokens, where the draws, the signature and the capacity allow it.
use opened_connect_server.Oidc.Setup.{sign_id_token, find_first, Config, IdTokenClaims, Crypto}
use opened_connect_server.Identity.Grants.{AuthorizationCode}
use opened_connect_server.Errors.{Result, ok}
use opened_connect_server.Clock.{Time}
use opened_connect_server.Identity.Records.{User}
use opened_connect_server.Prelude.{
  leb, ◌==◌, ==_iff, Bool-cases, Option-cases, if_false, contains, ℕ, ◌+◌, ◌≤◌, ◌<◌, String, ◌≡◌,
  refl, ap, ◌∙◌, ◌⊎◌, inl, inr, true, false, some, List, [], ◌∷◌, arith,
}
use opened_connect_server.Identity.State.{
  save_app_session, session_active, check_session_capacity, FileState,
}
use opened_connect_server.Identity.Metadata.{ProtocolClient}
use opened_connect_server.Table.{Table, put, values, size}
use opened_connect_server.Oidc.Exchange.{
  live_app, touch_app, join_app_session, attach_session, offline_part, consumed_code,
  issue_code_tokens, ExchangeDraws, CodeRequest, Outcome, issued,
}

size-put-bound : {V : Type 0} (m : Table V) (k : String) (v : V) → size (put m k v) ≤ size m + 1
unfolding put
size-put-bound [] k v = omega arith
size-put-bound ((j, w) ∷ m) k v = ground (arith, size-put-bound m k v)

touch_app-bound :
    (op_id client_id : String) (now : Time) (s : FileState)
    → size (touch_app op_id client_id now s).1.app_sessions ≤ size s.app_sessions + 1
unfolding touch_app save_app_session
touch_app-bound op_id client_id now s =
    elim (Option-cases (find_first (live_app op_id client_id) (values s.app_sessions))) [
      | inl e ↦ rw (e, touch_app) (omega arith)
      | inr (a, e) ↦
          rw (e, touch_app) (size-put-bound s.app_sessions a.id (record a { last_seen_at = now }))
    ]

capacity_passes :
    (s : FileState) → size s.app_sessions < 50000 → check_session_capacity s "app" ≡ ok tt
unfolding check_session_capacity ◌==◌
capacity_passes s room =
    let free : leb 50000 (size s.app_sessions) ≡ false = ground (arith, room) in rw free refl

-- the step succeeds, with a value that has the property
abbrev pub Gives : {A : Type 0} → (A → Type 0) → Result A → Type 0
Gives {A} P r = (y : A) × (r ≡ ok y) × P y

-- the signature that signIDToken asks for is made
abbrev pub Signs : Crypto → Type 0
Signs k =
    (at : Time) (claims : IdTokenClaims) → (signed : String) × (k.sign_at at claims ≡ some signed)

module _ (client : ProtocolClient) (user : User) (now : Time) (s : FileState) (fresh : String)
    (room : size s.app_sessions + 1 < 50000) where
  join_app_session-passes :
      (op_id : String)
      → Gives (λ y. Unit {0}) (join_app_session (some fresh) client user op_id now s)
  unfolding join_app_session
  join_app_session-passes op_id =
      let touched = touch_app op_id client.id now s in
      elim (Bool-cases (touched.0 == "")) [
        | inl none_stands ↦
            let free =
              capacity_passes touched.1
                (omega (arith, room, touch_app-bound op_id client.id now s)) in
            rw (none_stands, free, join_app_session) (_, refl, tt)
        | inr stands ↦ rw (stands, join_app_session) (_, refl, tt)
      ]

  attach_session-passes :
      (c : AuthorizationCode)
      → (c.op_session_id ≡ "") ⊎ (session_active s c.op_session_id now ≡ true)
      → Gives
          (λ (y : String × AuthorizationCode × FileState). y.1.scopes ≡ c.scopes)
          (attach_session (some fresh) client user c now s)
  unfolding attach_session
  attach_session-passes c stands = elim (Bool-cases (c.op_session_id == "")) [
    | inl alone ↦ rw (alone, attach_session) (_, refl, refl)
    | inr bound ↦
        let active : session_active s c.op_session_id now ≡ true = elim stands [
          | inl blank ↦ ground (arith, bound, blank, ==_iff c.op_session_id "")
          | inr active ↦ active
        ] in
        let (joined, e, _) = join_app_session-passes c.op_session_id in
        rw (bound, active, e, attach_session) (_, refl, refl)
  ]

sign_id_token-passes :
    (k : Crypto) (cfg : Config) (client : ProtocolClient) (sub nonce : String) (auth_time : ℕ)
    (now : Time) (sid : String)
    → Signs k
    → (signed : String) × (sign_id_token k cfg client sub nonce auth_time now sid ≡ some signed)
unfolding sign_id_token
sign_id_token-passes k cfg client sub nonce auth_time now sid signs = signs now _

-- no refresh token is asked for
offline_part-plain :
    (k : Crypto) (cfg : Config) (draws : ExchangeDraws) (client_id : String) (c : AuthorizationCode)
    (now : Time) (s : FileState)
    → contains c.scopes "offline_access" ≡ false
    → offline_part k cfg draws client_id c now s ≡ ok ("", "", c, s)
unfolding offline_part
offline_part-plain k cfg draws client_id c now s plain = if_false _ _ _ plain

-- The tokens given: this access token, these scopes, and no refresh token.
abbrev pub IsPlain : String → List String → Outcome × FileState → Type 0
IsPlain access scopes y =
    (id_token : String) × (y.0
      ≡ issued (record {
        access_token = access;
        id_token = id_token;
        refresh_token = "";
        scopes = scopes;
      }))

pub issue_code_tokens-passes :
    (k : Crypto) (cfg : Config) (draws : ExchangeDraws) (r : CodeRequest) (c : AuthorizationCode)
    (user : User) (now : Time) (s : FileState) {access fresh : String}
    → size s.app_sessions + 1 < 50000
    → (c.op_session_id ≡ "") ⊎ (session_active s c.op_session_id now ≡ true)
    → draws.access ≡ some access
    → draws.app_session ≡ some fresh
    → Signs k
    → contains c.scopes "offline_access" ≡ false
    → Gives (IsPlain access c.scopes) (issue_code_tokens k cfg draws r c user now s)
unfolding issue_code_tokens
issue_code_tokens-passes k cfg draws r c user now s {access} {fresh} room stands drawn_access
      drawn_app signs plain =
    let (y, attached, scopes_same) =
      attach_session-passes r.client user now s fresh room c stands in
    let (id_token, signed) =
      sign_id_token-passes k cfg r.client user.sub c.nonce c.auth_time now y.0 signs in
    let alone =
      offline_part-plain k cfg draws r.client.id (consumed_code cfg now y.1) now y.2
        (ap (λ x. contains x "offline_access") scopes_same ∙ plain) in
    simp (drawn_app, attached, drawn_access, signed, alone, issue_code_tokens)
      (_, refl, (id_token, refl))
