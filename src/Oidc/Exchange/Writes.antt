-- ===== src/Oidc/Exchange/Writes.antt =====
-- What an exchange writes, and what it leaves alone.
use opened_connect_server.Prelude.{
  ◌==◌, ==_iff, ==_refl, Bool-cases, Option-cases, if_true, if_false, contains, String, ◌≡◌, refl,
  sym, ◌∙◌, ◌⊎◌, inl, inr, true, Option, some,
}
use opened_connect_server.Clock.{Time}
use opened_connect_server.Table.{get, values, get-put}
use opened_connect_server.Identity.Records.{User, AppSession}
use opened_connect_server.Identity.State.{
  find_client, save_app_session, save_session, save_refresh_family, save_refresh_token,
  session_by_id, session_active, check_session_capacity, FileState,
}
use opened_connect_server.Identity.WellFormed.{
  IsWellFormed, save_app_session-IsWellFormed, save_session-IsWellFormed,
  save_refresh_family-IsWellFormed, save_refresh_token-IsWellFormed,
}
use opened_connect_server.Oidc.Setup.{find_first, Config, Crypto}
use opened_connect_server.Oidc.Exchange.{
  live_app, touch_app, join_app_session, touch_session, attach_session, initial_refresh,
  offline_part, ExchangeDraws,
}
use opened_connect_server.Errors.{
  ◌>>◌, require-ok, found_or-ok, >>=-ok, ok-subst, not_found, invalid_grant, random_failed, Result,
  ok,
}
use opened_connect_server.Identity.Grants.{AuthorizationCode, RefreshFamily, RefreshToken}
use opened_connect_server.Identity.Metadata.{ProtocolClient}

-- the maps that the steps before the final writes leave alone
pub record KeepsCodes (s t : FileState) : Type 0 where
  pub codes_same : t.authorization_codes ≡ s.authorization_codes
  pub clients_same : t.clients_map ≡ s.clients_map
  pub tokens_same : t.access_tokens ≡ s.access_tokens

-- a step that keeps the invariant too
abbrev pub IsQuiet : FileState → FileState → Type 0
IsQuiet s t = KeepsCodes s t × (IsWellFormed s → IsWellFormed t)

pub IsQuiet-refl : (s : FileState) → IsQuiet s s
IsQuiet-refl s = (record { codes_same = refl; clients_same = refl; tokens_same = refl }, λ w. w)

pub IsQuiet-trans : (s t u : FileState) → IsQuiet s t → IsQuiet t u → IsQuiet s u
IsQuiet-trans s t u p q = (
  record {
    codes_same = q.0.codes_same ∙ p.0.codes_same;
    clients_same = q.0.clients_same ∙ p.0.clients_same;
    tokens_same = q.0.tokens_same ∙ p.0.tokens_same;
  },
  λ w. q.1 (p.1 w),
)

save_app_session-IsQuiet : (s : FileState) (a : AppSession) → IsQuiet s (save_app_session s a)
unfolding save_app_session
save_app_session-IsQuiet s a = (
  record { codes_same = refl; clients_same = refl; tokens_same = refl },
  λ w. unfold save_app_session in save_app_session-IsWellFormed w a,
)

touch_app-IsQuiet :
    (op_id client_id : String) (now : Time) (s : FileState)
    → IsQuiet s (touch_app op_id client_id now s).1
unfolding touch_app
touch_app-IsQuiet op_id client_id now s =
    elim (Option-cases (find_first (live_app op_id client_id) (values s.app_sessions))) [
      | inl e ↦ rw (e, touch_app) (IsQuiet-refl s)
      | inr (a, e) ↦ rw (e, touch_app) (save_app_session-IsQuiet s _)
    ]

touch_session-IsQuiet :
    (op_id : String) (now : Time) (s : FileState) → IsQuiet s (touch_session op_id now s)
unfolding touch_session save_session
touch_session-IsQuiet op_id now s = elim (Option-cases (session_by_id s op_id)) [
  | inl e ↦ rw (e, touch_session) (IsQuiet-refl s)
  | inr (a, e) ↦
      rw (e, touch_session)
        (
          record { codes_same = refl; clients_same = refl; tokens_same = refl },
          λ w. save_session-IsWellFormed w _,
        )
]

join_app_session-IsQuiet :
    (draw : Option String) (client : ProtocolClient) (user : User) (op_id : String) (now : Time)
    (s : FileState) {y : String × FileState}
    → join_app_session draw client user op_id now s ≡ ok y
    → IsQuiet s y.1
unfolding join_app_session
join_app_session-IsQuiet draw client user op_id now s h =
    let touched = touch_app op_id client.id now s in
    let quiet : IsQuiet s touched.1 = touch_app-IsQuiet op_id client.id now s in
    elim (Bool-cases (touched.0 == "")) [
      | inl none_stands ↦
          let (_, h1) = require_capacity touched.1 _ (sym (if_true _ _ _ none_stands) ∙ h) in
          let (fresh, _, h2) = found_or-ok draw random_failed _ h1 in
          ok-subst (λ y. IsQuiet s y.1) h2
            (IsQuiet-trans s touched.1 _ quiet (save_app_session-IsQuiet touched.1 _))
      | inr stands ↦ ok-subst (λ y. IsQuiet s y.1) (sym (if_false _ _ _ stands) ∙ h) quiet
    ]
  where
    require_capacity :
        (t : FileState) (f : Result (String × FileState)) {z : String × FileState}
        → (check_session_capacity t "app" >> f) ≡ ok z
        → Unit {0} × (f ≡ ok z)
    require_capacity t f e = let (u, _, e1) = >>=-ok (check_session_capacity t "app") _ e in (u, e1)

-- what attaching leaves of the code, and what it required of the session
pub record IsAttached (c : AuthorizationCode) (now : Time) (s : FileState)
    (y : String × AuthorizationCode × FileState) : Type 0 where
  pub quiet : IsQuiet s y.2
  pub same_hash : y.1.hash ≡ c.hash
  pub session_stands : (c.op_session_id ≡ "") ⊎ (session_active s c.op_session_id now ≡ true)

pub attach_session-IsAttached :
    (draw : Option String) (client : ProtocolClient) (user : User) (c : AuthorizationCode)
    (now : Time) (s : FileState) {y : String × AuthorizationCode × FileState}
    → attach_session draw client user c now s ≡ ok y
    → IsAttached c now s y
unfolding attach_session
attach_session-IsAttached draw client user c now s h = elim (Bool-cases (c.op_session_id == "")) [
  | inl alone ↦ ok-subst (IsAttached c now s) (sym (if_true _ _ _ alone) ∙ h) (record {
    quiet = IsQuiet-refl s;
    same_hash = refl;
    session_stands = inl ((==_iff c.op_session_id "").0 alone);
  })
  | inr bound ↦
      let (stands, h1) =
        require-ok (session_active s c.op_session_id now) invalid_grant _
          (sym (if_false _ _ _ bound) ∙ h) in
      let (joined, e, h2) = >>=-ok (join_app_session draw client user c.op_session_id now s) _ h1 in
      ok-subst (IsAttached c now s) h2 (record {
        quiet =
            IsQuiet-trans s joined.1 _
              (join_app_session-IsQuiet draw client user c.op_session_id now s e)
              (touch_session-IsQuiet c.op_session_id now joined.1);
        same_hash = refl;
        session_stands = inr stands;
      })
]

-- the new family has the code's owner, and its tokens are stored beside the rest
pub initial_refresh-IsQuiet :
    (k : Crypto) (cfg : Config) (draws : ExchangeDraws) (client_id : String) (c : AuthorizationCode)
    (now : Time) (s : FileState) {y : String × RefreshFamily × FileState}
    → initial_refresh k cfg draws client_id c now s ≡ ok y
    → IsQuiet s y.2
unfolding initial_refresh save_refresh_family save_refresh_token
initial_refresh-IsQuiet k cfg draws client_id c now s h =
    let (current, _, h1) = found_or-ok (find_client s client_id) not_found _ h in
    let (_, h2) = require-ok _ invalid_grant _ h1 in
    let (raw, _, h3) = found_or-ok draws.refresh random_failed _ h2 in
    let (id, _, h4) = found_or-ok draws.family random_failed _ h3 in
    let (_, h5) = require-ok _ invalid_grant _ h4 in
    ok-subst (λ y. IsQuiet s y.2) h5
      (
        record { codes_same = refl; clients_same = refl; tokens_same = refl },
        λ w. save_refresh_token-IsWellFormed (save_refresh_family-IsWellFormed w _) _,
      )

pub record IsOffline (c : AuthorizationCode) (s : FileState)
    (y : String × String × AuthorizationCode × FileState) : Type 0 where
  pub quiet : IsQuiet s y.3
  pub same_hash : y.2.hash ≡ c.hash
  pub same_use : y.2.consumed ≡ c.consumed

pub offline_part-IsOffline :
    (k : Crypto) (cfg : Config) (draws : ExchangeDraws) (client_id : String) (c : AuthorizationCode)
    (now : Time) (s : FileState) {y : String × String × AuthorizationCode × FileState}
    → offline_part k cfg draws client_id c now s ≡ ok y
    → IsOffline c s y
unfolding offline_part
offline_part-IsOffline k cfg draws client_id c now s h =
    elim (Bool-cases (contains c.scopes "offline_access")) [
      | inl asked ↦
          let (given, e, h1) =
            >>=-ok (initial_refresh k cfg draws client_id c now s) _
              (sym (if_true _ _ _ asked) ∙ h) in
          ok-subst (IsOffline c s) h1 (record {
            quiet = initial_refresh-IsQuiet k cfg draws client_id c now s e;
            same_hash = refl;
            same_use = refl;
          })
      | inr plain ↦
          ok-subst (IsOffline c s) (sym (if_false _ _ _ plain) ∙ h)
            (record { quiet = IsQuiet-refl s; same_hash = refl; same_use = refl })
    ]

-- The refresh token that was given is stored in its family, and the family has the code's hash.
pub record IsGivenOffline (k : Crypto) (hash raw id : String) (s : FileState) : Type 0 where
  pub token : RefreshToken
  pub family : RefreshFamily
  pub token_stored : get s.refresh_tokens (k.hash_token raw) ≡ some token
  pub token_family : token.family_id ≡ id
  pub family_stored : get s.refresh_families id ≡ some family
  pub family_code : family.code_hash ≡ hash

initial_refresh-IsGivenOffline :
    (k : Crypto) (cfg : Config) (draws : ExchangeDraws) (client_id : String) (c : AuthorizationCode)
    (now : Time) (s : FileState) {y : String × RefreshFamily × FileState}
    → initial_refresh k cfg draws client_id c now s ≡ ok y
    → IsGivenOffline k c.hash y.0 y.1.id y.2
unfolding initial_refresh save_refresh_family save_refresh_token
initial_refresh-IsGivenOffline k cfg draws client_id c now s h =
    let (current, _, h1) = found_or-ok (find_client s client_id) not_found _ h in
    let (_, h2) = require-ok _ invalid_grant _ h1 in
    let (raw, _, h3) = found_or-ok draws.refresh random_failed _ h2 in
    let (id, _, h4) = found_or-ok draws.family random_failed _ h3 in
    let (_, h5) = require-ok _ invalid_grant _ h4 in
    ok-subst (λ y. IsGivenOffline k c.hash y.0 y.1.id y.2) h5
      (record {
        token = _;
        family = _;
        token_stored =
            get-put s.refresh_tokens (k.hash_token raw) (k.hash_token raw) _
            ∙ if_true _ _ _ (==_refl (k.hash_token raw));
        token_family = refl;
        family_stored = get-put s.refresh_families id id _ ∙ if_true _ _ _ (==_refl id);
        family_code = refl;
      })

-- no refresh token is given, or one of a family of the code
pub offline_part-gives :
    (k : Crypto) (cfg : Config) (draws : ExchangeDraws) (client_id : String) (c : AuthorizationCode)
    (now : Time) (s : FileState) {y : String × String × AuthorizationCode × FileState}
    → offline_part k cfg draws client_id c now s ≡ ok y
    → (y.0 ≡ "") ⊎ IsGivenOffline k c.hash y.0 y.1 y.3
unfolding offline_part
offline_part-gives k cfg draws client_id c now s h =
    elim (Bool-cases (contains c.scopes "offline_access")) [
      | inl asked ↦
          let (given, e, h1) =
            >>=-ok (initial_refresh k cfg draws client_id c now s) _
              (sym (if_true _ _ _ asked) ∙ h) in
          ok-subst (λ y. (y.0 ≡ "") ⊎ IsGivenOffline k c.hash y.0 y.1 y.3) h1
            (inr (initial_refresh-IsGivenOffline k cfg draws client_id c now s e))
      | inr plain ↦
          ok-subst (λ y. (y.0 ≡ "") ⊎ IsGivenOffline k c.hash y.0 y.1 y.3)
            (sym (if_false _ _ _ plain) ∙ h) (inl refl)
    ]
