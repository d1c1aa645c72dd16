-- ===== src/Identity/Service/Logins.antt =====
-- A sign-in gives a session that the password earned, and that is good until it runs out.
use opened_connect_server.Identity.Principal.{principal, authenticate}
use opened_connect_server.Oidc.Texts.{trim_space}
use opened_connect_server.Errors.{
  require-ok, found_or-ok, >>=-ok, Result-cases, ok-injective, Error, credentials, random_failed,
  Result, ok, err,
}
use opened_connect_server.Identity.Service.Signing.{
  user_by_email, check_password, new_session, login_unchanged, replace_session, login_transaction,
  check_login, login, LoginDraws, LoginResult,
}
use opened_connect_server.Identity.Endings.{revoke_codes_where, revoke_transactions_where}
use opened_connect_server.Identity.Service.{Outside}
use opened_connect_server.Identity.Endings.Steady.{
  end_session-steady, end_sessions_where-steady, IsSteady,
}
use opened_connect_server.Identity.State.{
  clone_user, find_user, find_session, save_session, remove_session_credential,
  check_session_capacity, write, write-ok, FileState,
}
use opened_connect_server.Identity.Records.{Profile, User, Session}
use opened_connect_server.Identity.Pruning.{prune_sessions, prune_logout_state}
use opened_connect_server.Table.{Table, get, get-put}
use mathlib.Core.Option
use opened_connect_server.Prelude.{
  ◌==◌, ==_iff, Bool-cases, Option-cases, if_true, ◌+◌, ◌<◌, String, ◌≡◌, refl, sym, ap, ◌∙◌, subst,
  inl, inr, true, false, ◌&&◌, Option, none, some, arith,
}
use opened_connect_server.Clock.{Time, Duration, is_zero, after}

-- what ends sessions leaves the accounts
users-steady : (m : Table User) → IsSteady (λ t. t.users_map ≡ m)
unfolding revoke_codes_where revoke_transactions_where
users-steady m = record {
  sessions = λ t s e. e;
  app = record {
    apps = λ t s e. e;
    deliveries = λ t s e. e;
    tokens = λ t hit e. e;
    codes = λ t hit e. e;
    transactions = λ t hit e. e;
  };
}

users-prune_logout_state :
    (now : Time) (s : FileState) → (prune_logout_state now s).users_map ≡ s.users_map
unfolding prune_logout_state prune_sessions
users-prune_logout_state now s =
    end_sessions_where-steady (λ t. t.users_map ≡ s.users_map) (users-steady s.users_map) _ "system"
      "expired" now s refl

-- What a sign-in has compared, and the session that it stored.
pub record IsLoggedIn (o : Outside) (session_hash : String → String) (ttl : Duration)
    (password : String) (now : Time) (earlier s : FileState) (address : String) (r : LoginResult)
    (t : FileState) : Type 0 where
  pub found : User
  pub current : User
  pub account : user_by_email earlier address ≡ some found
  pub password_right : o.verify found.password_hash password ≡ true
  pub still_there : find_user s found.id ≡ some current
  pub still_active : current.active ≡ true
  pub still_same : login_unchanged found current ≡ true
  pub shown : r.user ≡ current.profile
  pub owned : r.session.user_id ≡ found.id
  pub hashed : r.session.hash ≡ session_hash r.token
  pub signed_at : r.session.auth_time ≡ now
  pub expires : r.session.expires_at ≡ now + ttl
  pub live : r.session.ended_at ≡ 0
  pub base : FileState
  pub base_users : base.users_map ≡ s.users_map
  pub state_after : t ≡ save_session base r.session

no_error :
    {A : Type 0} {a : A} {e : Error} {s t : FileState}
    → ¬ (◌≡◌ {A = Result A × FileState} (err e, s) (ok a, t))
no_error h = cc

active_of : (found current : User) → login_unchanged found current ≡ true → current.active ≡ true
unfolding login_unchanged
active_of found current h = ground (arith, h)

module _ (o : Outside) (session_hash : String → String) (ttl : Duration) (draws : LoginDraws)
    (password old_hash : String) (now : Time) (earlier s : FileState) where
  users-replace_session :
      (v : Session) (found : User) (u : FileState)
      → (replace_session v found old_hash now u).1.users_map ≡ u.users_map
  unfolding replace_session remove_session_credential
  users-replace_session v found u = elim (Option-cases (find_session u old_hash)) [
    | inl absent ↦ rw (absent, replace_session) refl
    | inr (old, there) ↦ elim (Bool-cases (old.user_id == found.id && after old.expires_at now)) [
      | inl own ↦ rw (there, own, replace_session) refl
      | inr foreign_ ↦
          rw (there, foreign_, replace_session)
            (end_session-steady (λ t. t.users_map ≡ u.users_map) (users-steady u.users_map) old.id
              found.id "account_switch" now u refl)
    ]
  ]

  -- the session keeps the fields by which it is found and judged
  kept_fields :
      (v : Session) (found : User) (u : FileState)
      → (x : Session) × ((replace_session v found old_hash now u).0 ≡ x)
        × (x.user_id ≡ v.user_id)
        × (x.hash ≡ v.hash)
        × (x.auth_time ≡ v.auth_time)
        × (x.ended_at ≡ v.ended_at)
        × (x.expires_at ≡ v.expires_at)
  unfolding replace_session
  kept_fields v found u = elim (Option-cases (find_session u old_hash)) [
    | inl absent ↦ (v, rw (absent, replace_session) refl, refl, refl, refl, refl, refl)
    | inr (old, there) ↦ elim (Bool-cases (old.user_id == found.id && after old.expires_at now)) [
      | inl own ↦ (
        record v { id = old.id; created_at = old.created_at; device = old.device },
        rw (there, own, replace_session) refl,
        refl,
        refl,
        refl,
        refl,
        refl,
      )
      | inr foreign_ ↦ (v, rw (there, foreign_, replace_session) refl, refl, refl, refl, refl, refl)
    ]
  ]

  password_parts :
      (account : Option User) (found : User)
      → check_password o account password ≡ ok found
      → (account ≡ some found) × (o.verify found.password_hash password ≡ true)
  unfolding check_password
  password_parts none found h = cc
  password_parts (some u) found h =
      let (right, h1) =
        require-ok (o.verify u.password_hash password && u.active) credentials _ h in
      let same = ok-injective h1 in
      (
        ap some same,
        subst (λ (x : User). o.verify x.password_hash password ≡ true) same (ground (arith, right)),
      )

  check_login-parts :
      (email : String) {y : User × String × Session}
      → check_login o session_hash ttl draws email password now earlier ≡ ok y
      → (user_by_email earlier (o.lower (trim_space email)) ≡ some y.0)
        × (o.verify y.0.password_hash password ≡ true)
        × ((id : String) × (csrf : String) × (y.2
              ≡ new_session ttl y.0 id (session_hash y.1) csrf now))
  unfolding check_login
  check_login-parts email {y} h =
      let (found, e0, h0) =
        >>=-ok (check_password o (user_by_email earlier (o.lower (trim_space email))) password) _
          h in
      let (there, right) = password_parts _ found e0 in
      let (token, _, h1) = found_or-ok draws.token random_failed _ h0 in
      let (csrf, _, h2) = found_or-ok draws.csrf random_failed _ h1 in
      let (id, _, h3) = found_or-ok draws.session random_failed _ h2 in
      let done = ok-injective h3 in
      (
        there ∙ ap (λ (x : User × String × Session). some x.0) done,
        subst (λ (x : User × String × Session). o.verify x.0.password_hash password ≡ true) done
            right,
        subst
            (λ (x : User × String × Session).
              (i : String) × (c : String) × (x.2 ≡ new_session ttl x.0 i (session_hash x.1) c now))
            done (id, csrf, refl),
      )

  login_transaction-parts :
      (found : User) (v : Session) (token : String) (y : LoginResult × FileState)
      → login_transaction found v token old_hash now s ≡ ok y
      → (current : User) × (find_user s found.id ≡ some current)
        × (login_unchanged found current ≡ true)
        × (y.0.user ≡ current.profile)
        × (y.0.token ≡ token)
        × (y.0.session ≡ (replace_session v found old_hash now (prune_logout_state now s)).0)
        × (y.1
            ≡ save_session
                (replace_session v found old_hash now (prune_logout_state now s)).1
                y.0.session)
  unfolding login_transaction
  login_transaction-parts found v token y h =
      let (current, e0, h0) = found_or-ok (find_user s found.id) credentials _ h in
      let (e1, h1) = require-ok (login_unchanged found current) credentials _ h0 in
      let (room, e2, h2) = >>=-ok (check_session_capacity (prune_logout_state now s) "op") _ h1 in
      let done = sym (ok-injective h2) in
      (
        current,
        e0,
        e1,
        ap (λ (x : LoginResult × FileState). x.0.user) done,
        ap (λ (x : LoginResult × FileState). x.0.token) done,
        ap (λ (x : LoginResult × FileState). x.0.session) done,
        subst
            (λ (x : LoginResult × FileState).
              x.1
              ≡ save_session (replace_session v found old_hash now (prune_logout_state now s)).1
                  x.0.session)
            (ok-injective h2) refl,
      )

  unprepared :
      (email : String) (e : Error)
      → check_login o session_hash ttl draws email password now earlier ≡ err e
      → login o session_hash ttl draws email password old_hash now earlier s ≡ (err e, s)
  unfolding login
  unprepared email e failed = rw (failed, login) refl

  answered :
      (email : String) (found : User) (token : String) (v : Session)
      → check_login o session_hash ttl draws email password now earlier ≡ ok (found, token, v)
      → login o session_hash ttl draws email password old_hash now earlier s
        ≡ write s (login_transaction found v token old_hash now)
  unfolding login
  answered email found token v prepared = rw (prepared, login) refl

  -- A sign-in succeeds only with the password of the account that has the address, which is active
  -- and unchanged when the session is stored; the session is that user's, begins now, lasts for the
  -- configured time and stands under the hash of the token that is handed out.
  pub login-IsLoggedIn :
      (email : String) {r : LoginResult} {t : FileState}
      → login o session_hash ttl draws email password old_hash now earlier s ≡ (ok r, t)
      → IsLoggedIn o session_hash ttl password now earlier s (o.lower (trim_space email)) r t
  unfolding login new_session
  login-IsLoggedIn email {r} {t} h =
      elim (Result-cases (check_login o session_hash ttl draws email password now earlier)) [
        | inr (e, failed) ↦ absurd (no_error (sym (unprepared email e failed) ∙ h))
        | inl ((found, token, v), prepared) ↦
            let (account, right, (id, csrf, fresh_session)) = check_login-parts email prepared in
            let stored =
              write-ok s (login_transaction found v token old_hash now)
                (sym (answered email found token v prepared) ∙ h) in
            let (current, there, same, shown, handed, session, after_) =
              login_transaction-parts found v token _ stored in
            let (x, e, owner, hash, auth, ended, expires) =
              kept_fields v found (prune_logout_state now s) in
            let is_x : r.session ≡ x = session ∙ e in
            let made : v ≡ new_session ttl found id (session_hash token) csrf now = fresh_session in
            record {
              found = found;
              current = current;
              account = account;
              password_right = right;
              still_there = there;
              still_active = active_of found current same;
              still_same = same;
              shown = shown;
              owned =
                  ap (λ (z : Session). z.user_id) is_x
                  ∙ (owner ∙ ap (λ (z : Session). z.user_id) made);
              hashed =
                  ap (λ (z : Session). z.hash) is_x
                  ∙ (hash ∙ (ap (λ (z : Session). z.hash) made ∙ ap session_hash (sym handed)));
              signed_at =
                  ap (λ (z : Session). z.auth_time) is_x
                  ∙ (auth ∙ ap (λ (z : Session). z.auth_time) made);
              expires =
                  ap (λ (z : Session). z.expires_at) is_x
                  ∙ (expires ∙ ap (λ (z : Session). z.expires_at) made);
              live =
                  ap (λ (z : Session). z.ended_at) is_x
                  ∙ (ended ∙ ap (λ (z : Session). z.ended_at) made);
              base = (replace_session v found old_hash now (prune_logout_state now s)).1;
              base_users =
                  users-replace_session v found (prune_logout_state now s)
                  ∙ users-prune_logout_state now s;
              state_after = after_;
            }
      ]

find_session_stored :
    (s : FileState) (hash : String) (v : Session)
    → get s.sessions hash ≡ some v
    → v.ended_at ≡ 0
    → find_session s hash ≡ some v
unfolding find_session
find_session_stored s hash v there open_ =
    rw (there, find_session) (if_true (is_zero v.ended_at) (some v) none (ground (arith, open_)))

principal_passes :
    (hash : String) (now : Time) (s : FileState) (v : Session) (u : User)
    → find_session s hash ≡ some v
    → after v.expires_at now ≡ true
    → find_user s v.user_id ≡ some u
    → u.active ≡ true
    → principal hash false now s ≡ ok (record { user = u.profile; session = v })
unfolding principal
principal_passes hash now s v u found lasts owner active = simp (found, lasts, owner, active)

-- The session that a sign-in hands out authenticates its user, at any time before it runs out, in the
-- state that the sign-in left.
pub login-authenticates :
    (o : Outside) (session_hash : String → String) (ttl : Duration) (draws : LoginDraws)
    (email password old_hash : String) (now later : Time) (earlier s : FileState) {r : LoginResult}
    {t : FileState}
    → login o session_hash ttl draws email password old_hash now earlier s ≡ (ok r, t)
    → later < now + ttl
    → authenticate (session_hash r.token) later t
      ≡ ok (record { user = r.user; session = r.session })
unfolding authenticate save_session find_user
login-authenticates o session_hash ttl draws email password old_hash now later earlier s {r} {t} h
      timely =
    let l = login-IsLoggedIn o session_hash ttl draws password old_hash now earlier s email h in
    let stored : get t.sessions (session_hash r.token) ≡ some r.session =
      ap (λ (x : FileState). get x.sessions (session_hash r.token)) l.state_after
      ∙ (get-put l.base.sessions r.session.hash (session_hash r.token) r.session
          ∙ if_true _ _ _ ((==_iff r.session.hash (session_hash r.token)).1 l.hashed)) in
    let users : t.users_map ≡ s.users_map =
      ap (λ (x : FileState). x.users_map) l.state_after ∙ l.base_users in
    let owner : find_user t r.session.user_id ≡ some l.current =
      ap (λ m. Option.map clone_user (get m r.session.user_id)) users
      ∙ (ap (λ x. find_user s x) l.owned ∙ l.still_there) in
    let lasts : later < r.session.expires_at = subst (λ x. later < x) (sym l.expires) timely in
    principal_passes (session_hash r.token) later t r.session l.current
      (find_session_stored t (session_hash r.token) r.session stored l.live) (ground (arith, lasts))
      owner l.still_active
    ∙ ap (λ (x : Profile). ok (record { user = x; session = r.session })) (sym l.shown)
