-- ===== src/Identity/Service/Signing.antt =====
-- Sign-in, sign-out, passwords, profiles and new accounts of identity/service.go.
use opened_connect_server.Table.{values}
use opened_connect_server.Identity.Principal.{principal, authenticate}
use opened_connect_server.Identity.Mutations.{save_user}
use opened_connect_server.Identity.Fold.{equal_fold}
use opened_connect_server.Oidc.Texts.{trim_space}
use opened_connect_server.Identity.Pruning.{prune_logout_state}
use opened_connect_server.Oidc.Setup.{find_first}
use opened_connect_server.Errors.{
  require, ◌>>=◌, ◌>>◌, found_or, not_found, unauthorized, forbidden, credentials,
  already_initialized, random_failed, Result, ok, err,
}
use opened_connect_server.Identity.Endings.{end_session, delete_user_sessions}
use opened_connect_server.Identity.State.{
  clone_user, find_user, all_users, find_session, save_session, remove_session_credential,
  check_session_capacity, write, FileState,
}
use opened_connect_server.Identity.Service.{
  reject, claims_valid, normalize, hash_password, build_user, saving, Outside, UserInput,
}
use opened_connect_server.Identity.Records.{role_user, role_admin, Claims, Profile, User, Session}
use opened_connect_server.Prelude.{
  if◌then◌else◌, ◌==◌, ◌!=◌, is_empty, ◌+◌, String, Bool, true, false, not, ◌&&◌, Option, none,
  some,
}
use mathlib.Core.Option
use opened_connect_server.Clock.{Time, Duration, after}

-- the account with an address, over the users of the file store
unfoldable pub user_by_email : FileState → String → Option User
user_by_email s email =
    Option.map clone_user (find_first (λ (u : User). equal_fold u.email email) (values s.users_map))

-- the draws of randomToken in Login
pub record LoginDraws : Type 0 where
  pub token : Option String
  pub csrf : Option String
  pub session : Option String

pub record LoginResult : Type 0 where
  pub user : Profile
  pub session : Session
  pub token : String

-- a stored account whose password is right; for a missing one the comparison with the dummy hash has
-- no say in the result
unfoldable pub check_password : Outside → Option User → String → Result User
check_password o none password = err credentials
check_password o (some found) password = do
  require (o.verify found.password_hash password && found.active) credentials
  ok found

-- the session that a sign-in starts, before an old one is taken into account
unfoldable pub new_session : Duration → User → String → String → String → Time → Session
new_session ttl user id hash csrf now = record {
  id = id;
  created_at = now;
  last_seen_at = now;
  device = "";
  ended_at = 0;
  end_reason = "";
  hash = hash;
  user_id = user.id;
  csrf = csrf;
  expires_at = now + ttl;
  auth_time = now;
}

-- the account is as it was when its password was compared
unfoldable pub login_unchanged : User → User → Bool
login_unchanged found current =
    current.active && (current.password_hash == found.password_hash && current.email == found.email)

-- the session that the browser had: continued by the same user, ended otherwise
unfoldable pub replace_session : Session → User → String → Time → FileState → Session × FileState
replace_session fresh_session found old_hash now s = elim (find_session s old_hash) [
  | none ↦ (fresh_session, s)
  | some old ↦
      if old.user_id == found.id && after old.expires_at now
      then (
        record fresh_session { id = old.id; created_at = old.created_at; device = old.device },
        remove_session_credential s old_hash,
      )
      else (fresh_session, end_session old.id found.id "account_switch" now s)
]

-- the callback of Login
unfoldable pub login_transaction :
    User → Session → String → String → Time → FileState → Result (LoginResult × FileState)
unfolding replace_session
login_transaction found fresh_session token old_hash now s = do
  current ← found_or (find_user s found.id) credentials
  require (login_unchanged found current) credentials
  let t = prune_logout_state now s
  check_session_capacity t "op"
  let (session, u) = replace_session fresh_session found old_hash now t
  ok (record { user = current.profile; session = session; token = token }, save_session u session)

-- Login before its transaction: the account, the token and the session
unfoldable pub check_login :
    Outside
    → (String → String)
    → Duration
    → LoginDraws
    → String
    → String
    → Time
    → FileState
    → Result (User × String × Session)
unfolding check_password
check_login o session_hash ttl draws email password now s = do
  found ← check_password o (user_by_email s (o.lower (trim_space email))) password
  token ← found_or draws.token random_failed
  csrf ← found_or draws.csrf random_failed
  id ← found_or draws.session random_failed
  ok (found, token, new_session ttl found id (session_hash token) csrf now)

-- func Login; the account is looked up in an earlier state
unfoldable pub login :
    Outside
    → (String → String)
    → Duration
    → LoginDraws
    → String
    → String
    → String
    → Time
    → FileState
    → FileState
    → Result LoginResult × FileState
login o session_hash ttl draws email password old_hash now earlier s =
    elim (check_login o session_hash ttl draws email password now earlier) [
      | err e ↦ (err e, s)
      | ok (found, token, session) ↦ write s (login_transaction found session token old_hash now)
    ]

-- func Logout
unfoldable pub logout : String → Time → FileState → FileState
logout hash now s = elim (find_session s hash) [
  | none ↦ s
  | some session ↦ end_session session.id session.user_id "sign_out" now s
]

-- `u.PasswordHash = encoded; u.UpdatedAt = s.now().UTC()`
abbrev pub changed_password : String → Time → User → User
changed_password encoded now u = record u {
  profile = record (u.profile) { updated_at = now };
  password_hash = encoded;
}

-- the callback of ChangePassword
unfoldable pub change_password_transaction :
    String → User → String → Time → FileState → Result (Unit {0} × FileState)
change_password_transaction hash original encoded now s = do
  p ← principal hash false now s
  u ← found_or (find_user s p.user.id) not_found
  require (u.password_hash == original.password_hash) unauthorized
  t ← save_user (changed_password encoded now u) now s
  ok (tt, delete_user_sessions u.id now t)

-- ChangePassword before its transaction: the account and the new hash
unfoldable pub check_change :
    Outside → String → String → String → Time → FileState → Result (User × String)
check_change o hash current password now s = do
  p ← principal hash false now s
  original ← found_or (find_user s p.user.id) not_found
  reject (not (o.verify original.password_hash current)) "Current password is incorrect."
  reject (current == password) "Choose a different password."
  encoded ← hash_password o password
  ok (original, encoded)

-- func ChangePassword; the account is first read in an earlier state
unfoldable pub change_password :
    Outside
    → String
    → String
    → String
    → Time
    → FileState
    → FileState
    → Result (Unit {0}) × FileState
change_password o hash current password now earlier s =
    elim (check_change o hash current password now earlier) [
      | err e ↦ (err e, s)
      | ok (original, encoded) ↦ write s (change_password_transaction hash original encoded now)
    ]

-- the callback of Bootstrap
unfoldable pub bootstrap_transaction : User → Time → FileState → Result (Profile × FileState)
bootstrap_transaction user now s = do
  require (is_empty (all_users s)) already_initialized
  saving user.profile (save_user user now s)

-- func Bootstrap
unfoldable pub bootstrap :
    Outside
    → Option String
    → String
    → String
    → String
    → Time
    → FileState
    → Result Profile × FileState
bootstrap o draw name email password now s =
    let input : UserInput = record {
      claims = none;
      email_verified = false;
      phone_number_verified = false;
      name = name;
      email = email;
      role = role_admin;
      active = true;
    } in
    elim (build_user o draw input password now) [
      | err e ↦ (err e, s)
      | ok user ↦ write s (bootstrap_transaction user now)
    ]

-- the callback of CreateUser
unfoldable pub create_user_transaction :
    String → User → Time → FileState → Result (Profile × FileState)
create_user_transaction hash user now s = do
  _ ← principal hash true now s
  saving user.profile (save_user user now s)

-- `if input.Role == "" { input.Role = RoleUser }; input.Active = true`
abbrev pub new_input : UserInput → UserInput
new_input input = record input {
  role = if input.role == "" then role_user else input.role;
  active = true;
}

-- func CreateUser; the permission is first tested in an earlier state
unfoldable pub create_user :
    Outside
    → Option String
    → String
    → UserInput
    → String
    → Time
    → FileState
    → FileState
    → Result Profile × FileState
create_user o draw hash raw password now earlier s =
    let prepared : Result User = (do
      p ← authenticate hash now earlier
      require (p.user.role == role_admin) forbidden
      build_user o draw (new_input raw) password now) in
    elim prepared [ err e ↦ (err e, s) | ok user ↦ write s (create_user_transaction hash user now) ]

-- func GetUser
unfoldable pub get_user : String → String → Time → FileState → Result Profile
get_user hash id now s = do
  _ ← principal hash true now s
  user ← found_or (find_user s id) not_found
  ok user.profile

pub record ProfileInput : Type 0 where
  pub name : String
  pub email : Option String
  pub claims : Option Claims

-- the record that UpdateProfile stores, from the normalized input
unfoldable pub profile_user : ProfileInput → UserInput → Time → User → User
profile_user input normalized now u = clone_user (record u {
  profile = record (u.profile) {
    email_verified = if normalized.email != u.email then false else u.email_verified;
    phone_number_verified = elim input.claims [
      | none ↦ u.phone_number_verified
      | some c ↦ if c.phone_number != u.claims.phone_number then false else u.phone_number_verified
    ];
    claims = elim input.claims [ none ↦ u.claims | some c ↦ c ];
    name = normalized.name;
    email = normalized.email;
    updated_at = now;
  };
})

-- the callback of UpdateProfile
unfoldable pub update_profile_transaction :
    Outside → String → ProfileInput → Time → FileState → Result (Profile × FileState)
unfolding profile_user
update_profile_transaction o hash input now s = do
  p ← principal hash false now s
  u ← found_or (find_user s p.user.id) not_found
  normalized ← normalize o (record {
    claims = none;
    email_verified = false;
    phone_number_verified = false;
    name = input.name;
    email = elim input.email [ none ↦ u.email | some email ↦ email ];
    role = u.role;
    active = u.active;
  })
  saving (profile_user input normalized now u).profile
      (save_user (profile_user input normalized now u) now s)

-- func UpdateProfile
unfoldable pub update_profile :
    Outside → String → ProfileInput → Time → FileState → Result Profile × FileState
update_profile o hash input now s = elim (claims_valid o input.claims) [
  | err e ↦ (err e, s)
  | ok _ ↦ write s (update_profile_transaction o hash input now)
]
