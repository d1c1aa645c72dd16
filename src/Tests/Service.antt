-- ===== src/Tests/Service.antt =====
-- The identity service at a concrete store.
use opened_connect_server.Identity.Revocation.{
  mark_tokens, revoke_refresh_family, revoke_families_where, revoke_access_tokens_for_user,
}
use opened_connect_server.Identity.Metadata.{text}
use opened_connect_server.Identity.Endings.{
  revoke_codes_where, revoke_transactions_where, notify_channel, notify_app, end_app_grants,
  end_app_session, end_apps_where, local_delivery, end_one_session, end_session, end_sessions_where,
  delete_user_sessions,
}
use opened_connect_server.Identity.Pruning.{prune_sessions, prune_logout_state}
use opened_connect_server.Identity.Fold.{equal_fold}
use opened_connect_server.Oidc.Setup.{find_first}
use opened_connect_server.Identity.Service.Permitted.{remove_user-answers, IsSignedIn}
use opened_connect_server.Identity.Service.Logins.{
  login-IsLoggedIn, login-authenticates, IsLoggedIn,
}
use opened_connect_server.Identity.Principal.{principal, authenticate, Principal}
use opened_connect_server.Errors.{Error, Result, ok, err}
use opened_connect_server.Oidc.Texts.{trim_space}
use opened_connect_server.Identity.Records.{role_user, role_admin, User}
use opened_connect_server.Identity.State.{
  clone_user, find_user, find_session, save_logout_delivery, save_session,
  remove_session_credential, check_session_capacity, write, FileState,
}
use opened_connect_server.Identity.Mutations.{
  email_taken, same_bool, security_change, store_user, save_user, delete_user,
}
use opened_connect_server.Identity.Service.Admins.{
  HasAdmin, remove_user-HasAdmin, update_user-HasAdmin,
}
use opened_connect_server.Identity.WellFormed.{IsWellFormed, store_user-IsWellFormed}
use opened_connect_server.Identity.Service.{
  validate_password, hash_password, last_admin, update_user, remove_user, Outside, UserInput,
}
use opened_connect_server.Identity.Service.Signing.{
  user_by_email, check_password, new_session, login_unchanged, replace_session, login_transaction,
  check_login, login, change_password_transaction, check_change, change_password, LoginDraws,
  LoginResult,
}
use opened_connect_server.Identity.Service.Passwords.{change_password-IsChanged, IsChanged}
use opened_connect_server.Prelude.{
  ◌==◌, ◌<>◌, any, for_each, ◌≡◌, refl, ◌⊎◌, true, false, ◌&&◌, none, some, arith,
}
use opened_connect_server.Oidc.Samples.{
  sample_user, sample_session, sample_state, sample_state-IsWellFormed,
}
use opened_connect_server.Table.{get, put, remove, map_values, keep, values}

abbrev sample_outside : Outside
sample_outside = record {
  encode = λ p. some ("enc-" <> p);
  verify = λ h p. h == "argon-1" && p == "correct horse battery";
  lower = λ s. s;
  parse_address = λ s. some s;
  claims_fault = λ c. none;
}

abbrev second_user : User
second_user = record {
  profile = record (sample_user.profile) { id = "u2"; email = "bob@example.com"; role = role_user };
  password_hash = "argon-2";
}

unfoldable two_users : FileState
unfolding store_user
two_users = store_user second_user 15 sample_state

two_users-IsWellFormed : IsWellFormed two_users
unfolding two_users
two_users-IsWellFormed =
    store_user-IsWellFormed second_user 15 sample_state sample_state-IsWellFormed

two_users-HasAdmin : HasAdmin two_users.users_map
unfolding two_users HasAdmin store_user put get ◌==◌ clone_user
two_users-HasAdmin = ("u1", sample_user, refl, refl, refl)

remove_user-HasAdmin_example : HasAdmin (remove_user "h-cookie" "u2" 120 two_users).1.users_map
remove_user-HasAdmin_example =
    remove_user-HasAdmin "h-cookie" "u2" 120 two_users two_users-IsWellFormed two_users-HasAdmin

remove_user-answers_example :
    ((e : Error) × (remove_user "h-cookie" "u2" 120 two_users ≡ (err e, two_users)))
    ⊎ ((p : Principal) × (user : User) × IsSignedIn "h-cookie" true 120 two_users p
        × (find_user two_users "u2" ≡ some user)
        × (last_admin two_users user ≡ false)
        × (remove_user "h-cookie" "u2" 120 two_users ≡ (ok tt, delete_user "u2" 120 two_users)))
remove_user-answers_example = remove_user-answers "h-cookie" "u2" 120 two_users

abbrev promotion : UserInput
promotion = record {
  claims = none;
  email_verified = true;
  phone_number_verified = false;
  name = "Bob";
  email = "bob@example.com";
  role = role_admin;
  active = true;
}

update_user-HasAdmin_example :
    HasAdmin (update_user sample_outside "h-cookie" "u2" promotion 120 two_users).1.users_map
update_user-HasAdmin_example =
    update_user-HasAdmin sample_outside "h-cookie" "u2" promotion 120 two_users
      two_users-IsWellFormed two_users-HasAdmin

abbrev state_of : {A : Type 0} → Result A × FileState → FileState
state_of y = y.1

unfoldable changed_state : FileState
changed_state = state_of (
    change_password sample_outside "h-cookie" "correct horse battery" "staple battery horse" 120
      sample_state sample_state)

changed :
    change_password sample_outside "h-cookie" "correct horse battery" "staple battery horse" 120
      sample_state sample_state
    ≡ (ok tt, changed_state)
unfolding change_password check_change principal find_session get ◌==◌ find_user clone_user
    hash_password validate_password write change_password_transaction save_user email_taken any
    values login check_login user_by_email find_first equal_fold trim_space login_transaction
    login_unchanged check_session_capacity prune_logout_state changed_state delete_user_sessions
    end_app_grants end_app_session end_apps_where end_one_session end_session end_sessions_where
    local_delivery notify_app notify_channel revoke_codes_where revoke_transactions_where text
    same_bool security_change store_user mark_tokens revoke_access_tokens_for_user
    revoke_families_where revoke_refresh_family save_logout_delivery for_each keep map_values put
    prune_sessions check_password new_session replace_session remove_session_credential save_session
    remove
changed = refl

change_password-IsChanged_example :
    IsChanged sample_outside "h-cookie" "correct horse battery" "staple battery horse" 120
      sample_state sample_state changed_state
change_password-IsChanged_example =
    change_password-IsChanged sample_outside "h-cookie" "correct horse battery"
      "staple battery horse" 120 sample_state sample_state changed

abbrev sample_draws : LoginDraws
sample_draws = record { token = some "t1"; csrf = some "c1"; session = some "s1" }

abbrev signed_in_result : LoginResult
signed_in_result = record {
  user = sample_user.profile;
  session = record sample_session {
    id = "s1";
    created_at = 120;
    last_seen_at = 120;
    hash = "h-t1";
    csrf = "c1";
    expires_at = 3720;
    auth_time = 120;
  };
  token = "t1";
}

unfoldable login_state : FileState
login_state = state_of (
    login sample_outside (λ t. "h-" <> t) 3600 sample_draws "ann@example.com"
      "correct horse battery" "h-none" 120 sample_state sample_state)

logged_in :
    login sample_outside
      (λ t. "h-" <> t)
      3600
      sample_draws
      "ann@example.com"
      "correct horse battery"
      "h-none"
      120
      sample_state
      sample_state
    ≡ (ok signed_in_result, login_state)
unfolding login check_login user_by_email find_first values equal_fold trim_space ◌==◌ clone_user
    write login_transaction find_user get login_unchanged check_session_capacity prune_logout_state
    keep login_state prune_sessions end_sessions_where for_each find_session new_session
logged_in = refl

login-IsLoggedIn_example :
    IsLoggedIn sample_outside
      (λ t. "h-" <> t)
      3600
      "correct horse battery"
      120
      sample_state
      sample_state
      "ann@example.com"
      signed_in_result
      login_state
unfolding trim_space
login-IsLoggedIn_example =
    login-IsLoggedIn sample_outside (λ t. "h-" <> t) 3600 sample_draws "correct horse battery"
      "h-none" 120 sample_state sample_state "ann@example.com" logged_in

login-authenticates_example :
    authenticate "h-t1" 3000 login_state
    ≡ ok (record { user = signed_in_result.user; session = signed_in_result.session })
login-authenticates_example =
    login-authenticates sample_outside (λ t. "h-" <> t) 3600 sample_draws "ann@example.com"
      "correct horse battery" "h-none" 120 3000 sample_state sample_state logged_in (omega arith)
