-- ===== src/Identity/Service.antt =====
-- identity/service.go: sign-in, sign-out and the management of accounts. A call reads the clock once
-- here; what the code takes from outside is in `Outside` and in the draws. Texts are well-formed
-- UTF-8, so utf8.ValidString is true of them.
pub mod Signing
pub mod Admins
pub mod Permitted
pub mod Passwords
pub mod Logins
pub mod Sessions
use opened_connect_server.Identity.Endings.{delete_user_sessions}
use opened_connect_server.Identity.Mutations.{same_bool, save_user, delete_user}
use opened_connect_server.Identity.Principal.{principal}
use opened_connect_server.Oidc.Texts.{codes, trim_space}
use opened_connect_server.Errors.{
  require, ◌>>=◌, ◌>>◌, found_or, not_found, last_administrator, random_failed, validation, Result,
  ok, err,
}
use opened_connect_server.Identity.Records.{Role, role_user, role_admin, Claims, Profile, User}
use opened_connect_server.Identity.State.{clone_user, find_user, all_users, write, FileState}
use Prim.Native.String.{len}
use opened_connect_server.Prelude.{
  ltb, if◌then◌else◌, ◌==◌, ◌!=◌, length, any, String, Bool, true, not, ◌&&◌, ◌||◌, Option, none,
  some, [],
}
use opened_connect_server.Clock.{Time}

-- What the service calls of other packages: the password hash with its comparison, strings.ToLower,
-- mail.ParseAddress and the validation of profile attributes, `none` where they are good.
pub record Outside : Type 0 where
  pub encode : String → Option String
  pub verify : String → String → Bool
  pub lower : String → String
  pub parse_address : String → Option String
  pub claims_fault : Claims → Option String

pub record UserInput : Type 0 where
  pub claims : Option Claims
  pub email_verified : Bool
  pub phone_number_verified : Bool
  pub name : String
  pub email : String
  pub role : Role
  pub active : Bool

-- `if test { return ValidationError(text) }`
abbrev pub reject : Bool → String → Result (Unit {0})
reject test text = require (not test) (validation text)

-- validateClaims(input.Claims), which accepts nil
unfoldable pub claims_valid : Outside → Option Claims → Result (Unit {0})
claims_valid o none = ok tt
claims_valid o (some c) = elim (o.claims_fault c) [
  | none ↦ ok tt
  | some text ↦ err (validation text)
]

phone_of : Option Claims → String
phone_of none = ""
phone_of (some c) = c.phone_number

-- func normalize
unfoldable pub normalize : Outside → UserInput → Result UserInput
unfolding phone_of
normalize o input = do
  reject (input.phone_number_verified && trim_space (phone_of input.claims) == "")
      "A phone number is required before it can be marked verified."
  claims_valid o input.claims
  let email = o.lower (trim_space input.email)
  let name = trim_space input.name
  reject
      (elim (o.parse_address email) [ none ↦ true | some address ↦ address != email ]
        || ltb 254 (len email))
      "Enter a valid email address."
  reject (ltb (length (codes name)) 1 || ltb 100 (length (codes name)))
      "Name must contain 1–100 characters."
  reject (input.role != role_user && input.role != role_admin) "Role must be user or admin."
  ok (record input { email = email; name = name })

-- func ValidatePassword
unfoldable pub validate_password : String → Result (Unit {0})
validate_password password =
    let n = length (codes password) in
    reject (ltb n 12 || (ltb 128 n || ltb 512 (len password)))
      "Password must contain 12–128 characters."

-- func HashPassword; `none` from outside is the failure of crypto/rand
unfoldable pub hash_password : Outside → String → Result String
hash_password o password = do validate_password password; found_or (o.encode password) random_failed

abbrev pub zero_claims : Claims
zero_claims = record {
  given_name = "";
  family_name = "";
  middle_name = "";
  nickname = "";
  preferred_username = "";
  profile_url = "";
  picture = "";
  website = "";
  gender = "";
  birthdate = "";
  zoneinfo = "";
  locale = "";
  phone_number = "";
  address = record {
    formatted = "";
    street_address = "";
    locality = "";
    region = "";
    postal_code = "";
    country = "";
  };
  custom_attributes = [];
}

-- func buildUser
unfoldable pub build_user : Outside → Option String → UserInput → String → Time → Result User
build_user o draw raw password now = do
  input ← normalize o raw
  hash ← hash_password o password
  id ← found_or draw random_failed
  ok (
      clone_user (record {
        profile = record {
          claims = elim input.claims [ none ↦ zero_claims | some c ↦ c ];
          sub = "";
          claim_updated_at = 0;
          email_verified = input.email_verified;
          phone_number_verified = input.phone_number_verified;
          id = id;
          email = input.email;
          name = input.name;
          role = input.role;
          active = input.active;
          created_at = now;
          updated_at = now;
        };
        password_hash = hash;
      }))

-- `return tx.SaveUser(user)`, with the value of the call
abbrev pub saving {ℓ} : {A : Type ℓ} → A → Result FileState → Result (A × FileState)
saving a r = r >>= λ t. ok (a, t)

-- func lastAdmin
unfoldable pub last_admin : FileState → User → Bool
last_admin s user =
    user.role == role_admin
    && (user.active
        && not (
            any
              (λ (other : User). other.id != user.id && (other.role == role_admin && other.active))
              (all_users s)))

-- the callback of UpdateUser: the new record
abbrev pub updated_user : UserInput → Time → User → User
updated_user input now user = clone_user (record user {
  profile = record (user.profile) {
    claims = elim input.claims [ none ↦ user.claims | some c ↦ c ];
    email_verified = input.email_verified;
    phone_number_verified = input.phone_number_verified;
    name = input.name;
    email = input.email;
    role = input.role;
    active = input.active;
    updated_at = now;
  };
})

-- UpdateUser ends the sessions where the role, the activity or the address changes
unfoldable pub ends_sessions : User → UserInput → Bool
ends_sessions user input =
    user.role != input.role
    || (not (same_bool user.active input.active) || user.email != input.email)

-- the callback of UpdateUser
unfoldable pub update_user_transaction :
    String → String → UserInput → Time → FileState → Result (Profile × FileState)
unfolding ends_sessions
update_user_transaction hash id input now s = do
  _ ← principal hash true now s
  user ← found_or (find_user s id) not_found
  require (not ((not input.active || input.role != role_admin) && last_admin s user))
      last_administrator
  let t : FileState = if ends_sessions user input then delete_user_sessions id now s else s
  saving (updated_user input now user).profile (save_user (updated_user input now user) now t)

-- func UpdateUser
unfoldable pub update_user :
    Outside → String → String → UserInput → Time → FileState → Result Profile × FileState
update_user o hash id raw now s = elim (normalize o raw) [
  | err e ↦ (err e, s)
  | ok input ↦ write s (update_user_transaction hash id input now)
]

-- the callback of DeleteUser
unfoldable pub remove_user_transaction :
    String → String → Time → FileState → Result (Unit {0} × FileState)
remove_user_transaction hash id now s = do
  _ ← principal hash true now s
  user ← found_or (find_user s id) not_found
  require (not (last_admin s user)) last_administrator
  ok (tt, delete_user id now s)

-- Service.DeleteUser
unfoldable pub remove_user : String → String → Time → FileState → Result (Unit {0}) × FileState
remove_user hash id now s = write s (remove_user_transaction hash id now)
