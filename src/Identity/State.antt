-- ===== src/Identity/State.antt =====
-- identity/file_store.go: `fileState`, the state that one transaction works on, with its look-ups and
-- the writes that touch one map. Values are immutable here, so the clones of the source are omitted
-- but for `clone_user`, which also derives two claims. A look-up fails only with ErrNotFound: `none`.
use mathlib.Core.Option
use opened_connect_server.Prelude.{
  leb, if◌then◌else◌, ◌==◌, ℕ, String, ◌≡◌, inl, inr, Bool, false, not, ◌&&◌, Option, none, some,
  List, [], ◌∷◌, map,
}
use opened_connect_server.Clock.{Time, is_zero, before, unix}
use opened_connect_server.Errors.{require, Result-cases, capacity_reached, Result, ok, err}
use opened_connect_server.Table.{Table, get, put, remove, values, size, get_or}
use opened_connect_server.Identity.Records.{
  User, Session, AppSession, LogoutDelivery, LogoutInteraction, LogoutOperation,
}
use opened_connect_server.Identity.Grants.{
  consent_id, OauthAccess, AuthzTransaction, AuthorizationCode, AccessToken, Consent, OauthPolicy,
  RefreshFamily, RefreshToken, InitialAccessToken, RegistrationAccessToken,
}
use opened_connect_server.Identity.Metadata.{ClientRecord}

pub record FileState : Type 0 where
  pub logout_operations : Table LogoutOperation
  pub app_sessions : Table AppSession
  pub logout_deliveries : Table LogoutDelivery
  pub logout_interactions : Table LogoutInteraction
  pub oauth_policies : Table OauthPolicy
  pub user_oauth_access : Table OauthAccess
  pub refresh_families : Table RefreshFamily
  pub refresh_tokens : Table RefreshToken
  pub initial_token_map : Table InitialAccessToken
  pub registration_token_map : Table RegistrationAccessToken
  pub clients_map : Table ClientRecord
  pub version : ℕ
  pub users_map : Table User
  pub sessions : Table Session
  pub authz_transactions : Table AuthzTransaction
  pub authorization_codes : Table AuthorizationCode
  pub access_tokens : Table AccessToken
  pub consents : Table Consent

abbrev pub current_version : ℕ
current_version = 5

-- func freshFileState
unfoldable pub fresh_file_state : FileState
fresh_file_state = record {
  logout_operations = [];
  app_sessions = [];
  logout_deliveries = [];
  logout_interactions = [];
  oauth_policies = [];
  user_oauth_access = [];
  refresh_families = [];
  refresh_tokens = [];
  initial_token_map = [];
  registration_token_map = [];
  clients_map = [];
  version = current_version;
  users_map = [];
  sessions = [];
  authz_transactions = [];
  authorization_codes = [];
  access_tokens = [];
  consents = [];
}

-- func cloneUser
unfoldable pub clone_user : User → User
clone_user u = record u {
  profile = record (u.profile) { sub = u.id; claim_updated_at = unix u.updated_at };
}

-- The policy of a client that has none: Go's zero value.
abbrev pub no_policy : OauthPolicy
no_policy = record {
  grants = [];
  resources = [];
  default_resource = "";
  introspection_enabled = false;
  introspection_audiences = [];
  refresh_inspection = false;
  refresh_enabled = false;
  password_enabled = false;
}

module _ (s : FileState) where
  unfoldable pub find_user : String → Option User
  find_user id = Option.map clone_user (get s.users_map id)

  unfoldable pub all_users : List User
  all_users = map clone_user (values s.users_map)

  unfoldable pub find_client : String → Option ClientRecord
  find_client id = get s.clients_map id

  -- a session that has ended is not found by its credential
  unfoldable pub find_session : String → Option Session
  find_session hash = elim (get s.sessions hash) [
    | none ↦ none
    | some v ↦ if is_zero v.ended_at then some v else none
  ]

  unfoldable pub find_app_session : String → Option AppSession
  find_app_session id = get s.app_sessions id

  unfoldable pub find_authz_transaction : String → Option AuthzTransaction
  find_authz_transaction id = get s.authz_transactions id

  unfoldable pub find_authorization_code : String → Option AuthorizationCode
  find_authorization_code hash = get s.authorization_codes hash

  unfoldable pub find_access_token : String → Option AccessToken
  find_access_token hash = get s.access_tokens hash

  unfoldable pub find_consent : String → String → Option Consent
  find_consent user_id client_id = get s.consents (consent_id user_id client_id)

  unfoldable pub find_refresh_family : String → Option RefreshFamily
  find_refresh_family id = get s.refresh_families id

  unfoldable pub find_refresh_token : String → Option RefreshToken
  find_refresh_token hash = get s.refresh_tokens hash

  unfoldable pub find_logout_interaction : String → Option LogoutInteraction
  find_logout_interaction id = get s.logout_interactions id

  unfoldable pub find_initial_token : String → Option InitialAccessToken
  find_initial_token hash = get s.initial_token_map hash

  unfoldable pub find_registration_token : String → Option RegistrationAccessToken
  find_registration_token client_id = get s.registration_token_map client_id

  unfoldable pub oauth_policy : String → OauthPolicy
  oauth_policy id = get_or s.oauth_policies id no_policy

  unfoldable pub oauth_access : String → OauthAccess
  oauth_access id = get_or s.user_oauth_access id []

  unfoldable pub save_app_session : AppSession → FileState
  save_app_session v = record s { app_sessions = put s.app_sessions v.id v }

  unfoldable pub save_logout_delivery : LogoutDelivery → FileState
  save_logout_delivery v = record s { logout_deliveries = put s.logout_deliveries v.id v }

  unfoldable pub save_logout_interaction : LogoutInteraction → FileState
  save_logout_interaction v = record s { logout_interactions = put s.logout_interactions v.id v }

  unfoldable pub save_session : Session → FileState
  save_session v = record s { sessions = put s.sessions v.hash v }

  unfoldable pub remove_session_credential : String → FileState
  remove_session_credential hash = record s { sessions = remove s.sessions hash }

  unfoldable pub save_authz_transaction : AuthzTransaction → FileState
  save_authz_transaction t = record s { authz_transactions = put s.authz_transactions t.id t }

  unfoldable pub delete_authz_transaction : String → FileState
  delete_authz_transaction id = record s { authz_transactions = remove s.authz_transactions id }

  unfoldable pub save_authorization_code : AuthorizationCode → FileState
  save_authorization_code c = record s { authorization_codes = put s.authorization_codes c.hash c }

  unfoldable pub save_access_token : AccessToken → FileState
  save_access_token a = record s { access_tokens = put s.access_tokens a.hash a }

  unfoldable pub save_refresh_family : RefreshFamily → FileState
  save_refresh_family f = record s { refresh_families = put s.refresh_families f.id f }

  unfoldable pub save_refresh_token : RefreshToken → FileState
  save_refresh_token t = record s { refresh_tokens = put s.refresh_tokens t.hash t }

  unfoldable pub save_initial_token : InitialAccessToken → FileState
  save_initial_token v = record s { initial_token_map = put s.initial_token_map v.hash v }

  unfoldable pub save_registration_token : RegistrationAccessToken → FileState
  save_registration_token v = record s {
    registration_token_map = put s.registration_token_map v.client_id v;
  }

  unfoldable pub delete_registration_token : String → FileState
  delete_registration_token id = record s {
    registration_token_map = remove s.registration_token_map id;
  }

-- func SessionByID, over tx.ListSessions
unfoldable pub session_with_id : List Session → String → Option Session
session_with_id [] id = none
session_with_id (v ∷ vs) id = if v.id == id then some v else session_with_id vs id

unfoldable pub session_by_id : FileState → String → Option Session
unfolding session_with_id
session_by_id s id = session_with_id (values s.sessions) id

-- func SessionActive
unfoldable pub session_active : FileState → String → Time → Bool
session_active s id now = elim (session_by_id s id) [
  | none ↦ false
  | some v ↦ is_zero v.ended_at && before now v.expires_at
]

-- func CheckSessionCapacity
unfoldable pub check_session_capacity : FileState → String → Result (Unit {0})
check_session_capacity s kind =
    if kind == "op"
    then require (not (leb 10000 (size s.sessions))) capacity_reached
    else if kind == "app"
    then require (not (leb 50000 (size s.app_sessions))) capacity_reached
    else if kind == "interaction"
    then require (not (leb 10000 (size s.logout_interactions))) capacity_reached
    else ok tt

-- Store.Write: the state of a callback that fails is dropped.
unfoldable pub write {ℓ} :
    {A : Type ℓ} → FileState → (FileState → Result (A × FileState)) → Result A × FileState
write s fn = elim (fn s) [ ok (a, s') ↦ (ok a, s') | err e ↦ (err e, s) ]

-- what a callback keeps where it succeeds, Write keeps
pub write-inv {ℓ κ} :
    {A : Type ℓ} (P : FileState → Type κ) (s : FileState) (fn : FileState → Result (A × FileState))
    → P s
    → ((y : A × FileState) → fn s ≡ ok y → P y.1)
    → P (write s fn).1
unfolding write
write-inv P s fn before_ kept = elim (Result-cases (fn s)) [
  | inl (y, done) ↦ rw (done, write) (kept y done)
  | inr (e, failed) ↦ rw (failed, write) before_
]

written {ℓ} :
    {A : Type ℓ} (s : FileState) (r : Result (A × FileState)) {a : A} {t : FileState}
    → ◌≡◌ {A = Result A × FileState}
        (elim r [ ok (x, u) ↦ (ok x, u) | err e ↦ (err e, s) ])
        (ok a, t)
    → r ≡ ok (a, t)
written s (ok (x, u)) h = cc
written s (err e) h = cc

-- a write that answers with a value comes from a callback that succeeds
pub write-ok {ℓ} :
    {A : Type ℓ} (s : FileState) (fn : FileState → Result (A × FileState)) {a : A} {t : FileState}
    → ◌≡◌ {A = Result A × FileState} (write s fn) (ok a, t)
    → fn s ≡ ok (a, t)
unfolding write
write-ok s fn h = written s (fn s) h
