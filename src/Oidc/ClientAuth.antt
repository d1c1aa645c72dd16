-- ===== src/Oidc/ClientAuth.antt =====
-- Client authentication and its limiter: oidc/clientauth.go. A repeated `client_id` or
-- `client_secret` does not reach it, as parseProtocolForm refuses repeated parameters.
pub mod Sound
pub mod Limits
pub mod Tests
use opened_connect_server.Prelude.{
  ltb, leb, eqb, if◌then◌else◌, ◌==◌, ◌!=◌, ◌<>◌, length, ℕ, ◌+◌, ◌*◌, String, Bool, true, false,
  not, ◌&&◌, ◌||◌, Option, none, some, List, [], ◌∷◌,
}
use opened_connect_server.Clock.{Time, Duration, second, after}
use opened_connect_server.Table.{Table, get, put, keep, size, get_or}
use opened_connect_server.Identity.Metadata.{runtime_client, ProtocolClient}
use opened_connect_server.Identity.State.{find_client, FileState}
use opened_connect_server.Oidc.Setup.{Form, form_get, form_has}

pub data AuthError : Type 0 where
  unavailable auth_required invalid_client_auth auth_conflict limited : AuthError

pub record PresentedAuth : Type 0 where
  pub client_id : String
  pub secret : String
  pub method : String

-- What the handler reads of a request besides the form: the values of the Authorization header,
-- what http.Request.BasicAuth makes of them, and the peer's address.
pub record AuthRequest : Type 0 where
  pub authorization : List String
  pub basic : Option (String × String)
  pub source : String

pub data Extracted : Type 0 where
  unusable : AuthError → Extracted
  usable : PresentedAuth → Extracted

-- r.Header.Get
abbrev pub first_value : List String → String
first_value [] = ""
first_value (x ∷ xs) = x

abbrev pub is_set {ℓ} : {A : Type ℓ} → Option A → Bool
is_set none = false
is_set (some a) = true

-- the identifier and secret of a Basic header; `unescape` is url.QueryUnescape
unfoldable pub basic_auth : (String → Option String) → Form → String × String → Extracted
basic_auth unescape form (raw_id, raw_secret) = elim (unescape raw_id) [
  | none ↦ unusable invalid_client_auth
  | some id ↦ elim (unescape raw_secret) [
    | none ↦ unusable invalid_client_auth
    | some secret ↦
        if form_has form "client_id" && form_get form "client_id" != id
        then unusable auth_conflict
        else usable (record { client_id = id; secret = secret; method = "client_secret_basic" })
  ]
]

unfoldable pub post_auth : Form → Extracted
post_auth form =
    let id = form_get form "client_id" in
    let secret = form_get form "client_secret" in
    if secret != ""
    then usable (record { client_id = id; secret = secret; method = "client_secret_post" })
    else if id == ""
    then unusable auth_required
    else usable (record { client_id = id; secret = ""; method = "none" })

-- func extractClientAuth
unfoldable pub extract_client_auth : (String → Option String) → AuthRequest → Form → Extracted
extract_client_auth unescape r form =
    if ltb 1 (length r.authorization)
    then unusable auth_conflict
    else if first_value r.authorization != "" && not (is_set r.basic)
    then unusable invalid_client_auth
    else if is_set r.basic && form_has form "client_secret"
    then unusable auth_conflict
    else elim r.basic [ some pair ↦ basic_auth unescape form pair | none ↦ post_auth form ]

pub record LimitEntry : Type 0 where
  pub count : ℕ
  pub expires : Time

-- the entries of a clientAuthLimiter
abbrev pub Limiter : Type 0
Limiter = Table LimitEntry

abbrev pub no_entry : LimitEntry
no_entry = record { count = 0; expires = 0 }

abbrev pub counted : LimitEntry → Duration → Time → LimitEntry
counted e window now = record {
  count = e.count + 1;
  expires = if eqb e.count 0 then now + window else e.expires;
}

abbrev pub max_entries : ℕ
max_entries = 10000

-- func take, after the loop that drops the entries that have run out
unfoldable pub take_live : String → ℕ → Duration → Time → Limiter → Bool × Limiter
take_live key limit window now l =
    let e = get_or l key no_entry in
    if leb limit e.count
    then (false, l)
    else if not (is_set (get l key)) && leb max_entries (size l)
    then (false, l)
    else (true, put l key (counted e window now))

-- func take
unfoldable pub take_token : String → ℕ → Duration → Time → Limiter → Bool × Limiter
take_token key limit window now l =
    take_live key limit window now (keep (λ e. after e.expires now) l)

abbrev pub max_failures : ℕ
max_failures = 30

abbrev pub quarter : Duration
quarter = 900 * second

-- func allow
abbrev pub count_failure : String → Time → Limiter → Limiter
count_failure key now l = (take_token key max_failures quarter now l).1

-- func available
unfoldable pub available : String → Time → Limiter → Bool
available key now l =
    let e = get_or l key no_entry in not (after e.expires now) || ltb e.count max_failures

pub data Authentication : Type 0 where
  refused : AuthError → Authentication
  authenticated : ProtocolClient → Authentication

-- the comparison of the method and the secret with what is registered
unfoldable pub credentials_match : PresentedAuth → ProtocolClient → Bool
credentials_match p c =
    c.token_endpoint_auth_method == p.method
    && (p.method == "none" || (c.secret == p.secret && c.secret != ""))

-- authenticateClient once the presented credentials are known; `store` is `none` where reading it fails
unfoldable pub check_client :
    PresentedAuth → String → Option FileState → Time → Limiter → Authentication × Limiter
check_client p bucket store now l = elim store [
  | none ↦ (refused unavailable, l)
  | some s ↦ elim (find_client s p.client_id) [
    | none ↦ (refused invalid_client_auth, count_failure bucket now l)
    | some c ↦
        if credentials_match p (runtime_client c)
        then (authenticated (runtime_client c), l)
        else (refused invalid_client_auth, count_failure bucket now l)
  ]
]

-- func authenticateClient
unfoldable pub authenticate_client :
    (String → Option String)
    → AuthRequest
    → Form
    → Option FileState
    → Time
    → Limiter
    → Authentication × Limiter
authenticate_client unescape r form store now l = elim (extract_client_auth unescape r form) [
  | unusable e ↦ (refused e, l)
  | usable p ↦
      if p.client_id == ""
      then (refused invalid_client_auth, l)
      else if not (available (r.source <> "|" <> p.client_id) now l)
      then (refused limited, l)
      else check_client p (r.source <> "|" <> p.client_id) store now l
]
