-- ===== src/Oidc/Params.antt =====
-- oidc/params.go: the parameters of a protocol request, and the freshness of a session. What net/http,
-- mime and net/url make of the request is in `HttpRequest` and the parameter `parse_query`. The limit
-- on the bytes that are read is one past the limit on those accepted, so a longer body is refused in
-- either case.
use Prim.Native.String.{len}
use opened_connect_server.Prelude.{
  ltb, leb, if◌then◌else◌, ◌==◌, ◌!=◌, ℕ, ◌-◌, String, Bool, true, false, not, ◌&&◌, ◌||◌, Option,
  none, some, List, [], ◌∷◌,
}
use opened_connect_server.Clock.{Time, is_zero, before, after, unix}
use opened_connect_server.Table.{Table}
use opened_connect_server.Identity.Records.{Session}
use opened_connect_server.Oidc.Setup.{Form}

abbrev pub max_protocol_request_bytes : ℕ
max_protocol_request_bytes = 16384

pub record HttpRequest : Type 0 where
  pub method : String
  pub media_type : Option String
  pub raw_query : String
  pub body : Option String

pub data ParsedForm : Type 0 where
  malformed multiple_resources : ParsedForm
  parsed : Form → ParsedForm

-- the loop that refuses a repeated parameter; Go may meet the keys in another order
unfoldable pub single_values : Table (List String) → ParsedForm
single_values [] = parsed []
single_values ((key, value ∷ []) ∷ m) = elim (single_values m) [
  | malformed ↦ malformed
  | multiple_resources ↦ multiple_resources
  | parsed form ↦ parsed ((key, value) ∷ form)
]
single_values ((key, _) ∷ m) = if key == "resource" then multiple_resources else malformed

-- the query or the body, whichever the method calls for
unfoldable pub raw_parameters : HttpRequest → Option String
raw_parameters r =
    if r.method == "POST"
    then elim r.media_type [
      | none ↦ none
      | some media ↦
          if media != "application/x-www-form-urlencoded" || r.raw_query != "" then none else r.body
    ]
    else if r.method == "GET"
    then some r.raw_query
    else none

-- func parseProtocolForm
unfoldable pub parse_protocol_form :
    (String → Option (Table (List String))) → HttpRequest → ParsedForm
parse_protocol_form parse_query r = elim (raw_parameters r) [
  | none ↦ malformed
  | some raw ↦
      if ltb max_protocol_request_bytes (len raw)
      then malformed
      else elim (parse_query raw) [ none ↦ malformed | some params ↦ single_values params ]
]

-- func sessionFresh
unfoldable pub session_fresh : Session → Time → Option ℕ → Bool
session_fresh session now max_age =
    if is_zero session.auth_time
      || (after session.auth_time now || not (before now session.expires_at))
    then false
    else elim max_age [
      | none ↦ true
      | some age ↦ ltb 0 age && leb (unix now - unix session.auth_time) age
    ]
