-- ===== src/Oidc/ClientAuth/Tests.antt =====
-- Client authentication and its limiter at concrete requests.
use opened_connect_server.Prelude.{◌==◌, ◌≤◌, String, ◌≡◌, refl, Option, some, [], ◌∷◌, arith}
use opened_connect_server.Table.{get}
use opened_connect_server.Identity.Metadata.{text, runtime_client}
use opened_connect_server.Identity.State.{find_client}
use opened_connect_server.Oidc.ClientAuth.{
  basic_auth, extract_client_auth, Limiter, available, credentials_match, check_client,
  authenticate_client, AuthRequest, authenticated,
}
use opened_connect_server.Oidc.ClientAuth.Sound.{authenticate_client-IsAuthentic, IsAuthentic}
use opened_connect_server.Oidc.ClientAuth.Limits.{accepted, accepted-bound}
use opened_connect_server.Oidc.Samples.{sample_client, sample_state}

abbrev plain : String → Option String
plain t = some t

abbrev request : AuthRequest
request = record {
  authorization = "Basic cnA6czNjcmV0" ∷ [];
  basic = some ("rp", "s3cret");
  source = "192.0.2.1";
}

let_in :
    authenticate_client plain request [] (some sample_state) 7 []
    ≡ (authenticated (runtime_client sample_client), [])
unfolding authenticate_client extract_client_auth basic_auth available check_client
    credentials_match find_client runtime_client text get ◌==◌
let_in = refl

authenticate_client-IsAuthentic_example :
    IsAuthentic plain request [] sample_state 7 [] (runtime_client sample_client)
    × (◌≡◌ {A = Limiter} [] [])
authenticate_client-IsAuthentic_example =
    authenticate_client-IsAuthentic plain request [] sample_state 7 [] let_in

accepted-bound_example : accepted "192.0.2.1|rp" 1 100 (5 ∷ 6 ∷ 90 ∷ []) [] ≤ 1
unfolding get
accepted-bound_example =
    accepted-bound "192.0.2.1|rp" 1 100 5 (5 ∷ 6 ∷ 90 ∷ []) [] tt refl (omega arith)
      ((omega arith, omega arith), ((omega arith, omega arith), ((omega arith, omega arith), tt)))
