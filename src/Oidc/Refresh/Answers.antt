-- ===== src/Oidc/Refresh/Answers.antt =====
-- The answers of the refresh grant, and the state with each.
use opened_connect_server.Identity.Revocation.{revoke_refresh_family}
use opened_connect_server.Identity.Grants.{RefreshFamily, RefreshToken}
use opened_connect_server.Oidc.Refresh.Sound.{IsOwned, IsRotated}
use opened_connect_server.Prelude.{◌≡◌, true}
use opened_connect_server.Clock.{Time}
use opened_connect_server.Errors.{Error, err}
use opened_connect_server.Identity.Metadata.{ProtocolClient}
use opened_connect_server.Identity.State.{FileState}
use opened_connect_server.Oidc.Setup.{
  Form, form_get, token_failure, Config, Crypto, TokenResponse, Response, oauth_error, tokens,
}
use opened_connect_server.Oidc.Refresh.{refresh_transaction, RotationDraws}

abbrev pub reuse_answer : Response
reuse_answer =
    oauth_error 400 "invalid_grant" "Refresh token reuse detected; the grant has been revoked."

-- An answer of the refresh grant, and the state with it.
pub data IsAnswer (k : Crypto) (cfg : Config) (draws : RotationDraws) (form : Form)
    (c : ProtocolClient) (now : Time) (s : FileState) (answer : Response) (t : FileState)
    : Type 0 where
  no_token :
      form_get form "refresh_token" ≡ ""
      → answer ≡ oauth_error 400 "invalid_request" "refresh_token is required."
      → t ≡ s
      → IsAnswer k cfg draws form c now s answer t
  failed :
      (e : Error)
      → refresh_transaction k cfg draws form c now s ≡ err e
      → answer ≡ token_failure e
      → t ≡ s
      → IsAnswer k cfg draws form c now s answer t
  gave :
      (given : TokenResponse) (old : RefreshToken) (f : RefreshFamily)
      → IsOwned k form c s old f
      → IsRotated k cfg draws form c old f now s given t
      → answer ≡ tokens given
      → IsAnswer k cfg draws form c now s answer t
  reused :
      (old : RefreshToken) (f : RefreshFamily)
      → IsOwned k form c s old f
      → old.consumed ≡ true
      → t ≡ revoke_refresh_family f.id s
      → answer ≡ reuse_answer
      → IsAnswer k cfg draws form c now s answer t
