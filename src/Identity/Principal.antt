-- ===== src/Identity/Principal.antt =====
-- Who is signed in: principal and Authenticate of identity/service.go.
use opened_connect_server.Prelude.{◌!=◌, String, Bool, false, not, ◌&&◌}
use opened_connect_server.Clock.{Time, after}
use opened_connect_server.Errors.{
  require, ◌>>=◌, ◌>>◌, found_or, unauthorized, forbidden, Result, ok,
}
use opened_connect_server.Identity.Records.{role_admin, Profile, Session}
use opened_connect_server.Identity.State.{find_user, find_session, FileState}

pub record Principal : Type 0 where
  pub user : Profile
  pub session : Session

-- func principal
unfoldable pub principal : String → Bool → Time → FileState → Result Principal
principal hash admin now s = do
  session ← found_or (find_session s hash) unauthorized
  require (after session.expires_at now) unauthorized
  user ← found_or (find_user s session.user_id) unauthorized
  require user.active unauthorized
  require (not (admin && user.role != role_admin)) forbidden
  ok (record { user = user.profile; session = session })

-- func Authenticate
unfoldable pub authenticate : String → Time → FileState → Result Principal
authenticate hash now s = principal hash false now s
