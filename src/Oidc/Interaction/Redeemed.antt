-- ===== src/Oidc/Interaction/Redeemed.antt =====
-- From the sign-in request to the token endpoint: a minted code can be redeemed by its client.
use mathlib.Core.Option
use opened_connect_server.Oidc.Redirect.{Redirect}
