-- ===== src/Identity/WellFormed/Retention.antt =====
-- Retention keeps the invariant.
use opened_connect_server.Prelude.{◌!=◌, for_each_inv, String, Bool}
use opened_connect_server.Clock.{Time, before}
use opened_connect_server.Table.{keep, keep-IsKeyed, remove-IsKeyed}
use opened_connect_server.Identity.Grants.{
  AuthzTransaction, AuthorizationCode, AccessToken, RefreshFamily,
}
use opened_connect_server.Identity.State.{FileState}
use opened_connect_server.Identity.Pruning.{
  prune_sessions, prune_logout_state, prune_family, prune_families, prune_oidc_state,
}
use opened_connect_server.Identity.WellFormed.Defs.{IsWellFormed}
use opened_connect_server.Identity.WellFormed.Sweeps.{
  choose-IsWellFormed, end_sessions_where-IsWellFormed,
}
use opened_connect_server.Identity.Records.{
  Session, AppSession, LogoutDelivery, LogoutInteraction, LogoutOperation,
}

pub prune_sessions-IsWellFormed :
    (now : Time) (s : FileState) → IsWellFormed s → IsWellFormed (prune_sessions now s)
unfolding prune_sessions
prune_sessions-IsWellFormed now s w = end_sessions_where-IsWellFormed _ _ _ now s w

swept :
    {t : FileState}
    → IsWellFormed t
    → (a : LogoutOperation → Bool) (b : LogoutInteraction → Bool) (c : LogoutDelivery → Bool)
      (d : AppSession → Bool) (e : Session → Bool)
    → IsWellFormed (record t {
      logout_operations = keep a t.logout_operations;
      logout_interactions = keep b t.logout_interactions;
      logout_deliveries = keep c t.logout_deliveries;
      app_sessions = keep d t.app_sessions;
      sessions = keep e t.sessions;
    })
swept {t} h a b c d e = assumption (
  keep-IsKeyed t.logout_operations h.operations a,
  keep-IsKeyed t.logout_interactions h.interactions b,
  keep-IsKeyed t.logout_deliveries h.deliveries c,
  keep-IsKeyed t.app_sessions h.apps d,
  keep-IsKeyed t.sessions h.session_keys e,
)

-- Housekeeping of sessions and deliveries.
pub prune_logout_state-IsWellFormed :
    (now : Time) (s : FileState) → IsWellFormed s → IsWellFormed (prune_logout_state now s)
unfolding prune_logout_state
prune_logout_state-IsWellFormed now s w = swept (prune_sessions-IsWellFormed now s w) _ _ _ _ _

prune_family-IsWellFormed :
    (now : Time) (e : String × RefreshFamily) (s : FileState)
    → IsWellFormed s
    → IsWellFormed (prune_family now e s)
unfolding prune_family
prune_family-IsWellFormed now (id, f) s w = choose-IsWellFormed (before now f.retain_until) w (
    assumption (
      remove-IsKeyed s.refresh_families w.families id,
      keep-IsKeyed s.refresh_tokens w.refreshes (λ t. t.family_id != id),
    ))

pub prune_families-IsWellFormed :
    (now : Time) (s : FileState) → IsWellFormed s → IsWellFormed (prune_families now s)
unfolding prune_families
prune_families-IsWellFormed now s w =
    for_each_inv IsWellFormed (prune_family now) (prune_family-IsWellFormed now) s.refresh_families
      s w

expired :
    {t : FileState}
    → IsWellFormed t
    → (a : AuthzTransaction → Bool) (b : AuthorizationCode → Bool) (c : AccessToken → Bool)
    → IsWellFormed (record t {
      authz_transactions = keep a t.authz_transactions;
      authorization_codes = keep b t.authorization_codes;
      access_tokens = keep c t.access_tokens;
    })
expired {t} h a b c = assumption (
  keep-IsKeyed t.authz_transactions h.transactions a,
  keep-IsKeyed t.authorization_codes h.codes b,
  keep-IsKeyed t.access_tokens h.tokens c,
)

pub prune_oidc_state-IsWellFormed :
    (now : Time) (s : FileState) → IsWellFormed s → IsWellFormed (prune_oidc_state now s)
unfolding prune_oidc_state
prune_oidc_state-IsWellFormed now s w = expired (prune_families-IsWellFormed now s w) _ _ _
