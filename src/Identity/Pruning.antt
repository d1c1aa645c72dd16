-- ===== src/Identity/Pruning.antt =====
-- Retention: PruneSessions, PruneLogoutState and LogoutMaintenanceDue of identity/sessions.go, and
-- PruneOIDCState of identity/file_store.go.
pub mod Kept
use opened_connect_server.Prelude.{
  if◌then◌else◌, ◌!=◌, any, for_each, ◌-◌, ◌*◌, String, Bool, not, ◌&&◌, ◌||◌,
}
use opened_connect_server.Clock.{Time, hour, is_zero, before, after}
use opened_connect_server.Table.{remove, keep, values}
use opened_connect_server.Identity.Grants.{RefreshFamily}
use opened_connect_server.Identity.State.{FileState}
use opened_connect_server.Identity.Endings.{end_sessions_where}

-- func PruneSessions
unfoldable pub prune_sessions : Time → FileState → FileState
prune_sessions now s =
    end_sessions_where (λ v. not (after v.expires_at now) && is_zero v.ended_at) "system" "expired"
      now s

-- 30 days before `now`; times before the origin do not occur, and 0 stands for them
abbrev pub retention_cutoff : Time → Time
retention_cutoff now = now - 720 * hour

abbrev ended_before : Time → Time → Bool
ended_before cutoff ended_at = not (is_zero ended_at) && before ended_at cutoff

-- func PruneLogoutState
unfoldable pub prune_logout_state : Time → FileState → FileState
prune_logout_state now s =
    let t = prune_sessions now s in
    let cutoff = retention_cutoff now in
    record t {
      logout_operations = keep (λ op. not (before op.created_at cutoff)) t.logout_operations;
      logout_interactions = keep (λ v. before now v.expires_at) t.logout_interactions;
      logout_deliveries = keep (λ v. not (before v.created_at cutoff)) t.logout_deliveries;
      app_sessions = keep (λ v. not (ended_before cutoff v.ended_at)) t.app_sessions;
      sessions = keep (λ v. not (ended_before cutoff v.ended_at)) t.sessions;
    }

-- func LogoutMaintenanceDue
unfoldable pub logout_maintenance_due : FileState → Time → Bool
logout_maintenance_due s now =
    let cutoff = retention_cutoff now in
    any (λ v. is_zero v.ended_at && not (before now v.expires_at) || ended_before cutoff v.ended_at)
      (values s.sessions)
    || (any (λ v. not (before now v.expires_at)) (values s.logout_interactions)
        || (any (λ v. before v.created_at cutoff) (values s.logout_deliveries)
            || (any (λ v. before v.created_at cutoff) (values s.logout_operations)
                || any (λ v. ended_before cutoff v.ended_at) (values s.app_sessions))))

-- `delete(s.RefreshFamilies, id)` with the tokens of the family
unfoldable pub prune_family : Time → String × RefreshFamily → FileState → FileState
prune_family now (id, f) s = if before now f.retain_until then s else record s {
  refresh_families = remove s.refresh_families id;
  refresh_tokens = keep (λ t. t.family_id != id) s.refresh_tokens;
}

unfoldable pub prune_families : Time → FileState → FileState
unfolding prune_family
prune_families now s = for_each s.refresh_families (prune_family now) s

-- func PruneOIDCState
unfoldable pub prune_oidc_state : Time → FileState → FileState
unfolding prune_families
prune_oidc_state now s =
    let t = prune_families now s in
    record t {
      authz_transactions = keep (λ x. after x.expires_at now) t.authz_transactions;
      authorization_codes =
          keep (λ c. after c.expires_at now || after c.retain_until now) t.authorization_codes;
      access_tokens = keep (λ a. after a.expires_at now) t.access_tokens;
    }
