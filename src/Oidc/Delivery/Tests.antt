-- ===== src/Oidc/Delivery/Tests.antt =====
-- A delivery at a concrete store: claimed, and completed by what the client answers.
use opened_connect_server.Identity.Revocation.{mark_tokens}
use opened_connect_server.Identity.Metadata.{text}
use opened_connect_server.Identity.Endings.{
  revoke_codes_where, revoke_transactions_where, notify_channel, notify_app, end_app_grants,
  end_app_session, end_apps_where, local_delivery, end_one_session, end_session, end_sessions_where,
}
use opened_connect_server.Table.{get, put, map_values, keep, values}
use opened_connect_server.Clock.{second, hour}
use opened_connect_server.Oidc.Samples.{sample_state, sample_state-IsWellFormed}
use opened_connect_server.Identity.Pruning.{prune_sessions, prune_logout_state}
use opened_connect_server.Identity.State.{find_client, save_logout_delivery, FileState}
use opened_connect_server.Prelude.{◌==◌, for_each, ◌*◌, ◌≡◌, refl, false, Option, none, some, []}
use opened_connect_server.Identity.Records.{LogoutDelivery}
use opened_connect_server.Oidc.Delivery.Claimed.{Refines, IsClaimed, claim-Refines}
use opened_connect_server.Oidc.Delivery.{
  is_due, due_jobs, insert_job, sort_jobs, claim_fault, leased, claim_jobs, claim, retry_delay,
  is_refusal, complete, Sent,
}
use opened_connect_server.Identity.WellFormed.{IsWellFormed, save_logout_delivery-IsWellFormed}

-- queued at 100 for a client that has been deleted since
abbrev queued : LogoutDelivery
queued = record {
  history = [];
  id = "d1";
  op_session_id = "op1";
  app_session_id = "app1";
  client_id = "gone";
  user_id = "u1";
  subject = "u1";
  actor = "u1";
  reason = "logout";
  channel = "backchannel";
  status = "pending";
  endpoint = "https://rp.example/logout";
  created_at = 100;
  updated_at = 100;
  next_attempt = 100;
  lease_until = 0;
  lease_id = "";
  attempts = 0;
  http_status = 0;
  error_code = "";
}

abbrev with_queued : FileState
with_queued = save_logout_delivery sample_state queued

with_queued-IsWellFormed : IsWellFormed with_queued
with_queued-IsWellFormed = save_logout_delivery-IsWellFormed sample_state-IsWellFormed queued

abbrev claimed : Option LogoutDelivery × FileState
claimed = claim "" "" "lease" 120 with_queued

-- the delivery is due, and leased
claim_due : claimed.0 ≡ some (leased "lease" 120 queued)
unfolding claim claim_jobs due_jobs sort_jobs values prune_logout_state keep prune_sessions
    end_sessions_where for_each save_logout_delivery put insert_job is_due ◌==◌ claim_fault
    find_client get end_app_grants end_app_session end_apps_where end_one_session end_session
    local_delivery notify_app notify_channel revoke_codes_where revoke_transactions_where text
    mark_tokens map_values
claim_due = refl

-- not before its time
claim_early : (claim "" "" "lease" 99 with_queued).0 ≡ none
unfolding claim claim_jobs due_jobs sort_jobs values prune_logout_state keep prune_sessions
    end_sessions_where for_each save_logout_delivery put insert_job is_due ◌==◌
claim_early = refl

-- after the first claim nobody else gets it while the lease runs
claim_leased : (claim "" "" "other" 121 claimed.1).0 ≡ none
unfolding claim claim_jobs due_jobs sort_jobs values prune_logout_state keep prune_sessions
    end_sessions_where for_each save_logout_delivery put insert_job is_due ◌==◌ claim_fault
    find_client get end_app_grants end_app_session end_apps_where end_one_session end_session
    local_delivery notify_app notify_channel revoke_codes_where revoke_transactions_where text
    mark_tokens map_values
claim_leased = refl

abbrev server_busy : Sent
server_busy = record { code = 503; retry_after = 0; error_code = "http_error" }

-- the first wait is 2 seconds and its jitter
retry_delay_first : retry_delay 1 0 50 ≡ 3 * second
unfolding retry_delay
retry_delay_first = refl

retry_delay_capped : retry_delay 30 (9 * hour) 0 ≡ hour
unfolding retry_delay
retry_delay_capped = refl

is_refusal_busy : is_refusal server_busy ≡ false
unfolding is_refusal ◌==◌
is_refusal_busy = refl

claim-Refines_example :
    Refines (prune_logout_state 120 with_queued) claimed.1
    × IsClaimed "" "" "lease" 120 (prune_logout_state 120 with_queued) claimed.0 claimed.1
claim-Refines_example = claim-Refines "" "" "lease" 120 with_queued with_queued-IsWellFormed

abbrev with_held : FileState
with_held = save_logout_delivery sample_state (leased "lease" 120 queued)

abbrev after_busy : FileState
after_busy = complete "d1" "lease" server_busy 108 125 with_held
