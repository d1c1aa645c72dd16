-- ===== src/Tests/Accounts.antt =====
-- Security changes of users and clients, and reachability, at a concrete store.
use opened_connect_server.Identity.Endings.Closed.{end_session-SessionEnded}
use opened_connect_server.Identity.Endings.Ended.{SessionEnded}
use opened_connect_server.Identity.Pruning.{prune_oidc_state}
use opened_connect_server.Identity.Pruning.Kept.{authorization_codes-prune_oidc_state}
use opened_connect_server.Identity.Mutations.Operations.{save_logout_operation-bound}
use opened_connect_server.Prelude.{
  ◌==◌, any, ◌≤◌, ◌<◌, ◌≡◌, refl, true, ◌||◌, none, some, [], ◌∷◌, arith,
}
use opened_connect_server.Errors.{ok}
use opened_connect_server.Table.{get, values, size, retain}
use opened_connect_server.Identity.Records.{User, LogoutOperation}
use opened_connect_server.Identity.Metadata.{ClientRecord}
use opened_connect_server.Identity.State.{fresh_file_state, find_client}
use opened_connect_server.Identity.Endings.{is_live, end_session}
use opened_connect_server.Identity.Endings.Withdrawn.{ClientWithdrawn, UserWithdrawn}
use opened_connect_server.Identity.Mutations.{
  email_taken, security_change, store_user, save_user, delete_user, save_client, delete_client,
  save_oauth_policy, max_operations, save_logout_operation,
}
use opened_connect_server.Identity.Mutations.Clients.{
  save_client-Withdrawn, delete_client-Withdrawn, save_oauth_policy-Withdrawn,
}
use opened_connect_server.Identity.Mutations.Users.{
  DistinctEmails, save_user-DistinctEmails, save_user-Withdrawn, delete_user-Withdrawn,
}
use opened_connect_server.Identity.Machine.{Reachable-IsWellFormed, client, user, fresh, after_step}
use opened_connect_server.Identity.WellFormed.{IsWellFormed}
use opened_connect_server.Oidc.Samples.{
  sample_client, sample_user, sample_session, sample_policy, sample_state,
  sample_state-IsWellFormed,
}
use opened_connect_server.Clock.{after}

Reachable-IsWellFormed_example :
    IsWellFormed (save_client sample_client 7 (store_user sample_user 5 fresh_file_state))
Reachable-IsWellFormed_example =
    Reachable-IsWellFormed
      (after_step (after_step fresh (user sample_user 5)) (client sample_client 7))

client_stored : find_client sample_state "rp" ≡ some sample_client
unfolding find_client get ◌==◌
client_stored = refl

save_client-Withdrawn_example :
    ((stored : ClientRecord) × (find_client (save_client sample_client 200 sample_state) "rp"
        ≡ some stored)
      × (50 < stored.updated_at)
      × (stored.metadata ≡ sample_client.metadata)
      × (stored.secret ≡ sample_client.secret))
    × ClientWithdrawn "rp" (save_client sample_client 200 sample_state)
save_client-Withdrawn_example =
    save_client-Withdrawn sample_client sample_client 200 sample_state client_stored

delete_client-Withdrawn_example :
    (find_client (delete_client "rp" 200 sample_state) "rp" ≡ none)
    × ClientWithdrawn "rp" (delete_client "rp" 200 sample_state)
delete_client-Withdrawn_example = delete_client-Withdrawn "rp" 200 sample_state

save_oauth_policy-Withdrawn_example :
    ClientWithdrawn "rp" (save_oauth_policy "rp" sample_policy 200 sample_state)
save_oauth_policy-Withdrawn_example =
    save_oauth_policy-Withdrawn "rp" sample_policy 200 sample_state

delete_user-Withdrawn_example : UserWithdrawn "u1" (delete_user "u1" 200 sample_state)
delete_user-Withdrawn_example = delete_user-Withdrawn "u1" 200 sample_state

abbrev renewed : User
renewed = record sample_user { password_hash = "argon-2" }

user_stored : get sample_state.users_map "u1" ≡ some sample_user
unfolding get ◌==◌
user_stored = refl

password_changed : security_change sample_user renewed ≡ true
unfolding security_change ◌==◌
password_changed = refl

user_saved : save_user renewed 200 sample_state ≡ ok (store_user renewed 200 sample_state)
unfolding save_user email_taken any values ◌==◌
user_saved = refl

save_user-Withdrawn_example : UserWithdrawn "u1" (store_user renewed 200 sample_state)
save_user-Withdrawn_example =
    save_user-Withdrawn renewed sample_user 200 sample_state user_stored password_changed user_saved

one_account : DistinctEmails sample_state.users_map
unfolding get
one_account j k u v at_j at_k same = ground (arith, at_j, at_k)

save_user-DistinctEmails_example : DistinctEmails (store_user renewed 200 sample_state).users_map
save_user-DistinctEmails_example =
    save_user-DistinctEmails renewed 200 sample_state one_account user_saved

session_stored : get sample_state.sessions "h-cookie" ≡ some sample_session
unfolding get ◌==◌
session_stored = refl

session_live : is_live "op1" sample_session ≡ true
unfolding ◌==◌
session_live = refl

end_session-SessionEnded_example :
    SessionEnded "op1" (end_session "op1" "u1" "user_logout" 200 sample_state)
end_session-SessionEnded_example =
    end_session-SessionEnded "op1" "u1" "user_logout" 200 refl sample_state "h-cookie"
      sample_session sample_state-IsWellFormed session_stored session_live

authorization_codes-prune_oidc_state_example :
    get (prune_oidc_state 200 sample_state).authorization_codes "h-code"
    ≡ retain
        (λ c. after c.expires_at 200 || after c.retain_until 200)
        (get sample_state.authorization_codes "h-code")
authorization_codes-prune_oidc_state_example =
    authorization_codes-prune_oidc_state 200 sample_state "h-code" sample_state-IsWellFormed.codes

abbrev sample_operation : LogoutOperation
sample_operation = record {
  id = "lo1";
  actor = "u1";
  kind = "op-sessions";
  created_at = 200;
  targets = "op1" ∷ [];
}

save_logout_operation-bound_example :
    size (save_logout_operation sample_operation sample_state).logout_operations ≤ max_operations
save_logout_operation-bound_example =
    save_logout_operation-bound sample_operation sample_state (omega arith)
