-- ===== src/Oidc/Delivery.antt =====
-- oidc/logout_delivery.go: the worker that delivers back-channel logout notifications. Each delivery is
-- leased to one worker in a transaction, sent outside of it, and completed in another. The request
-- that is sent (DNS, signature, HTTP) is outside: `Sent` is what sendLogout returns.
pub mod Claimed
pub mod Completed
pub mod Tests
use opened_connect_server.Oidc.Setup.{find_first}
use opened_connect_server.Identity.Metadata.{text}
use opened_connect_server.Identity.Pruning.{prune_logout_state, logout_maintenance_due}
use opened_connect_server.Identity.State.{find_client, save_logout_delivery, FileState}
use opened_connect_server.Prelude.{
  ltb, leb, eqb, if◌then◌else◌, ◌==◌, ◌!=◌, length, drop, any, ℕ, ◌+◌, ◌-◌, ◌*◌, ◌/◌, ◌%◌, ◌^◌,
  String, Bool, not, ◌&&◌, ◌||◌, Option, none, some, List, [], ◌∷◌, ◌++◌,
}
use opened_connect_server.Clock.{Time, Duration, second, hour, before}
use opened_connect_server.Table.{values}
use opened_connect_server.Identity.Records.{LogoutAttempt, LogoutDelivery}

-- waiting for delivery by the back channel, and neither too early nor leased
unfoldable pub is_due : String → String → Time → LogoutDelivery → Bool
is_due op_id client_id now d =
    (op_id == "" || d.op_session_id == op_id)
    && ((client_id == "" || d.client_id == client_id)
        && (d.channel == "backchannel"
            && ((d.status == "pending" || d.status == "delivering")
                && (not (before now d.next_attempt) && not (before now d.lease_until)))))

-- the jobs that pass the tests of the loop
unfoldable pub due_jobs : String → String → Time → List LogoutDelivery → List LogoutDelivery
due_jobs op_id client_id now [] = []
due_jobs op_id client_id now (d ∷ ds) =
    let rest = due_jobs op_id client_id now ds in
    if is_due op_id client_id now d then d ∷ rest else rest

-- sort.Slice by NextAttempt; jobs of the same time keep their order here
unfoldable pub insert_job : LogoutDelivery → List LogoutDelivery → List LogoutDelivery
insert_job d [] = d ∷ []
insert_job d (e ∷ es) =
    let rest = insert_job d es in
    if before e.next_attempt d.next_attempt then e ∷ rest else d ∷ e ∷ es

unfoldable pub sort_jobs : List LogoutDelivery → List LogoutDelivery
sort_jobs [] = []
sort_jobs (d ∷ ds) = insert_job d (sort_jobs ds)

-- why a due delivery is given up: the code, none for one that is sent
unfoldable pub claim_fault : Time → LogoutDelivery → FileState → Option String
claim_fault now d s =
    if leb (24 * hour) (now - d.created_at)
    then some "retry_window_expired"
    else elim (find_client s d.client_id) [
      | none ↦ none
      | some c ↦
          if text c.metadata "backchannel_logout_uri" != d.endpoint
          then some "destination_changed"
          else none
    ]

abbrev pub given_up : Time → String → LogoutDelivery → LogoutDelivery
given_up now code d = record d { status = "failed"; error_code = code; updated_at = now }

abbrev pub lease_time : Duration
lease_time = 30 * second

abbrev pub leased : String → Time → LogoutDelivery → LogoutDelivery
leased lease now d = record d {
  status = "delivering";
  lease_until = now + lease_time;
  lease_id = lease;
  attempts = d.attempts + 1;
  updated_at = now;
}

-- the loop over the due jobs: those that cannot be sent are given up, the first other one is leased
unfoldable pub claim_jobs :
    String → Time → List LogoutDelivery → FileState → Option LogoutDelivery × FileState
claim_jobs lease now [] s = (none, s)
claim_jobs lease now (d ∷ ds) s = elim (claim_fault now d s) [
  | none ↦ (some (leased lease now d), save_logout_delivery s (leased lease now d))
  | some code ↦ claim_jobs lease now ds (save_logout_delivery s (given_up now code d))
]

-- the transaction that claims a job
unfoldable pub claim :
    String → String → String → Time → FileState → Option LogoutDelivery × FileState
claim op_id client_id lease now s =
    let t = prune_logout_state now s in
    claim_jobs lease now (due_jobs op_id client_id now (sort_jobs (values t.logout_deliveries))) t

-- what sendLogout returns
pub record Sent : Type 0 where
  pub code : ℕ
  pub retry_after : Duration
  pub error_code : String

-- append, and the last 50
unfoldable pub keep_history : List LogoutAttempt → LogoutAttempt → List LogoutAttempt
keep_history history attempt =
    let all_attempts = history ++ (attempt ∷ []) in drop (length all_attempts - 50) all_attempts

min_of : ℕ → ℕ → ℕ
min_of a b = if leb a b then a else b

-- the delay before the next attempt; `jitter` is the first byte of the lease
unfoldable pub retry_delay : ℕ → Duration → ℕ → Duration
unfolding min_of
retry_delay attempts retry_after jitter =
    let base = 2 ^ min_of attempts 10 * second in
    let spread = base + jitter % 100 * base / 100 in
    let asked = if ltb spread retry_after then retry_after else spread in
    if ltb hour asked then hour else asked

unfoldable pub is_refusal : Sent → Bool
is_refusal r =
    r.error_code == "unsafe_destination"
    || (leb 400 r.code && (ltb r.code 500 && not (eqb r.code 429)))

-- the fields that each attempt sets
abbrev pub attempted : Sent → Time → LogoutDelivery → LogoutDelivery
attempted r now d = record d {
  lease_until = 0;
  lease_id = "";
  http_status = r.code;
  error_code = r.error_code;
  updated_at = now;
  history =
      keep_history d.history (record { at = now; http_status = r.code; error_code = r.error_code });
}

-- the delivery after an attempt
unfoldable pub completed : Sent → ℕ → Time → LogoutDelivery → LogoutDelivery
completed r jitter now d =
    if eqb r.code 200
    then record (attempted r now d) { status = "acknowledged" }
    else if is_refusal r
    then record (attempted r now d) { status = "failed" }
    else record (attempted r now d) {
      status = "pending";
      next_attempt = now + retry_delay d.attempts r.retry_after jitter;
    }

-- the delivery that the worker still holds
abbrev pub held : String → String → LogoutDelivery → Bool
held id lease d = d.id == id && d.lease_id == lease

-- the transaction that completes a job
unfoldable pub complete : String → String → Sent → ℕ → Time → FileState → FileState
unfolding completed
complete id lease r jitter now s = elim (find_first (held id lease) (values s.logout_deliveries)) [
  | none ↦ s
  | some d ↦ save_logout_delivery s (completed r jitter now d)
]

-- the first transaction: there is something to prune or to deliver
unfoldable pub work_needed : String → String → Time → FileState → Bool
work_needed op_id client_id now s =
    logout_maintenance_due s now || any (is_due op_id client_id now) (values s.logout_deliveries)
