-- ===== src/Oidc/Delivery/Claimed.antt =====
-- Claiming a delivery follows the states that a delivery may pass through.
use opened_connect_server.Identity.Metadata.{text, ClientRecord}
use opened_connect_server.Identity.Pruning.{prune_logout_state}
use opened_connect_server.Identity.WellFormed.{IsWellFormed, prune_logout_state-IsWellFormed}
use opened_connect_server.Table.{get, values, get-put, All-entries}
use opened_connect_server.Identity.Records.{LogoutDelivery}
use opened_connect_server.Identity.State.{find_client, save_logout_delivery, FileState}
use opened_connect_server.Prelude.{
  leb, if◌then◌else◌, ◌==◌, ◌!=◌, ==_iff, ==_refl, Bool-cases, Option-cases, if_true, if_false, All,
  ◌+◌, ◌-◌, ◌*◌, ◌≤◌, ◌<◌, String, ◌≡◌, refl, sym, ap, ◌∙◌, subst, ◌⊎◌, inl, inr, true, false,
  Option, none, some, List, [], ◌∷◌, arith,
}
use opened_connect_server.Clock.{Time, second, hour, before}
use opened_connect_server.Oidc.Delivery.{
  is_due, due_jobs, insert_job, sort_jobs, claim_fault, given_up, leased, claim_jobs, claim,
}

-- waiting to be sent, for the first time or again
abbrev pub IsWaiting : String → Type 0
IsWaiting a = (a ≡ "pending") ⊎ (a ≡ "delivering")

-- The states of a delivery, as a worker's claim may change them.
pub data Moves : String → String → Type 0 where
  stays : {a : String} → Moves a a
  starts : {a : String} → IsWaiting a → Moves a "delivering"
  gives_up : {a : String} → IsWaiting a → Moves a "failed"

-- every delivery of the second state is one of the first, in a state that follows
unfoldable pub Refines : FileState → FileState → Type 0
Refines s t =
    (id : String) (e : LogoutDelivery)
    → get t.logout_deliveries id ≡ some e
    → (d : LogoutDelivery) × (get s.logout_deliveries id ≡ some d) × Moves d.status e.status

-- stored, and due
abbrev pub IsJob : String → String → Time → FileState → LogoutDelivery → Type 0
IsJob op_id client_id now s d =
    (get s.logout_deliveries d.id ≡ some d) × (is_due op_id client_id now d ≡ true)

-- A stored delivery that may be sent: for the session and the client asked for, if any, waiting on the
-- back channel, at its time, under no lease that lasts, less than a day old, and for the URI that its client has
-- registered, where the client is still stored.
pub record IsSendable (op_id client_id : String) (now : Time) (s : FileState) (d : LogoutDelivery)
    : Type 0 where
  pub is_stored : get s.logout_deliveries d.id ≡ some d
  pub for_session : (op_id ≡ "") ⊎ (d.op_session_id ≡ op_id)
  pub for_client : (client_id ≡ "") ⊎ (d.client_id ≡ client_id)
  pub by_channel : d.channel ≡ "backchannel"
  pub is_waiting : IsWaiting d.status
  pub is_time : d.next_attempt ≤ now
  pub not_leased : d.lease_until ≤ now
  pub is_young : now < d.created_at + 24 * hour
  pub destination :
      (find_client s d.client_id ≡ none)
      ⊎ ((client : ClientRecord) × (find_client s d.client_id ≡ some client)
          × (text client.metadata "backchannel_logout_uri" ≡ d.endpoint))

-- The delivery as it was, but for the lease: another attempt, by this worker, for 30 seconds.
pub record IsLeased (lease : String) (now : Time) (d e : LogoutDelivery) : Type 0 where
  pub same_delivery : (e.id ≡ d.id) × (e.client_id ≡ d.client_id) × (e.endpoint ≡ d.endpoint)
  pub is_delivering : e.status ≡ "delivering"
  pub by_worker : e.lease_id ≡ lease
  pub lasts : e.lease_until ≡ now + 30 * second
  pub counted : e.attempts ≡ d.attempts + 1

-- no delivery is claimed, or one that can be sent, which is stored under the lease
abbrev pub IsClaimed :
    String → String → String → Time → FileState → Option LogoutDelivery → FileState → Type 0
IsClaimed op_id client_id lease now s o t =
    (o ≡ none)
    ⊎ ((d : LogoutDelivery) × (e : LogoutDelivery) × IsSendable op_id client_id now s d
        × (o ≡ some e)
        × (get t.logout_deliveries d.id ≡ some e)
        × IsLeased lease now d e)

-- the fault of a destination that its client no longer has
abbrev destination_fault : LogoutDelivery → ClientRecord → Option String
destination_fault d c =
    if text c.metadata "backchannel_logout_uri" != d.endpoint
    then some "destination_changed"
    else none

some_same : {A : Type 0} {a b : A} → some a ≡ some b → a ≡ b
some_same h = cc

some-none : {A : Type 0} {a : A} → ¬ (some a ≡ none)
some-none h = cc

module _ (op_id client_id lease : String) (now : Time) (s0 : FileState) where
  waiting : (d : LogoutDelivery) → is_due op_id client_id now d ≡ true → IsWaiting d.status
  unfolding is_due
  waiting d due = elim (Bool-cases (d.status == "pending")) [
    | inl pending ↦ inl ((==_iff d.status "pending").0 pending)
    | inr other_status ↦ inr (ground (arith, due, other_status, ==_iff d.status "delivering"))
  ]

  module _ (d : LogoutDelivery) (sound : claim_fault now d s0 ≡ none) where
    in_window : leb (24 * hour) (now - d.created_at) ≡ false
    unfolding claim_fault
    in_window = elim (Bool-cases (leb (24 * hour) (now - d.created_at))) [
      | inl late ↦ absurd (some-none (sym (if_true _ _ _ late) ∙ sound))
      | inr early ↦ early
    ]

    same_uri :
        (client : ClientRecord)
        → find_client s0 d.client_id ≡ some client
        → destination_fault d client ≡ none
    unfolding claim_fault
    same_uri client there = sym (rw (in_window, there, claim_fault) refl) ∙ sound

    destination_stands :
        (client : ClientRecord)
        → find_client s0 d.client_id ≡ some client
        → text client.metadata "backchannel_logout_uri" ≡ d.endpoint
    destination_stands client there =
        elim (Bool-cases (text client.metadata "backchannel_logout_uri" != d.endpoint)) [
          | inl moved ↦ absurd (some-none (sym (if_true _ _ _ moved) ∙ same_uri client there))
          | inr same ↦
              ground
                (arith, same, ==_iff (text client.metadata "backchannel_logout_uri") d.endpoint)
        ]

  -- what is due and without a fault
  job-IsSendable :
      (d : LogoutDelivery)
      → IsJob op_id client_id now s0 d
      → claim_fault now d s0 ≡ none
      → IsSendable op_id client_id now s0 d
  unfolding is_due
  job-IsSendable d job sound = record {
    is_stored = job.0;
    for_session = elim (Bool-cases (op_id == "")) [
      | inl blank ↦ inl ((==_iff op_id "").0 blank)
      | inr given ↦ inr (ground (arith, job.1, given, ==_iff d.op_session_id op_id))
    ];
    for_client = elim (Bool-cases (client_id == "")) [
      | inl blank ↦ inl ((==_iff client_id "").0 blank)
      | inr given ↦ inr (ground (arith, job.1, given, ==_iff d.client_id client_id))
    ];
    by_channel = ground (arith, job.1, ==_iff d.channel "backchannel");
    is_waiting = waiting d job.1;
    is_time = ground (arith, job.1);
    not_leased = ground (arith, job.1);
    is_young = ground (arith, in_window d sound);
    destination = elim (Option-cases (find_client s0 d.client_id)) [
      | inl gone ↦ inl gone
      | inr (client, there) ↦ inr (client, there, destination_stands d sound client there)
    ];
  }

  -- saving a job in a state that follows its own
  save_job-Refines :
      (d e : LogoutDelivery) (s : FileState)
      → IsJob op_id client_id now s0 d
      → e.id ≡ d.id
      → Moves d.status e.status
      → Refines s0 s
      → Refines s0 (save_logout_delivery s e)
  unfolding save_logout_delivery Refines
  save_job-Refines d e s job same move sofar id x there = elim (Bool-cases (e.id == id)) [
    | inl hit ↦
        let stored : e ≡ x =
          some_same
            (sym (if_true _ _ _ hit) ∙ (sym (get-put s.logout_deliveries e.id id e) ∙ there)) in
        let key : d.id ≡ id = sym same ∙ (==_iff e.id id).0 hit in
        (
          d,
          ap (λ y. get s0.logout_deliveries y) (sym key) ∙ job.0,
          subst (λ (y : LogoutDelivery). Moves d.status y.status) stored move,
        )
    | inr miss ↦
        sofar id x
          (sym (if_false _ _ _ miss) ∙ (sym (get-put s.logout_deliveries e.id id e) ∙ there))
  ]

  -- the faults depend on the clients alone
  claim_fault-same :
      (d : LogoutDelivery) (s t : FileState)
      → s.clients_map ≡ t.clients_map
      → claim_fault now d s ≡ claim_fault now d t
  unfolding claim_fault find_client
  claim_fault-same d s t e = ap (λ m. claim_fault now d (record s { clients_map = m })) e

  abbrev Claims : Option LogoutDelivery × FileState → Type 0
  Claims y = Refines s0 y.1 × IsClaimed op_id client_id lease now s0 y.0 y.1

  leased_job :
      (d : LogoutDelivery) (s : FileState)
      → IsJob op_id client_id now s0 d
      → claim_fault now d s ≡ none
      → s.clients_map ≡ s0.clients_map
      → Refines s0 s
      → Claims (some (leased lease now d), save_logout_delivery s (leased lease now d))
  unfolding save_logout_delivery
  leased_job d s job sound clients sofar = (
    save_job-Refines d (leased lease now d) s job refl (starts (waiting d job.1)) sofar,
    inr (
      d,
      leased lease now d,
      job-IsSendable d job (claim_fault-same d s0 s (sym clients) ∙ sound),
      refl,
      get-put s.logout_deliveries d.id d.id (leased lease now d) ∙ if_true _ _ _ (==_refl d.id),
      record {
        same_delivery = (refl, refl, refl);
        is_delivering = refl;
        by_worker = refl;
        lasts = refl;
        counted = refl;
      },
    ),
  )

  claim_jobs-Refines :
      (ds : List LogoutDelivery) (s : FileState)
      → All (IsJob op_id client_id now s0) ds
      → s.clients_map ≡ s0.clients_map
      → Refines s0 s
      → Claims (claim_jobs lease now ds s)
  unfolding claim_jobs save_logout_delivery
  claim_jobs-Refines [] s jobs clients sofar = (sofar, inl refl)
  claim_jobs-Refines (d ∷ ds) s jobs clients sofar = elim (Option-cases (claim_fault now d s)) [
    | inl sound ↦
        let leads : claim_jobs lease now (d ∷ ds) s
            ≡ (some (leased lease now d), save_logout_delivery s (leased lease now d)) =
          rw (sound, claim_jobs) refl in
        subst Claims (sym leads) (leased_job d s jobs.0 sound clients sofar)
    | inr (code, faulty) ↦
        let leads : claim_jobs lease now (d ∷ ds) s
            ≡ claim_jobs lease now ds (save_logout_delivery s (given_up now code d)) =
          rw (faulty, claim_jobs) refl in
        subst Claims (sym leads) (
          claim_jobs-Refines ds (save_logout_delivery s (given_up now code d)) jobs.1 clients (
            save_job-Refines d (given_up now code d) s jobs.0 refl (gives_up (waiting d jobs.0.1))
              sofar))
  ]

  insert_job-All :
      (P : LogoutDelivery → Type 0) (d : LogoutDelivery) (ds : List LogoutDelivery)
      → P d
      → All P ds
      → All P (insert_job d ds)
  unfolding insert_job
  insert_job-All P d [] p a = (p, tt)
  insert_job-All P d (e ∷ es) p a = elim (Bool-cases (before e.next_attempt d.next_attempt)) [
    | inl later ↦
        subst (All P) (sym (if_true (before e.next_attempt d.next_attempt) _ _ later))
          (a.0, insert_job-All P d es p a.1)
    | inr sooner ↦
        subst (All P) (sym (if_false (before e.next_attempt d.next_attempt) _ _ sooner)) (p, a)
  ]

  sort_jobs-All :
      (P : LogoutDelivery → Type 0) (ds : List LogoutDelivery) → All P ds → All P (sort_jobs ds)
  unfolding sort_jobs
  sort_jobs-All P [] a = tt
  sort_jobs-All P (d ∷ ds) a = insert_job-All P d (sort_jobs ds) a.0 (sort_jobs-All P ds a.1)

  due_jobs-All :
      (ds : List LogoutDelivery)
      → All (λ (d : LogoutDelivery). get s0.logout_deliveries d.id ≡ some d) ds
      → All (IsJob op_id client_id now s0) (due_jobs op_id client_id now ds)
  unfolding due_jobs
  due_jobs-All [] a = tt
  due_jobs-All (d ∷ ds) a = elim (Bool-cases (is_due op_id client_id now d)) [
    | inl due ↦
        subst (All (IsJob op_id client_id now s0))
          (sym (if_true (is_due op_id client_id now d) _ _ due)) ((a.0, due), due_jobs-All ds a.1)
    | inr early ↦
        subst (All (IsJob op_id client_id now s0))
          (sym (if_false (is_due op_id client_id now d) _ _ early)) (due_jobs-All ds a.1)
  ]

-- A claim implements the states of a delivery: after the sweep that it begins with, each delivery only
-- moves as `Moves` allows, so that what was acknowledged or has failed stays so. It gives out no
-- delivery, or one that is stored, waiting on the back channel, for the session and client asked for, at
-- its time, under no lease that lasts, less than a day old, and, unless its client has been deleted,
-- for the URI that its client has registered; and that one is stored as another attempt, under the
-- worker's lease of 30 seconds.
pub claim-Refines :
    (op_id client_id lease : String) (now : Time) (s : FileState)
    → IsWellFormed s
    → Refines (prune_logout_state now s) (claim op_id client_id lease now s).1
      × IsClaimed op_id client_id lease now
          (prune_logout_state now s)
          (claim op_id client_id lease now s).0
          (claim op_id client_id lease now s).1
unfolding claim Refines
claim-Refines op_id client_id lease now s w =
    let swept : FileState = prune_logout_state now s in
    let keyed = (prune_logout_state-IsWellFormed now s w).deliveries in
    claim_jobs-Refines op_id client_id lease now swept
      (due_jobs op_id client_id now (sort_jobs (values swept.logout_deliveries))) swept
      (due_jobs-All op_id client_id lease now swept (sort_jobs (values swept.logout_deliveries)) (
        sort_jobs-All op_id client_id lease now swept _ (values swept.logout_deliveries) (
          All-entries (λ (d : LogoutDelivery). get swept.logout_deliveries d.id ≡ some d)
            swept.logout_deliveries keyed.unique
            (λ k v there.
              ap (λ x. get swept.logout_deliveries x) (keyed.keyed k v there) ∙ there))))
      refl (λ id e there. (e, there, stays))
