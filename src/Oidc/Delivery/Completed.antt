-- ===== src/Oidc/Delivery/Completed.antt =====
-- What an attempt leaves: its result, a bounded history, and a bounded wait before the next one.
use opened_connect_server.Identity.Records.{LogoutDelivery}
use opened_connect_server.Prelude.{==_iff, length, ◌+◌, ◌≤◌, ◌<◌, ◌≡◌, ◌⊎◌, inl, inr, false, arith}
use opened_connect_server.Clock.{Time, hour}
use opened_connect_server.Oidc.Delivery.{is_refusal, Sent}

-- answers that are not worth another attempt: an unsafe destination, or a client error but 429
abbrev pub IsRefusal : Sent → Type 0
IsRefusal r =
    (r.error_code ≡ "unsafe_destination") ⊎ ((400 ≤ r.code) × (r.code < 500) × ¬ (r.code ≡ 429))

-- The result of an attempt on a delivery.
pub record IsAttempted (r : Sent) (now : Time) (d e : LogoutDelivery) : Type 0 where
  pub same_id : e.id ≡ d.id
  pub released : (e.lease_id ≡ "") × (e.lease_until ≡ 0)
  pub history_bound : length e.history ≤ 50
  pub result :
      ((r.code ≡ 200) × (e.status ≡ "acknowledged"))
      ⊎ ((IsRefusal r × (e.status ≡ "failed"))
          ⊎ ((is_refusal r ≡ false)
              × (e.status ≡ "pending")
              × (now ≤ e.next_attempt)
              × (e.next_attempt ≤ now + hour)))

no-IsRefusal : (r : Sent) → is_refusal r ≡ false → ¬ IsRefusal r
unfolding is_refusal
no-IsRefusal r h (inl unsafe) = ground (arith, h, unsafe, ==_iff r.error_code "unsafe_destination")
no-IsRefusal r h (inr (low, high, other)) = ground (arith, h, low, high, other)
