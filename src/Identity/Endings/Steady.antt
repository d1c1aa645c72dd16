-- ===== src/Identity/Endings/Steady.antt =====
-- What the end of a session leaves as it is: a property that survives each write of EndAppSession and
-- EndSession survives them, and the loops over them.
use opened_connect_server.Prelude.{
  if◌then◌else◌, ◌==◌, Option-cases, for_each_inv, String, inl, inr, Bool, true, false,
}
use opened_connect_server.Clock.{Time, is_zero}
use opened_connect_server.Table.{Table, get, values}
use opened_connect_server.Identity.Records.{Session, AppSession, LogoutDelivery}
use opened_connect_server.Identity.Grants.{AuthzTransaction, AuthorizationCode, AccessToken}
use opened_connect_server.Identity.State.{save_logout_delivery, FileState}
use opened_connect_server.Identity.Revocation.{revoke_tokens_where}
use opened_connect_server.Identity.Endings.{
  revoke_codes_where, revoke_transactions_where, notify_channel, notify_app, end_app_grants,
  end_app_session, end_apps_where, is_live, end_one_session, end_session, end_sessions_where,
}

pub record IsAppSteady (P : FileState → Type 0) : Type 0 where
  pub apps : (s : FileState) (m : Table AppSession) → P s → P (record s { app_sessions = m })
  pub deliveries :
      (s : FileState) (m : Table LogoutDelivery) → P s → P (record s { logout_deliveries = m })
  pub tokens : (s : FileState) (hit : AccessToken → Bool) → P s → P (revoke_tokens_where hit s)
  pub codes : (s : FileState) (hit : AuthorizationCode → Bool) → P s → P (revoke_codes_where hit s)
  pub transactions :
      (s : FileState) (hit : AuthzTransaction → Bool) → P s → P (revoke_transactions_where hit s)

pub record IsSteady (P : FileState → Type 0) : Type 0 where
  pub sessions : (s : FileState) (m : Table Session) → P s → P (record s { sessions = m })
  pub app : IsAppSteady P

pub either {ℓ κ} :
    {A : Type ℓ} (P : A → Type κ) (b : Bool) {s t : A} → P s → P t → P (if b then s else t)
either P true ps pt = ps
either P false ps pt = pt

module _ (P : FileState → Type 0) (steady : IsAppSteady P) where
  delivery-steady : (s : FileState) (v : LogoutDelivery) → P s → P (save_logout_delivery s v)
  unfolding save_logout_delivery
  delivery-steady s v p = steady.deliveries s _ p

  channel-steady :
      (id : String) (a : AppSession) (actor reason : String) (now : Time) (channel : String)
      (s : FileState)
      → P s
      → P (notify_channel id a actor reason now channel s)
  unfolding notify_channel
  channel-steady id a actor reason now channel s p = either P _ p (delivery-steady s _ p)

  notify_app-steady :
      (id : String) (a : AppSession) (actor reason : String) (now : Time) (s : FileState)
      → P s
      → P (notify_app id a actor reason now s)
  unfolding notify_app
  notify_app-steady id a actor reason now s p = either P _ (delivery-steady s _ p) (
      channel-steady id a actor reason now "frontchannel" _
        (channel-steady id a actor reason now "backchannel" s p))

  end_app_grants-steady :
      (id : String) (a : AppSession) (reason : String) (now : Time) (s : FileState)
      → P s
      → P (end_app_grants id a reason now s)
  unfolding end_app_grants
  end_app_grants-steady id a reason now s p =
      steady.transactions _ _ (steady.codes _ _ (steady.tokens _ _ (steady.apps s _ p)))

  pub end_app_session-steady :
      (id actor reason : String) (now : Time) (s : FileState)
      → P s
      → P (end_app_session id actor reason now s)
  unfolding end_app_session
  end_app_session-steady id actor reason now s p = elim (Option-cases (get s.app_sessions id)) [
    | inl gone ↦ rw (gone, end_app_session) p
    | inr (a, there) ↦
        rw (there, end_app_session)
          (either P (is_zero a.ended_at)
            (notify_app-steady id a actor reason now _ (end_app_grants-steady id a reason now s p))
            p)
  ]

  pub end_apps_where-steady :
      (hit : AppSession → Bool) (actor reason : String) (now : Time) (s : FileState)
      → P s
      → P (end_apps_where hit actor reason now s)
  unfolding end_apps_where
  end_apps_where-steady hit actor reason now s p =
      for_each_inv P _
        (λ a t q. either P (hit a) (end_app_session-steady a.id actor reason now t q) q)
        (values s.app_sessions) s p

module _ (P : FileState → Type 0) (steady : IsSteady P) where
  pub end_one_session-steady :
      (id actor reason : String) (now : Time) (e : String × Session) (s : FileState)
      → P s
      → P (end_one_session id actor reason now e s)
  unfolding end_one_session
  end_one_session-steady id actor reason now (hash, v) s p =
      either P (is_live id v)
        (steady.app.codes _ _ (
          steady.app.transactions _ _ (
            end_apps_where-steady P steady.app (λ a. a.op_session_id == id) actor reason now _
              (delivery-steady P steady.app _ _ (steady.sessions s _ p)))))
        p

  pub end_session-steady :
      (id actor reason : String) (now : Time) (s : FileState)
      → P s
      → P (end_session id actor reason now s)
  unfolding end_session
  end_session-steady id actor reason now s p =
      for_each_inv P _ (end_one_session-steady id actor reason now) s.sessions s p

  pub end_sessions_where-steady :
      (hit : Session → Bool) (actor reason : String) (now : Time) (s : FileState)
      → P s
      → P (end_sessions_where hit actor reason now s)
  unfolding end_sessions_where
  end_sessions_where-steady hit actor reason now s p =
      for_each_inv P _ (λ v t q. either P (hit v) (end_session-steady v.id actor reason now t q) q)
        (values s.sessions) s p
