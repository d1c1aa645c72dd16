-- ===== src/Identity/WellFormed/Sweeps.antt =====
-- The operations that reach over several maps keep the invariant.
use opened_connect_server.Prelude.{
  if◌then◌else◌, ◌==◌, ◌<>◌, Option-cases, for_each_inv, for_each_inv_all, String, ◌≡◌, inl, inr,
  Bool, true, false,
}
use opened_connect_server.Clock.{Time, is_zero}
use opened_connect_server.Table.{get, values, All-keys, put-IsKeyed}
use opened_connect_server.Identity.Grants.{RefreshFamily}
use opened_connect_server.Identity.State.{FileState}
use opened_connect_server.Identity.Revocation.{
  revoked_token, revoke_access_token, revoke_refresh_family, revoke_families_where,
}
use opened_connect_server.Identity.Endings.{
  metadata_of, notify_channel, notify_app, close_app, end_app_grants, end_app_session,
  end_apps_where, close_session, is_live, end_one_session, end_session, end_sessions_where,
}
use opened_connect_server.Identity.WellFormed.Defs.{IsWellFormed}
use opened_connect_server.Identity.WellFormed.Saves.{
  save_logout_delivery-IsWellFormed, revoke_tokens_where-IsWellFormed,
  revoke_codes_where-IsWellFormed, revoke_transactions_where-IsWellFormed,
}
use opened_connect_server.Identity.Records.{Session, AppSession}
use opened_connect_server.Identity.Metadata.{text}

pub revoke_access_token-IsWellFormed :
    (hash : String) (s : FileState) → IsWellFormed s → IsWellFormed (revoke_access_token hash s)
unfolding revoke_access_token
revoke_access_token-IsWellFormed hash s w = elim (Option-cases (get s.access_tokens hash)) [
  | inl gone ↦ rw (gone, revoke_access_token) w
  | inr (a, there) ↦
      rw (there, revoke_access_token)
        (assumption (
          put-IsKeyed s.access_tokens w.tokens hash (revoked_token a)
            (w.tokens.keyed hash a there)))
]

pub revoke_refresh_family-IsWellFormed :
    (id : String) (s : FileState) → IsWellFormed s → IsWellFormed (revoke_refresh_family id s)
unfolding revoke_refresh_family
revoke_refresh_family-IsWellFormed id s w = elim (Option-cases (get s.refresh_families id)) [
  | inl gone ↦ rw (gone, revoke_refresh_family) w
  | inr (f, there) ↦
      rw (there, revoke_refresh_family)
        (revoke_tokens_where-IsWellFormed
          (assumption (
            put-IsKeyed s.refresh_families w.families id (record f { revoked = true })
              (w.families.keyed id f there)))
          _)
]

-- a guarded round of a loop
pub if-IsWellFormed :
    (b : Bool) {s t : FileState}
    → IsWellFormed s
    → IsWellFormed t
    → IsWellFormed (if b then t else s)
if-IsWellFormed true ws wt = wt
if-IsWellFormed false ws wt = ws

pub choose-IsWellFormed :
    (b : Bool) {s t : FileState}
    → IsWellFormed s
    → IsWellFormed t
    → IsWellFormed (if b then s else t)
choose-IsWellFormed true ws wt = ws
choose-IsWellFormed false ws wt = wt

pub revoke_families_where-IsWellFormed :
    (hit : RefreshFamily → Bool) (s : FileState)
    → IsWellFormed s
    → IsWellFormed (revoke_families_where hit s)
unfolding revoke_families_where
revoke_families_where-IsWellFormed hit s w =
    for_each_inv IsWellFormed _
      (λ e t h. if-IsWellFormed (hit e.1) h (revoke_refresh_family-IsWellFormed e.0 t h))
      s.refresh_families s w

notify_channel-IsWellFormed :
    (id : String) (a : AppSession) (actor reason : String) (now : Time) (channel : String)
    (s : FileState)
    → IsWellFormed s
    → IsWellFormed (notify_channel id a actor reason now channel s)
unfolding notify_channel
notify_channel-IsWellFormed id a actor reason now channel s w =
    choose-IsWellFormed (text (metadata_of s a.client_id) (channel <> "_logout_uri") == "") w
      (save_logout_delivery-IsWellFormed w _)

pub end_app_session-IsWellFormed :
    (id actor reason : String) (now : Time) (s : FileState)
    → IsWellFormed s
    → IsWellFormed (end_app_session id actor reason now s)
unfolding end_app_session
end_app_session-IsWellFormed id actor reason now s w = elim (Option-cases (get s.app_sessions id)) [
  | inl gone ↦ rw (gone, end_app_session) w
  | inr (a, there) ↦
      rw (there, end_app_session)
        (if-IsWellFormed (is_zero a.ended_at) w (notified a (closed a (w.apps.keyed id a there))))
]
  where
    closed : (a : AppSession) → a.id ≡ id → IsWellFormed (end_app_grants id a reason now s)
    closed a e =
        unfold end_app_grants in
        revoke_transactions_where-IsWellFormed
          (revoke_codes_where-IsWellFormed
            (revoke_tokens_where-IsWellFormed
              (assumption (put-IsKeyed s.app_sessions w.apps id (close_app reason now a) e)) _)
            _)
          _

    notified :
        (a : AppSession) {t : FileState}
        → IsWellFormed t
        → IsWellFormed (notify_app id a actor reason now t)
    notified a {t} h =
        unfold notify_app in
        choose-IsWellFormed _ (save_logout_delivery-IsWellFormed h _) (
          notify_channel-IsWellFormed id a actor reason now "frontchannel" _
            (notify_channel-IsWellFormed id a actor reason now "backchannel" t h))

pub end_apps_where-IsWellFormed :
    (hit : AppSession → Bool) (actor reason : String) (now : Time) (s : FileState)
    → IsWellFormed s
    → IsWellFormed (end_apps_where hit actor reason now s)
unfolding end_apps_where
end_apps_where-IsWellFormed hit actor reason now s w =
    for_each_inv IsWellFormed _
      (λ a t h. if-IsWellFormed (hit a) h (end_app_session-IsWellFormed a.id actor reason now t h))
      (values s.app_sessions) s w

pub end_one_session-IsWellFormed :
    (id actor reason : String) (now : Time) (e : String × Session) (s : FileState)
    → e.1.hash ≡ e.0
    → IsWellFormed s
    → IsWellFormed (end_one_session id actor reason now e s)
unfolding end_one_session
end_one_session-IsWellFormed id actor reason now (hash, v) s same w =
    if-IsWellFormed (is_live id v) w (
      revoke_codes_where-IsWellFormed
        (revoke_transactions_where-IsWellFormed
          (end_apps_where-IsWellFormed _ actor reason now _ (
            save_logout_delivery-IsWellFormed
              (assumption
                (put-IsKeyed s.sessions w.session_keys hash (close_session reason now v) same))
              _))
          _)
        _)

pub end_session-IsWellFormed :
    (id actor reason : String) (now : Time) (s : FileState)
    → IsWellFormed s
    → IsWellFormed (end_session id actor reason now s)
unfolding end_session
end_session-IsWellFormed id actor reason now s w =
    for_each_inv_all IsWellFormed (λ e. e.1.hash ≡ e.0) _
      (end_one_session-IsWellFormed id actor reason now) s.sessions s
      (All-keys _ s.sessions w.session_keys.unique w.session_keys.keyed) w

pub end_sessions_where-IsWellFormed :
    (hit : Session → Bool) (actor reason : String) (now : Time) (s : FileState)
    → IsWellFormed s
    → IsWellFormed (end_sessions_where hit actor reason now s)
unfolding end_sessions_where
end_sessions_where-IsWellFormed hit actor reason now s w =
    for_each_inv IsWellFormed _
      (λ v t h. if-IsWellFormed (hit v) h (end_session-IsWellFormed v.id actor reason now t h))
      (values s.sessions) s w
