-- ===== src/Identity/Endings/Apps.antt =====
-- The app sessions of a session that ends: EndAppSession closes one, and the loop closes them all.
use opened_connect_server.Prelude.{
  if◌then◌else◌, ◌==◌, ◌<>◌, ==_iff, ==_refl, Bool-cases, Option-cases, &&_true, if_true,
  for_each_inv, String, ◌≡◌, refl, sym, subst, inl, inr, Bool, true, false, ◌&&◌, none, some, arith,
}
use opened_connect_server.Clock.{Time, is_zero}
use opened_connect_server.Table.{
  Table, get, put, values, get-put, for_each_reaches, any-values, put-IsKeyed, IsKeyed,
}
use opened_connect_server.Identity.Records.{AppSession, LogoutDelivery}
use opened_connect_server.Identity.Metadata.{text}
use opened_connect_server.Identity.State.{save_logout_delivery, FileState}
use opened_connect_server.Identity.Endings.{
  revoke_codes_where, revoke_transactions_where, metadata_of, notify_channel, notify_app, close_app,
  end_app_grants, end_app_session, end_apps_where,
}
use opened_connect_server.Identity.Endings.Steady.{either}

module _ (m : Table AppSession) where
  abbrev HasApps : FileState → Type 0
  HasApps t = t.app_sessions ≡ m

  app_sessions-save_logout_delivery :
      (s : FileState) (v : LogoutDelivery) → HasApps s → HasApps (save_logout_delivery s v)
  unfolding save_logout_delivery
  app_sessions-save_logout_delivery s v e = e

  app_sessions-notify_channel :
      (id : String) (a : AppSession) (actor reason : String) (now : Time) (channel : String)
      (s : FileState)
      → HasApps s
      → HasApps (notify_channel id a actor reason now channel s)
  unfolding notify_channel
  app_sessions-notify_channel id a actor reason now channel s e =
      either HasApps (text (metadata_of s a.client_id) (channel <> "_logout_uri") == "") e
        (app_sessions-save_logout_delivery s _ e)

  app_sessions-notify_app :
      (id : String) (a : AppSession) (actor reason : String) (now : Time) (s : FileState)
      → HasApps s
      → HasApps (notify_app id a actor reason now s)
  unfolding notify_app
  app_sessions-notify_app id a actor reason now s e =
      either HasApps
        (text (metadata_of s a.client_id) "backchannel_logout_uri" == ""
          && text (metadata_of s a.client_id) "frontchannel_logout_uri" == "")
        (app_sessions-save_logout_delivery s _ e)
        (app_sessions-notify_channel id a actor reason now "frontchannel" _
          (app_sessions-notify_channel id a actor reason now "backchannel" s e))

-- a live app session is closed, any other left
pub app_sessions-end_app_session :
    (id actor reason : String) (now : Time) (s : FileState) (a : AppSession)
    → get s.app_sessions id ≡ some a
    → (end_app_session id actor reason now s).app_sessions ≡ (
        if is_zero a.ended_at
        then put s.app_sessions id (close_app reason now a)
        else s.app_sessions)
unfolding end_app_session end_app_grants revoke_codes_where revoke_transactions_where
app_sessions-end_app_session id actor reason now s a there =
    elim (Bool-cases (is_zero a.ended_at)) [
      | inl live ↦
          rw (there, live, end_app_session)
            (app_sessions-notify_app (put s.app_sessions id (close_app reason now a)) id a actor
              reason now _ refl)
      | inr ended ↦ rw (there, ended, end_app_session) refl
    ]

end_app_session-gone :
    (id actor reason : String) (now : Time) (s : FileState)
    → get s.app_sessions id ≡ none
    → end_app_session id actor reason now s ≡ s
unfolding end_app_session
end_app_session-gone id actor reason now s gone = rw (gone, end_app_session) refl

-- an app session of the provider session that is live
abbrev pub app_is_live : String → AppSession → Bool
app_is_live op_id a = a.op_session_id == op_id && is_zero a.ended_at

-- the app session under one key is not a live one of the provider session
abbrev pub AppEnded : String → String → FileState → Type 0
AppEnded op_id k s = (a : AppSession) → get s.app_sessions k ≡ some a → app_is_live op_id a ≡ false

module _ (op_id actor reason : String) (now : Time) (later : is_zero now ≡ false) where
  pub end_app_session-keeps_ended :
      (k id : String) (s : FileState)
      → AppEnded op_id k s
      → AppEnded op_id k (end_app_session id actor reason now s)
  end_app_session-keeps_ended k id s ended a there = elim (Option-cases (get s.app_sessions id)) [
    | inl gone ↦ ended a (
        subst (λ (x : FileState). get x.app_sessions k ≡ some a)
          (end_app_session-gone id actor reason now s gone) there)
    | inr (b, found) ↦ ground (
      arith,
      later,
      there,
      found,
      app_sessions-end_app_session id actor reason now s b found,
      get-put s.app_sessions id k (close_app reason now b),
      ended a,
    )
  ]

  end_app_session-AppEnded :
      (k : String) (s : FileState) → AppEnded op_id k (end_app_session k actor reason now s)
  end_app_session-AppEnded k s a there = elim (Option-cases (get s.app_sessions k)) [
    | inl gone ↦ absurd (unfold end_app_session in ground (arith, gone, there))
    | inr (b, found) ↦ ground (
      arith,
      later,
      there,
      found,
      ==_refl k,
      app_sessions-end_app_session k actor reason now s b found,
      get-put s.app_sessions k k (close_app reason now b),
    )
  ]

module _ (op_id actor reason : String) (now : Time) (later : is_zero now ≡ false) where
  app_round-keeps :
      (hit : AppSession → Bool) (k : String) (x : AppSession) (t : FileState)
      → AppEnded op_id k t
      → AppEnded op_id k (if hit x then end_app_session x.id actor reason now t else t)
  app_round-keeps hit k x t ended =
      either (AppEnded op_id k) (hit x)
        (end_app_session-keeps_ended op_id actor reason now later k x.id t ended) ended

  pub end_apps_where-keeps_ended :
      (hit : AppSession → Bool) (k : String) (s : FileState)
      → AppEnded op_id k s
      → AppEnded op_id k (end_apps_where hit actor reason now s)
  unfolding end_apps_where
  end_apps_where-keeps_ended hit k s ended =
      for_each_inv (AppEnded op_id k) _ (app_round-keeps hit k) (values s.app_sessions) s ended

  app_round-achieves :
      (k : String) (x : AppSession) (t : FileState)
      → (x.op_session_id == op_id && x.id == k) ≡ true
      → AppEnded op_id k
          (if x.op_session_id == op_id then end_app_session x.id actor reason now t else t)
  app_round-achieves k x t h =
      let (hit, here) = &&_true (x.op_session_id == op_id) (x.id == k) h in
      let same : x.id ≡ k = (==_iff x.id k).0 here in
      subst (AppEnded op_id k) (sym (if_true (x.op_session_id == op_id) _ t hit)) (
        subst (λ y. AppEnded op_id k (end_app_session y actor reason now t)) (sym same)
          (end_app_session-AppEnded op_id actor reason now later k t))

  -- the loop closes every app session of the provider session
  pub end_apps_where-AppEnded :
      (s : FileState)
      → IsKeyed (λ a. a.id) s.app_sessions
      → (k : String)
      → AppEnded op_id k (end_apps_where (λ a. a.op_session_id == op_id) actor reason now s)
  end_apps_where-AppEnded s w k = elim (Option-cases (get s.app_sessions k)) [
    | inl gone ↦
        end_apps_where-keeps_ended (λ a. a.op_session_id == op_id) k s
          (λ a there. ground (arith, gone, there))
    | inr (a, there) ↦ elim (Bool-cases (a.op_session_id == op_id)) [
      | inr foreign ↦
          end_apps_where-keeps_ended (λ a. a.op_session_id == op_id) k s
            (λ b found. ground (arith, there, found, foreign))
      | inl own ↦
          unfold end_apps_where in
          for_each_reaches
            (λ x t. if x.op_session_id == op_id then end_app_session x.id actor reason now t else t)
            (λ x. x.op_session_id == op_id && x.id == k) (λ t. Unit {0}) (AppEnded op_id k)
            (λ x t u. tt) (λ x t u q. app_round-keeps (λ y. y.op_session_id == op_id) k x t q)
            (λ x t u h. app_round-achieves k x t h) (values s.app_sessions) s tt
            (any-values (λ x. x.op_session_id == op_id && x.id == k) s.app_sessions k a there
              (ground (arith, own, w.keyed k a there, ==_iff a.id k)))
    ]
  ]

abbrev pub KeyedApps : FileState → Type 0
KeyedApps s = IsKeyed (λ a. a.id) s.app_sessions

end_app_session-KeyedApps :
    (id actor reason : String) (now : Time) (s : FileState)
    → KeyedApps s
    → KeyedApps (end_app_session id actor reason now s)
end_app_session-KeyedApps id actor reason now s w = elim (Option-cases (get s.app_sessions id)) [
  | inl gone ↦ subst KeyedApps (sym (end_app_session-gone id actor reason now s gone)) w
  | inr (a, there) ↦
      subst (IsKeyed (λ b. b.id)) (sym (app_sessions-end_app_session id actor reason now s a there))
        (either (IsKeyed (λ b. b.id)) (is_zero a.ended_at)
          (put-IsKeyed s.app_sessions w id (close_app reason now a) (w.keyed id a there)) w)
]

pub end_apps_where-KeyedApps :
    (hit : AppSession → Bool) (actor reason : String) (now : Time) (s : FileState)
    → KeyedApps s
    → KeyedApps (end_apps_where hit actor reason now s)
unfolding end_apps_where
end_apps_where-KeyedApps hit actor reason now s w =
    for_each_inv KeyedApps _
      (λ a t k. either KeyedApps (hit a) (end_app_session-KeyedApps a.id actor reason now t k) k)
      (values s.app_sessions) s w
