-- ===== src/Identity/Endings/Closed.antt =====
-- EndSession ends the session, its app sessions, its codes and its transactions.
use opened_connect_server.Prelude.{
  ◌==◌, Bool-cases, Option-cases, all, All, String, ◌≡◌, sym, subst, inl, inr, true, false, not,
  some, List, [], ◌∷◌, arith,
}
use opened_connect_server.Clock.{Time, is_zero}
use opened_connect_server.Table.{
  get, values, All-entries, get-for_each, for_each_reaches, any-entry, IsKeyed,
}
use opened_connect_server.Identity.Records.{Session, AppSession}
use opened_connect_server.Identity.State.{
  save_logout_delivery, session_with_id, session_by_id, session_active, FileState,
}
use opened_connect_server.Identity.WellFormed.{IsWellFormed, end_session-IsWellFormed}
use opened_connect_server.Identity.Endings.{close_session, is_live, end_one_session, end_session}
use opened_connect_server.Identity.Endings.Withdrawn.{Every}
use opened_connect_server.Identity.Endings.Apps.{
  app_is_live, AppEnded, end_apps_where-keeps_ended, end_apps_where-AppEnded, KeyedApps,
}
use opened_connect_server.Identity.Endings.Ended.{
  end_session-GrantsRevoked, before_grants, app_sessions-end_one_session, end_one_session-miss,
  end_one_session-KeyedApps, sessions-end_one_session, SessionEnded,
}

module _ (id actor reason : String) (now : Time) (later : is_zero now ≡ false) where
  round-keeps_ended :
      (k : String) (e : String × Session) (s : FileState)
      → AppEnded id k s
      → AppEnded id k (end_one_session id actor reason now e s)
  unfolding save_logout_delivery
  round-keeps_ended k (hash, v) s ended = elim (Bool-cases (is_live id v)) [
    | inl live ↦
        subst (λ m. (a : AppSession) → get m k ≡ some a → app_is_live id a ≡ false)
          (sym (app_sessions-end_one_session id actor reason now hash v s live))
          (end_apps_where-keeps_ended id actor reason now later (λ a. a.op_session_id == id) k
            (before_grants id actor reason now hash v s) ended)
    | inr miss ↦
        subst (AppEnded id k) (sym (end_one_session-miss id actor reason now (hash, v) s miss))
          ended
  ]

  round-AppEnded :
      (k : String) (e : String × Session) (s : FileState)
      → KeyedApps s
      → is_live id e.1 ≡ true
      → AppEnded id k (end_one_session id actor reason now e s)
  unfolding save_logout_delivery
  round-AppEnded k (hash, v) s w live =
      subst (λ m. (a : AppSession) → get m k ≡ some a → app_is_live id a ≡ false)
        (sym (app_sessions-end_one_session id actor reason now hash v s live))
        (end_apps_where-AppEnded id actor reason now later
          (before_grants id actor reason now hash v s) w k)

  end_session-AppEnded :
      (s : FileState) (hash : String) (v : Session) (k : String)
      → KeyedApps s
      → get s.sessions hash ≡ some v
      → is_live id v ≡ true
      → AppEnded id k (end_session id actor reason now s)
  unfolding end_session
  end_session-AppEnded s hash v k w there live =
      for_each_reaches (end_one_session id actor reason now) (λ e. is_live id e.1) KeyedApps
        (AppEnded id k) (λ e t q. end_one_session-KeyedApps id actor reason now e t q)
        (λ e t q ended. round-keeps_ended k e t ended) (λ e t q h. round-AppEnded k e t q h)
        s.sessions s w (any-entry (λ e. is_live id e.1) s.sessions hash v there live)

  end_session-no_live :
      (s : FileState)
      → IsKeyed (λ v. v.hash) s.sessions
      → Every (λ v. not (is_live id v)) (end_session id actor reason now s).sessions
  unfolding end_session
  end_session-no_live s w j v there =
      let after =
        get-for_each (λ (t : FileState). t.sessions) (is_live id) (close_session reason now)
          (end_one_session id actor reason now)
          (λ k u t i. sessions-end_one_session id actor reason now k u t i) s.sessions s j
          w.unique in
      elim (Option-cases (get s.sessions j)) [
        | inl gone ↦ ground (arith, after, there, gone)
        | inr (u, found) ↦ ground (arith, after, there, found, later)
      ]

  -- Ending a live session of a well-formed store, at a time that is not the zero time, leaves
  -- nothing of it live: every stored session of that identifier and every app session of it has
  -- ended, and each of its authorization codes and transactions is revoked.
  pub end_session-SessionEnded :
      (s : FileState) (hash : String) (v : Session)
      → IsWellFormed s
      → get s.sessions hash ≡ some v
      → is_live id v ≡ true
      → SessionEnded id (end_session id actor reason now s)
  end_session-SessionEnded s hash v w there live = record {
    sessions = end_session-no_live s w.session_keys;
    apps = λ k a found. ground (arith, end_session-AppEnded s hash v k w.apps there live a found);
    grants = end_session-GrantsRevoked id actor reason now s hash v there live;
  }

  no_live_entry :
      (m : List Session)
      → All (λ v. not (is_live id v) ≡ true) m
      → (v : Session) → session_with_id m id ≡ some v
      → is_zero v.ended_at ≡ false
  unfolding session_with_id
  no_live_entry [] all v h = ground (arith, h)
  no_live_entry (x ∷ xs) all v h = ground (arith, h, all.0, no_live_entry xs all.1 v)

  -- After EndSession, in a well-formed store and at a time that is not the zero time, the session
  -- is not active, at any time.
  pub end_session-inactive :
      (s : FileState) (at : Time)
      → IsWellFormed s
      → session_active (end_session id actor reason now s) id at ≡ false
  unfolding session_active session_by_id
  end_session-inactive s at w =
      let t = end_session id actor reason now s in
      let ended =
        All-entries (λ v. not (is_live id v) ≡ true) t.sessions
          (end_session-IsWellFormed id actor reason now s w).session_keys.unique
          (end_session-no_live s w.session_keys) in
      elim (Option-cases (session_with_id (values t.sessions) id)) [
        | inl gone ↦ ground (arith, gone)
        | inr (v, found) ↦ ground (arith, found, no_live_entry (values t.sessions) ended v found)
      ]
