-- ===== src/Identity/Service/Sessions/Effect.antt =====
-- A session that is ended by a call is over.
use opened_connect_server.Identity.Endings.Closed.{end_session-inactive}
use opened_connect_server.Identity.Endings.{end_session}
use opened_connect_server.Identity.WellFormed.{IsWellFormed}
use opened_connect_server.Identity.Service.{Outside}
use opened_connect_server.Identity.Mutations.{save_logout_operation}
use opened_connect_server.Identity.Grants.{RefreshFamily}
use opened_connect_server.Table.{get, values}
use opened_connect_server.Clock.{Time, is_zero}
use opened_connect_server.Identity.State.{
  find_user, session_by_id, session_active, write, write-ok, FileState,
}
use opened_connect_server.Prelude.{
  if◌then◌else◌, ◌==◌, ◌!=◌, ==_iff, Option-cases, if_true, for_each_same, String, ◌≡◌, refl, sym,
  ap, ◌∙◌, inl, inr, Bool, true, false, ◌||◌, List,
}
use opened_connect_server.Errors.{
  require-ok, found_or-ok, >>=-ok, Result-cases, ok-subst, Error, not_found, unauthorized, Result,
  ok, err,
}
use opened_connect_server.Identity.Service.Sessions.{
  each_where, revoke_offline_where, end_reason_of, end_op_session, end_targets, checked_password,
  still_checked, end_sessions_transaction, end_sessions, EndCall,
}
use opened_connect_server.Identity.Principal.{principal, Principal}
use opened_connect_server.Identity.Revocation.{revoke_refresh_family}

family_sessions : (id : String) (s : FileState) → (revoke_refresh_family id s).sessions ≡ s.sessions
unfolding revoke_refresh_family
family_sessions id s = elim (Option-cases (get s.refresh_families id)) [
  | inl gone ↦ rw (gone, revoke_refresh_family) refl
  | inr (f, there) ↦ rw (there, revoke_refresh_family) refl
]

choose_sessions :
    (b : Bool) (s t : FileState)
    → t.sessions ≡ s.sessions
    → (if b then t else s).sessions ≡ s.sessions
choose_sessions true s t h = h
choose_sessions false s t h = refl

-- withdrawing what is offline leaves the sessions
offline_sessions :
    (asked : Bool) (hit : RefreshFamily → Bool) (s : FileState)
    → (revoke_offline_where asked hit s).sessions ≡ s.sessions
unfolding revoke_offline_where each_where
offline_sessions asked hit s =
    choose_sessions asked s
      (each_where hit (λ f t. revoke_refresh_family f.id t) (values s.refresh_families) s)
      (for_each_same (λ (t : FileState). t.sessions) _
        (λ f t. choose_sessions (hit f) t (revoke_refresh_family f.id t) (family_sessions f.id t))
        (values s.refresh_families) s)

session_active-same :
    (s t : FileState) (id : String) (at : Time)
    → t.sessions ≡ s.sessions
    → session_active t id at ≡ session_active s id at
unfolding session_active session_by_id
session_active-same s t id at e = ap (λ m. session_active (record s { sessions = m }) id at) e

module _ (p : Principal) (c : EndCall) (now : Time) (s : FileState) (w : IsWellFormed s)
    (timely : is_zero now ≡ false) (kind : c.kind ≡ "op-sessions")
    (named : (c.id != "") ≡ true) where
  targets-inactive :
      (at : Time) (y : List String × FileState)
      → end_targets p c now s ≡ ok y
      → session_active y.1 c.id at ≡ false
  unfolding end_targets end_op_session
  targets-inactive at y h =
      let h0 =
        sym (if_true (c.kind == "op-sessions") _ _ ((==_iff c.kind "op-sessions").1 kind)) ∙ h in
      let h1 = sym (if_true (c.id != "") _ _ named) ∙ h0 in
      let (v, e0, h2) = found_or-ok (session_by_id s c.id) not_found _ h1 in
      let (e1, h3) = require-ok (c.admin || v.user_id == p.user.id) not_found _ h2 in
      let over = end_session c.id p.user.id (end_reason_of c.admin) now s in
      ok-subst (λ (x : List String × FileState). session_active x.1 c.id at ≡ false) h3
        (session_active-same over _ c.id at (offline_sessions c.request.revoke_offline _ over)
          ∙ end_session-inactive c.id p.user.id (end_reason_of c.admin) now timely s at w)

no_error :
    {A : Type 0} {a : A} {e : Error} {s t : FileState}
    → ¬ (◌≡◌ {A = Result A × FileState} (err e, s) (ok a, t))
no_error h = cc

transaction-inactive :
    (hash checked operation : String) (c : EndCall) (now at : Time) (s : FileState)
    (y : Unit {0} × FileState)
    → IsWellFormed s
    → is_zero now ≡ false
    → c.kind ≡ "op-sessions"
    → (c.id != "") ≡ true
    → end_sessions_transaction hash c checked operation now s ≡ ok y
    → session_active y.1 c.id at ≡ false
unfolding end_sessions_transaction save_logout_operation
transaction-inactive hash checked operation c now at s y w timely kind named h =
    let (p, e0, h0) = >>=-ok (principal hash c.admin now s) _ h in
    let (e1, h1) = require-ok (still_checked checked (find_user s p.user.id)) unauthorized _ h0 in
    let (z, e2, h2) = >>=-ok (end_targets p c now s) _ h1 in
    ok-subst (λ (x : Unit {0} × FileState). session_active x.1 c.id at ≡ false) h2
      (session_active-same z.1 _ c.id at refl
        ∙ targets-inactive p c now s w timely kind named at z e2)

-- Where a call that names a session succeeds, in a well-formed store and at a time that is not the zero
-- time, that session is not active in the state that it leaves, at any time.
pub end_sessions-inactive :
    (o : Outside) (hash : String) (c : EndCall) (operation : String) (now at : Time)
    (earlier s : FileState) {t : FileState}
    → IsWellFormed s
    → is_zero now ≡ false
    → c.kind ≡ "op-sessions"
    → (c.id != "") ≡ true
    → end_sessions o hash c operation now earlier s ≡ (ok tt, t)
    → session_active t c.id at ≡ false
unfolding end_sessions
end_sessions-inactive o hash c operation now at earlier s {t} w timely kind named h =
    elim (Result-cases (checked_password o hash c now earlier)) [
      | inr (e, failed) ↦
          let leads : end_sessions o hash c operation now earlier s ≡ (err e, s) =
            rw (failed, end_sessions) refl in
          absurd (no_error (sym leads ∙ h))
      | inl (checked, proven) ↦
          let leads : end_sessions o hash c operation now earlier s
              ≡ write s (end_sessions_transaction hash c checked operation now) =
            rw (proven, end_sessions) refl in
          transaction-inactive hash checked operation c now at s (tt, t) w timely kind named
            (write-ok s (end_sessions_transaction hash c checked operation now) (sym leads ∙ h))
    ]
