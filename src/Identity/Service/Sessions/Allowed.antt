-- ===== src/Identity/Service/Sessions/Allowed.antt =====
-- Sessions end for those who may end them.
use opened_connect_server.Identity.Grants.{Consent}
use opened_connect_server.Identity.Service.Permitted.{principal-IsSignedIn, IsSignedIn}
use opened_connect_server.Identity.Records.{User, Session, AppSession}
use opened_connect_server.Errors.{
  require-ok, found_or-ok, >>=-ok, Result-cases, ok-injective, Error, not_found, unauthorized,
  forbidden, credentials, ok, err,
}
use opened_connect_server.Prelude.{
  if◌then◌else◌, ◌==◌, ◌!=◌, ==_iff, Bool-cases, if_true, if_false, String, ◌≡◌, refl, sym, ◌∙◌,
  subst, ◌⊎◌, inl, inr, true, false, ◌||◌, some, List, arith,
}
use opened_connect_server.Identity.State.{
  find_user, find_app_session, find_consent, session_by_id, write, FileState,
}
use opened_connect_server.Clock.{Time}
use opened_connect_server.Identity.Service.Sessions.{
  end_op_session, end_own_sessions, end_named_app, end_user_sessions, end_client_access,
  retry_delivery, end_targets, needs_password, compare_password, checked_password, still_checked,
  end_sessions_transaction, end_sessions, EndCall,
}
use opened_connect_server.Identity.Principal.{principal, Principal}
use opened_connect_server.Identity.Service.{Outside}

-- who may make a call: an administrator, or the user whose session, application or consent it is
pub data MayEnd (p : Principal) (c : EndCall) (s : FileState) : Type 0 where
  as_admin : c.admin ≡ true → MayEnd p c s
  own_session :
      (v : Session)
      → c.kind ≡ "op-sessions"
      → session_by_id s c.id ≡ some v
      → v.user_id ≡ p.user.id
      → MayEnd p c s
  own_sessions : c.kind ≡ "op-sessions" → c.id ≡ "" → MayEnd p c s
  own_app :
      (a : AppSession)
      → c.kind ≡ "app-sessions"
      → find_app_session s c.id ≡ some a
      → a.user_id ≡ p.user.id
      → MayEnd p c s
  own_consent :
      (consent : Consent)
      → c.kind ≡ "client-access"
      → find_consent s p.user.id c.id ≡ some consent
      → MayEnd p c s

-- no password is asked for, or it is the one of the user who was signed in, and unchanged since
abbrev pub HasPassword :
    Outside → String → EndCall → Time → FileState → FileState → Principal → Type 0
HasPassword o hash c now earlier s p =
    (needs_password c ≡ false)
    ⊎ ((before_ : Principal) × (u : User) × IsSignedIn hash c.admin now earlier before_
        × (find_user earlier before_.user.id ≡ some u)
        × (o.verify u.password_hash c.request.password ≡ true)
        × (still_checked u.password_hash (find_user s p.user.id) ≡ true))

module _ (p : Principal) (c : EndCall) (now : Time) (s : FileState) where
  op_session-MayEnd :
      (y : List String × FileState)
      → c.kind ≡ "op-sessions"
      → end_op_session p c now s ≡ ok y
      → MayEnd p c s
  unfolding end_op_session
  op_session-MayEnd y kind h =
      let (v, found, h0) = found_or-ok (session_by_id s c.id) not_found _ h in
      let (owns, h1) = require-ok (c.admin || v.user_id == p.user.id) not_found _ h0 in
      elim (Bool-cases c.admin) [
        | inl admin ↦ as_admin admin
        | inr user ↦
            own_session v kind found (ground (arith, owns, user, ==_iff v.user_id p.user.id))
      ]

  named_app-MayEnd :
      (y : List String × FileState)
      → c.kind ≡ "app-sessions"
      → end_named_app p c now s ≡ ok y
      → MayEnd p c s
  unfolding end_named_app
  named_app-MayEnd y kind h =
      let (a, found, h0) = found_or-ok (find_app_session s c.id) not_found _ h in
      let (owns, h1) = require-ok (c.admin || a.user_id == p.user.id) not_found _ h0 in
      elim (Bool-cases c.admin) [
        | inl admin ↦ as_admin admin
        | inr user ↦ own_app a kind found (ground (arith, owns, user, ==_iff a.user_id p.user.id))
      ]

  user_sessions-MayEnd :
      (y : List String × FileState) → end_user_sessions p c now s ≡ ok y → MayEnd p c s
  unfolding end_user_sessions
  user_sessions-MayEnd y h = as_admin (require-ok c.admin forbidden _ h).0

  client_access-MayEnd :
      (y : List String × FileState)
      → c.kind ≡ "client-access"
      → end_client_access p c now s ≡ ok y
      → MayEnd p c s
  unfolding end_client_access
  client_access-MayEnd y kind h =
      let (consent, found, h0) = found_or-ok (find_consent s p.user.id c.id) not_found _ h in
      own_consent consent kind found

  retry-MayEnd : (y : List String × FileState) → retry_delivery c now s ≡ ok y → MayEnd p c s
  unfolding retry_delivery
  retry-MayEnd y h = as_admin (require-ok c.admin forbidden _ h).0

  session_kinds-MayEnd :
      (y : List String × FileState)
      → c.kind ≡ "op-sessions"
      → (if c.id != "" then end_op_session p c now s else end_own_sessions p c now s) ≡ ok y
      → MayEnd p c s
  session_kinds-MayEnd y kind h = elim (Bool-cases (c.id != "")) [
    | inl named ↦ op_session-MayEnd y kind (sym (if_true (c.id != "") _ _ named) ∙ h)
    | inr unnamed ↦ own_sessions kind (ground (arith, unnamed, ==_iff c.id ""))
  ]

  end_targets-MayEnd : (y : List String × FileState) → end_targets p c now s ≡ ok y → MayEnd p c s
  unfolding end_targets
  end_targets-MayEnd y h = elim (Bool-cases (c.kind == "op-sessions")) [
    | inl k ↦
        session_kinds-MayEnd y ((==_iff c.kind "op-sessions").0 k)
          (sym (if_true (c.kind == "op-sessions") _ _ k) ∙ h)
    | inr n ↦
        let h1 = sym (if_false (c.kind == "op-sessions") _ _ n) ∙ h in
        elim (Bool-cases (c.kind == "app-sessions")) [
          | inl k ↦
              named_app-MayEnd y ((==_iff c.kind "app-sessions").0 k)
                (sym (if_true (c.kind == "app-sessions") _ _ k) ∙ h1)
          | inr n1 ↦
              let h2 = sym (if_false (c.kind == "app-sessions") _ _ n1) ∙ h1 in
              elim (Bool-cases (c.kind == "user-sessions")) [
                | inl k ↦
                    user_sessions-MayEnd y (sym (if_true (c.kind == "user-sessions") _ _ k) ∙ h2)
                | inr n2 ↦
                    let h3 = sym (if_false (c.kind == "user-sessions") _ _ n2) ∙ h2 in
                    elim (Bool-cases (c.kind == "client-access")) [
                      | inl k ↦
                          client_access-MayEnd y ((==_iff c.kind "client-access").0 k)
                            (sym (if_true (c.kind == "client-access") _ _ k) ∙ h3)
                      | inr n3 ↦
                          let h4 = sym (if_false (c.kind == "client-access") _ _ n3) ∙ h3 in
                          elim (Bool-cases (c.kind == "logout-events")) [
                            | inl k ↦
                                retry-MayEnd y
                                  (sym (if_true (c.kind == "logout-events") _ _ k) ∙ h4)
                            | inr n4 ↦ cc
                          ]
                    ]
              ]
        ]
  ]

-- the password that a call has shown
checked-HasPassword :
    (o : Outside) (hash : String) (c : EndCall) (now : Time) (earlier s : FileState) (p : Principal)
    (checked : String)
    → checked_password o hash c now earlier ≡ ok checked
    → still_checked checked (find_user s p.user.id) ≡ true
    → HasPassword o hash c now earlier s p
unfolding checked_password compare_password
checked-HasPassword o hash c now earlier s p checked h same = elim (Bool-cases (needs_password c)) [
  | inr free ↦ inl free
  | inl asked ↦
      let h0 = sym (if_true (needs_password c) _ _ asked) ∙ h in
      let (before_, e1, h1) = >>=-ok (principal hash c.admin now earlier) _ h0 in
      let (u, e2, h2) = found_or-ok (find_user earlier before_.user.id) not_found _ h1 in
      let (e3, h3) = require-ok (o.verify u.password_hash c.request.password) credentials _ h2 in
      inr (
        before_,
        u,
        principal-IsSignedIn hash c.admin now earlier e1,
        e2,
        e3,
        subst (λ x. still_checked x (find_user s p.user.id) ≡ true) (sym (ok-injective h3)) same,
      )
]

transaction-MayEnd :
    (o : Outside) (hash : String) (c : EndCall) (operation : String) (now : Time)
    (earlier s : FileState) (checked : String)
    → checked_password o hash c now earlier ≡ ok checked
    → (y : Unit {0} × FileState) → end_sessions_transaction hash c checked operation now s ≡ ok y
    → (p : Principal) × IsSignedIn hash c.admin now s p
      × MayEnd p c s
      × HasPassword o hash c now earlier s p
unfolding end_sessions_transaction
transaction-MayEnd o hash c operation now earlier s checked proven y done =
    let (p, e0, h0) = >>=-ok (principal hash c.admin now s) _ done in
    let (e1, h1) = require-ok (still_checked checked (find_user s p.user.id)) unauthorized _ h0 in
    let (z, e2, h2) = >>=-ok (end_targets p c now s) _ h1 in
    (
      p,
      principal-IsSignedIn hash c.admin now s e0,
      end_targets-MayEnd p c now s z e2,
      checked-HasPassword o hash c now earlier s p checked proven e1,
    )

-- A call that ends sessions fails and changes nothing, or else it succeeds, and it comes from a live
-- session of an active user, who is an administrator where it comes by the administrators' way; its
-- session, application or consent is the user's own unless it came that way; and where a password is asked for, the
-- user who was signed in gave it, and it is still the stored one (or the account had none).
pub end_sessions-MayEnd :
    (o : Outside) (hash : String) (c : EndCall) (operation : String) (now : Time)
    (earlier s : FileState)
    → ((e : Error) × (end_sessions o hash c operation now earlier s ≡ (err e, s)))
      ⊎ ((t : FileState) × (p : Principal) × (end_sessions o hash c operation now earlier s
            ≡ (ok tt, t))
          × IsSignedIn hash c.admin now s p
          × MayEnd p c s
          × HasPassword o hash c now earlier s p)
unfolding end_sessions write
end_sessions-MayEnd o hash c operation now earlier s =
    elim (Result-cases (checked_password o hash c now earlier)) [
      | inr (e, failed) ↦ inl (e, rw (failed, end_sessions) refl)
      | inl (checked, proven) ↦
          elim (Result-cases (end_sessions_transaction hash c checked operation now s)) [
            | inr (e, failed) ↦ inl (e, rw (proven, end_sessions) (rw (failed, write) refl))
            | inl ((u, t), done) ↦
                let (p, signed, may, password) =
                  transaction-MayEnd o hash c operation now earlier s checked proven (u, t) done in
                inr (t, p, rw (proven, end_sessions) (rw (done, write) refl), signed, may, password)
          ]
    ]
