-- ===== src/Identity/Service/Permitted.antt =====
-- Management is for administrators who are signed in; a refused call changes nothing.
use opened_connect_server.Identity.Service.Admins.{remove_user_transaction-parts}
use opened_connect_server.Identity.Mutations.{delete_user}
use opened_connect_server.Identity.Service.{last_admin, remove_user_transaction, remove_user}
use opened_connect_server.Identity.Records.{role_admin, User}
use opened_connect_server.Errors.{
  require-ok, found_or-ok, Result-cases, ok-injective, Error, unauthorized, forbidden, ok, err,
}
use opened_connect_server.Identity.State.{find_user, find_session, write, FileState}
use opened_connect_server.Identity.Principal.{principal, Principal}
use opened_connect_server.Prelude.{
  ◌!=◌, ◌<◌, String, ◌≡◌, refl, sym, ap, ◌∙◌, subst, ◌⊎◌, inl, inr, Bool, true, false, not, ◌&&◌,
  some, arith,
}
use opened_connect_server.Clock.{Time, after}

-- A live session whose user is active; an administrator's where one is called for.
pub record IsSignedIn (hash : String) (admin : Bool) (now : Time) (s : FileState) (p : Principal)
    : Type 0 where
  pub user : User
  pub session_found : find_session s hash ≡ some p.session
  pub session_lasts : now < p.session.expires_at
  pub user_found : find_user s p.session.user_id ≡ some user
  pub user_active : user.active ≡ true
  pub user_same : p.user ≡ user.profile
  pub role_suits : (admin && user.role != role_admin) ≡ false

-- what a principal has shown
pub principal-IsSignedIn :
    (hash : String) (admin : Bool) (now : Time) (s : FileState) {p : Principal}
    → principal hash admin now s ≡ ok p
    → IsSignedIn hash admin now s p
unfolding principal
principal-IsSignedIn hash admin now s h =
    let (session, e0, h0) = found_or-ok (find_session s hash) unauthorized _ h in
    let (e1, h1) = require-ok (after session.expires_at now) unauthorized _ h0 in
    let (user, e2, h2) = found_or-ok (find_user s session.user_id) unauthorized _ h1 in
    let (e3, h3) = require-ok user.active unauthorized _ h2 in
    let (e4, h4) = require-ok (not (admin && user.role != role_admin)) forbidden _ h3 in
    let same = ok-injective h4 in
    let found : find_session s hash ≡ some session = e0 in
    record {
      user = user;
      session_found = found ∙ ap (λ (x : Principal). some x.session) same;
      session_lasts =
          subst (λ (x : Principal). now < x.session.expires_at) same (ground (arith, e1));
      user_found = subst (λ (x : Principal). find_user s x.session.user_id ≡ some user) same e2;
      user_active = e3;
      user_same = ap (λ (x : Principal). x.user) (sym same);
      role_suits = ground (arith, e4);
    }

module _ (hash id : String) (now : Time) (s : FileState) where
  -- A call of DeleteUser fails and changes nothing, or else it is an active administrator's with a live
  -- session, the account exists and is not the last active administrator's, and it is deleted.
  pub remove_user-answers :
      ((e : Error) × (remove_user hash id now s ≡ (err e, s)))
      ⊎ ((p : Principal) × (user : User) × IsSignedIn hash true now s p
          × (find_user s id ≡ some user)
          × (last_admin s user ≡ false)
          × (remove_user hash id now s ≡ (ok tt, delete_user id now s)))
  unfolding remove_user write
  remove_user-answers = elim (Result-cases (remove_user_transaction hash id now s)) [
    | inr (e, failed) ↦ inl (e, rw (failed, write) refl)
    | inl ((u, t), done) ↦
        let (p, user, allowed, found, more, after_) =
          remove_user_transaction-parts hash id now s done in
        inr (
          p,
          user,
          principal-IsSignedIn hash true now s allowed,
          found,
          more,
          rw (done, write) (ap (λ x. (ok tt, x)) (sym after_)),
        )
  ]
