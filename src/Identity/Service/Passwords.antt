-- ===== src/Identity/Service/Passwords.antt =====
-- A change of password is its owner's, and withdraws what the account had granted.
use opened_connect_server.Identity.Mutations.{save_user}
use opened_connect_server.Identity.Endings.Withdrawn.{UserWithdrawn, delete_user_sessions-Withdrawn}
use opened_connect_server.Errors.{
  found_or, require-ok, found_or-ok, >>=-ok, Result-cases, ok-injective, Error, not_found,
  unauthorized, random_failed, validation, Result, ok, err,
}
use opened_connect_server.Identity.Service.Permitted.{principal-IsSignedIn, IsSignedIn}
use opened_connect_server.Identity.Records.{User}
use opened_connect_server.Identity.Principal.{principal, Principal}
use opened_connect_server.Identity.Service.Signing.{
  changed_password, change_password_transaction, check_change, change_password,
}
use opened_connect_server.Identity.State.{find_user, write, write-ok, FileState}
use opened_connect_server.Identity.Service.{validate_password, hash_password, Outside}
use opened_connect_server.Prelude.{
  ◌==◌, String, ◌≡◌, refl, sym, ap, ◌∙◌, subst, inl, inr, true, false, not, Option, none, some,
  arith,
}
use opened_connect_server.Clock.{Time}

-- What a change of password has compared and written.
pub record IsChanged (o : Outside) (hash current password : String) (now : Time)
    (earlier s t : FileState) : Type 0 where
  pub before_ : Principal
  pub principal_now : Principal
  pub original : User
  pub encoded : String
  pub was_signed_in : IsSignedIn hash false now earlier before_
  pub owner : find_user earlier before_.user.id ≡ some original
  pub knows_current : o.verify original.password_hash current ≡ true
  pub is_different : (current == password) ≡ false
  pub is_valid : validate_password password ≡ ok tt
  pub encoding : o.encode password ≡ some encoded
  pub still_signed_in : IsSignedIn hash false now s principal_now
  pub user_now : User
  pub stored_user : find_user s principal_now.user.id ≡ some user_now
  pub hash_unchanged : (user_now.password_hash == original.password_hash) ≡ true
  pub withdrawn : UserWithdrawn user_now.id t

found_or_found : {A : Type 0} (o : Option A) (e : Error) {a : A} → found_or o e ≡ ok a → o ≡ some a
found_or_found none e h = cc
found_or_found (some x) e h = ap some (ok-injective h)

no_error :
    {A : Type 0} {a : A} {e : Error} {s t : FileState}
    → ¬ (◌≡◌ {A = Result A × FileState} (err e, s) (ok a, t))
no_error h = cc

module _ (hash : String) (now : Time) (s : FileState) where
  transaction_withdraws :
      (original : User) (encoded : String) (y : Unit {0} × FileState)
      → change_password_transaction hash original encoded now s ≡ ok y
      → (p : Principal) × (u : User) × IsSignedIn hash false now s p
        × (find_user s p.user.id ≡ some u)
        × ((u.password_hash == original.password_hash) ≡ true)
        × UserWithdrawn u.id y.1
  unfolding change_password_transaction
  transaction_withdraws original encoded y h =
      let (p, e0, h0) = >>=-ok (principal hash false now s) _ h in
      let (u, e1, h1) = found_or-ok (find_user s p.user.id) not_found _ h0 in
      let (e2, h2) = require-ok (u.password_hash == original.password_hash) unauthorized _ h1 in
      let (t, e3, h3) = >>=-ok (save_user (changed_password encoded now u) now s) _ h2 in
      (
        p,
        u,
        principal-IsSignedIn hash false now s e0,
        e1,
        e2,
        subst (λ x. UserWithdrawn u.id x) (ap (λ x. x.1) (ok-injective h3))
            (delete_user_sessions-Withdrawn u.id now t),
      )

module _ (o : Outside) (hash current password : String) (now : Time) (earlier s : FileState) where
  check_change-parts :
      {y : User × String}
      → check_change o hash current password now earlier ≡ ok y
      → (p : Principal) × IsSignedIn hash false now earlier p
        × (find_user earlier p.user.id ≡ some y.0)
        × (o.verify y.0.password_hash current ≡ true)
        × ((current == password) ≡ false)
        × (validate_password password ≡ ok tt)
        × (o.encode password ≡ some y.1)
  unfolding check_change hash_password
  check_change-parts h =
      let (p, e0, h0) = >>=-ok (principal hash false now earlier) _ h in
      let (u, e1, h1) = found_or-ok (find_user earlier p.user.id) not_found _ h0 in
      let (e2, h2) =
        require-ok (not (not (o.verify u.password_hash current)))
          (validation "Current password is incorrect.") _ h1 in
      let (e3, h3) =
        require-ok (not (current == password)) (validation "Choose a different password.") _ h2 in
      let (encoded, e4, h4) = >>=-ok (hash_password o password) _ h3 in
      let (valid, e5, h5) = >>=-ok (validate_password password) _ e4 in
      let done = ok-injective h4 in
      let coded : o.encode password ≡ some encoded =
        found_or_found (o.encode password) random_failed h5 in
      (
        p,
        principal-IsSignedIn hash false now earlier e0,
        e1 ∙ ap (λ (x : User × String). some x.0) done,
        subst (λ (x : User × String). o.verify x.0.password_hash current ≡ true) done
            (ground (arith, e2)),
        ground (arith, e3),
        e5,
        coded ∙ ap (λ (x : User × String). some x.1) done,
      )

-- A password is changed only for a user who is signed in, before and when the change is stored, whose
-- current password was given and whose hash has not changed meanwhile; the new password is another one
-- of 12 to 128 characters, and nothing that the account had granted stays good.
pub change_password-IsChanged :
    (o : Outside) (hash current password : String) (now : Time) (earlier s : FileState)
    {t : FileState}
    → change_password o hash current password now earlier s ≡ (ok tt, t)
    → IsChanged o hash current password now earlier s t
unfolding change_password
change_password-IsChanged o hash current password now earlier s h =
    elim (Result-cases (check_change o hash current password now earlier)) [
      | inr (e, failed) ↦ absurd (no_error (sym (unprepared e failed) ∙ h))
      | inl ((original, encoded), prepared) ↦
          let (p, e0, e1, e2, e3, e4, e5) =
            check_change-parts o hash current password now earlier s prepared in
          let stored : change_password_transaction hash original encoded now s ≡ ok (tt, _) =
            write-ok s (change_password_transaction hash original encoded now)
              (sym (prepared_answer original encoded prepared) ∙ h) in
          let (q, u, f0, f1, f2, f3) = transaction_withdraws hash now s original encoded _ stored in
          record {
            before_ = p;
            principal_now = q;
            original = original;
            encoded = encoded;
            was_signed_in = e0;
            owner = e1;
            knows_current = e2;
            is_different = e3;
            is_valid = e4;
            encoding = e5;
            still_signed_in = f0;
            user_now = u;
            stored_user = f1;
            hash_unchanged = f2;
            withdrawn = f3;
          }
    ]
  where
    unprepared :
        (e : Error)
        → check_change o hash current password now earlier ≡ err e
        → change_password o hash current password now earlier s ≡ (err e, s)
    unprepared e failed = rw (failed, change_password) refl

    prepared_answer :
        (original : User) (encoded : String)
        → check_change o hash current password now earlier ≡ ok (original, encoded)
        → change_password o hash current password now earlier s
          ≡ write s (change_password_transaction hash original encoded now)
    prepared_answer original encoded prepared = rw (prepared, change_password) refl
