-- ===== src/Identity/Service/Admins.antt =====
-- An active administrator always remains.
use opened_connect_server.Identity.Endings.{delete_user_sessions}
use opened_connect_server.Identity.Principal.{principal, Principal}
use opened_connect_server.Errors.{
  require-ok, found_or-ok, >>=-ok, Result-cases, ok-injective, not_found, last_administrator, ok,
}
use opened_connect_server.Identity.WellFormed.{IsWellFormed}
use opened_connect_server.Identity.Mutations.Users.{
  users_map-delete_user_sessions, users_map-store_user,
}
use opened_connect_server.Clock.{Time}
use opened_connect_server.Identity.Mutations.{email_taken, store_user, save_user, delete_user}
use opened_connect_server.Identity.Records.{role_admin, Profile, User}
use opened_connect_server.Identity.State.{clone_user, find_user, all_users, write-inv, FileState}
use mathlib.Core.Option
use opened_connect_server.Prelude.{
  if◌then◌else◌, ◌==◌, ◌!=◌, ==_iff, ==_refl, Bool-cases, Option-cases, if_true, if_false, any,
  String, ◌≡◌, refl, sym, ap, ◌∙◌, subst, inl, inr, Bool, true, false, not, ◌&&◌, ◌||◌, none, some,
  List, [], ◌∷◌, map, arith,
}
use opened_connect_server.Table.{
  Table, get, put, values, get-put, get-remove, HasUniqueKeys, IsKeyed,
}
use opened_connect_server.Identity.Service.{
  normalize, last_admin, updated_user, ends_sessions, update_user_transaction, update_user,
  remove_user_transaction, remove_user, Outside, UserInput,
}

-- some account is an administrator's and active
unfoldable pub HasAdmin : Table User → Type 0
HasAdmin m =
    (k : String) × (u : User) × (get m k ≡ some u) × (u.role ≡ role_admin) × (u.active ≡ true)

some_same : {A : Type 0} {a b : A} → some a ≡ some b → a ≡ b
some_same h = cc

no_user : {u : User} → ¬ (some u ≡ none)
no_user h = cc

-- a value that passes a test stands under some key
any_found {ℓ} :
    {V : Type ℓ} (test : V → Bool) (m : Table V)
    → HasUniqueKeys m
    → any test (values m) ≡ true
    → (k : String) × (v : V) × (get m k ≡ some v) × (test v ≡ true)
unfolding any values get
any_found test [] u h = cc
any_found test ((j, w) ∷ m) u h = elim (Bool-cases (test w)) [
  | inl passes ↦ (j, w, rw (==_refl j) refl, passes)
  | inr fails ↦
      let (k, v, there, passes) = any_found test m u.1 (ground (arith, h, fails)) in
      (k, v, ground (arith, there, u.0, ==_iff j k), passes)
]

any-map {ℓ κ} :
    {A : Type ℓ} {B : Type κ} (test : B → Bool) (f : A → B) (xs : List A)
    → any test (map f xs) ≡ any (λ x. test (f x)) xs
unfolding any
any-map test f [] = refl
any-map test f (x ∷ xs) = ground (arith, any-map test f xs)

module _ (s : FileState) (keyed : IsKeyed (λ (v : User). v.id) s.users_map) where
  -- another administrator than an administrator who is not the last
  other_admin :
      (user : User)
      → user.role ≡ role_admin
      → user.active ≡ true
      → last_admin s user ≡ false
      → (k : String) × (v : User) × (get s.users_map k ≡ some v)
        × (v.role ≡ role_admin)
        × (v.active ≡ true)
        × ((v.id == user.id) ≡ false)
  unfolding last_admin all_users clone_user
  other_admin user role active more =
      let is_other : User → Bool =
        λ other. other.id != user.id && (other.role == role_admin && other.active) in
      let listed : any is_other (map clone_user (values s.users_map)) ≡ true =
        ground (arith, more, active, role, ==_iff user.role role_admin) in
      let (k, v, there, passes) =
        any_found (λ u. is_other (clone_user u)) s.users_map keyed.unique
          (sym (any-map is_other clone_user (values s.users_map)) ∙ listed) in
      (
        k,
        v,
        there,
        ground (arith, passes, ==_iff v.role role_admin),
        ground (arith, passes),
        ground (arith, passes),
      )

  found_stored :
      (id : String) (user a : User)
      → find_user s id ≡ some user
      → get s.users_map id ≡ some a
      → clone_user a ≡ user
  unfolding find_user
  found_stored id user a found there =
      some_same (sym (ap (λ o. Option.map clone_user o) there) ∙ found)

  -- a change under the key of an account that is not the last administrator's
  admin_remains :
      (m : Table User) (id : String) (user : User)
      → HasAdmin s.users_map
      → find_user s id ≡ some user
      → last_admin s user ≡ false
      → ((k : String) → (id == k) ≡ false → get m k ≡ get s.users_map k)
      → HasAdmin m
  unfolding HasAdmin find_user clone_user
  admin_remains m id user (k, a, there, role, active) found more elsewhere =
      elim (Bool-cases (id == k)) [
        | inr other_key ↦ (k, a, elsewhere k other_key ∙ there, role, active)
        | inl hit ↦
            let here : get s.users_map id ≡ some a =
              ap (λ x. get s.users_map x) ((==_iff id k).0 hit) ∙ there in
            let same : clone_user a ≡ user = found_stored id user a found here in
            let own : user.id ≡ id = ap (λ (u : User). u.id) (sym same) ∙ keyed.keyed id a here in
            let (j, v, at_j, is_admin, is_active, distinct) =
              other_admin user (ap (λ (u : User). u.role) (sym same) ∙ role)
                (ap (λ (u : User). u.active) (sym same) ∙ active) more in
            (
              j,
              v,
              elsewhere j (
                    ground (
                      arith,
                      distinct,
                      keyed.keyed j v at_j,
                      own,
                      ==_iff v.id user.id,
                      ==_iff id j,
                    ))
                  ∙ at_j,
              is_admin,
              is_active,
            )
      ]

delete_user-elsewhere :
    (id : String) (now : Time) (s : FileState) (k : String)
    → (id == k) ≡ false
    → get (delete_user id now s).users_map k ≡ get s.users_map k
unfolding delete_user
delete_user-elsewhere id now s k other_key =
    ap (λ m. get m k) (users_map-delete_user_sessions id now _)
    ∙ (get-remove s.users_map id k ∙ if_false _ _ _ other_key)

-- a save that succeeds stores the account
saved_state :
    (user : User) (now : Time) (s : FileState) {t : FileState}
    → save_user user now s ≡ ok t
    → store_user user now s ≡ t
unfolding save_user
saved_state user now s h = elim (Bool-cases (email_taken (values s.users_map) user)) [
  | inl taken ↦ absurd (ground (arith, h, taken))
  | inr free ↦ ok-injective (sym (if_false _ _ _ free) ∙ h)
]

module _ (hash id : String) (now : Time) (s : FileState) where
  pub remove_user_transaction-parts :
      {y : Unit {0} × FileState}
      → remove_user_transaction hash id now s ≡ ok y
      → (p : Principal) × (user : User) × (principal hash true now s ≡ ok p)
        × (find_user s id ≡ some user)
        × (last_admin s user ≡ false)
        × (delete_user id now s ≡ y.1)
  unfolding remove_user_transaction
  remove_user_transaction-parts h =
      let (p, allowed, h1) = >>=-ok (principal hash true now s) _ h in
      let (user, found, h2) = found_or-ok (find_user s id) not_found _ h1 in
      let (more, h3) = require-ok (not (last_admin s user)) last_administrator _ h2 in
      (p, user, allowed, found, ground (arith, more), ap (λ x. x.1) (ok-injective h3))

  -- Deleting an account, by anyone and with any result, leaves an active administrator where there
  -- was one in a well-formed store.
  pub remove_user-HasAdmin :
      IsWellFormed s → HasAdmin s.users_map → HasAdmin (remove_user hash id now s).1.users_map
  unfolding remove_user
  remove_user-HasAdmin w admin =
      write-inv (λ t. HasAdmin t.users_map) s (remove_user_transaction hash id now) admin
        (λ y done.
          let (p, user, _, found, more, after_) = remove_user_transaction-parts done in
          subst (λ (t : FileState). HasAdmin t.users_map) after_
            (admin_remains s w.users _ id user admin found more (delete_user-elsewhere id now s)))

  module _ (input : UserInput) where
    -- the state in which UpdateUser saves the account
    abbrev pub update_base : User → FileState
    update_base user = if ends_sessions user input then delete_user_sessions id now s else s

    pub update_user_transaction-parts :
        {y : Profile × FileState}
        → update_user_transaction hash id input now s ≡ ok y
        → (p : Principal) × (user : User) × (principal hash true now s ≡ ok p)
          × (find_user s id ≡ some user)
          × (((not input.active || input.role != role_admin) && last_admin s user) ≡ false)
          × (save_user (updated_user input now user) now (update_base user) ≡ ok y.1)
    unfolding update_user_transaction
    update_user_transaction-parts h =
        let (p, allowed, h1) = >>=-ok (principal hash true now s) _ h in
        let (user, found, h2) = found_or-ok (find_user s id) not_found _ h1 in
        let (more, h3) =
          require-ok (not ((not input.active || input.role != role_admin) && last_admin s user))
            last_administrator _ h2 in
        let (t, saved, h4) =
          >>=-ok (save_user (updated_user input now user) now (update_base user)) _ h3 in
        (
          p,
          user,
          allowed,
          found,
          ground (arith, more),
          saved ∙ ap ok (ap (λ x. x.1) (ok-injective h4)),
        )

    update_base-users : (user : User) → (update_base user).users_map ≡ s.users_map
    update_base-users user = elim (Bool-cases (ends_sessions user input)) [
      | inl ends ↦
          ap (λ (t : FileState). t.users_map) (if_true _ _ _ ends)
          ∙ users_map-delete_user_sessions id now s
      | inr stays ↦ ap (λ (t : FileState). t.users_map) (if_false _ _ _ stays)
    ]

    users_after :
        (user : User) {t : FileState}
        → save_user (updated_user input now user) now (update_base user) ≡ ok t
        → t.users_map ≡ put s.users_map user.id (clone_user (updated_user input now user))
    unfolding save_user clone_user
    users_after user {t} h =
        let stored : store_user (updated_user input now user) now (update_base user) ≡ t =
          saved_state (updated_user input now user) now (update_base user) h in
        ap (λ (x : FileState). x.users_map) (sym stored)
        ∙ (users_map-store_user (updated_user input now user) now (update_base user)
            ∙ ap (λ m. put m user.id (clone_user (updated_user input now user)))
                (update_base-users user))

    own_id : IsWellFormed s → (user : User) → find_user s id ≡ some user → user.id ≡ id
    unfolding find_user clone_user
    own_id w user found = elim (Option-cases (get s.users_map id)) [
      | inl gone ↦ absurd (no_user (sym found ∙ ap (λ o. Option.map clone_user o) gone))
      | inr (a, there) ↦
          ap (λ (u : User). u.id) (sym (found_stored s w.users id user a found there))
          ∙ w.users.keyed id a there
    ]

    update_transaction-HasAdmin :
        (y : Profile × FileState)
        → IsWellFormed s
        → HasAdmin s.users_map
        → update_user_transaction hash id input now s ≡ ok y
        → HasAdmin y.1.users_map
    unfolding HasAdmin clone_user
    update_transaction-HasAdmin y w admin h =
        let (p, user, _, found, guarded, saved) = update_user_transaction-parts h in
        let own = own_id w user found in
        let written = users_after user saved in
        let at_own : get y.1.users_map user.id ≡ some (clone_user (updated_user input now user)) =
          ap (λ m. get m user.id) written
          ∙ (get-put s.users_map user.id user.id (clone_user (updated_user input now user))
              ∙ if_true _ _ _ (==_refl user.id)) in
        elim (Bool-cases (last_admin s user)) [
          | inl last_one ↦ (
            user.id,
            clone_user (updated_user input now user),
            at_own,
            ground (arith, guarded, last_one, ==_iff input.role role_admin),
            ground (arith, guarded, last_one),
          )
          | inr more ↦
              admin_remains s w.users y.1.users_map id user admin found more (λ k other_key.
                ap (λ m. get m k) written
                ∙ (get-put s.users_map user.id k (clone_user (updated_user input now user))
                    ∙ if_false _ _ _ (ap (λ x. x == k) own ∙ other_key)))
        ]

-- Updating an account, by anyone and with any result, leaves an active administrator where there was
-- one in a well-formed store, whatever role and activity the input asks for.
pub update_user-HasAdmin :
    (o : Outside) (hash id : String) (input : UserInput) (now : Time) (s : FileState)
    → IsWellFormed s
    → HasAdmin s.users_map
    → HasAdmin (update_user o hash id input now s).1.users_map
unfolding update_user
update_user-HasAdmin o hash id input now s w admin = elim (Result-cases (normalize o input)) [
  | inr (e, failed) ↦ rw (failed, update_user) admin
  | inl (normal, valid) ↦
      rw (valid, update_user)
        (write-inv (λ t. HasAdmin t.users_map) s (update_user_transaction hash id normal now) admin
          (λ y done. update_transaction-HasAdmin hash id now s normal y w admin done))
]
