-- ===== src/Identity/Mutations/Users.antt =====
-- Accounts: what a change of one withdraws, and that two never share an address.
use opened_connect_server.Prelude.{
  if◌then◌else◌, ◌==◌, ◌!=◌, ==_iff, Bool-cases, Option-cases, if_true, if_false, for_each_same,
  String, ◌≡◌, refl, sym, ap, ◌∙◌, subst, inl, inr, true, false, ◌&&◌, some, arith,
}
use opened_connect_server.Clock.{Time}
use opened_connect_server.Errors.{ok-injective, ok}
use opened_connect_server.Table.{Table, get, put, values, get-put, any-values}
use opened_connect_server.Identity.Records.{User}
use opened_connect_server.Identity.State.{clone_user, FileState}
use opened_connect_server.Identity.Endings.Withdrawn.{UserWithdrawn, delete_user_sessions-Withdrawn}
use opened_connect_server.Identity.Mutations.{
  email_taken, security_change, store_user, save_user, delete_user,
}
use opened_connect_server.Identity.Fold.{equal_fold, equal_fold_sym}
use opened_connect_server.Identity.Revocation.{
  revoke_refresh_family, revoke_families_where, revoke_access_tokens_for_user,
}
use opened_connect_server.Identity.Endings.{
  revoke_codes_where, revoke_transactions_where, delete_user_sessions,
}
use opened_connect_server.Identity.Endings.Steady.{end_sessions_where-steady}

with_users :
    (id : String) (s : FileState) (m : Table User)
    → UserWithdrawn id s
    → UserWithdrawn id (record s { users_map = m })
with_users id s m w = record {
  revoked = record { tokens = w.revoked.tokens; families = w.revoked.families };
  codes = w.codes;
  transactions = w.transactions;
  consents = w.consents;
}

-- No two accounts have addresses that are equal but for case.
abbrev pub DistinctEmails : Table User → Type 0
DistinctEmails m =
    (j k : String) (u v : User)
    → get m j ≡ some u
    → get m k ≡ some v
    → equal_fold u.email v.email ≡ true
    → u.id ≡ v.id

users_map-revoke_refresh_family :
    (id : String) (s : FileState) → (revoke_refresh_family id s).users_map ≡ s.users_map
unfolding revoke_refresh_family
users_map-revoke_refresh_family id s = elim (Option-cases (get s.refresh_families id)) [
  | inl gone ↦ rw (gone, revoke_refresh_family) refl
  | inr (f, there) ↦ rw (there, revoke_refresh_family) refl
]

users_map-revoke_access_tokens_for_user :
    (id : String) (s : FileState) → (revoke_access_tokens_for_user id s).users_map ≡ s.users_map
unfolding revoke_access_tokens_for_user revoke_families_where
users_map-revoke_access_tokens_for_user id s =
    for_each_same (λ t. t.users_map)
      (λ e t. if e.1.user_id == id then revoke_refresh_family e.0 t else t)
      (λ e t. elim (Bool-cases (e.1.user_id == id)) [
        | inl hit ↦
            ap (λ (x : FileState). x.users_map) (if_true _ _ _ hit)
            ∙ users_map-revoke_refresh_family e.0 t
        | inr miss ↦ ap (λ (x : FileState). x.users_map) (if_false _ _ _ miss)
      ])
      s.refresh_families s

pub users_map-delete_user_sessions :
    (id : String) (now : Time) (s : FileState)
    → (delete_user_sessions id now s).users_map ≡ s.users_map
unfolding delete_user_sessions revoke_codes_where revoke_transactions_where
users_map-delete_user_sessions id now s =
    end_sessions_where-steady (λ t. t.users_map ≡ s.users_map)
      (record {
        sessions = λ t m e. e;
        app = record {
          apps = λ t m e. e;
          deliveries = λ t m e. e;
          tokens = λ t hit e. e;
          codes = λ t hit e. e;
          transactions = λ t hit e. e;
        };
      })
      (λ v. v.user_id == id) "security" "account_security_change" now _
      (users_map-revoke_access_tokens_for_user id s)

pub users_map-store_user :
    (user : User) (now : Time) (s : FileState)
    → (store_user user now s).users_map ≡ put s.users_map user.id (clone_user user)
unfolding store_user
users_map-store_user user now s = elim (Option-cases (get s.users_map user.id)) [
  | inl new ↦ rw (new, store_user) refl
  | inr (old, there) ↦ elim (Bool-cases (security_change old user)) [
    | inl change ↦
        rw (there, change, store_user)
          (ap (λ m. put m user.id (clone_user user)) (users_map-delete_user_sessions user.id now s))
    | inr same ↦ rw (there, same, store_user) refl
  ]
]

module _ (user : User) (m : Table User) (free : email_taken (values m) user ≡ false) where
  stored_is_own :
      (k : String) (v : User)
      → get m k ≡ some v
      → equal_fold v.email user.email ≡ true
      → v.id ≡ user.id
  unfolding email_taken
  stored_is_own k v there same = ground (
    arith,
    free,
    same,
    any-values (λ u. u.id != user.id && equal_fold u.email user.email) m k v there,
    ==_iff v.id user.id,
  )

  put-DistinctEmails : DistinctEmails m → DistinctEmails (put m user.id (clone_user user))
  unfolding clone_user
  put-DistinctEmails apart j k u v at_j at_k same = ground (
    arith,
    get-put m user.id j (clone_user user),
    get-put m user.id k (clone_user user),
    stored_is_own j u,
    stored_is_own k v,
    equal_fold_sym user.email v.email,
    apart j k u v,
    same,
  )

-- Saving a user, where it succeeds, keeps the addresses of the accounts apart: if no two accounts
-- have addresses that are equal but for the case of ASCII letters, none have afterwards.
pub save_user-DistinctEmails :
    (user : User) (now : Time) (s : FileState) {t : FileState}
    → DistinctEmails s.users_map
    → save_user user now s ≡ ok t
    → DistinctEmails t.users_map
unfolding save_user
save_user-DistinctEmails user now s {t} apart h =
    elim (Bool-cases (email_taken (values s.users_map) user)) [
      | inl taken ↦ absurd (ground (arith, h, taken))
      | inr free ↦
          let stored : ok (store_user user now s) ≡ ok t = ground (arith, h, free) in
          subst (λ x. DistinctEmails x.users_map) (ok-injective stored)
            (subst DistinctEmails (sym (users_map-store_user user now s))
              (put-DistinctEmails user s.users_map free apart))
    ]

-- Saving a user, where it succeeds and the password, address, role or activity differs from what
-- is stored, revokes the user's access tokens and refresh families and leaves none of their codes,
-- transactions and consents.
pub save_user-Withdrawn :
    (user old : User) (now : Time) (s : FileState) {t : FileState}
    → get s.users_map user.id ≡ some old
    → security_change old user ≡ true
    → save_user user now s ≡ ok t
    → UserWithdrawn user.id t
unfolding save_user store_user
save_user-Withdrawn user old now s {t} there change h =
    let stored : ok (store_user user now s) ≡ ok t = ground (arith, h) in
    subst (UserWithdrawn user.id) (ok-injective stored) (
      rw (there, change, store_user)
        (with_users user.id _ _ (delete_user_sessions-Withdrawn user.id now s)))

-- A user who is deleted has no access token or refresh family that is not revoked, and no code,
-- transaction or consent.
pub delete_user-Withdrawn :
    (id : String) (now : Time) (s : FileState) → UserWithdrawn id (delete_user id now s)
unfolding delete_user
delete_user-Withdrawn id now s = delete_user_sessions-Withdrawn id now _
