-- ===== src/Oidc/Authorize/Started.antt =====
-- The sign-in request that the authorization endpoint stores for an accepted request.
use opened_connect_server.Prelude.{
  ==_iff, Bool-cases, Option-cases, if_true, if_false, all, All, contains, String, ◌≡◌, refl, sym,
  ◌∙◌, ◌⊎◌, inl, inr, Bool, true, false, Option, none, some, List, [], ◌∷◌, arith,
}
use opened_connect_server.Clock.{second}
use opened_connect_server.Identity.Grants.{AuthzTransaction}
use opened_connect_server.Identity.State.{save_authz_transaction, FileState}
use opened_connect_server.Identity.Pruning.{prune_oidc_state}
use opened_connect_server.Oidc.Setup.{drawn, Config, Crypto}
use opened_connect_server.Oidc.Authorize.{
  current_principal, first_fault, kept_scopes, Reads, Browser, Guard, AuthorizeRequest,
}
use opened_connect_server.Oidc.Authorize.Handler.{
  signed_in, fail, browser_binding, new_transaction, bound_transaction, continuation,
  authorize_start,
}

module _ (k : Crypto) (cfg : Config) (parses : String → Bool) (reads : Reads) (b : Browser)
    (s : FileState) where
  abbrev pub opened_transaction : AuthorizeRequest → String → String → AuthzTransaction
  opened_transaction q id drawn =
      bound_transaction (signed_in k reads b q) reads.now
        (new_transaction k cfg reads.now q id (browser_binding b drawn))

  -- a request is refused for want of random numbers, or begun
  pub authorize_start-answers :
      (q : AuthorizeRequest)
      → (authorize_start k cfg parses reads b q s ≡ (
        fail parses q.form q.redirect_uri "server_error" "Unable to start this sign-in request.",
        s,
      ))
        ⊎ ((id : String) × (drawn : String) × (b.draw_transaction ≡ some id)
            × (authorize_start k cfg parses reads b q s ≡ (
              continuation (signed_in k reads b q) id (browser_binding b drawn),
              save_authz_transaction (prune_oidc_state reads.now s) (opened_transaction q id drawn),
            )))
  unfolding authorize_start fail signed_in current_principal
  authorize_start-answers q = elim (Option-cases b.draw_transaction) [
    | inl failed ↦ inl (rw (failed, authorize_start) refl)
    | inr (id, first) ↦ elim (Option-cases b.draw_binding) [
      | inl failed ↦ inl (rw (first, failed, authorize_start) refl)
      | inr (drawn, second) ↦ inr (id, drawn, first, rw (first, second, authorize_start) refl)
    ]
  ]

some_fault : {g : Guard} → ¬ (◌≡◌ {A = Option Guard} (some g) none)
some_fault h = cc

-- no guard of a clean request fails
pub first_fault-none :
    (gs : List Guard) → first_fault gs ≡ none → All (λ (g : Guard). g.fails ≡ false) gs
unfolding first_fault
first_fault-none [] h = tt
first_fault-none (g ∷ gs) h = elim (Bool-cases g.fails) [
  | inl fails ↦ absurd (some_fault (sym (if_true _ _ _ fails) ∙ h))
  | inr passes ↦ (passes, first_fault-none gs (sym (if_false _ _ _ passes) ∙ h))
]

pub kept_scopes-contains :
    (supported scs : List String) (a : String)
    → contains scs a ≡ true
    → contains supported a ≡ true
    → contains (kept_scopes supported scs) a ≡ true
unfolding kept_scopes contains
kept_scopes-contains supported [] a h good = ground arith
kept_scopes-contains supported (sc ∷ scs) a h good =
    ground (arith, kept_scopes-contains supported scs a, h, good, ==_iff sc a)

pub kept_scopes-supported :
    (supported scs : List String) → all (contains supported) (kept_scopes supported scs) ≡ true
unfolding kept_scopes all
kept_scopes-supported supported [] = refl
kept_scopes-supported supported (sc ∷ scs) = ground (arith, kept_scopes-supported supported scs)
