-- ===== src/Oidc/Authorize/Begun.antt =====
-- What the transaction of a sign-in request holds.
use opened_connect_server.Prelude.{
  ◌==◌, ==_iff, Option-cases, if_true, all, contains, ℕ, ◌+◌, String, ◌≡◌, refl, sym, ap, ◌∙◌,
  subst, ◌⊎◌, inl, inr, Bool, true, false, not, Option, none, some, arith,
}
use opened_connect_server.Clock.{from_unix_nano}
use opened_connect_server.Identity.Grants.{AuthzTransaction}
use opened_connect_server.Identity.Metadata.{text, runtime_client, ClientRecord}
use opened_connect_server.Identity.State.{find_authz_transaction, save_authz_transaction, FileState}
use opened_connect_server.Identity.Principal.{Principal}
use opened_connect_server.Oidc.Setup.{Form, form_get, Config, Crypto}
use opened_connect_server.Oidc.Pkce.{validate_code_challenge, PkceResult, pkce_ok}
use opened_connect_server.Oidc.Authorize.{
  scopes_supported, requested_scopes, requested_prompts, is_pkce_ok, request_guards, grant_guards,
  Reads, Browser, AuthorizeRequest, AuthorizeAnswer, error_page, error_sent, code_sent, to_login,
  to_continue,
}
use opened_connect_server.Oidc.Authorize.Handler.{
  signed_in, fail, browser_binding, new_transaction, bound_transaction, continuation,
  authorize_start, accepted, authorize,
}
use opened_connect_server.Oidc.Authorize.Silent.{authorize_silent-ends}
use opened_connect_server.Oidc.Authorize.Accepted.{
  IsRefusal, ContinuesWith, authorize-answers, IsAccepted,
}
use opened_connect_server.Oidc.Authorize.Started.{
  authorize_start-answers, first_fault-none, kept_scopes-contains, kept_scopes-supported,
}
use opened_connect_server.Table.{get, get-put}
use opened_connect_server.Identity.Pruning.{prune_oidc_state}
use opened_connect_server.Oidc.Params.{ParsedForm, parsed}

-- The transaction of a request: open, for its client, URI, scopes and browser.
pub record IsBegun (k : Crypto) (cfg : Config) (reads : Reads) (b : Browser) (form : Form)
    (q : AuthorizeRequest) (id binding : String) (t : FileState) (txn : AuthzTransaction)
    : Type 0 where
  pub stored : find_authz_transaction t id ≡ some txn
  pub of_client : txn.client_id ≡ q.client.id
  pub of_revision : txn.client_updated_at ≡ from_unix_nano q.client.updated_at
  pub to_uri : txn.redirect_uri ≡ form_get form "redirect_uri"
  pub with_openid : contains txn.scopes "openid" ≡ true
  pub scopes_known : all (contains (scopes_supported cfg)) txn.scopes ≡ true
  pub with_challenge :
      validate_code_challenge txn.code_challenge txn.code_challenge_method ≡ pkce_ok
  pub of_browser : txn.browser_binding_hash ≡ k.hash_token binding
  pub is_open : (txn.consumed ≡ false) × (txn.revoked ≡ false)
  pub lasts : txn.expires_at ≡ reads.now + cfg.transaction_ttl
  pub signed :
      ((signed_in k reads b q ≡ none) × (txn.reauthenticate_after ≡ reads.now) × (txn.user_id ≡ ""))
      ⊎ ((p : Principal) × (signed_in k reads b q ≡ some p)
          × (txn.user_id ≡ p.user.id)
          × (txn.op_session_id ≡ p.session.id))

is_pkce_ok-true : (r : PkceResult) → is_pkce_ok r ≡ true → r ≡ pkce_ok
is_pkce_ok-true pkce_ok h = refl
is_pkce_ok-true _ h = cc

unnegated : {x : Bool} → not x ≡ false → x ≡ true
unnegated h = ground (arith, h)

guards-parts :
    (cfg : Config) (reads : Reads) (form : Form) (c : ClientRecord) (age : Option ℕ)
    → IsAccepted cfg reads form c age
    → (contains (requested_scopes form) "openid" ≡ true)
      × (validate_code_challenge
            (form_get form "code_challenge")
            (form_get form "code_challenge_method")
          ≡ pkce_ok)
unfolding request_guards grant_guards
guards-parts cfg reads form c age a =
    let grants = (first_fault-none _ a.no_fault).1.1.1.1.1.1.1 in
    (unnegated grants.1.0, is_pkce_ok-true _ (unnegated grants.1.1.0))

module _ (k : Crypto) (cfg : Config) (parses : String → Bool) (reads : Reads) (b : Browser)
    (s : FileState) where
  saved_transaction :
      (t base : FileState) (txn : AuthzTransaction) (id : String)
      → t ≡ save_authz_transaction base txn
      → txn.id ≡ id
      → find_authz_transaction t id ≡ some txn
  unfolding find_authz_transaction save_authz_transaction
  saved_transaction t base txn id e same =
      ap (λ (x : FileState). get x.authz_transactions id) e
      ∙ (get-put base.authz_transactions txn.id id txn ∙ if_true _ _ _ ((==_iff txn.id id).1 same))

  bound_transaction-IsBegun :
      (form : Form) (c : ClientRecord) (age : Option ℕ) (id drawn : String) (p : Option Principal)
      {t : FileState}
      → IsAccepted cfg reads form c age
      → signed_in k reads b
          (accepted cfg form (runtime_client c) (form_get form "redirect_uri") age)
        ≡ p
      → t
        ≡ save_authz_transaction (prune_oidc_state reads.now s) (
            bound_transaction p reads.now (
              new_transaction k cfg reads.now
                (accepted cfg form (runtime_client c) (form_get form "redirect_uri") age)
                id
                (browser_binding b drawn)))
      → IsBegun k cfg reads b form
          (accepted cfg form (runtime_client c) (form_get form "redirect_uri") age)
          id
          (browser_binding b drawn)
          t
          (bound_transaction p reads.now (
            new_transaction k cfg reads.now
              (accepted cfg form (runtime_client c) (form_get form "redirect_uri") age)
              id
              (browser_binding b drawn)))
  unfolding bound_transaction new_transaction scopes_supported contains ◌==◌
  bound_transaction-IsBegun form c age id chosen p a e written = record {
    stored = saved_transaction _ _ _ id written refl;
    of_client = refl;
    of_revision = refl;
    to_uri = refl;
    with_openid =
        kept_scopes-contains (scopes_supported cfg) (requested_scopes form) "openid"
          (guards-parts cfg reads form c age a).0 refl;
    scopes_known = kept_scopes-supported (scopes_supported cfg) (requested_scopes form);
    with_challenge = (guards-parts cfg reads form c age a).1;
    of_browser = refl;
    is_open = (refl, refl);
    lasts = refl;
    signed = elim (Option-cases p) [
      | inl absent ↦ inl (e ∙ absent, rw absent refl, rw absent refl)
      | inr (v, there) ↦ inr (v, e ∙ there, rw there refl, rw there refl)
    ];
  }

  refusal-next :
      (id binding : String) (answer : AuthorizeAnswer)
      → IsRefusal answer
      → ¬ ContinuesWith id binding answer
  unfolding IsRefusal ContinuesWith
  refusal-next id binding (error_page text) r next = next
  refusal-next id binding (error_sent to) r next = next
  refusal-next id binding (code_sent post to) r next = next
  refusal-next id binding (to_login i v) r next = r
  refusal-next id binding (to_continue i v) r next = r

  continuation-same :
      (p : Option Principal) (i v id binding : String)
      → ContinuesWith id binding (continuation p i v)
      → (i ≡ id) × (v ≡ binding)
  unfolding ContinuesWith
  continuation-same none i v id binding next = next
  continuation-same (some p) i v id binding next = next

  started-transaction :
      (form : Form) (c : ClientRecord) (age : Option ℕ) (id binding : String)
      {answer : AuthorizeAnswer} {t : FileState}
      → IsAccepted cfg reads form c age
      → ContinuesWith id binding answer
      → authorize_start k cfg parses reads b
          (accepted cfg form (runtime_client c) (form_get form "redirect_uri") age)
          s
        ≡ (answer, t)
      → (txn : AuthzTransaction) × IsBegun k cfg reads b form
          (accepted cfg form (runtime_client c) (form_get form "redirect_uri") age)
          id
          binding
          t
          txn
  unfolding fail ContinuesWith
  started-transaction form c age id binding {t = t} guarded next h =
      let q = accepted cfg form (runtime_client c) (form_get form "redirect_uri") age in
      elim (authorize_start-answers k cfg parses reads b s q) [
        | inl failed ↦ absurd (
            subst (λ (y : AuthorizeAnswer × FileState). ContinuesWith id binding y.0)
              (sym h ∙ failed) next)
        | inr (i, chosen, _, e) ↦
            let done = sym e ∙ h in
            let (same_id, same_binding) =
              continuation-same (signed_in k reads b q) i (browser_binding b chosen) id binding (
                subst (λ (y : AuthorizeAnswer × FileState). ContinuesWith id binding y.0) (sym done)
                  next) in
            let begun =
              bound_transaction-IsBegun form c age i chosen (signed_in k reads b q) guarded refl
                (sym (ap (λ x. x.1) done)) in
            subst (λ x. (txn : AuthzTransaction) × IsBegun k cfg reads b form q id x t txn)
              same_binding
              (subst
                (λ x.
                  (txn : AuthzTransaction) × IsBegun k cfg reads b form q x
                    (browser_binding b chosen) t txn)
                same_id (_, begun))
      ]

  -- A sign-in request is begun only for an accepted request without prompt=none. The transaction that
  -- is stored for it is open, lasts for the configured time, is bound to the client in its revision,
  -- to the registered redirect URI, to the browser's binding and to a valid S256 challenge; its scopes
  -- are supported and contain openid; and it names the user who is signed in freshly enough, or asks
  -- for a sign-in from now on.
  pub authorize-IsBegun :
      (parameters : ParsedForm) (id binding : String) {answer : AuthorizeAnswer} {t : FileState}
      → ContinuesWith id binding answer
      → authorize k cfg parses reads b parameters s ≡ (answer, t)
      → (form : Form) × (c : ClientRecord) × (age : Option ℕ) × (txn : AuthzTransaction)
        × (parameters ≡ parsed form)
        × IsAccepted cfg reads form c age
        × (contains (requested_prompts form) "none" ≡ false)
        × IsBegun k cfg reads b form
            (accepted cfg form (runtime_client c) (form_get form "redirect_uri") age)
            id
            binding
            t
            txn
  unfolding ContinuesWith IsRefusal
  authorize-IsBegun parameters id binding next h =
      elim (authorize-answers k cfg parses reads b s parameters h) [
        | inl (refusal, _) ↦ absurd (refusal-next id binding _ refusal next)
        | inr (form, c, age, same, guarded, inl (silent, answered)) ↦ absurd (
            subst (λ (y : AuthorizeAnswer × FileState). ¬ ContinuesWith id binding y.0) answered
              (authorize_silent-ends k cfg parses reads b s _ id binding) next)
        | inr (form, c, age, same, guarded, inr (loud, started)) ↦
            let (txn, begun) = started-transaction form c age id binding guarded next started in
            (form, c, age, txn, same, guarded, loud, begun)
      ]
