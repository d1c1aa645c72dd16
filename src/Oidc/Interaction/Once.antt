-- ===== src/Oidc/Interaction/Once.antt =====
-- A sign-in request is completed once.
use opened_connect_server.Prelude.{
  ◌==◌, ==_iff, Bool-cases, Option-cases, if_true, if_false, String, ◌≡◌, refl, sym, ap, ◌∙◌, inl,
  inr, Bool, true, false, Option, some, arith,
}
use opened_connect_server.Clock.{Time}
use opened_connect_server.Errors.{unauthorized, Result, ok, err}
use opened_connect_server.Table.{get, get-put}
use opened_connect_server.Identity.Records.{User, Session}
use opened_connect_server.Identity.Grants.{AuthzTransaction}
use opened_connect_server.Identity.State.{find_authz_transaction, save_authz_transaction, FileState}
use opened_connect_server.Oidc.Setup.{Config, Crypto}
use opened_connect_server.Oidc.Redirect.{Redirect}
use opened_connect_server.Oidc.Interaction.{
  txn_open, claimed_by, interaction_transaction, complete_interaction, Decision, TransactionView,
  error_view, complete_view,
}
use opened_connect_server.Oidc.Interaction.Completing.{spent, interaction_transaction-IsAnswered}
use opened_connect_server.Identity.WellFormed.{IsWellFormed}

spent_consumed :
    (txn : AuthzTransaction) (user : User) (session : Session)
    → (spent txn user session).consumed ≡ true
spent_consumed txn user session = refl

-- the state that a request which is completed leaves
saved_spent :
    (t base : FileState) (id : String) (txn : AuthzTransaction) (user : User) (session : Session)
    → t ≡ save_authz_transaction base (spent txn user session)
    → txn.id ≡ id
    → find_authz_transaction t id ≡ some (spent txn user session)
unfolding find_authz_transaction save_authz_transaction claimed_by
saved_spent t base id txn user session e same =
    ap (λ (x : FileState). get x.authz_transactions id) e
    ∙ (get-put base.authz_transactions txn.id id (spent txn user session)
        ∙ if_true _ _ _ ((==_iff txn.id id).1 same))

module _ (k : Crypto) (cfg : Config) (parses : String → Bool) (draw cookie : Option String)
    (session_hash user_id id : String) (decision : Option Decision) (now : Time)
    (s : FileState) where
  no_error_view :
      {redirect : Redirect} {mode action : String} {t u : FileState}
      → ¬ (
          ◌≡◌ {A = TransactionView × FileState}
            (error_view, u)
            (complete_view redirect mode action, t))
  no_error_view h = cc

  taken_view :
      (o : Result (TransactionView × FileState)) {redirect : Redirect} {mode action : String}
      {t : FileState}
      → ◌≡◌ {A = TransactionView × FileState}
          (elim o [ ok (view, x) ↦ (view, x) | err e ↦ (error_view, s) ])
          (complete_view redirect mode action, t)
      → o ≡ ok (complete_view redirect mode action, t)
  taken_view (ok (view, x)) h = ap ok h
  taken_view (err e) h = absurd (no_error_view h)

  -- an answer comes from the transaction
  pub complete_interaction-transaction :
      {redirect : Redirect} {mode action : String} {t : FileState}
      → complete_interaction k cfg parses draw cookie session_hash user_id id decision now s
        ≡ (complete_view redirect mode action, t)
      → (binding : String) × (interaction_transaction k cfg parses draw binding session_hash user_id
            id decision now s
          ≡ ok (complete_view redirect mode action, t))
  unfolding complete_interaction
  complete_interaction-transaction h = elim (Option-cases cookie) [
    | inl missing ↦ absurd (no_error_view (rw missing at h))
    | inr (value, there) ↦
        let h1 = rw there at h in
        elim (Bool-cases (value == "")) [
          | inl blank ↦ absurd (no_error_view (sym (if_true _ _ _ blank) ∙ h1))
          | inr given ↦ (k.hash_token value, taken_view _ (sym (if_false _ _ _ given) ∙ h1))
        ]
  ]

  txn_open-consumed :
      (txn : AuthzTransaction) (binding : String)
      → txn.consumed ≡ true
      → txn_open txn binding now ≡ false
  unfolding txn_open
  txn_open-consumed txn binding used = ground (arith, used)

  transaction-consumed :
      (txn : AuthzTransaction) (binding : String)
      → find_authz_transaction s id ≡ some txn
      → txn.consumed ≡ true
      → interaction_transaction k cfg parses draw binding session_hash user_id id decision now s
        ≡ err unauthorized
  unfolding interaction_transaction
  transaction-consumed txn binding there used = rw (there, txn_open-consumed txn binding used) refl

  -- a request that is stored as consumed gets no answer but the error
  pub complete_interaction-consumed :
      (txn : AuthzTransaction)
      → find_authz_transaction s id ≡ some txn
      → txn.consumed ≡ true
      → complete_interaction k cfg parses draw cookie session_hash user_id id decision now s
        ≡ (error_view, s)
  unfolding complete_interaction
  complete_interaction-consumed txn there used = elim (Option-cases cookie) [
    | inl missing ↦ rw missing refl
    | inr (value, given) ↦ elim (Bool-cases (value == "")) [
      | inl blank ↦ rw (given, blank) refl
      | inr filled ↦
          rw (given, filled, transaction-consumed txn (k.hash_token value) there used) refl
    ]
  ]

-- Once a sign-in request has been completed, with a code or a denial, in a well-formed store, every
-- later attempt to continue it, by whomever and with whatever decision, in the state that it left, is
-- met with the error view and changes nothing.
pub complete_interaction_once :
    (k : Crypto) (cfg : Config) (parses : String → Bool) (draw cookie : Option String)
    (session_hash user_id id : String) (decision : Option Decision) (now : Time) (s : FileState)
    {redirect : Redirect} {mode action : String} {t : FileState}
    → IsWellFormed s
    → complete_interaction k cfg parses draw cookie session_hash user_id id decision now s
      ≡ (complete_view redirect mode action, t)
    → (cfg' : Config) (parses' : String → Bool) (draw' cookie' : Option String)
      (session_hash' user_id' : String) (decision' : Option Decision) (later : Time)
    → complete_interaction k cfg' parses' draw' cookie' session_hash' user_id' id decision' later t
      ≡ (error_view, t)
unfolding get find_authz_transaction
complete_interaction_once k cfg parses draw cookie session_hash user_id id decision now s {t = t} w
      h cfg' parses' draw' cookie' session_hash' user_id' decision' later =
    let (binding, h1) =
      complete_interaction-transaction k cfg parses draw cookie session_hash user_id id decision now
        s h in
    let (txn, session, user, client, continued, answered) =
      interaction_transaction-IsAnswered k cfg parses draw binding session_hash user_id id decision
        now s h1 in
    let same = w.transactions.keyed id txn continued.found in
    let stored : find_authz_transaction t id ≡ some (spent txn user session) = elim answered.1 [
      | inl denied ↦ saved_spent t s id txn user session denied.state_after same
      | inr approved ↦ saved_spent t approved.base id txn user session approved.state_after same
    ] in
    complete_interaction-consumed k cfg' parses' draw' cookie' session_hash' user_id' id decision'
      later t (spent txn user session) stored (spent_consumed txn user session)
