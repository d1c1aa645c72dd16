-- ===== src/Oidc/Authorize/Targets.antt =====
-- Where the authorization endpoint sends the browser.
use opened_connect_server.Prelude.{
  Bool-cases, Option-cases, if_true, if_false, contains, String, ◌≡◌, sym, ap, subst, ◌⊎◌, inl, inr,
  Bool, Option, none, some, ◌++◌,
}
use opened_connect_server.Clock.{Time}
use opened_connect_server.Errors.{>>=-ok, Result-cases, ok}
use opened_connect_server.Identity.Metadata.{text, runtime_client, ClientRecord, ProtocolClient}
use opened_connect_server.Identity.State.{FileState}
use opened_connect_server.Identity.Principal.{Principal}
use opened_connect_server.Oidc.Setup.{Form, form_get, drawn, Config, Crypto}
use opened_connect_server.Oidc.Redirect.{error_redirect, code_redirect, Redirect}
use opened_connect_server.Oidc.Interaction.{
  has_valid_consent, mint_code_tx, recheck_consent, mint_code_transaction, mint_code, FinishParams,
}
use opened_connect_server.Oidc.Interaction.Minting.{mint_code_tx-IsMinted}
use opened_connect_server.Oidc.Authorize.{
  first_fault, requested_prompts, request_guards, grant_guards, requested_max_age, Reads, Browser,
  AuthorizeRequest, AuthorizeAnswer, error_page, error_sent, code_sent, to_login, to_continue,
}
use opened_connect_server.Oidc.Authorize.Known.{authorize-cases, IsKnown}
use opened_connect_server.Oidc.Authorize.Handler.{
  signed_in, silent_params, fail, authorize_silent, browser_binding, continuation, authorize_start,
  accepted, authorize_guarded, authorize_client, authorize,
}
use opened_connect_server.Oidc.Params.{ParsedForm, parsed}

-- the answer is no page, and a redirect to a relying party goes to the URI
unfoldable pub GoesTo : String → AuthorizeAnswer → Type 0
GoesTo uri (error_page text) = ⊥
GoesTo uri (error_sent r) = r.to ≡ uri
GoesTo uri (code_sent post r) = r.to ≡ uri
GoesTo uri (to_login id binding) = Unit
GoesTo uri (to_continue id binding) = Unit

pub error_redirect-to :
    (parses : String → Bool) (uri code description state : String)
    → (error_redirect parses uri code description state).to ≡ uri
unfolding error_redirect
error_redirect-to parses uri code description state = elim (Bool-cases (parses uri)) [
  | inl yes_ ↦ ap (λ (r : Redirect). r.to) (if_true _ _ _ yes_)
  | inr no_ ↦ ap (λ (r : Redirect). r.to) (if_false _ _ _ no_)
]

-- the transaction of mintCode mints the code, after its recheck
pub mint_code_transaction-minted :
    (k : Crypto) (cfg : Config) (draw : Option String) (p : FinishParams) (now : Time)
    (s : FileState) {y : Redirect × FileState}
    → mint_code_transaction k cfg draw p now s ≡ ok y
    → (recheck_consent p now s ≡ ok tt) × (mint_code_tx k cfg draw p now s ≡ ok y)
unfolding mint_code_transaction
mint_code_transaction-minted k cfg draw p now s h =
    let (u, e, h1) = >>=-ok (recheck_consent p now s) _ h in (e, h1)

module _ (k : Crypto) (cfg : Config) (parses : String → Bool) where
  mint_code-to :
      (draw : Option String) (p : FinishParams) (now : Time) (s : FileState)
      → (mint_code k cfg parses draw p now s).0.to ≡ p.redirect_uri
  unfolding mint_code code_redirect
  mint_code-to draw p now s = elim (Result-cases (mint_code_transaction k cfg draw p now s)) [
    | inl ((redirect, t), h) ↦
        let (_, h1) = mint_code_transaction-minted k cfg draw p now s h in
        rw (h, mint_code)
          (ap (λ (r : Redirect). r.to) (mint_code_tx-IsMinted k cfg p now s draw h1).sent_to)
    | inr (e, h) ↦
        rw (h, mint_code)
          (error_redirect-to parses p.redirect_uri "access_denied"
            "The sign-in request is no longer valid." p.state)
  ]

  module _ (reads : Reads) (b : Browser) (s : FileState) where
    authorize_silent-GoesTo :
        (q : AuthorizeRequest) → GoesTo q.redirect_uri (authorize_silent k cfg parses reads b q s).0
    unfolding authorize_silent GoesTo fail silent_params
    authorize_silent-GoesTo q = elim (Option-cases (signed_in k reads b q)) [
      | inl absent ↦
          rw (absent, authorize_silent, GoesTo) (error_redirect-to parses q.redirect_uri _ _ _)
      | inr (p, there) ↦
          elim (Bool-cases (has_valid_consent reads.consent_read p.user.id q.client q.scopes)) [
            | inl covered ↦
                rw (there, covered, authorize_silent, GoesTo)
                  (mint_code-to b.draw_code (silent_params q p) reads.now s)
            | inr bare ↦
                rw (there, bare, authorize_silent, GoesTo)
                  (error_redirect-to parses q.redirect_uri _ _ _)
          ]
    ]

    continuation-GoesTo :
        (uri : String) (p : Option Principal) (id binding : String)
        → GoesTo uri (continuation p id binding)
    unfolding GoesTo
    continuation-GoesTo uri none id binding = tt
    continuation-GoesTo uri (some p) id binding = tt

    authorize_start-GoesTo :
        (q : AuthorizeRequest) → GoesTo q.redirect_uri (authorize_start k cfg parses reads b q s).0
    unfolding authorize_start GoesTo fail
    authorize_start-GoesTo q = elim (Option-cases b.draw_transaction) [
      | inl failed ↦
          rw (failed, authorize_start, GoesTo) (error_redirect-to parses q.redirect_uri _ _ _)
      | inr (id, drawn) ↦ elim (Option-cases b.draw_binding) [
        | inl failed ↦
            rw (drawn, failed, authorize_start, GoesTo)
              (error_redirect-to parses q.redirect_uri _ _ _)
        | inr (binding, bound) ↦
            rw (drawn, bound, authorize_start)
              (continuation-GoesTo q.redirect_uri (signed_in k reads b q) id
                (browser_binding b binding))
      ]
    ]

    authorize_client-GoesTo :
        (form : Form) (client : ProtocolClient) (uri : String)
        → GoesTo uri (authorize_client k cfg parses reads b form client uri s).0
    unfolding authorize_client authorize_guarded GoesTo fail
    authorize_client-GoesTo form client uri =
        elim (Option-cases (
          first_fault
            (request_guards form client ++ grant_guards cfg reads.policy_read form client))) [
              | inr (g, faulty) ↦
                  rw (faulty, authorize_client, authorize_guarded, fail, GoesTo)
                    (error_redirect-to parses uri _ _ _)
              | inl clean ↦ elim (Option-cases (requested_max_age form client)) [
                | inl bad ↦
                    rw (clean, bad, authorize_client, authorize_guarded, fail, GoesTo)
                      (error_redirect-to parses uri _ _ _)
                | inr (age, read) ↦ elim (Bool-cases (contains (requested_prompts form) "none")) [
                  | inl silent ↦
                      rw (clean, read, silent, authorize_client, authorize_guarded)
                        (authorize_silent-GoesTo (accepted cfg form client uri age))
                  | inr loud ↦
                      rw (clean, read, loud, authorize_client, authorize_guarded)
                        (authorize_start-GoesTo (accepted cfg form client uri age))
                ]
              ]
            ]

    -- The authorization endpoint shows an error page and changes nothing, or else the request names
    -- a stored client that is compatible, its redirect_uri is exactly one that the client has
    -- registered, and every redirect to a relying party, with an error or with a code, is to it.
    pub authorize-GoesTo :
        (parameters : ParsedForm)
        → ((text : String) × (authorize k cfg parses reads b parameters s ≡ (error_page text, s)))
          ⊎ ((form : Form) × (c : ClientRecord) × (parameters ≡ parsed form)
              × IsKnown reads form c
              × GoesTo
                  (form_get form "redirect_uri")
                  (authorize k cfg parses reads b parameters s).0)
    authorize-GoesTo parameters = elim (authorize-cases k cfg parses reads b s parameters) [
      | inl page ↦ inl page
      | inr (form, c, e, known, answered) ↦ inr (
        form,
        c,
        e,
        known,
        subst (λ x. GoesTo (form_get form "redirect_uri") x.0) (sym answered)
            (authorize_client-GoesTo form (runtime_client c) (form_get form "redirect_uri")),
      )
    ]
