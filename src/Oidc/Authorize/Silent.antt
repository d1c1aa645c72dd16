-- ===== src/Oidc/Authorize/Silent.antt =====
-- prompt=none: a code without a screen needs a session and a consent that stand when it is minted.
use opened_connect_server.Prelude.{
  ◌==◌, ==_iff, Bool-cases, Option-cases, if_true, contains, ℕ, String, ◌≡◌, refl, sym, ap, ◌∙◌,
  subst, ◌⊎◌, inl, inr, Bool, true, false, ◌&&◌, Option, none, some, arith,
}
use opened_connect_server.Clock.{Time}
use opened_connect_server.Errors.{require-ok, found_or-ok, required, Result-cases, unauthorized, ok}
use opened_connect_server.Identity.Records.{Session}
use opened_connect_server.Identity.Grants.{Consent}
use opened_connect_server.Identity.State.{find_session, find_consent, FileState}
use opened_connect_server.Oidc.Setup.{Form, form_get, drawn, Config, Crypto}
use opened_connect_server.Oidc.Params.{session_fresh, ParsedForm, parsed}
use opened_connect_server.Oidc.Redirect.{error_redirect, Redirect}
use opened_connect_server.Oidc.Interaction.{
  consent_covers, has_valid_consent, recheck_consent, mint_code_transaction, mint_code,
  FinishParams,
}
use opened_connect_server.Oidc.Interaction.Minting.{mint_code_tx-IsMinted, IsMinted}
use opened_connect_server.Oidc.Authorize.{
  requested_prompts, Reads, Browser, AuthorizeRequest, AuthorizeAnswer, error_sent, code_sent,
}
use opened_connect_server.Identity.Principal.{Principal}
use opened_connect_server.Oidc.Authorize.Handler.{
  signed_in, silent_params, fail, authorize_silent, browser_binding, continuation, authorize_start,
  accepted, authorize,
}
use opened_connect_server.Oidc.Authorize.Targets.{mint_code_transaction-minted}
use opened_connect_server.Identity.Metadata.{runtime_client, ClientRecord}
use opened_connect_server.Oidc.Authorize.Started.{authorize_start-answers}
use opened_connect_server.Oidc.Authorize.Accepted.{
  IsRefusal, ContinuesWith, authorize-answers, IsAccepted,
}

-- the session is the user's and fresh, and the consent covers the scopes
pub record IsRechecked (p : FinishParams) (now : Time) (s : FileState) : Type 0 where
  pub session : Session
  pub consent : Consent
  pub session_found : find_session s p.session_hash ≡ some session
  pub session_owner : session.user_id ≡ p.user_id
  pub session_is_fresh : session_fresh session now p.max_age ≡ true
  pub consent_found : find_consent s p.user_id p.client.id ≡ some consent
  pub consent_covering : consent_covers consent p.client p.scopes ≡ true

recheck_consent-IsRechecked :
    (p : FinishParams) (now : Time) (s : FileState)
    → p.require_consent ≡ true
    → recheck_consent p now s ≡ ok tt
    → IsRechecked p now s
unfolding recheck_consent
recheck_consent-IsRechecked p now s asked h =
    let (session, e0, h0) =
      found_or-ok (find_session s p.session_hash) unauthorized _ (sym (if_true _ _ _ asked) ∙ h) in
    let (e1, h1) =
      require-ok (session.user_id == p.user_id && session_fresh session now p.max_age) unauthorized
        _ h0 in
    let (consent, e2, h2) = found_or-ok (find_consent s p.user_id p.client.id) unauthorized _ h1 in
    let e3 : consent_covers consent p.client p.scopes ≡ true = required _ unauthorized h2 in
    record {
      session = session;
      consent = consent;
      session_found = e0;
      session_owner = ground (arith, e1, ==_iff session.user_id p.user_id);
      session_is_fresh = ground (arith, e1);
      consent_found = e2;
      consent_covering = e3;
    }

no_error_code :
    {r : Redirect} {post : Bool} {redirect : Redirect} {s t : FileState}
    → ¬ (◌≡◌ {A = AuthorizeAnswer × FileState} (error_sent r, s) (code_sent post redirect, t))
no_error_code h = cc

no_continuation_code :
    (p : Option Principal) (id binding : String) {post : Bool} {redirect : Redirect}
    {s t : FileState}
    → ¬ (
        ◌≡◌ {A = AuthorizeAnswer × FileState}
          (continuation p id binding, s)
          (code_sent post redirect, t))
no_continuation_code none id binding h = cc
no_continuation_code (some p) id binding h = cc

code_same :
    {post post' : Bool} {y : Redirect × FileState} {redirect : Redirect} {t : FileState}
    → ◌≡◌ {A = AuthorizeAnswer × FileState} (code_sent post y.0, y.1) (code_sent post' redirect, t)
    → y ≡ (redirect, t)
code_same h = cc

module _ (k : Crypto) (cfg : Config) (parses : String → Bool) (reads : Reads) (b : Browser)
    (s : FileState) where
  -- the denial, or the code
  abbrev pub IsSilentAnswer : FinishParams → Redirect → FileState → Type 0
  IsSilentAnswer p redirect t =
      ((t ≡ s)
        × (redirect
            ≡ error_redirect parses p.redirect_uri "access_denied"
                "The sign-in request is no longer valid." p.state))
      ⊎ (IsRechecked p reads.now s × IsMinted k cfg b.draw_code p reads.now s redirect t)

  -- what mintCode sends: a denial that changes nothing, or a code
  pub mint_code-answers :
      (draw : Option String) (p : FinishParams) (now : Time) {redirect : Redirect} {t : FileState}
      → p.require_consent ≡ true
      → mint_code k cfg parses draw p now s ≡ (redirect, t)
      → ((t ≡ s)
          × (redirect
              ≡ error_redirect parses p.redirect_uri "access_denied"
                  "The sign-in request is no longer valid." p.state))
        ⊎ (IsRechecked p now s × IsMinted k cfg draw p now s redirect t)
  unfolding mint_code
  mint_code-answers draw p now asked h =
      elim (Result-cases (mint_code_transaction k cfg draw p now s)) [
        | inl (y, e) ↦
            let same : mint_code k cfg parses draw p now s ≡ y = rw (e, mint_code) refl in
            let (passed, e1) = mint_code_transaction-minted k cfg draw p now s e in
            inr (
              recheck_consent-IsRechecked p now s asked passed,
              subst (λ (x : Redirect × FileState). IsMinted k cfg draw p now s x.0 x.1)
                  (sym same ∙ h) (mint_code_tx-IsMinted k cfg p now s draw e1),
            )
        | inr (e, failed) ↦
            let same : mint_code k cfg parses draw p now s ≡ (
              error_redirect parses p.redirect_uri "access_denied"
                  "The sign-in request is no longer valid." p.state,
              s,
            ) =
              rw (failed, mint_code) refl in
            let done = sym h ∙ same in inl (ap (λ x. x.1) done, ap (λ x. x.0) done)
      ]

  silent_absent :
      (q : AuthorizeRequest)
      → signed_in k reads b q ≡ none
      → authorize_silent k cfg parses reads b q s ≡ (
        fail parses q.form q.redirect_uri "login_required" "The user must sign in to continue.",
        s,
      )
  unfolding authorize_silent fail
  silent_absent q absent = rw (absent, authorize_silent) refl

  silent_bare :
      (q : AuthorizeRequest) (p : Principal)
      → signed_in k reads b q ≡ some p
      → has_valid_consent reads.consent_read p.user.id q.client q.scopes ≡ false
      → authorize_silent k cfg parses reads b q s ≡ (
        fail parses q.form q.redirect_uri "consent_required" "The user must approve this request.",
        s,
      )
  unfolding authorize_silent fail
  silent_bare q p there bare = rw (there, bare, authorize_silent) refl

  silent_covered :
      (q : AuthorizeRequest) (p : Principal)
      → signed_in k reads b q ≡ some p
      → has_valid_consent reads.consent_read p.user.id q.client q.scopes ≡ true
      → authorize_silent k cfg parses reads b q s ≡ (
        code_sent
            (form_get q.form "response_mode" == "form_post")
            (mint_code k cfg parses b.draw_code (silent_params q p) reads.now s).0,
        (mint_code k cfg parses b.draw_code (silent_params q p) reads.now s).1,
      )
  unfolding authorize_silent ◌==◌ mint_code
  silent_covered q p there covered = rw (there, covered, authorize_silent) refl

  silent_code :
      (q : AuthorizeRequest) {post : Bool} {redirect : Redirect} {t : FileState}
      → authorize_silent k cfg parses reads b q s ≡ (code_sent post redirect, t)
      → (p : Principal) × (signed_in k reads b q ≡ some p)
        × (mint_code k cfg parses b.draw_code (silent_params q p) reads.now s ≡ (redirect, t))
  unfolding fail
  silent_code q h = elim (Option-cases (signed_in k reads b q)) [
    | inl absent ↦ absurd (no_error_code (sym (silent_absent q absent) ∙ h))
    | inr (p, there) ↦
        elim (Bool-cases (has_valid_consent reads.consent_read p.user.id q.client q.scopes)) [
          | inr bare ↦ absurd (no_error_code (sym (silent_bare q p there bare) ∙ h))
          | inl covered ↦ (p, there, code_same (sym (silent_covered q p there covered) ∙ h))
        ]
  ]

  -- a silent request begins no sign-in
  pub authorize_silent-ends :
      (q : AuthorizeRequest) (id binding : String)
      → ¬ ContinuesWith id binding (authorize_silent k cfg parses reads b q s).0
  unfolding ContinuesWith fail
  authorize_silent-ends q id binding next = elim (Option-cases (signed_in k reads b q)) [
    | inl absent ↦
        subst (λ (y : AuthorizeAnswer × FileState). ContinuesWith id binding y.0)
          (silent_absent q absent) next
    | inr (p, there) ↦
        elim (Bool-cases (has_valid_consent reads.consent_read p.user.id q.client q.scopes)) [
          | inr bare ↦
              subst (λ (y : AuthorizeAnswer × FileState). ContinuesWith id binding y.0)
                (silent_bare q p there bare) next
          | inl covered ↦
              subst (λ (y : AuthorizeAnswer × FileState). ContinuesWith id binding y.0)
                (silent_covered q p there covered) next
        ]
  ]

  start_no_code :
      (q : AuthorizeRequest) {post : Bool} {redirect : Redirect} {t : FileState}
      → ¬ (authorize_start k cfg parses reads b q s ≡ (code_sent post redirect, t))
  unfolding fail
  start_no_code q h = elim (authorize_start-answers k cfg parses reads b s q) [
    | inl failed ↦ absurd (no_error_code (sym failed ∙ h))
    | inr (id, drawn, _, begun) ↦
        absurd (
          no_continuation_code (signed_in k reads b q) id (browser_binding b drawn) (sym begun ∙ h))
  ]

  -- A code is sent without a screen only where prompt=none was asked in an accepted request and the
  -- browser is signed in as it asks. It is then the denial of mintCode, which changes nothing, or a
  -- code of the user who is signed in, minted in a state in which that user's session is fresh and a
  -- consent that stands covers every scope of the code.
  pub authorize-IsSilent :
      (parameters : ParsedForm) {post : Bool} {redirect : Redirect} {t : FileState}
      → authorize k cfg parses reads b parameters s ≡ (code_sent post redirect, t)
      → (form : Form) × (c : ClientRecord) × (age : Option ℕ) × (p : Principal) × (parameters
          ≡ parsed form)
        × IsAccepted cfg reads form c age
        × (contains (requested_prompts form) "none" ≡ true)
        × (signed_in k reads b
              (accepted cfg form (runtime_client c) (form_get form "redirect_uri") age)
            ≡ some p)
        × IsSilentAnswer
            (silent_params
              (accepted cfg form (runtime_client c) (form_get form "redirect_uri") age)
              p)
            redirect
            t
  unfolding silent_params IsRefusal
  authorize-IsSilent parameters h = elim (authorize-answers k cfg parses reads b s parameters h) [
    | inl (refusal, _) ↦ absurd refusal
    | inr (form, c, age, same, guarded, inr (loud, started)) ↦ absurd (start_no_code _ started)
    | inr (form, c, age, same, guarded, inl (silent, answered)) ↦
        let (p, there, minting) = silent_code _ answered in
        (
          form,
          c,
          age,
          p,
          same,
          guarded,
          silent,
          there,
          mint_code-answers b.draw_code _ reads.now refl minting,
        )
  ]
