-- ===== src/Oidc/Authorize/Accepted.antt =====
-- The requests that pass every guard of the authorization endpoint.
use opened_connect_server.Prelude.{
  if◌then◌else◌, Bool-cases, Option-cases, if_true, if_false, contains, ℕ, String, ◌≡◌, refl, sym,
  ◌∙◌, subst, ◌⊎◌, inl, inr, Bool, true, false, Option, none, some, ◌++◌,
}
use opened_connect_server.Identity.Metadata.{text, runtime_client, ClientRecord, ProtocolClient}
use opened_connect_server.Identity.State.{FileState}
use opened_connect_server.Oidc.Setup.{Form, form_get, Config, Crypto}
use opened_connect_server.Oidc.Params.{ParsedForm, parsed}
use opened_connect_server.Oidc.Authorize.{
  first_fault, requested_prompts, request_guards, grant_guards, requested_max_age, Reads, Browser,
  Guard, AuthorizeAnswer, error_page, error_sent, to_login, to_continue,
}
use opened_connect_server.Oidc.Authorize.Known.{authorize-cases, IsKnown}
use opened_connect_server.Oidc.Authorize.Handler.{
  fail, authorize_silent, authorize_start, accepted, authorize_guarded, authorize_client, authorize,
}

-- an error page or an OAuth error
unfoldable pub IsRefusal : AuthorizeAnswer → Type 0
IsRefusal (error_page text) = Unit
IsRefusal (error_sent r) = Unit
IsRefusal _ = ⊥

-- the answer continues with a transaction
unfoldable pub ContinuesWith : String → String → AuthorizeAnswer → Type 0
ContinuesWith id binding (to_login i b) = (i ≡ id) × (b ≡ binding)
ContinuesWith id binding (to_continue i b) = (i ≡ id) × (b ≡ binding)
ContinuesWith id binding _ = ⊥

-- A request of a registered client that passes each guard.
pub record IsAccepted (cfg : Config) (reads : Reads) (form : Form) (c : ClientRecord)
    (age : Option ℕ) : Type 0 where
  pub known : IsKnown reads form c
  pub open known use *
  pub no_fault :
      first_fault (
        request_guards form (runtime_client c)
        ++ grant_guards cfg reads.policy_read form (runtime_client c))
      ≡ none
  pub age_read : requested_max_age form (runtime_client c) ≡ some age

-- The session and prompt parameters decide between a silent answer and a new sign-in request.
module _ (k : Crypto) (cfg : Config) (parses : String → Bool) (reads : Reads) (b : Browser)
    (s : FileState) where
  abbrev pub Taken : Form → ClientRecord → Option ℕ → AuthorizeAnswer × FileState → Type 0
  Taken form c age y =
      let q = accepted cfg form (runtime_client c) (form_get form "redirect_uri") age in
      ((contains (requested_prompts form) "none" ≡ true)
        × (authorize_silent k cfg parses reads b q s ≡ y))
      ⊎ ((contains (requested_prompts form) "none" ≡ false)
          × (authorize_start k cfg parses reads b q s ≡ y))

  clean_answer :
      (form : Form) (client : ProtocolClient) (uri : String)
      → first_fault (request_guards form client ++ grant_guards cfg reads.policy_read form client)
        ≡ none
      → authorize_client k cfg parses reads b form client uri s
        ≡ authorize_guarded k cfg parses reads b form client uri s
  unfolding authorize_client
  clean_answer form client uri clean = rw (clean, authorize_client) refl

  bad_age :
      (form : Form) (client : ProtocolClient) (uri : String)
      → requested_max_age form client ≡ none
      → authorize_guarded k cfg parses reads b form client uri s
        ≡ (fail parses form uri "invalid_request" "max_age must be a non-negative integer.", s)
  unfolding authorize_guarded
  bad_age form client uri bad = rw (bad, authorize_guarded) refl

  good_age :
      (form : Form) (client : ProtocolClient) (uri : String) (age : Option ℕ)
      → requested_max_age form client ≡ some age
      → authorize_guarded k cfg parses reads b form client uri s ≡ (
          if contains (requested_prompts form) "none"
          then authorize_silent k cfg parses reads b (accepted cfg form client uri age) s
          else authorize_start k cfg parses reads b (accepted cfg form client uri age) s)
  unfolding authorize_guarded
  good_age form client uri age read = rw (read, authorize_guarded) refl

  client_taken :
      (form : Form) (client : ProtocolClient) (uri : String)
      → ((g : Guard) × (authorize_client k cfg parses reads b form client uri s
            ≡ (fail parses form uri g.code g.description, s)))
        ⊎ ((age : Option ℕ) × (first_fault
                (request_guards form client ++ grant_guards cfg reads.policy_read form client)
              ≡ none)
            × (requested_max_age form client ≡ some age)
            × (authorize_client k cfg parses reads b form client uri s ≡ (
                if contains (requested_prompts form) "none"
                then authorize_silent k cfg parses reads b (accepted cfg form client uri age) s
                else authorize_start k cfg parses reads b (accepted cfg form client uri age) s)))
  unfolding authorize_client
  client_taken form client uri =
      elim (Option-cases (
        first_fault
          (request_guards form client ++ grant_guards cfg reads.policy_read form client))) [
            | inr (g, faulty) ↦ inl (g, rw (faulty, authorize_client) refl)
            | inl clean ↦ elim (Option-cases (requested_max_age form client)) [
              | inl bad ↦ inl (
                record {
                  fails = true;
                  code = "invalid_request";
                  description = "max_age must be a non-negative integer.";
                },
                clean_answer form client uri clean ∙ bad_age form client uri bad,
              )
              | inr (age, read) ↦ inr (
                age,
                clean,
                read,
                clean_answer form client uri clean ∙ good_age form client uri age read,
              )
            ]
          ]

  taken :
      (form : Form) (c : ClientRecord) (age : Option ℕ) {y : AuthorizeAnswer × FileState}
      → (if contains (requested_prompts form) "none"
          then authorize_silent k cfg parses reads b
              (accepted cfg form (runtime_client c) (form_get form "redirect_uri") age)
              s
          else authorize_start k cfg parses reads b
              (accepted cfg form (runtime_client c) (form_get form "redirect_uri") age)
              s)
        ≡ y
      → Taken form c age y
  taken form c age e = elim (Bool-cases (contains (requested_prompts form) "none")) [
    | inl silent ↦ inl (silent, sym (if_true _ _ _ silent) ∙ e)
    | inr loud ↦ inr (loud, sym (if_false _ _ _ loud) ∙ e)
  ]

  -- an answer is a refusal that changes nothing, or comes of an accepted request
  pub authorize-answers :
      (parameters : ParsedForm) {y : AuthorizeAnswer × FileState}
      → authorize k cfg parses reads b parameters s ≡ y
      → (IsRefusal y.0 × (y.1 ≡ s))
        ⊎ ((form : Form) × (c : ClientRecord) × (age : Option ℕ) × (parameters ≡ parsed form)
            × IsAccepted cfg reads form c age
            × Taken form c age y)
  unfolding IsRefusal fail
  authorize-answers parameters h = elim (authorize-cases k cfg parses reads b s parameters) [
    | inl (text, e) ↦ inl (subst (λ x. IsRefusal x.0 × (x.1 ≡ s)) (sym e ∙ h) (tt, refl))
    | inr (form, c, same, known, e) ↦
        elim (client_taken form (runtime_client c) (form_get form "redirect_uri")) [
          | inl (g, e1) ↦
              inl (subst (λ x. IsRefusal x.0 × (x.1 ≡ s)) (sym e1 ∙ (sym e ∙ h)) (tt, refl))
          | inr (age, clean, read, e1) ↦ inr (
            form,
            c,
            age,
            same,
            record { known = known; no_fault = clean; age_read = read },
            taken form c age (sym e1 ∙ (sym e ∙ h)),
          )
        ]
  ]
