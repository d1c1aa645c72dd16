-- ===== src/Oidc/Authorize/Known.antt =====
-- The requests that name a client the endpoint may answer to.
use opened_connect_server.Prelude.{
  ◌==◌, ◌<>◌, Bool-cases, Option-cases, contains, String, ◌≡◌, refl, ◌⊎◌, inl, inr, Bool, true,
  false, some,
}
use opened_connect_server.Identity.Metadata.{runtime_client, ClientRecord}
use opened_connect_server.Identity.State.{find_client, FileState}
use opened_connect_server.Oidc.Texts.{trim_space, join_texts}
use opened_connect_server.Oidc.Setup.{Form, form_get, Config, Crypto}
use opened_connect_server.Oidc.Params.{ParsedForm, malformed, multiple_resources, parsed}
use opened_connect_server.Oidc.Authorize.{Reads, Browser, AuthorizeAnswer, error_page}
use opened_connect_server.Oidc.Authorize.Handler.{authorize_client, authorize_form, authorize}

-- the client is stored and compatible, and has registered the redirect URI
pub record IsKnown (reads : Reads) (form : Form) (c : ClientRecord) : Type 0 where
  pub client_found : find_client reads.client_read (trim_space (form_get form "client_id")) ≡ some c
  pub client_compatible : (runtime_client c).compatible ≡ true
  pub uri_registered :
      contains (runtime_client c).redirect_uris (form_get form "redirect_uri") ≡ true

module _ (k : Crypto) (cfg : Config) (parses : String → Bool) (reads : Reads) (b : Browser)
    (s : FileState) where
  abbrev known_answer : Form → ClientRecord → AuthorizeAnswer × FileState
  known_answer form c =
      authorize_client k cfg parses reads b form (runtime_client c) (form_get form "redirect_uri") s

  authorize_form-passes :
      (form : Form) (c : ClientRecord)
      → (trim_space (form_get form "client_id") == "") ≡ false
      → find_client reads.client_read (trim_space (form_get form "client_id")) ≡ some c
      → (runtime_client c).compatible ≡ true
      → contains (runtime_client c).redirect_uris (form_get form "redirect_uri") ≡ true
      → authorize_form k cfg parses reads b form s ≡ known_answer form c
  unfolding authorize_form
  authorize_form-passes form c named there fits registered = simp (named, there, fits, registered)

  form-cases :
      (form : Form)
      → ((text : String) × (authorize_form k cfg parses reads b form s ≡ (error_page text, s)))
        ⊎ ((c : ClientRecord) × IsKnown reads form c
            × (authorize_form k cfg parses reads b form s ≡ known_answer form c))
  unfolding authorize_form
  form-cases form = elim (Bool-cases (trim_space (form_get form "client_id") == "")) [
    | inl blank ↦ inl ("A client_id is required.", simp (blank))
    | inr named ↦
        elim (Option-cases
          (find_client reads.client_read (trim_space (form_get form "client_id")))) [
            | inl missing ↦ inl ("This client is not registered.", simp (named, missing))
            | inr (c, there) ↦ elim (Bool-cases (runtime_client c).compatible) [
              | inr odd ↦ inl (
                "This client is registered with settings this provider does not support yet: "
                    <> join_texts (runtime_client c).incompatibility_reasons "; ",
                simp (named, there, odd),
              )
              | inl fits ↦
                  elim (Bool-cases
                    (contains (runtime_client c).redirect_uris (form_get form "redirect_uri"))) [
                      | inr foreign_ ↦ inl (
                        "The redirect_uri does not exactly match a URI registered for this client.",
                        simp (named, there, fits, foreign_),
                      )
                      | inl registered ↦ inr (
                        c,
                        record {
                          client_found = there;
                          client_compatible = fits;
                          uri_registered = registered;
                        },
                        authorize_form-passes form c named there fits registered,
                      )
                    ]
            ]
          ]
  ]

  -- the answer is an error page, or is given to a client that is known
  pub authorize-cases :
      (parameters : ParsedForm)
      → ((text : String) × (authorize k cfg parses reads b parameters s ≡ (error_page text, s)))
        ⊎ ((form : Form) × (c : ClientRecord) × (parameters ≡ parsed form)
            × IsKnown reads form c
            × (authorize k cfg parses reads b parameters s ≡ known_answer form c))
  unfolding authorize
  authorize-cases malformed = inl (_, refl)
  authorize-cases multiple_resources = inl (_, refl)
  authorize-cases (parsed form) = elim (form-cases form) [
    | inl page ↦ inl page
    | inr (c, known, e) ↦ inr (form, c, refl, known, e)
  ]
