-- ===== src/Oidc/Redirect.antt =====
-- oidc/errors.go and response_mode.go: the redirects that carry an answer to the relying party. A
-- redirect is kept as its URI and the parameters set on it, before url.Values.Encode; `parses` is
-- whether url.Parse reads the URI.
use opened_connect_server.Prelude.{if◌then◌else◌, ◌==◌, String, Bool, ◌||◌, List, [], ◌∷◌, ◌++◌}

pub record Redirect : Type 0 where
  pub to : String
  pub parameters : List (String × String)

-- `if value != "" { q.Set(key, value) }`
unfoldable pub set_if : String → String → List (String × String)
set_if key value = if value == "" then [] else (key, value) ∷ []

-- func errorRedirectURL
unfoldable pub error_redirect : (String → Bool) → String → String → String → String → Redirect
unfolding set_if
error_redirect parses uri code description state =
    if parses uri
    then record {
      to = uri;
      parameters =
          ("error", code) ∷ (set_if "error_description" description ++ set_if "state" state);
    }
    else record { to = uri; parameters = [] }

-- the success redirect of mintCodeTx
unfoldable pub code_redirect : String → String → String → Redirect
unfolding set_if
code_redirect uri code state = record {
  to = uri;
  parameters = ("code", code) ∷ set_if "state" state;
}

-- func validCodeResponseMode
unfoldable pub valid_code_response_mode : String → Bool
valid_code_response_mode mode = mode == "" || (mode == "query" || mode == "form_post")
