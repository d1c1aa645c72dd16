-- ===== src/Oidc/ClientAuth/Sound.antt =====
-- Whom client authentication lets in.
use opened_connect_server.Prelude.{
  ◌==◌, ◌<>◌, ==_iff, Bool-cases, Option-cases, String, ◌≡◌, refl, subst, inl, inr, true, false,
  Option, some, arith,
}
use opened_connect_server.Clock.{Time}
use opened_connect_server.Identity.Metadata.{runtime_client, ClientRecord, ProtocolClient}
use opened_connect_server.Identity.State.{find_client, FileState}
use opened_connect_server.Oidc.Setup.{Form}
use opened_connect_server.Oidc.ClientAuth.{
  extract_client_auth, Limiter, available, credentials_match, check_client, authenticate_client,
  PresentedAuth, AuthRequest, Extracted, unusable, usable, authenticated,
}

-- A client that is let in: stored, with the method that it presents as its registered one and, unless
-- that is `none`, with its secret, which is not empty; and its bucket was not used up.
pub record IsAuthentic (unescape : String → Option String) (r : AuthRequest) (form : Form)
    (s : FileState) (now : Time) (l : Limiter) (c : ProtocolClient) : Type 0 where
  pub given : PresentedAuth
  pub stored : ClientRecord
  pub extracted : extract_client_auth unescape r form ≡ usable given
  pub found : find_client s given.client_id ≡ some stored
  pub projected : c ≡ runtime_client stored
  pub registered_method : c.token_endpoint_auth_method ≡ given.method
  pub secret_matches :
      (given.method == "none") ≡ false → (c.secret ≡ given.secret) × ((c.secret == "") ≡ false)
  pub not_limited : available (r.source <> "|" <> given.client_id) now l ≡ true

module _ (unescape : String → Option String) (r : AuthRequest) (form : Form) (s : FileState)
    (now : Time) (l : Limiter) where
  matching :
      (p : PresentedAuth) (stored : ClientRecord) {c : ProtocolClient}
      → extract_client_auth unescape r form ≡ usable p
      → find_client s p.client_id ≡ some stored
      → available (r.source <> "|" <> p.client_id) now l ≡ true
      → credentials_match p (runtime_client stored) ≡ true
      → runtime_client stored ≡ c
      → IsAuthentic unescape r form s now l c
  unfolding credentials_match
  matching p stored {c} e there spare fits same =
      subst (IsAuthentic unescape r form s now l) same (record {
        given = p;
        stored = stored;
        extracted = e;
        found = there;
        projected = refl;
        registered_method =
            ground
              (arith, fits, ==_iff (runtime_client stored).token_endpoint_auth_method p.method);
        secret_matches = λ secret. (
          ground (arith, fits, secret, ==_iff (runtime_client stored).secret p.secret),
          ground (arith, fits, secret),
        );
        not_limited = spare;
      })

  checked :
      (p : PresentedAuth) {c : ProtocolClient} {m : Limiter}
      → extract_client_auth unescape r form ≡ usable p
      → available (r.source <> "|" <> p.client_id) now l ≡ true
      → check_client p (r.source <> "|" <> p.client_id) (some s) now l ≡ (authenticated c, m)
      → IsAuthentic unescape r form s now l c × (m ≡ l)
  unfolding check_client
  checked p {c} {m} e spare h = elim (Option-cases (find_client s p.client_id)) [
    | inl gone ↦ absurd (ground (arith, h, gone))
    | inr (stored, there) ↦ elim (Bool-cases (credentials_match p (runtime_client stored))) [
      | inl fits ↦ (
        matching p stored e there spare fits (ground (arith, h, there, fits)),
        ground (arith, h, there, fits),
      )
      | inr wrong ↦ absurd (ground (arith, h, there, wrong))
    ]
  ]

  -- Client authentication lets in only a stored client that presents credentials by its registered
  -- method, with its own nonempty secret unless that method is `none`, and whose bucket is not used up;
  -- and it then leaves the limiter as it is.
  pub authenticate_client-IsAuthentic :
      {c : ProtocolClient} {m : Limiter}
      → authenticate_client unescape r form (some s) now l ≡ (authenticated c, m)
      → IsAuthentic unescape r form s now l c × (m ≡ l)
  unfolding authenticate_client
  authenticate_client-IsAuthentic {c} {m} h = go (extract_client_auth unescape r form) refl
    where
      go :
          (x : Extracted)
          → extract_client_auth unescape r form ≡ x
          → IsAuthentic unescape r form s now l c × (m ≡ l)
      go (unusable e) same = absurd (ground (arith, h, same))
      go (usable p) same = elim (Bool-cases (p.client_id == "")) [
        | inl empty ↦ absurd (ground (arith, h, same, empty))
        | inr named ↦ elim (Bool-cases (available (r.source <> "|" <> p.client_id) now l)) [
          | inr closed ↦ absurd (ground (arith, h, same, named, closed))
          | inl spare ↦ checked p same spare (ground (arith, h, same, named, spare))
        ]
      ]
