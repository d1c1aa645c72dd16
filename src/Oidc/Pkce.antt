-- ===== src/Oidc/Pkce.antt =====
-- oidc/pkce.go.
use opened_connect_server.Prelude.{
  leb, eqb, if◌then◌else◌, ◌==◌, ◌!=◌, length, all, ℕ, String, Bool, ◌&&◌, ◌||◌,
}
use opened_connect_server.Oidc.Texts.{codes, is_alphanumeric}
use opened_connect_server.Oidc.Setup.{Crypto}

verifier_char : ℕ → Bool
verifier_char c = is_alphanumeric c || (eqb c b'.' || (eqb c b'_' || (eqb c b'~' || eqb c b'-')))

challenge_char : ℕ → Bool
challenge_char c = is_alphanumeric c || (eqb c b'_' || eqb c b'-')

-- pkceVerifierPattern
unfoldable pub verifier_pattern : String → Bool
unfolding verifier_char
verifier_pattern v =
    leb 43 (length (codes v)) && leb (length (codes v)) 128 && all verifier_char (codes v)

-- pkceChallengePattern
unfoldable pub challenge_pattern : String → Bool
unfolding challenge_char
challenge_pattern c = eqb (length (codes c)) 43 && all challenge_char (codes c)

pub data PkceResult : Type 0 where
  pkce_ok pkce_required pkce_invalid : PkceResult

-- func ValidateCodeChallenge
unfoldable pub validate_code_challenge : String → String → PkceResult
validate_code_challenge challenge method =
    if challenge == ""
    then pkce_required
    else if method != "S256"
    then pkce_invalid
    else if challenge_pattern challenge
    then pkce_ok
    else pkce_invalid

-- func VerifyPKCE, true for a nil error
unfoldable pub verify_pkce : Crypto → String → String → Bool
verify_pkce k verifier challenge = verifier_pattern verifier && k.s256 verifier == challenge
