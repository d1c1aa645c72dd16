-- ===== src/Oidc/Resource/Sound.antt =====
-- What a client_credentials or password grant may give.
use opened_connect_server.Prelude.{
  ◌==◌, is_empty, contains, String, ◌≡◌, subst, true, false, not, ◌&&◌, ◌||◌, some, List, [], arith,
}
use opened_connect_server.Errors.{require-ok, found_or-ok, ok-injective, ok}
use opened_connect_server.Table.{get, get_or}
use opened_connect_server.Identity.Grants.{Resource, ResourceScopes}
use opened_connect_server.Identity.Metadata.{runtime_client, ClientRecord}
use opened_connect_server.Identity.State.{oauth_policy, oauth_access, FileState}
use opened_connect_server.Identity.Active.{resource_by_audience, scope_subset}
use opened_connect_server.Oidc.Setup.{Form, form_get, form_has, Config}
use opened_connect_server.Oidc.Resource.{
  valid_resource_scopes, asked_resource, asked_scopes, invalid_target, resource_grant,
}

-- An audience and scopes that a client may have: the resource is configured and enabled, the client's
-- policy and registration allow the grant, and the scopes are resource scopes within what the policy
-- and the resource allow.
pub record IsGrantable (cfg : Config) (s : FileState) (c : ClientRecord) (grant : String)
    (user_id : String) (aud : String) (scopes : List String) : Type 0 where
  pub res : Resource
  pub allowed : ResourceScopes
  pub configured : resource_by_audience cfg.resources aud ≡ some res
  pub enabled : res.enabled ≡ true
  pub permitted : get (oauth_policy s c.id).resources aud ≡ some allowed
  pub registered : contains (runtime_client c).grant_types grant ≡ true
  pub approved : contains (oauth_policy s c.id).grants grant ≡ true
  pub confidential : ((runtime_client c).token_endpoint_auth_method == "none") ≡ false
  pub nonempty : is_empty scopes ≡ false
  pub well_formed : valid_resource_scopes scopes ≡ true
  pub within_policy : scope_subset scopes allowed.allowed ≡ true
  pub within_resource : scope_subset scopes res.scopes ≡ true
  pub entitled :
      (grant == "password") ≡ true
      → ((oauth_policy s c.id).password_enabled ≡ true)
        × (scope_subset scopes (get_or (oauth_access s user_id) aud []) ≡ true)

-- A resource grant that succeeds gives only what the configuration, the client's registration and
-- policy, and for the password grant the user's own entitlement, allow.
pub resource_grant_sound :
    (cfg : Config) (s : FileState) (c : ClientRecord) (grant : String) (form : Form)
    (user_id : String) {aud : String} {scopes : List String}
    → resource_grant cfg s c grant form user_id ≡ ok (aud, scopes)
    → IsGrantable cfg s c grant user_id aud scopes
unfolding resource_grant
resource_grant_sound cfg s c grant form user_id {aud} {scopes} h =
    let p = oauth_policy s c.id in
    let (grants, h1) =
      require-ok (contains (runtime_client c).grant_types grant && contains p.grants grant) _ _ h in
    let (secret, h2) =
      require-ok (not ((runtime_client c).token_endpoint_auth_method == "none")) _ _ h1 in
    let (password, h3) = require-ok (not (grant == "password" && not p.password_enabled)) _ _ h2 in
    let (named, h4) =
      require-ok (not (form_has form "resource" && form_get form "resource" == "")) _ _ h3 in
    let got = asked_resource p form in
    let (res, configured, h5) =
      found_or-ok (resource_by_audience cfg.resources got) invalid_target _ h4 in
    let (allowed, permitted, h6) = found_or-ok (get p.resources got) invalid_target _ h5 in
    let (enabled, h7) = require-ok res.enabled invalid_target _ h6 in
    let given = asked_scopes allowed form in
    let (fits, h8) =
      require-ok
        (not (is_empty given)
          && (valid_resource_scopes given
              && (scope_subset given allowed.allowed && scope_subset given res.scopes)))
        _ _ h7 in
    let (entitled, h9) =
      require-ok
        (not (grant == "password") || scope_subset given (get_or (oauth_access s user_id) got [])) _
        _ h8 in
    let same : ◌≡◌ {A = String × List String} (got, given) (aud, scopes) = ok-injective h9 in
    subst (λ (x : String × List String). IsGrantable cfg s c grant user_id x.0 x.1) same
      (record {
        res = res;
        allowed = allowed;
        configured = configured;
        enabled = enabled;
        permitted = permitted;
        registered = ground (arith, grants);
        approved = ground (arith, grants);
        confidential = ground (arith, secret);
        nonempty = ground (arith, fits);
        well_formed = ground (arith, fits);
        within_policy = ground (arith, fits);
        within_resource = ground (arith, fits);
        entitled = λ asks. (ground (arith, password, asks), ground (arith, entitled, asks));
      })
