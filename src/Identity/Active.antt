-- ===== src/Identity/Active.antt =====
-- identity/token_state.go and the scope tests of identity/oauth.go: when a token or a refresh family
-- is good. The file store fails only with ErrNotFound, so the error result of the source is never set.
use opened_connect_server.Prelude.{
  eqb, if◌then◌else◌, ◌==◌, ◌!=◌, all, contains, String, Bool, true, false, not, ◌&&◌, ◌||◌, Option,
  none, some, List, [], ◌∷◌,
}
use opened_connect_server.Clock.{Time, is_zero, before, after, unix_nano}
use opened_connect_server.Table.{get, get_or}
use opened_connect_server.Identity.Grants.{AccessToken, Resource, OauthPolicy, RefreshFamily}
use opened_connect_server.Identity.Metadata.{list, runtime_client, ClientRecord}
use opened_connect_server.Identity.State.{
  find_user, find_client, find_app_session, find_consent, find_refresh_family, oauth_policy,
  oauth_access, session_active, FileState,
}

-- func ResourceByAudience
unfoldable pub resource_by_audience : List Resource → String → Option Resource
resource_by_audience [] aud = none
resource_by_audience (r ∷ rs) aud =
    if r.audience == aud then some r else resource_by_audience rs aud

-- func ScopeSubset
unfoldable pub scope_subset : List String → List String → Bool
scope_subset requested allowed = all (contains allowed) requested

-- p.Resources[aud].Allowed
unfoldable pub allowed_scopes : OauthPolicy → String → List String
allowed_scopes p aud = elim (get p.resources aud) [ none ↦ [] | some v ↦ v.allowed ]

user_active : FileState → String → Bool
user_active s id = elim (find_user s id) [ none ↦ false | some u ↦ u.active ]

-- the checks of the session, and of the client's revision and the family
session_stands : FileState → AccessToken → Time → Bool
session_stands s t now =
    if t.op_session_id != "" && t.family_id == ""
    then session_active s t.op_session_id now
      && elim (find_app_session s t.app_session_id) [ none ↦ false | some a ↦ is_zero a.ended_at ]
    else true

family_stands : FileState → String → Bool
family_stands s id =
    if id == ""
    then true
    else elim (find_refresh_family s id) [ none ↦ false | some f ↦ not f.revoked ]

-- the grant by which the token was first given
unfoldable pub effective_grant : AccessToken → String
effective_grant t =
    let grant = if t.grant_type == "refresh_token" then t.original_grant else t.grant_type in
    if grant == "" && (t.user_id != "" && t.audience == "userinfo")
    then "authorization_code"
    else grant

code_grant_allows : FileState → ClientRecord → AccessToken → Bool
code_grant_allows s c t =
    not (
      t.subject_kind == "client"
      || (t.user_id == ""
          || (t.audience != "userinfo"
              || (not (runtime_client c).compatible
                  || not (contains (list c.metadata "grant_types") "authorization_code")))))
    && user_active s t.user_id

resource_grant_allows : FileState → ClientRecord → AccessToken → List Resource → String → Bool
resource_grant_allows s c t resources grant =
    let p = oauth_policy s c.id in
    elim (resource_by_audience resources t.audience) [
      | none ↦ false
      | some r ↦
          r.enabled
          && (contains p.grants grant
              && (contains (list c.metadata "grant_types") grant
                  && (scope_subset t.scopes (allowed_scopes p t.audience)
                      && (scope_subset t.scopes r.scopes
                          && (if grant == "client_credentials"
                              then t.subject_kind == "client" && t.user_id == ""
                              else p.password_enabled
                                && (t.subject_kind == "user"
                                    && (scope_subset t.scopes
                                          (get_or (oauth_access s t.user_id) t.audience [])
                                        && user_active s t.user_id)))))))
    ]

grant_allows : FileState → ClientRecord → AccessToken → List Resource → Bool
unfolding code_grant_allows resource_grant_allows
grant_allows s c t resources =
    let grant = effective_grant t in
    if grant == "authorization_code"
    then code_grant_allows s c t
    else if grant == "client_credentials" || grant == "password"
    then resource_grant_allows s c t resources grant
    else false

-- func AccessTokenActive
unfoldable pub access_token_active : FileState → AccessToken → Time → List Resource → Bool
unfolding session_stands family_stands grant_allows user_active
access_token_active s t now resources =
    not t.revoked
    && (before now t.expires_at
        && (session_stands s t now && elim (find_client s t.client_id) [
          | none ↦ false
          | some c ↦
              not (after c.updated_at t.issued_at)
              && (family_stands s t.family_id && grant_allows s c t resources)
        ]))

-- func RefreshFamilyActive
unfoldable pub refresh_family_active : FileState → RefreshFamily → Time → Bool
unfolding user_active
refresh_family_active s f now =
    not f.revoked
    && (before now f.absolute_expiry
        && (before now f.idle_expiry && elim (find_client s f.client_id) [
          | none ↦ false
          | some c ↦
              let p = oauth_policy s c.id in
              p.refresh_enabled
              && (contains p.grants "refresh_token"
                  && (contains (list c.metadata "grant_types") "refresh_token"
                      && (eqb (unix_nano c.updated_at) f.client_revision
                          && (user_active s f.user_id
                              && elim (find_consent s f.user_id f.client_id) [
                                | none ↦ false
                                | some consent ↦
                                    not consent.revoked
                                    && (eqb consent.policy_revision f.client_revision
                                        && (scope_subset f.scopes consent.scopes
                                            && contains consent.scopes "offline_access"))
                              ]))))
        ]))
