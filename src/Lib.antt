-- ===== src/Lib.antt =====
-- A model of an OpenID Connect provider: the store of its identities and grants, and the protocol
-- endpoints that work on it.
--
-- The program keeps everything in one store (internal/identity) that runs each request's callback as
-- one transaction (Store.Read, Store.Write). The protocol handlers (internal/oidc) are such
-- callbacks: they look records up, decide, and write codes, access tokens, refresh families and
-- sessions back. The management service (internal/identity/service.go and its neighbours) changes
-- users, clients, policies and consents; a change that matters for security withdraws what depended
-- on the old value within the same transaction.
--
-- Where things are:
--   Prelude, Table      lists, tests and texts; maps as association lists, with their laws and
--                       the rules for loops that write to the map they range over
--   Clock, Errors       time as nanoseconds since Go's zero time; error values and their sequencing
--   Identity.Records, .Grants
--                       store.go, sessions.go, oidc_records.go, oauth.go, registration.go: the records
--   Identity.Metadata   clients.go, runtime_client.go, protocol_audit.go, oidc/capability
--   Identity.State      fileState of file_store.go: one field for each map of the store, its plain
--                       look-ups and writes, SessionActive, CheckSessionCapacity, Store.Write
--   Identity.Revocation RevokeAccessToken*, RevokeRefreshFamily
--   Identity.Endings    EndSession, EndAppSession, DeleteUserSessions, invalidateClientGrants
--   Identity.Mutations  SaveUser, DeleteUser, SaveClient, DeleteClient, SaveConsent,
--                       SaveOAuthPolicy, SaveOAuthAccess, SaveLogoutOperation
--   Identity.Pruning    PruneSessions, PruneLogoutState, PruneOIDCState, LogoutMaintenanceDue
--   Identity.Active     AccessTokenActive, RefreshFamilyActive, ScopeSubset (token_state.go)
--   Identity.WellFormed the invariant of the store, and that its operations keep it
--   Identity.Machine    the writes of the interface Tx (store.go) as a step relation
--   Identity.Principal  principal and Authenticate of service.go
--   Identity.Service    service.go, password.go: Login, Logout, Bootstrap, CreateUser, UpdateUser,
--                       RemoveUser, ChangePassword, UpdateProfile
--   Identity.Service.Sessions
--                       sessions.go: EndSessionsResult and endSessions
--   Oidc.Setup, .Texts, .Pkce
--                       service.go, claims.go (signIDToken), pkce.go
--   Oidc.Params, .Redirect
--                       params.go; response_mode.go, errors.go and the redirects of interaction.go
--   Oidc.Authorize      authorize.go: AuthorizeHandler after the traffic limit
--   Oidc.Interaction    interaction.go: completeInteraction, mintCode, mintCodeTx
--   Oidc.Delivery       logout_delivery.go: the claim and the completion of a delivery
--   Oidc.ClientAuth     clientauth.go: extractClientAuth, authenticateClient, the limiter
--   Oidc.Exchange       TokenHandler's authorization_code grant, initialRefresh
--   Oidc.Refresh        refreshToken of refresh.go
--   Oidc.Resource       resourceGrant and issueResourceToken's transaction
--   Oidc.Inspect        RevokeHandler, IntrospectHandler, UserInfoHandler
--   Oidc.Samples, Tests, and the module Tests of a component
--                       concrete data, and runs at it
--
-- How code corresponds to definitions. A Go map is an association list without repeated keys, walked
-- in its order; a loop that writes to the map that it ranges over is a loop over the entries at its
-- start, each round of which reads the value it was given, as the rounds of the source write their
-- own key only. A method with a pointer receiver is a function from state to state, a fallible
-- one gives a Result, and Store.Write drops the state of a callback that fails. A time is a whole
-- number of nanoseconds, 0 for the zero time; a record with an embedded struct has a field for it.
-- Recursion is structural throughout, so no fuel is used. JSON values of client metadata keep what
-- the source decodes from them.
--
-- Parameters: SHA-256 and the signature of the key store (`Crypto`), the outcomes of each
-- randomToken call (`ExchangeDraws`, `RotationDraws`; `none` is its error), and the clock (`now`). A client
-- authentication also takes url.QueryUnescape and the outcome of http.Request.BasicAuth, the
-- authorization endpoint what url.ParseQuery and mime.ParseMediaType return, the identity service the
-- password hash, strings.ToLower, net/mail's address parsing and the attribute validation (`Outside`), and the
-- completion of a delivery what sendLogout returned. A handler that runs several transactions takes the state
-- that each of them finds, since other requests may come between them.
-- strings.EqualFold and strings.TrimSpace are modelled for ASCII.
--
-- Not modelled: what withState fills in when it loads a file of an older version (session identifiers
-- and grant types of tokens), the database stores (SQL and BSON versions of the same transactions), the
-- file's encoding, locking and encryption of secrets, key generation and rotation files, HTTP
-- framing, the management API, HTML pages, configuration and command line, the user interface, the
-- sample relying party, the validation and registration of clients, the logout endpoint, and the sending of
-- logout notices with the ticker that drives it.
pub mod Prelude
pub mod Table
pub mod Clock
pub mod Errors
pub mod Identity
pub mod Oidc
pub mod Tests
