-- ===== src/Identity/Mutations/Clients.antt =====
-- A client that is saved again, or deleted, holds nothing that was granted before.
use opened_connect_server.Prelude.{==_refl, ◌<◌, String, ◌≡◌, refl, none, some, arith}
use opened_connect_server.Clock.{Time}
use opened_connect_server.Table.{Table, remove, get-put, get-remove}
use opened_connect_server.Identity.Grants.{OauthPolicy}
use opened_connect_server.Identity.Metadata.{ClientRecord}
use opened_connect_server.Identity.State.{find_client, delete_registration_token, FileState}
use opened_connect_server.Identity.Endings.{invalidate_client_grants}
use opened_connect_server.Identity.Endings.Withdrawn.{
  ClientWithdrawn, invalidate_client_grants-Withdrawn,
}
use opened_connect_server.Identity.Mutations.{
  next_revision, save_client, delete_client, save_oauth_policy,
}

next_revision-greater :
    (old : ClientRecord) (at : Time) → old.updated_at < next_revision (some old) at
unfolding next_revision
next_revision-greater old at = ground arith

with_clients :
    (id : String) (s : FileState) (m : Table ClientRecord)
    → ClientWithdrawn id s
    → ClientWithdrawn id (record s { clients_map = m })
with_clients id s m w = record {
  revoked = record { tokens = w.revoked.tokens; families = w.revoked.families };
  codes = w.codes;
  transactions = w.transactions;
  consents = w.consents;
}

-- Saving a client that is stored moves its revision strictly forward, whatever the clock says,
-- stores its metadata and secret as given, revokes the client's access tokens and refresh
-- families, and leaves none of its codes, transactions and consents.
pub save_client-Withdrawn :
    (c old : ClientRecord) (now : Time) (s : FileState)
    → find_client s c.id ≡ some old
    → ((stored : ClientRecord) × (find_client (save_client c now s) c.id ≡ some stored)
        × (old.updated_at < stored.updated_at)
        × (stored.metadata ≡ c.metadata)
        × (stored.secret ≡ c.secret))
      × ClientWithdrawn c.id (save_client c now s)
unfolding save_client find_client
save_client-Withdrawn c old now s there = (
  (
    record c { updated_at = next_revision (some old) c.updated_at },
    ground (
      arith,
      there,
      ==_refl c.id,
      get-put (invalidate_client_grants c.id now s).clients_map c.id c.id
          (record c { updated_at = next_revision (some old) c.updated_at }),
    ),
    next_revision-greater old c.updated_at,
    refl,
    refl,
  ),
  rw (there, save_client) (with_clients c.id _ _ (invalidate_client_grants-Withdrawn c.id now s)),
)

-- A client that is deleted is not found, its access tokens and refresh families are revoked, and none
-- of its codes, transactions and consents is left.
pub delete_client-Withdrawn :
    (id : String) (now : Time) (s : FileState)
    → (find_client (delete_client id now s) id ≡ none) × ClientWithdrawn id (delete_client id now s)
unfolding delete_client find_client
delete_client-Withdrawn id now s =
    let t =
      invalidate_client_grants id now
        (delete_registration_token (record s { oauth_policies = remove s.oauth_policies id }) id) in
    (
      ground (arith, ==_refl id, get-remove t.clients_map id id),
      with_clients id t _ (invalidate_client_grants-Withdrawn id now _),
    )

-- A change of a client's policy revokes its access tokens and refresh families, and leaves none of its
-- codes, transactions and consents.
pub save_oauth_policy-Withdrawn :
    (id : String) (p : OauthPolicy) (now : Time) (s : FileState)
    → ClientWithdrawn id (save_oauth_policy id p now s)
unfolding save_oauth_policy
save_oauth_policy-Withdrawn id p now s = invalidate_client_grants-Withdrawn id now _
