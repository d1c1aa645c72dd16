-- ===== src/Identity/Endings/Withdrawn.antt =====
-- After a security change of a user or a client, nothing granted before it stays good.
use opened_connect_server.Prelude.{
  ◌==◌, ◌!=◌, Option-cases, String, ◌≡◌, refl, inl, inr, Bool, true, not, some, arith,
}
use opened_connect_server.Clock.{Time}
use opened_connect_server.Table.{Table, get, map_values, get-map_values, get-keep_passes}
use opened_connect_server.Identity.Grants.{
  AuthzTransaction, AuthorizationCode, AccessToken, Consent, RefreshFamily,
}
use opened_connect_server.Identity.State.{FileState}
use opened_connect_server.Identity.Revocation.Tokens.{IgnoresMark, mark_tokens-keeps}
use opened_connect_server.Identity.Revocation.Holders.{
  user_token, user_family, client_token, client_family, revoke_access_tokens_for_user-Revoked,
  revoke_access_tokens_for_client-Revoked, Revoked,
}
use opened_connect_server.Identity.Endings.{
  revoke_codes_where, revoke_transactions_where, end_apps_where, delete_user_sessions,
  invalidate_client_grants,
}
use opened_connect_server.Identity.Endings.Steady.{end_sessions_where-steady, IsSteady}

-- every value passes the test
abbrev pub Every {ℓ} : {V : Type ℓ} → (V → Bool) → Table V → Type ℓ
Every {V = V} p m = (k : String) (v : V) → get m k ≡ some v → p v ≡ true

-- The tokens and families of the holder are revoked, and no code, transaction or consent of theirs is
-- left.
pub record Withdrawn (token : AccessToken → Bool) (family : RefreshFamily → Bool)
    (code : AuthorizationCode → Bool) (transaction : AuthzTransaction → Bool)
    (consent : Consent → Bool) (s : FileState) : Type 0 where
  pub revoked : Revoked token family s
  pub codes : Every (λ c. not (code c)) s.authorization_codes
  pub transactions : Every (λ x. not (transaction x)) s.authz_transactions
  pub consents : Every (λ c. not (consent c)) s.consents

abbrev pub ClientWithdrawn : String → FileState → Type 0
ClientWithdrawn id =
    Withdrawn (client_token id) (client_family id) (λ c. c.client_id == id) (λ x. x.client_id == id)
      (λ c. c.client_id == id)

abbrev pub UserWithdrawn : String → FileState → Type 0
UserWithdrawn id =
    Withdrawn (user_token id) (user_family id) (λ c. c.user_id == id) (λ x. x.user_id == id)
      (λ c. c.user_id == id)

Every-map_values {ℓ} :
    {V : Type ℓ} (p : V → Bool) (f : V → V) (m : Table V)
    → ((v : V) → p (f v) ≡ p v)
    → Every p m
    → Every p (map_values f m)
Every-map_values p f m same h k v there = elim (Option-cases (get m k)) [
  | inl gone ↦ ground (arith, get-map_values f m k, gone)
  | inr (w, found) ↦ ground (arith, get-map_values f m k, found, same w, h k w found)
]

Withdrawn-steady :
    (token : AccessToken → Bool) (family : RefreshFamily → Bool) (code : AuthorizationCode → Bool)
    (transaction : AuthzTransaction → Bool) (consent : Consent → Bool)
    → IgnoresMark token
    → ((c : AuthorizationCode) → code (record c { revoked = true }) ≡ code c)
    → ((x : AuthzTransaction) → transaction (record x { revoked = true }) ≡ transaction x)
    → IsSteady (Withdrawn token family code transaction consent)
unfolding revoke_codes_where revoke_transactions_where
Withdrawn-steady token family code transaction consent it ic ix = record {
  sessions = λ s m w. record {
    revoked = record { tokens = w.revoked.tokens; families = w.revoked.families };
    codes = w.codes;
    transactions = w.transactions;
    consents = w.consents;
  };
  app = record {
    apps = λ s m w. record {
      revoked = record { tokens = w.revoked.tokens; families = w.revoked.families };
      codes = w.codes;
      transactions = w.transactions;
      consents = w.consents;
    };
    deliveries = λ s m w. record {
      revoked = record { tokens = w.revoked.tokens; families = w.revoked.families };
      codes = w.codes;
      transactions = w.transactions;
      consents = w.consents;
    };
    tokens = λ s hit w. record {
      revoked = record {
        tokens = mark_tokens-keeps hit s.access_tokens token it w.revoked.tokens;
        families = w.revoked.families;
      };
      codes = w.codes;
      transactions = w.transactions;
      consents = w.consents;
    };
    codes = λ s hit w. record {
      revoked = record { tokens = w.revoked.tokens; families = w.revoked.families };
      codes = Every-map_values _ _ s.authorization_codes (λ c. ground (arith, ic c)) w.codes;
      transactions = w.transactions;
      consents = w.consents;
    };
    transactions = λ s hit w. record {
      revoked = record { tokens = w.revoked.tokens; families = w.revoked.families };
      codes = w.codes;
      transactions =
          Every-map_values _ _ s.authz_transactions (λ x. ground (arith, ix x)) w.transactions;
      consents = w.consents;
    };
  };
}

pub invalidate_client_grants-Withdrawn :
    (id : String) (now : Time) (s : FileState)
    → ClientWithdrawn id (invalidate_client_grants id now s)
unfolding invalidate_client_grants
invalidate_client_grants-Withdrawn id now s =
    let r =
      revoke_access_tokens_for_client-Revoked id
        (end_apps_where (λ a. a.client_id == id) "security" "client_changed" now s) in
    record {
      revoked = record { tokens = r.tokens; families = r.families };
      codes = get-keep_passes (λ c. c.client_id != id) _;
      transactions = get-keep_passes (λ x. x.client_id != id) _;
      consents = get-keep_passes (λ c. c.client_id != id) _;
    }

-- After the sessions of a user are deleted, the access tokens and refresh families of the user are
-- revoked, and no authorization code, transaction or consent of the user is left.
pub delete_user_sessions-Withdrawn :
    (id : String) (now : Time) (s : FileState) → UserWithdrawn id (delete_user_sessions id now s)
unfolding delete_user_sessions
delete_user_sessions-Withdrawn id now s =
    let r = revoke_access_tokens_for_user-Revoked id s in
    end_sessions_where-steady (UserWithdrawn id)
      (Withdrawn-steady (user_token id) (user_family id) (λ c. c.user_id == id)
        (λ x. x.user_id == id) (λ c. c.user_id == id) (λ t. refl) (λ c. refl) (λ x. refl))
      (λ v. v.user_id == id) "security" "account_security_change" now _
      (record {
        revoked = record { tokens = r.tokens; families = r.families };
        codes = get-keep_passes (λ c. c.user_id != id) _;
        transactions = get-keep_passes (λ x. x.user_id != id) _;
        consents = get-keep_passes (λ c. c.user_id != id) _;
      })
