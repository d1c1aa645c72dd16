-- ===== src/Identity/Endings/Ended.antt =====
-- The end of a session: nothing that hangs on it stays live.
use opened_connect_server.Prelude.{
  if◌then◌else◌, ◌==◌, Bool-cases, Option-cases, if_false, String, ◌≡◌, refl, sym, ap, ◌∙◌, subst,
  inl, inr, Bool, true, false, not, ◌&&◌, ◌||◌, some, arith,
}
use opened_connect_server.Clock.{Time}
use opened_connect_server.Table.{
  Table, get, put, map_values, get-put, get-map_values, for_each_reaches, any-entry, IsKeyed,
}
use opened_connect_server.Identity.Records.{Session}
use opened_connect_server.Identity.State.{save_logout_delivery, FileState}
use opened_connect_server.Identity.Endings.{
  revoke_codes_where, revoke_transactions_where, end_apps_where, close_session, is_live,
  local_delivery, end_one_session, end_session,
}
use opened_connect_server.Identity.Endings.Steady.{
  end_apps_where-steady, end_one_session-steady, IsSteady,
}
use opened_connect_server.Identity.Endings.Withdrawn.{Every}
use opened_connect_server.Identity.Endings.Apps.{app_is_live, KeyedApps, end_apps_where-KeyedApps}

-- the codes and transactions of the session are revoked
pub record GrantsRevoked (id : String) (s : FileState) : Type 0 where
  pub codes : Every (λ c. not (c.op_session_id == id) || c.revoked) s.authorization_codes
  pub transactions : Every (λ t. not (t.op_session_id == id) || t.revoked) s.authz_transactions

module _ {ℓ} {V : Type ℓ} (p hit : V → Bool) (mark : V → V) (m : Table V) where
  marked-Every :
      ((v : V) → p v ≡ true → p (mark v) ≡ true)
      → Every p m
      → Every p (map_values (λ v. if hit v then mark v else v) m)
  marked-Every keeps h k v there = elim (Option-cases (get m k)) [
    | inl gone ↦ ground (arith, get-map_values (λ v. if hit v then mark v else v) m k, gone)
    | inr (w, found) ↦
        ground (
          arith,
          get-map_values (λ v. if hit v then mark v else v) m k,
          found,
          keeps w,
          h k w found,
        )
  ]

  marked-all :
      ((v : V) → hit v ≡ true → p (mark v) ≡ true)
      → ((v : V) → hit v ≡ false → p v ≡ true)
      → Every p (map_values (λ v. if hit v then mark v else v) m)
  marked-all does passes k v there = elim (Option-cases (get m k)) [
    | inl gone ↦ ground (arith, get-map_values (λ v. if hit v then mark v else v) m k, gone)
    | inr (w, found) ↦
        ground
          (arith, get-map_values (λ v. if hit v then mark v else v) m k, found, does w, passes w)
  ]

GrantsRevoked-steady : (id : String) → IsSteady (GrantsRevoked id)
unfolding revoke_codes_where revoke_transactions_where
GrantsRevoked-steady id = record {
  sessions = λ s m g. record { codes = g.codes; transactions = g.transactions };
  app = record {
    apps = λ s m g. record { codes = g.codes; transactions = g.transactions };
    deliveries = λ s m g. record { codes = g.codes; transactions = g.transactions };
    tokens = λ s hit g. record { codes = g.codes; transactions = g.transactions };
    codes = λ s hit g. record {
      codes = marked-Every _ hit _ s.authorization_codes (λ c h. ground (arith, h)) g.codes;
      transactions = g.transactions;
    };
    transactions = λ s hit g. record {
      codes = g.codes;
      transactions =
          marked-Every _ hit _ s.authz_transactions (λ t h. ground (arith, h)) g.transactions;
    };
  };
}

module _ (id actor reason : String) (now : Time) where
  end_one_session-GrantsRevoked :
      (e : String × Session) (s : FileState)
      → is_live id e.1 ≡ true
      → GrantsRevoked id (end_one_session id actor reason now e s)
  unfolding end_one_session revoke_codes_where revoke_transactions_where
  end_one_session-GrantsRevoked (hash, v) s live =
      rw (live, end_one_session)
        (record {
          codes =
              marked-all _ (λ c. c.op_session_id == id) _ _ (λ c h. ground arith)
                (λ c h. ground (arith, h));
          transactions =
              marked-all _ (λ t. t.op_session_id == id) _ _ (λ t h. ground arith)
                (λ t h. ground (arith, h));
        })

  pub end_session-GrantsRevoked :
      (s : FileState) (hash : String) (v : Session)
      → get s.sessions hash ≡ some v
      → is_live id v ≡ true
      → GrantsRevoked id (end_session id actor reason now s)
  unfolding end_session
  end_session-GrantsRevoked s hash v there live =
      for_each_reaches (end_one_session id actor reason now) (λ e. is_live id e.1) (λ t. Unit {0})
        (GrantsRevoked id) (λ e t u. tt)
        (λ e t u g.
          end_one_session-steady (GrantsRevoked id) (GrantsRevoked-steady id) id actor reason now e
            t g)
        (λ e t u h. end_one_session-GrantsRevoked e t h) s.sessions s tt
        (any-entry (λ e. is_live id e.1) s.sessions hash v there live)

-- Nothing of the provider session is live: no entry of it, no app session, no code, no transaction.
pub record SessionEnded (id : String) (s : FileState) : Type 0 where
  pub sessions : Every (λ v. not (is_live id v)) s.sessions
  pub apps : Every (λ a. not (app_is_live id a)) s.app_sessions
  pub grants : GrantsRevoked id s

module _ (id actor reason : String) (now : Time) where
  abbrev pub before_grants : String → Session → FileState → FileState
  before_grants hash v s =
      save_logout_delivery
        (record s { sessions = put s.sessions hash (close_session reason now v) })
        (local_delivery id v actor reason now)

  pub app_sessions-end_one_session :
      (hash : String) (v : Session) (s : FileState)
      → is_live id v ≡ true
      → (end_one_session id actor reason now (hash, v) s).app_sessions
        ≡ (end_apps_where
            (λ a. a.op_session_id == id)
            actor
            reason
            now
            (before_grants hash v s)).app_sessions
  unfolding end_one_session revoke_codes_where revoke_transactions_where
  app_sessions-end_one_session hash v s live = rw (live, end_one_session) refl

  pub end_one_session-miss :
      (e : String × Session) (s : FileState)
      → is_live id e.1 ≡ false
      → end_one_session id actor reason now e s ≡ s
  unfolding end_one_session
  end_one_session-miss (hash, v) s miss = rw (miss, end_one_session) refl

  pub end_one_session-KeyedApps :
      (e : String × Session) (s : FileState)
      → KeyedApps s
      → KeyedApps (end_one_session id actor reason now e s)
  unfolding save_logout_delivery
  end_one_session-KeyedApps (hash, v) s w = elim (Bool-cases (is_live id v)) [
    | inl live ↦ subst (IsKeyed (λ a. a.id)) (sym (app_sessions-end_one_session hash v s live)) (
        end_apps_where-KeyedApps (λ a. a.op_session_id == id) actor reason now
          (before_grants hash v s) w)
    | inr miss ↦ subst KeyedApps (sym (end_one_session-miss (hash, v) s miss)) w
  ]

  pub sessions-end_one_session :
      (hash : String) (v : Session) (s : FileState) (j : String)
      → get (end_one_session id actor reason now (hash, v) s).sessions j ≡ (
          if is_live id v && hash == j then some (close_session reason now v) else get s.sessions j)
  unfolding end_one_session revoke_codes_where revoke_transactions_where save_logout_delivery
  sessions-end_one_session hash v s j = elim (Bool-cases (is_live id v)) [
    | inr miss ↦
        ap (λ (t : FileState). get t.sessions j) (end_one_session-miss (hash, v) s miss)
        ∙ sym (if_false (is_live id v && hash == j) _ _ (ground (arith, miss)))
    | inl live ↦
        let m = put s.sessions hash (close_session reason now v) in
        let same : (end_one_session id actor reason now (hash, v) s).sessions ≡ m =
          rw (live, end_one_session)
            (end_apps_where-steady (λ t. t.sessions ≡ m)
              (record {
                apps = λ t n e. e;
                deliveries = λ t n e. e;
                tokens = λ t hit e. e;
                codes = λ t hit e. e;
                transactions = λ t hit e. e;
              })
              (λ a. a.op_session_id == id) actor reason now (before_grants hash v s) refl) in
        ap (λ n. get n j) same
        ∙ ground (arith, live, get-put s.sessions hash j (close_session reason now v))
  ]
