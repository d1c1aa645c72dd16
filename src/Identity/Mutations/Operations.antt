-- ===== src/Identity/Mutations/Operations.antt =====
-- The history of logout operations is bounded.
use opened_connect_server.Prelude.{
  leb, if◌then◌else◌, ◌==◌, ◌!=◌, ==_refl, Bool-cases, if_true, if_false, ◌+◌, ◌≤◌, String, ◌≡◌,
  refl, sym, ◌∙◌, subst, ◌⊎◌, inl, inr, not, ◌&&◌, some, [], ◌∷◌, arith,
}
use opened_connect_server.Table.{Table, get, put, remove, size}
use opened_connect_server.Clock.{Time, before}
use opened_connect_server.Identity.Records.{LogoutOperation}
use opened_connect_server.Identity.Mutations.{oldest_from, max_operations, save_logout_operation}
use opened_connect_server.Identity.State.{FileState}

module _ {ℓ} {V : Type ℓ} where
  size-put : (m : Table V) (k : String) (v : V) → size (put m k v) ≤ size m + 1
  unfolding put
  size-put [] k v = ground arith
  size-put ((j, w) ∷ m) k v = ground (arith, size-put m k v)

  size-remove_le : (m : Table V) (k : String) → size (remove m k) ≤ size m
  unfolding remove
  size-remove_le [] k = ground arith
  size-remove_le ((j, w) ∷ m) k = ground (arith, size-remove_le m k)

  -- what is removed was counted
  size-remove :
      (m : Table V) (k : String) (v : V) → get m k ≡ some v → size (remove m k) + 1 ≤ size m
  unfolding remove get
  size-remove [] k v h = cc
  size-remove ((j, w) ∷ m) k v h = ground (arith, size-remove m k v, size-remove_le m k, h)

abbrev Held : Table LogoutOperation → String → Type 0
Held m r = (op : LogoutOperation) × (get m r ≡ some op)

module _ (id : String) (op : LogoutOperation) (m : Table LogoutOperation) where
  Held-later : (r : String) → Held m r → Held ((id, op) ∷ m) r
  unfolding get
  Held-later r (v, h) = elim (Bool-cases (id == r)) [
    | inl here ↦ (op, if_true (id == r) _ _ here)
    | inr far ↦ (v, if_false (id == r) _ _ far ∙ h)
  ]

  Held-first : Held ((id, op) ∷ m) id
  unfolding get
  Held-first = (op, if_true (id == id) _ _ (==_refl id))

-- the loop ends on the key that it started with, or on one of the map
oldest_from-Held :
    (oldest : String) (stamp : Time) (m : Table LogoutOperation)
    → (oldest_from oldest stamp m ≡ oldest) ⊎ Held m (oldest_from oldest stamp m)
unfolding oldest_from
oldest_from-Held oldest stamp [] = inl refl
oldest_from-Held oldest stamp ((id, op) ∷ m) =
    elim (Bool-cases (oldest != "" && not (before op.created_at stamp))) [
      | inl newer ↦
          subst
            (λ b.
              (oldest_from (if b then oldest else id) (if b then stamp else op.created_at) m
                ≡ oldest)
              ⊎ Held ((id, op) ∷ m)
                  (oldest_from (if b then oldest else id) (if b then stamp else op.created_at) m))
            (sym newer)
            (elim (oldest_from-Held oldest stamp m) [
              | inl same ↦ inl same
              | inr held ↦ inr (Held-later id op m _ held)
            ])
      | inr older ↦
          subst
            (λ b.
              (oldest_from (if b then oldest else id) (if b then stamp else op.created_at) m
                ≡ oldest)
              ⊎ Held ((id, op) ∷ m)
                  (oldest_from (if b then oldest else id) (if b then stamp else op.created_at) m))
            (sym older)
            (elim (oldest_from-Held id op.created_at m) [
              | inl same ↦ inr (subst (Held ((id, op) ∷ m)) (sym same) (Held-first id op m))
              | inr held ↦ inr (Held-later id op m _ held)
            ])
    ]

-- in a map with an entry, the loop finds the key of one
oldest-Held : (m : Table LogoutOperation) → 1 ≤ size m → Held m (oldest_from "" 0 m)
unfolding oldest_from ◌==◌
oldest-Held [] h = absurd (omega arith)
oldest-Held ((id, op) ∷ m) h = elim (oldest_from-Held id op.created_at m) [
  | inl same ↦ subst (Held ((id, op) ∷ m)) (sym same) (Held-first id op m)
  | inr held ↦ Held-later id op m _ held
]

-- Saving a logout operation keeps the history bounded: where it had at most 10000 operations, it has at
-- most 10000 afterwards.
pub save_logout_operation-bound :
    (v : LogoutOperation) (s : FileState)
    → size s.logout_operations ≤ max_operations
    → size (save_logout_operation v s).logout_operations ≤ max_operations
unfolding save_logout_operation
save_logout_operation-bound v s low =
    let m = s.logout_operations in
    elim (Bool-cases (leb max_operations (size m))) [
      | inr room ↦
          let same =
            if_false (leb max_operations (size m)) (remove m (oldest_from "" 0 m)) m room in
          subst (λ n. size (put n v.id v) ≤ max_operations) (sym same)
            (ground (arith, size-put m v.id v, room))
      | inl full ↦
          let same = if_true (leb max_operations (size m)) (remove m (oldest_from "" 0 m)) m full in
          let (op, held) = oldest-Held m (ground (arith, full)) in
          subst (λ n. size (put n v.id v) ≤ max_operations) (sym same)
            (ground (
              arith,
              low,
              size-remove m (oldest_from "" 0 m) op held,
              size-put (remove m (oldest_from "" 0 m)) v.id v,
            ))
    ]
