-- ===== src/Table/Laws.antt =====
-- What a look-up finds after each operation of a map.
use mathlib.Core.Option
use opened_connect_server.Prelude.{
  if◌then◌else◌, ◌==◌, ==_iff, Bool-cases, All, String, ◌≡◌, refl, subst, inl, inr, Bool, true,
  none, some, [], ◌∷◌, arith,
}
use opened_connect_server.Table.Defs.{Table, get, put, remove, map_values, keep, values}

module _ {ℓ} {V : Type ℓ} where
  pub get-put :
      (m : Table V) (k j : String) (v : V)
      → get (put m k v) j ≡ (if k == j then some v else get m j)
  unfolding get put
  get-put [] k j v = refl
  get-put ((i, w) ∷ m) k j v = ground (arith, get-put m k j v, ==_iff i k, ==_iff i j, ==_iff k j)

  pub get-remove :
      (m : Table V) (k j : String) → get (remove m k) j ≡ (if k == j then none else get m j)
  unfolding get remove
  get-remove [] k j = ground arith
  get-remove ((i, w) ∷ m) k j = ground (arith, get-remove m k j, ==_iff i k, ==_iff i j, ==_iff k j)

  pub get-map_values :
      (f : V → V) (m : Table V) (j : String) → get (map_values f m) j ≡ Option.map f (get m j)
  unfolding get map_values
  get-map_values f [] j = refl
  get-map_values f ((i, w) ∷ m) j = ground (arith, get-map_values f m j)

  -- what `keep` leaves passes the test
  pub get-keep_passes :
      (p : V → Bool) (m : Table V) (j : String) (v : V) → get (keep p m) j ≡ some v → p v ≡ true
  unfolding get keep
  get-keep_passes p [] j v h = ground arith
  get-keep_passes p ((i, w) ∷ m) j v h = ground (arith, get-keep_passes p m j v)

  -- what a look-up finds is one of the values
  pub All-values {κ} :
      (P : V → Type κ) (m : Table V) (j : String) (v : V)
      → All P (values m)
      → get m j ≡ some v
      → P v
  unfolding get values
  All-values P [] j v a h = ground arith
  All-values P ((i, w) ∷ m) j v a h = elim (Bool-cases (i == j)) [
    | inl hit ↦ let e : w ≡ v = ground arith in subst P e a.0
    | inr miss ↦ All-values P m j v a.1 (rw miss at h)
  ]
