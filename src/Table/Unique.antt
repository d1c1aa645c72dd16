-- ===== src/Table/Unique.antt =====
-- Keys occur once. Every map that is built by these operations has this property.
use opened_connect_server.Prelude.{
  if◌then◌else◌, ==_iff, ==_refl, All, String, ◌≡◌, refl, Bool, Option, none, some, [], ◌∷◌, arith,
}
use opened_connect_server.Table.Defs.{Table, get, put, remove, map_values, keep, values}
use opened_connect_server.Table.Laws.{get-put, get-remove, get-map_values}

abbrev pub HasUniqueKeys {ℓ} : {V : Type ℓ} → Table V → Type ℓ
HasUniqueKeys [] = Unit
HasUniqueKeys ((k, v) ∷ m) = (get m k ≡ none) × HasUniqueKeys m

-- the value found, if it passes the test
abbrev pub retain {ℓ} : {V : Type ℓ} → (V → Bool) → Option V → Option V
retain p none = none
retain p (some v) = if p v then some v else none

module _ {ℓ} {V : Type ℓ} where
  pub put-HasUniqueKeys :
      (m : Table V) (k : String) (v : V) → HasUniqueKeys m → HasUniqueKeys (put m k v)
  unfolding put get
  put-HasUniqueKeys [] k v u = (refl, tt)
  put-HasUniqueKeys ((j, w) ∷ m) k v u =
      ground (arith, put-HasUniqueKeys m k v u.1, get-put m k j v, ==_iff j k, ==_iff k j)

  pub map_values-HasUniqueKeys :
      (f : V → V) (m : Table V) → HasUniqueKeys m → HasUniqueKeys (map_values f m)
  unfolding map_values
  map_values-HasUniqueKeys f [] u = tt
  map_values-HasUniqueKeys f ((j, w) ∷ m) u =
      ground (arith, map_values-HasUniqueKeys f m u.1, get-map_values f m j)

  pub remove-HasUniqueKeys :
      (m : Table V) (k : String) → HasUniqueKeys m → HasUniqueKeys (remove m k)
  unfolding remove
  remove-HasUniqueKeys [] k u = tt
  remove-HasUniqueKeys ((j, w) ∷ m) k u =
      ground (arith, remove-HasUniqueKeys m k u.1, get-remove m k j)

  pub get-keep-none :
      (p : V → Bool) (m : Table V) (j : String) → get m j ≡ none → get (keep p m) j ≡ none
  unfolding get keep
  get-keep-none p [] j h = refl
  get-keep-none p ((i, w) ∷ m) j h = ground (arith, get-keep-none p m j)

  pub keep-HasUniqueKeys : (p : V → Bool) (m : Table V) → HasUniqueKeys m → HasUniqueKeys (keep p m)
  unfolding keep
  keep-HasUniqueKeys p [] u = tt
  keep-HasUniqueKeys p ((j, w) ∷ m) u =
      ground (arith, keep-HasUniqueKeys p m u.1, get-keep-none p m j)

  -- with unique keys a deletion loop keeps exactly what passes
  pub get-keep :
      (p : V → Bool) (m : Table V) (j : String)
      → HasUniqueKeys m
      → get (keep p m) j ≡ retain p (get m j)
  unfolding get keep
  get-keep p [] j u = refl
  get-keep p ((i, w) ∷ m) j u = ground (arith, get-keep p m j u.1, get-keep-none p m i, ==_iff i j)

  -- with unique keys each value is found under its key
  pub All-entries {κ} :
      (P : V → Type κ) (m : Table V)
      → HasUniqueKeys m
      → ((k : String) (v : V) → get m k ≡ some v → P v)
      → All P (values m)
  unfolding get values
  All-entries P [] u h = tt
  All-entries P ((k, v) ∷ m) u h =
      (h k v (rw (==_refl k)), All-entries P m u.1 λ j w e. h j w (at_other j w e))
    where
      at_other : (j : String) (w : V) → get m j ≡ some w → get ((k, v) ∷ m) j ≡ some w
      at_other j w e = ground (arith, e, ==_iff k j, u.0)

  -- the same, with the keys
  pub All-keys {κ} :
      (P : String × V → Type κ) (m : Table V)
      → HasUniqueKeys m
      → ((k : String) (v : V) → get m k ≡ some v → P (k, v))
      → All P m
  unfolding get
  All-keys P [] u h = tt
  All-keys P ((k, v) ∷ m) u h =
      (h k v (rw (==_refl k)), All-keys P m u.1 λ j w e. h j w (at_other j w e))
    where
      at_other : (j : String) (w : V) → get m j ≡ some w → get ((k, v) ∷ m) j ≡ some w
      at_other j w e = ground (arith, e, ==_iff k j, u.0)
