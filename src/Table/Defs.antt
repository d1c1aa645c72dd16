-- ===== src/Table/Defs.antt =====
-- The operations of a map with text keys.
use opened_connect_server.Prelude.{
  if◌then◌else◌, ◌==◌, length, ℕ, String, Bool, Option, none, some, List, [], ◌∷◌,
}

abbrev pub Table {ℓ} : Type ℓ → Type ℓ
Table V = List (String × V)

module _ {ℓ} {V : Type ℓ} where
  -- v, ok := m[k]
  unfoldable pub get : Table V → String → Option V
  get [] k = none
  get ((j, v) ∷ m) k = if j == k then some v else get m k

  -- m[k] = v
  unfoldable pub put : Table V → String → V → Table V
  put [] k v = (k, v) ∷ []
  put ((j, w) ∷ m) k v = if j == k then (k, v) ∷ m else (j, w) ∷ put m k v

  -- delete(m, k)
  unfoldable pub remove : Table V → String → Table V
  remove [] k = []
  remove ((j, v) ∷ m) k = let rest = remove m k in if j == k then rest else (j, v) ∷ rest

  -- `for k, v := range m { m[k] = f(v) }`
  unfoldable pub map_values : (V → V) → Table V → Table V
  map_values f [] = []
  map_values f ((j, v) ∷ m) = (j, f v) ∷ map_values f m

  -- `for k, v := range m { if !p(v) { delete(m, k) } }`
  unfoldable pub keep : (V → Bool) → Table V → Table V
  keep p [] = []
  keep p ((j, v) ∷ m) = let rest = keep p m in if p v then (j, v) ∷ rest else rest

  -- the values, in the order of a `range` loop
  unfoldable pub values : Table V → List V
  values [] = []
  values ((j, v) ∷ m) = v ∷ values m

  -- len(m)
  abbrev pub size : Table V → ℕ
  size m = length m

  -- the value under a key, or Go's zero value
  abbrev pub get_or : Table V → String → V → V
  get_or m k zero_value = elim (get m k) [ none ↦ zero_value | some v ↦ v ]
