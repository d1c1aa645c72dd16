-- ===== src/Table/Keyed.antt =====
-- Maps whose keys occur once and are a field of the value: every map of the store is one.
use opened_connect_server.Prelude.{
  ==_iff, Option-cases, String, ◌≡◌, refl, inl, inr, Bool, some, [], ◌∷◌, arith,
}
use opened_connect_server.Table.Defs.{Table, get, put, remove, map_values, keep}
use opened_connect_server.Table.Laws.{get-put, get-remove, get-map_values}
use opened_connect_server.Table.Unique.{
  HasUniqueKeys, put-HasUniqueKeys, map_values-HasUniqueKeys, remove-HasUniqueKeys,
  keep-HasUniqueKeys, get-keep,
}

pub record IsKeyed {ℓ} {V : Type ℓ} (key : V → String) (m : Table V) : Type ℓ where
  pub unique : HasUniqueKeys m
  pub keyed : (k : String) (v : V) → get m k ≡ some v → key v ≡ k

module _ {ℓ} {V : Type ℓ} {key : V → String} (m : Table V) (w : IsKeyed key m) where
  pub put-IsKeyed : (k : String) (v : V) → key v ≡ k → IsKeyed key (put m k v)
  put-IsKeyed k v e = record {
    unique = put-HasUniqueKeys m k v w.unique;
    keyed = λ j x there. ground (arith, get-put m k j v, w.keyed j x, ==_iff k j);
  }

  pub map_values-IsKeyed :
      (f : V → V) → ((v : V) → key (f v) ≡ key v) → IsKeyed key (map_values f m)
  map_values-IsKeyed f same = record {
    unique = map_values-HasUniqueKeys f m w.unique;
    keyed = λ j x there. elim (Option-cases (get m j)) [
      | inl gone ↦ ground (arith, get-map_values f m j, gone)
      | inr (v, found) ↦ ground (arith, get-map_values f m j, found, same v, w.keyed j v found)
    ];
  }

  pub keep-IsKeyed : (p : V → Bool) → IsKeyed key (keep p m)
  keep-IsKeyed p = record {
    unique = keep-HasUniqueKeys p m w.unique;
    keyed = λ j x there. elim (Option-cases (get m j)) [
      | inl gone ↦ ground (arith, get-keep p m j w.unique, gone)
      | inr (v, found) ↦ ground (arith, get-keep p m j w.unique, found, w.keyed j v found)
    ];
  }

  pub remove-IsKeyed : (k : String) → IsKeyed key (remove m k)
  remove-IsKeyed k = record {
    unique = remove-HasUniqueKeys m k w.unique;
    keyed = λ j x there. ground (arith, get-remove m k j, w.keyed j x);
  }

  -- what a deletion loop leaves was there
  pub get-keep_was :
      (p : V → Bool) (j : String) (v : V) → get (keep p m) j ≡ some v → get m j ≡ some v
  get-keep_was p j v there = elim (Option-cases (get m j)) [
    | inl gone ↦ ground (arith, get-keep p m j w.unique, gone)
    | inr (x, found) ↦ ground (arith, get-keep p m j w.unique, found)
  ]

pub IsKeyed-empty {ℓ} : {V : Type ℓ} (key : V → String) → IsKeyed key []
unfolding get
IsKeyed-empty key = record { unique = tt; keyed = λ k v h. cc }

-- the map with one value
pub IsKeyed-one {ℓ} : {V : Type ℓ} (key : V → String) (v : V) → IsKeyed key ((key v, v) ∷ [])
unfolding get
IsKeyed-one key v = record {
  unique = (refl, tt);
  keyed = λ j x h. ground (arith, h, ==_iff (key v) j);
}
