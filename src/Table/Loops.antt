-- ===== src/Table/Loops.antt =====
-- Loops over the entries of a map that also write elsewhere.
use opened_connect_server.Prelude.{
  if◌then◌else◌, ◌==◌, ==_iff, Bool-cases, any, for_each, for_each_inv, String, ◌≡◌, refl, inl, inr,
  Bool, true, ◌&&◌, Option, none, some, List, [], ◌∷◌, arith,
}
use opened_connect_server.Table.Defs.{Table, get, values}
use opened_connect_server.Table.Unique.{HasUniqueKeys}

module _ {ℓ κ} {V : Type ℓ} {S : Type κ} (view : S → Table V) (test : V → Bool) (f : V → V) where
  -- the entry after a loop that rewrites those which pass the test
  abbrev pub patch : Option V → Option V → Option V
  patch none old = old
  patch (some v) old = if test v then some (f v) else old

  -- A loop over the entries, each round of which rewrites its own entry and no other.
  pub get-for_each :
      (body : String × V → S → S)
      → ((k : String) (v : V) (s : S) (j : String)
          → get (view (body (k, v) s)) j
            ≡ (if test v && k == j then some (f v) else get (view s) j))
      → (m : Table V) (s : S) (j : String) → HasUniqueKeys m
      → get (view (for_each m body s)) j ≡ patch (get m j) (get (view s) j)
  unfolding get for_each
  get-for_each body step [] s j u = refl
  get-for_each body step ((k, v) ∷ m) s j u =
      ground (arith, get-for_each body step m (body (k, v) s) j u.1, step k v s j, ==_iff k j, u.0)

module _ {ℓ κ μ ν} {A : Type ℓ} {S : Type κ} (body : A → S → S) (test : A → Bool) (I : S → Type μ)
    (Q : S → Type ν) where
  -- What one round achieves and the others keep holds after the loop.
  pub for_each_reaches :
      ((x : A) (s : S) → I s → I (body x s))
      → ((x : A) (s : S) → I s → Q s → Q (body x s))
      → ((x : A) (s : S) → I s → test x ≡ true → Q (body x s))
      → (xs : List A) (s : S) → I s
      → any test xs ≡ true
      → Q (for_each xs body s)
  unfolding for_each any
  for_each_reaches keep_i keep_q achieve [] s i h = cc
  for_each_reaches keep_i keep_q achieve (x ∷ xs) s i h = elim (Bool-cases (test x)) [
    | inl hit ↦ held xs (body x s) (keep_i x s i) (achieve x s i hit)
    | inr miss ↦ for_each_reaches keep_i keep_q achieve xs (body x s) (keep_i x s i) (rw miss at h)
  ]
    where
      held : (ys : List A) (t : S) → I t → Q t → Q (for_each ys body t)
      held ys t j q =
          (for_each_inv (λ u. I u × Q u) body (λ y u g. (keep_i y u g.0, keep_q y u g.0 g.1)) ys t
            (j, q)).1

-- A value that a look-up finds is met by a loop over the values.
pub any-values {ℓ} :
    {V : Type ℓ} (test : V → Bool) (m : Table V) (k : String) (v : V)
    → get m k ≡ some v
    → test v ≡ true
    → any test (values m) ≡ true
unfolding any values get
any-values test [] k v e h = cc
any-values test ((j, w) ∷ m) k v e h = ground (arith, any-values test m k v, ==_iff j k)

-- An entry that a look-up finds is met by a loop over the entries.
pub any-entry {ℓ} :
    {V : Type ℓ} (test : String × V → Bool) (m : Table V) (k : String) (v : V)
    → get m k ≡ some v
    → test (k, v) ≡ true
    → any test m ≡ true
unfolding any get
any-entry test [] k v e h = cc
any-entry test ((j, w) ∷ m) k v e h = ground (arith, any-entry test m k v, ==_iff j k)
