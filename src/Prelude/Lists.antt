-- ===== src/Prelude/Lists.antt =====
-- Lists over the native numbers, membership tests, and loops over a list.
use Prim.Native.Nat.{ℕ, zero, suc}
use Prim.Native.String.{String}
use mathlib.Core.Path.{◌≡◌, refl}
use mathlib.Core.Bool.{Bool, true, false, ◌&&◌, ◌||◌}
use mathlib.Core.List.{List, [], ◌∷◌}
use opened_connect_server.Prelude.Tests.{◌==◌}

module _ {ℓ} {A : Type ℓ} where
  abbrev pub length : List A → ℕ
  length [] = 0
  length (x ∷ xs) = suc (length xs)

  abbrev pub take : ℕ → List A → List A
  take zero xs = []
  take (suc n) [] = []
  take (suc n) (x ∷ xs) = x ∷ take n xs

  abbrev pub drop : ℕ → List A → List A
  drop zero xs = xs
  drop (suc n) [] = []
  drop (suc n) (x ∷ xs) = drop n xs

  -- len(xs) == 0
  abbrev pub is_empty : List A → Bool
  is_empty [] = true
  is_empty (x ∷ xs) = false

  -- every element passes the test
  unfoldable pub all : (A → Bool) → List A → Bool
  all p [] = true
  all p (x ∷ xs) = p x && all p xs

  -- some element passes the test
  unfoldable pub any : (A → Bool) → List A → Bool
  any p [] = false
  any p (x ∷ xs) = p x || any p xs

  abbrev pub All {κ} : (A → Type κ) → List A → Type κ
  All P [] = Unit
  All P (x ∷ xs) = P x × All P xs

-- slices.Contains
unfoldable pub contains : List String → String → Bool
contains [] a = false
contains (x ∷ xs) a = x == a || contains xs a

-- `for _, x := range xs { s = body(x, s) }`
unfoldable pub for_each {ℓ κ} : {A : Type ℓ} {S : Type κ} → List A → (A → S → S) → S → S
for_each [] body s = s
for_each (x ∷ xs) body s = for_each xs body (body x s)

module _ {ℓ κ μ} {A : Type ℓ} {S : Type κ} (P : S → Type μ) (body : A → S → S) where
  -- the invariant rule of the loop
  pub for_each_inv :
      ((x : A) (s : S) → P s → P (body x s)) → (xs : List A) (s : S) → P s → P (for_each xs body s)
  unfolding for_each
  for_each_inv keep [] s h = h
  for_each_inv keep (x ∷ xs) s h = for_each_inv keep xs (body x s) (keep x s h)

-- the same, where the elements are known to have a property
pub for_each_inv_all {ℓ κ μ ν} :
    {A : Type ℓ} {S : Type κ} (P : S → Type μ) (E : A → Type ν) (body : A → S → S)
    → ((x : A) (s : S) → E x → P s → P (body x s))
    → (xs : List A) (s : S) → All E xs
    → P s
    → P (for_each xs body s)
unfolding for_each
for_each_inv_all P E body keep [] s a h = h
for_each_inv_all P E body keep (x ∷ xs) s a h =
    for_each_inv_all P E body keep xs (body x s) a.1 (keep x s a.0 h)

-- a loop leaves what each round leaves
pub for_each_same {ℓ κ μ} :
    {A : Type ℓ} {S : Type κ} {B : Type μ} (f : S → B) (body : A → S → S)
    → ((x : A) (s : S) → f (body x s) ≡ f s)
    → (xs : List A) (s : S) → f (for_each xs body s) ≡ f s
unfolding for_each
for_each_same f body keep [] s = refl
for_each_same f body keep (x ∷ xs) s =
    λ i. (mathlib.Core.Path.◌∙◌ (for_each_same f body keep xs (body x s)) (keep x s)) i
