-- ===== src/Errors.antt =====
-- The errors that the program's functions return, and the sequencing of fallible steps.
use opened_connect_server.Prelude.{
  String, ◌≡◌, refl, subst, ◌⊎◌, inl, inr, Bool, true, false, Option, none, some,
}

pub data Error : Type 0 where
  not_found conflict unauthorized forbidden credentials last_administrator already_initialized :
      Error
  invalid_grant client_policy_changed capacity_reached random_failed signing_failed : Error
  registration_credential registration_inactive : Error
  validation : String → Error
  oauth_failure : String → String → Error

pub data Result {ℓ} (A : Type ℓ) : Type ℓ where
  ok : A → Result A
  err : Error → Result A

-- `if !b { return e }`
abbrev pub require : Bool → Error → Result (Unit {0})
require true failure = ok tt
require false failure = err failure

-- Each statement runs on the value of the one before it, unless that failed.
infixl 5 ◌>>=◌ ◌>>◌
abbrev pub ◌>>=◌ {ℓ κ} : {X : Type ℓ} {Y : Type κ} → Result X → (X → Result Y) → Result Y
err failure >>= next = err failure
ok value >>= next = next value

-- a test, and the statements after it
abbrev pub ◌>>◌ {κ} : {Y : Type κ} → Result (Unit {0}) → Result Y → Result Y
test >> rest = test >>= λ _. rest

-- `if err != nil { return e }` after a look-up
abbrev pub found_or {ℓ} : {A : Type ℓ} → Option A → Error → Result A
found_or none e = err e
found_or (some a) e = ok a

module _ {ℓ} {B : Type ℓ} where
  -- a block that succeeds has passed its first test
  pub require-ok :
      (b : Bool) (e : Error) (k : Result B) {y : B}
      → (require b e >> k) ≡ ok y
      → (b ≡ true) × (k ≡ ok y)
  require-ok true e k h = (refl, h)
  require-ok false e k h = cc

  pub found_or-ok {κ} :
      {A : Type κ} (o : Option A) (e : Error) (f : A → Result B) {y : B}
      → (found_or o e >>= f) ≡ ok y
      → (a : A) × (o ≡ some a) × (f a ≡ ok y)
  found_or-ok none e f h = cc
  found_or-ok (some a) e f h = (a, refl, h)

  pub >>=-ok {κ} :
      {A : Type κ} (m : Result A) (f : A → Result B) {y : B}
      → (m >>= f) ≡ ok y
      → (a : A) × (m ≡ ok a) × (f a ≡ ok y)
  >>=-ok (ok a) f h = (a, refl, h)
  >>=-ok (err e) f h = cc

-- a test that passes
pub required : (b : Bool) (e : Error) → require b e ≡ ok tt → b ≡ true
required true e h = refl
required false e h = cc

pub Result-cases {ℓ} :
    {A : Type ℓ} (r : Result A) → ((a : A) × (r ≡ ok a)) ⊎ ((e : Error) × (r ≡ err e))
Result-cases (ok a) = inl (a, refl)
Result-cases (err e) = inr (e, refl)

pub ok-injective {ℓ} : {A : Type ℓ} {a b : A} → ok a ≡ ok b → a ≡ b
ok-injective h = cc

-- what holds of a value holds of the result that carries it
pub ok-subst {ℓ κ} : {A : Type ℓ} (P : A → Type κ) {a b : A} → ok a ≡ ok b → P a → P b
ok-subst P h p = subst P (ok-injective h) p
