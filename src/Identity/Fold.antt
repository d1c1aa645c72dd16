-- ===== src/Identity/Fold.antt =====
-- strings.EqualFold, by which the store compares e-mail addresses. Letters outside ASCII are taken to
-- fold to themselves only.
use Prim.Native.Char.{code}
use opened_connect_server.Prelude.{
  leb, eqb, if◌then◌else◌, ℕ, ◌+◌, String, ◌≡◌, refl, Bool, true, false, ◌&&◌, List, [], ◌∷◌, arith,
}

fold_code : ℕ → ℕ
fold_code c = if leb 65 c && leb c 90 then c + 32 else c

fold_codes : String → List ℕ
unfolding fold_code
fold_codes String.[] = []
fold_codes (String.◌∷◌ c s) = fold_code (code c) ∷ fold_codes s

same_codes : List ℕ → List ℕ → Bool
same_codes [] [] = true
same_codes [] (y ∷ ys) = false
same_codes (x ∷ xs) [] = false
same_codes (x ∷ xs) (y ∷ ys) = eqb x y && same_codes xs ys

unfoldable pub equal_fold : String → String → Bool
unfolding fold_codes same_codes
equal_fold a b = same_codes (fold_codes a) (fold_codes b)

same_codes_refl : (xs : List ℕ) → same_codes xs xs ≡ true
unfolding same_codes
same_codes_refl [] = refl
same_codes_refl (x ∷ xs) = ground (arith, same_codes_refl xs)

same_codes_sym : (xs ys : List ℕ) → same_codes xs ys ≡ same_codes ys xs
unfolding same_codes
same_codes_sym [] [] = refl
same_codes_sym [] (y ∷ ys) = refl
same_codes_sym (x ∷ xs) [] = refl
same_codes_sym (x ∷ xs) (y ∷ ys) = ground (arith, same_codes_sym xs ys)

pub equal_fold_refl : (a : String) → equal_fold a a ≡ true
unfolding equal_fold
equal_fold_refl a = same_codes_refl (fold_codes a)

pub equal_fold_sym : (a b : String) → equal_fold a b ≡ equal_fold b a
unfolding equal_fold
equal_fold_sym a b = same_codes_sym (fold_codes a) (fold_codes b)
