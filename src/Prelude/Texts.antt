-- ===== src/Prelude/Texts.antt =====
-- C strings as the list of their characters before the zero byte, and `strcmp`.
use Prim.Native.Nat.{ℕ}
use Prim.Native.Char.{code}
use Prim.Native.String.{String}
use mathlib.Core.Path.{◌≡◌, refl}
use mathlib.Core.Bool.{Bool, true, false, ◌&&◌}
use mathlib.Core.List.{List, [], ◌∷◌}
use native.Mathlib.Omega.{arith}
use yuyin_lingnabei.Prelude.Tests.{◌==◌}

abbrev pub Text : Type 0
Text = List ℕ

-- The characters of a literal.
abbrev pub codes : String → Text
codes String.[] = []
codes (String.◌∷◌ c s) = code c ∷ codes s

-- `strcmp(a, b) == 0`
unfoldable pub list_eq : Text → Text → Bool
list_eq [] [] = true
list_eq [] (y ∷ ys) = false
list_eq (x ∷ xs) [] = false
list_eq (x ∷ xs) (y ∷ ys) = x == y && list_eq xs ys

pub list_eq→eq : (xs ys : Text) → list_eq xs ys ≡ true → xs ≡ ys
unfolding list_eq
list_eq→eq [] [] h = refl
list_eq→eq [] (y ∷ ys) h = cc
list_eq→eq (x ∷ xs) [] h = cc
list_eq→eq (x ∷ xs) (y ∷ ys) h = ground (arith, list_eq→eq xs ys)

pub list_eq_refl : (xs : Text) → list_eq xs xs ≡ true
unfolding list_eq
list_eq_refl [] = refl
list_eq_refl (x ∷ xs) = ground (arith, list_eq_refl xs)

pub list_eq-sym : (xs ys : Text) → list_eq xs ys ≡ false → list_eq ys xs ≡ false
unfolding list_eq
list_eq-sym [] [] h = h
list_eq-sym [] (y ∷ ys) h = refl
list_eq-sym (x ∷ xs) [] h = refl
list_eq-sym (x ∷ xs) (y ∷ ys) h = ground (arith, list_eq-sym xs ys)

abbrev pub is_empty : Text → Bool
is_empty [] = true
is_empty (c ∷ cs) = false
