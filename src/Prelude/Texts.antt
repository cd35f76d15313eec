-- ===== src/Prelude/Texts.antt =====
-- Go strings as lists of byte values, their equality, and literals.
use Prim.Native.Nat.{ℕ}
use Prim.Native.Char.{code}
use Prim.Native.String.{String}
use mathlib.Core.Path.{◌≡◌, refl}
use mathlib.Core.Logic.{◌↔◌}
use mathlib.Core.Bool.{Bool, true, false, ◌&&◌}
use mathlib.Core.List.{List, [], ◌∷◌}
use native.Mathlib.Omega.{arith}
use mnm.Prelude.Tests.{◌==◌}

abbrev pub Text : Type 0
Text = List ℕ

-- The bytes of an ASCII literal.
abbrev pub text : String → Text
text String.[] = []
text (String.◌∷◌ c s) = code c ∷ text s

unfoldable pub eq_text : Text → Text → Bool
eq_text [] [] = true
eq_text [] (y ∷ ys) = false
eq_text (x ∷ xs) [] = false
eq_text (x ∷ xs) (y ∷ ys) = (x == y) && eq_text xs ys

pub eq_text_refl : (xs : Text) → eq_text xs xs ≡ true
unfolding eq_text
eq_text_refl [] = refl
eq_text_refl (x ∷ xs) = ground (arith, eq_text_refl xs)

pub eq_of_eq_text : (xs ys : Text) → eq_text xs ys ≡ true → xs ≡ ys
unfolding eq_text
eq_of_eq_text [] [] h = refl
eq_of_eq_text [] (y ∷ ys) h = cc
eq_of_eq_text (x ∷ xs) [] h = cc
eq_of_eq_text (x ∷ xs) (y ∷ ys) h = ground (arith, eq_of_eq_text xs ys)

pub eq_text_iff : (xs ys : Text) → (eq_text xs ys ≡ true) ↔ (xs ≡ ys)
eq_text_iff xs ys = (eq_of_eq_text xs ys, λ e. rw e (eq_text_refl ys))
